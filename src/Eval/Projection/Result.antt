-- ===== src/Eval/Projection/Result.antt =====
-- The terms of a subgoal's result relation, which are projected from those of its literals: they are
-- the terms of the destination.
use fovris.Prelude.{
  ℕ, ◌≡◌, refl, ap, true, false, List, [], ◌∷◌, some, arith, Bool-cases, Option-cases, inl, inr,
  get_or,
}
use fovris.Kb.Term.{KbTerm}
use fovris.Kb.Literal.{KbLiteral, lookup, var_indices, indices_loop}
use fovris.Kb.Literal.VarIndices.{EachVar, Each-indices_loop, EachVar-suc}
use fovris.Kb.Literal.Positions.{indices_loop-IsFilled, lookup-first}
use fovris.Eval.Projection.{
  column_ids, projection, var_ids, join_column_ids, join_projection, project_terms,
  join_project_terms, kb_const,
}
use fovris.Eval.Projection.Instance.{Covers, CoversJoin}

abbrev variable : ℕ → KbTerm
variable v = record { val = v; is_var = true }

variable_of : (t : KbTerm) → t.is_var ≡ true → t ≡ variable t.val
variable_of t e = ap (λ b. record { val = t.val; is_var = b }) e

constant_of : (t : KbTerm) → t.is_var ≡ false → t ≡ kb_const t.val
constant_of t e = ap (λ b. record { val = t.val; is_var = b }) e

get_or-EachVar : (d : KbTerm) (ts : List KbTerm) → EachVar (λ v j. get_or ts j d ≡ variable v) ts 0
get_or-EachVar d [] = tt
get_or-EachVar d (t ∷ ts) = (
  λ e. variable_of t e,
  (EachVar-suc (λ v j. get_or (t ∷ ts) j d ≡ variable v) ts 0).1 (get_or-EachVar d ts),
)

-- At the first position of a variable the literal has that variable.
term-first :
    (d : KbTerm) (l : KbLiteral) (v : ℕ) (is : List ℕ)
    → lookup v (var_indices l) ≡ some is
    → get_or l.terms (get_or is 0 0) d ≡ variable v
unfolding var_indices
term-first d l v is e =
    lookup-first (λ u j. get_or l.terms j d ≡ variable u) (indices_loop l.terms 0 []) v is
      (indices_loop-IsFilled l.terms 0 [] tt)
      ((Each-indices_loop (λ u j. get_or l.terms j d ≡ variable u) l.terms 0 []).1
        (tt, get_or-EachVar d l.terms))
      e

project_terms_loop :
    (l : KbLiteral) (dest : List KbTerm)
    → Covers l dest
    → project_terms (column_ids (var_indices l) dest) l.terms ≡ dest
unfolding project_terms column_ids
project_terms_loop l [] h = refl
project_terms_loop l (t ∷ dest) h =
    let ih = project_terms_loop l dest h.1 in
    elim (Bool-cases t.is_var) [
      | inr c ↦ ground (arith, ih, constant_of t c)
      | inl v ↦ elim (Option-cases (lookup t.val (var_indices l))) [
        | inl n ↦ absurd (ground (arith, h.0))
        | inr (is, e) ↦
            ground (arith, ih, term-first (kb_const 0xDEADBEEF) l t.val is e, variable_of t v)
      ]
    ]

pub project_terms-projection :
    (l : KbLiteral) (dest : List KbTerm)
    → Covers l dest
    → project_terms (projection l dest) l.terms ≡ dest
unfolding projection
project_terms-projection l dest h = project_terms_loop l dest h

join_project_terms_loop :
    (l r : KbLiteral) (dest : List KbTerm)
    → CoversJoin l r dest
    → join_project_terms (join_column_ids (var_indices l) (var_indices r) dest) l.terms r.terms
      ≡ dest
unfolding join_project_terms join_column_ids var_ids
join_project_terms_loop l r [] h = refl
join_project_terms_loop l r (t ∷ dest) h =
    let ih = join_project_terms_loop l r dest h.1 in
    let d = kb_const 0xDEADBEEF in
    elim (Bool-cases t.is_var) [
      | inr c ↦ ground (arith, ih, constant_of t c)
      | inl v ↦ elim (Option-cases (lookup t.val (var_indices l))) [
        | inl m ↦ elim (Option-cases (lookup t.val (var_indices r))) [
          | inl n ↦ absurd (ground (arith, h.0))
          | inr (js, f) ↦ ground (arith, ih, term-first d r t.val js f, variable_of t v)
        ]
        | inr (is, e) ↦ elim (Option-cases (lookup t.val (var_indices r))) [
          | inl n ↦ ground (arith, ih, term-first d l t.val is e, variable_of t v)
          | inr (js, f) ↦
              ground
                (arith, ih, term-first d l t.val is e, term-first d r t.val js f, variable_of t v)
        ]
      ]
    ]

pub join_project_terms-join_projection :
    (l r : KbLiteral) (dest : List KbTerm)
    → CoversJoin l r dest
    → join_project_terms (join_projection l r dest) l.terms r.terms ≡ dest
unfolding join_projection
join_project_terms-join_projection l r dest h = join_project_terms_loop l r dest h
