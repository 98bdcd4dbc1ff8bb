-- ===== src/Eval/Projection/Instance.antt =====
-- Projection instantiates the terms of its destination: what the variables stand for is read off the
-- facts that the literals stand for.
use fovris.Prelude.{
  ℕ, ◌≡◌, ◌⊎◌, refl, true, List, [], ◌∷◌, some, All, arith, Bool-cases, Option-cases, inl, inr, map,
  get_or,
}
use fovris.Kb.Term.{KbTerm}
use fovris.Kb.Literal.{KbLiteral, lookup, var_indices, indices_loop, contains_key}
use fovris.Kb.Literal.VarIndices.{Each-indices_loop}
use fovris.Kb.Literal.Positions.{indices_loop-IsFilled, lookup-first}
use fovris.Eval.Selection.{at}
use fovris.Eval.Selection.Matching.{value_of, variables_agree}
use fovris.Eval.Projection.{
  column_ids, projection, var_ids, join_column_ids, join_projection, project, join_project,
}

-- The first position of a variable holds what the variable stands for.
pub at-first :
    (σ : ℕ → ℕ) (l : KbLiteral) (v : ℕ) (is : List ℕ)
    → lookup v (var_indices l) ≡ some is
    → at (map (value_of σ) l.terms) (get_or is 0 0) ≡ σ v
unfolding var_indices
at-first σ l v is e =
    lookup-first (λ u j. at (map (value_of σ) l.terms) j ≡ σ u) (indices_loop l.terms 0 []) v is
      (indices_loop-IsFilled l.terms 0 [] tt)
      ((Each-indices_loop _ l.terms 0 []).1 (tt, variables_agree σ l.terms)) e

-- Every variable of the terms stands in the literal.
abbrev pub Covers : KbLiteral → List KbTerm → Type 0
Covers l = All (λ t. t.is_var ≡ true → contains_key (var_indices l) t.val ≡ true)

project_loop :
    (σ : ℕ → ℕ) (l : KbLiteral) (dest : List KbTerm)
    → Covers l dest
    → project (column_ids (var_indices l) dest) (map (value_of σ) l.terms) ≡ map (value_of σ) dest
unfolding project column_ids
project_loop σ l [] h = refl
project_loop σ l (t ∷ dest) h = elim (Bool-cases t.is_var) [
  | inl v ↦ elim (Option-cases (lookup t.val (var_indices l))) [
    | inl n ↦ absurd (ground (arith, h.0))
    | inr (is, e) ↦ ground (arith, at-first σ l t.val is e, project_loop σ l dest h.1)
  ]
  | inr c ↦ ground (arith, project_loop σ l dest h.1)
]

-- Where a fact is what the literal's terms stand for under an assignment of the variables, its
-- projection is what the terms of the destination stand for.
pub project_instance :
    (σ : ℕ → ℕ) (l : KbLiteral) (dest : List KbTerm)
    → Covers l dest
    → project (projection l dest) (map (value_of σ) l.terms) ≡ map (value_of σ) dest
unfolding projection
project_instance σ l dest h = project_loop σ l dest h

-- Every variable of the terms stands in one of the literals.
abbrev pub CoversJoin : KbLiteral → KbLiteral → List KbTerm → Type 0
CoversJoin l r = All (λ t.
    t.is_var ≡ true
    → (contains_key (var_indices l) t.val ≡ true) ⊎ (contains_key (var_indices r) t.val ≡ true))

join_project_loop :
    (σ : ℕ → ℕ) (l r : KbLiteral) (dest : List KbTerm)
    → CoversJoin l r dest
    → join_project
        (join_column_ids (var_indices l) (var_indices r) dest)
        (map (value_of σ) l.terms)
        (map (value_of σ) r.terms)
      ≡ map (value_of σ) dest
unfolding join_project join_column_ids var_ids
join_project_loop σ l r [] h = refl
join_project_loop σ l r (t ∷ dest) h =
    let ih = join_project_loop σ l r dest h.1 in
    elim (Bool-cases t.is_var) [
      | inr c ↦ ground (arith, ih)
      | inl v ↦ elim (Option-cases (lookup t.val (var_indices l))) [
        | inl m ↦ elim (Option-cases (lookup t.val (var_indices r))) [
          | inl n ↦ absurd (ground (arith, h.0))
          | inr (js, f) ↦ ground (arith, at-first σ r t.val js f, ih)
        ]
        | inr (is, e) ↦ elim (Option-cases (lookup t.val (var_indices r))) [
          | inl n ↦ ground (arith, at-first σ l t.val is e, ih)
          | inr (js, f) ↦ ground (arith, at-first σ l t.val is e, at-first σ r t.val js f, ih)
        ]
      ]
    ]

-- Where two facts are what the terms of two literals stand for under one assignment of the variables,
-- the projection of their join is what the terms of the destination stand for.
pub join_project_instance :
    (σ : ℕ → ℕ) (l r : KbLiteral) (dest : List KbTerm)
    → CoversJoin l r dest
    → join_project (join_projection l r dest) (map (value_of σ) l.terms) (map (value_of σ) r.terms)
      ≡ map (value_of σ) dest
unfolding join_projection
join_project_instance σ l r dest h = join_project_loop σ l r dest h
