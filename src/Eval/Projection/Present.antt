-- ===== src/Eval/Projection/Present.antt =====
-- A projection passes over the variables of its destination that stand in none of its literals: it is
-- the projection to the terms that are present.
use fovris.Prelude.{
  ◌||◌, ◌≡◌, ◌⊎◌, refl, Bool, true, false, if◌then◌else◌, List, [], ◌∷◌, All, arith, Bool-cases,
  Option-cases, inl, inr,
}
use fovris.Kb.Term.{KbTerm}
use fovris.Kb.Literal.{KbLiteral, lookup, var_indices, contains_key}
use fovris.Eval.Projection.{column_ids, projection, var_ids, join_column_ids, join_projection}
use fovris.Eval.Projection.Instance.{Covers, CoversJoin}

unfoldable pub filter : (KbTerm → Bool) → List KbTerm → List KbTerm
filter p [] = []
filter p (t ∷ ts) = let rest = filter p ts in if p t then t ∷ rest else rest

pub filter-All :
    (P : KbTerm → Type 0) (p : KbTerm → Bool) (ts : List KbTerm) → All P ts → All P (filter p ts)
unfolding filter
filter-All P p [] h = tt
filter-All P p (t ∷ ts) h = elim (Bool-cases (p t)) [
  | inl e ↦ rw (e, filter) (h.0, filter-All P p ts h.1)
  | inr e ↦ rw (e, filter) (filter-All P p ts h.1)
]

pub filter-holds : (p : KbTerm → Bool) (ts : List KbTerm) → All (λ t. p t ≡ true) (filter p ts)
unfolding filter
filter-holds p [] = tt
filter-holds p (t ∷ ts) = elim (Bool-cases (p t)) [
  | inl e ↦ rw (e, filter) (e, filter-holds p ts)
  | inr e ↦ rw (e, filter) (filter-holds p ts)
]

-- Whether a term is a constant, or a variable of the literal.
abbrev pub present : KbLiteral → KbTerm → Bool
present l t = if t.is_var then contains_key (var_indices l) t.val else true

-- The same for two literals.
abbrev pub present_join : KbLiteral → KbLiteral → KbTerm → Bool
present_join l r t =
    if t.is_var
    then contains_key (var_indices l) t.val || contains_key (var_indices r) t.val
    else true

projection_loop :
    (l : KbLiteral) (dest : List KbTerm)
    → column_ids (var_indices l) dest ≡ column_ids (var_indices l) (filter (present l) dest)
unfolding column_ids filter
projection_loop l [] = refl
projection_loop l (t ∷ dest) =
    let ih = projection_loop l dest in
    elim (Bool-cases t.is_var) [
      | inr c ↦ ground (arith, ih)
      | inl v ↦ elim (Option-cases (lookup t.val (var_indices l))) [
        | inl n ↦ ground (arith, ih)
        | inr (is, e) ↦ ground (arith, ih)
      ]
    ]

pub projection-present :
    (l : KbLiteral) (dest : List KbTerm)
    → projection l dest ≡ projection l (filter (present l) dest)
unfolding projection
projection-present l dest = projection_loop l dest

pub Covers-present : (l : KbLiteral) (dest : List KbTerm) → Covers l (filter (present l) dest)
Covers-present l dest = go (filter (present l) dest) (filter-holds (present l) dest)
  where
    go : (ts : List KbTerm) → All (λ t. present l t ≡ true) ts → Covers l ts
    go [] h = tt
    go (t ∷ ts) h = (λ e. rw e at h.0, go ts h.1)

join_projection_loop :
    (l r : KbLiteral) (dest : List KbTerm)
    → join_column_ids (var_indices l) (var_indices r) dest
      ≡ join_column_ids (var_indices l) (var_indices r) (filter (present_join l r) dest)
unfolding join_column_ids filter var_ids
join_projection_loop l r [] = refl
join_projection_loop l r (t ∷ dest) =
    let ih = join_projection_loop l r dest in
    elim (Bool-cases t.is_var) [
      | inr c ↦ ground (arith, ih)
      | inl v ↦ elim (Option-cases (lookup t.val (var_indices l))) [
        | inl n ↦ elim (Option-cases (lookup t.val (var_indices r))) [
          | inl m ↦ ground (arith, ih)
          | inr (js, f) ↦ ground (arith, ih)
        ]
        | inr (is, e) ↦ elim (Option-cases (lookup t.val (var_indices r))) [
          | inl m ↦ ground (arith, ih)
          | inr (js, f) ↦ ground (arith, ih)
        ]
      ]
    ]

pub join_projection-present :
    (l r : KbLiteral) (dest : List KbTerm)
    → join_projection l r dest ≡ join_projection l r (filter (present_join l r) dest)
unfolding join_projection
join_projection-present l r dest = join_projection_loop l r dest

pub CoversJoin-present :
    (l r : KbLiteral) (dest : List KbTerm) → CoversJoin l r (filter (present_join l r) dest)
CoversJoin-present l r dest =
    go (filter (present_join l r) dest) (filter-holds (present_join l r) dest)
  where
    or_cases : (a b : Bool) → (a || b) ≡ true → (a ≡ true) ⊎ (b ≡ true)
    or_cases true b h = inl refl
    or_cases false b h = inr h

    go : (ts : List KbTerm) → All (λ t. present_join l r t ≡ true) ts → CoversJoin l r ts
    go [] h = tt
    go (t ∷ ts) h = (λ e. or_cases _ _ (rw e at h.0), go ts h.1)
