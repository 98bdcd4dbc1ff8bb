-- ===== src/Eval/Join/Agreement.antt =====
-- The join of two literals compares their facts where they share variables: facts that the literals
-- stand for under two assignments join exactly when one assignment does for both.
use fovris.Prelude.{
  ℕ, suc, ◌≡◌, ◌↔◌, refl, sym, ◌∙◌, true, false, List, [], ◌∷◌, some, if◌then◌else◌, arith,
  Bool-cases, Option-cases, inl, inr, map, get_or, eq_refl,
}
use fovris.Kb.Term.{KbTerm}
use fovris.Kb.Literal.{
  KbLiteral, lookup, var_indices, indices_loop, contains_key, get_ordered_unique_var_indices,
}
use fovris.Kb.Literal.VarIndices.{EachVar, Each-indices_loop}
use fovris.Kb.Literal.Positions.{
  indices_loop-IsFilled, lookup-first, lookup-first-among, EachVar-mono, EachVar-contains_key,
  lookup-filled,
}
use fovris.Eval.Selection.{at}
use fovris.Eval.Selection.Matching.{value_of, variables_agree}
use fovris.Eval.Projection.Instance.{at-first}
use fovris.Eval.Join.Pairs.{
  joinable_without_null-All, make_equal_indices-All, make_equal_indices-first,
}
use fovris.Eval.Join.{contains, to_indices, make_join, joinable_without_null}

to_indices-EachVar :
    (ts : List KbTerm) (i : ℕ) → EachVar (λ v j. contains (to_indices i ts) j ≡ true) ts i
unfolding to_indices
to_indices-EachVar [] i = tt
to_indices-EachVar (t ∷ ts) i = (
  λ _. rw (eq_refl i) refl,
  EachVar-mono (λ v j. contains (to_indices (suc i) ts) j ≡ true)
      (λ v j. contains (to_indices i (t ∷ ts)) j ≡ true) ts (suc i) (λ v j h. ground arith)
      (to_indices-EachVar ts (suc i)),
)

-- Facts that the literals stand for under one assignment join.
join-instance :
    (ρ : ℕ → ℕ) (l r : KbLiteral)
    → joinable_without_null (make_join l r) (map (value_of ρ) l.terms) (map (value_of ρ) r.terms)
      ≡ true
unfolding make_join var_indices
join-instance ρ l r =
    let a = map (value_of ρ) l.terms in
    let b = map (value_of ρ) r.terms in
    (joinable_without_null-All (make_join l r) a b).1 (
      make_equal_indices-All (λ v i. at a i ≡ ρ v) (λ v j. at b j ≡ ρ v) (λ p. at a p.0 ≡ at b p.1)
        (to_indices 0 l.terms) (get_ordered_unique_var_indices r) (λ v i j p q. p ∙ sym q)
        (indices_loop l.terms 0 []) (indices_loop r.terms 0 [])
        ((Each-indices_loop (λ v i. at a i ≡ ρ v) l.terms 0 []).1 (tt, variables_agree ρ l.terms))
        ((Each-indices_loop (λ v j. at b j ≡ ρ v) r.terms 0 []).1 (tt, variables_agree ρ r.terms)))

-- The assignments of facts that join agree on the shared variables.
shared_agree :
    (σ τ : ℕ → ℕ) (l r : KbLiteral) (v : ℕ) (is js : List ℕ)
    → joinable_without_null (make_join l r) (map (value_of σ) l.terms) (map (value_of τ) r.terms)
      ≡ true
    → lookup v (var_indices l) ≡ some is
    → lookup v (var_indices r) ≡ some js
    → σ v ≡ τ v
unfolding make_join var_indices
shared_agree σ τ l r v is js h e f =
    let a = map (value_of σ) l.terms in
    let b = map (value_of τ) r.terms in
    let m = indices_loop l.terms 0 [] in
    let n = indices_loop r.terms 0 [] in
    let first : at a (get_or is 0 0) ≡ at b (get_or js 0 0) =
      make_equal_indices-first (λ p. at a p.0 ≡ at b p.1) (to_indices 0 l.terms)
        (get_ordered_unique_var_indices r) m n v is js e f
        (lookup-filled m v is (indices_loop-IsFilled l.terms 0 [] tt) e)
        (lookup-filled n v js (indices_loop-IsFilled r.terms 0 [] tt) f)
        (lookup-first (λ _ j. contains (to_indices 0 l.terms) j ≡ true) m v is
          (indices_loop-IsFilled l.terms 0 [] tt)
          ((Each-indices_loop (λ _ j. contains (to_indices 0 l.terms) j ≡ true) l.terms 0 []).1
            (tt, to_indices-EachVar l.terms 0))
          e)
        (lookup-first-among r v js f) ((joinable_without_null-All (make_join l r) a b).0 h) in
    sym (at-first σ l v is e) ∙ first ∙ at-first τ r v js f

pub map-EachVar :
    (ρ σ : ℕ → ℕ) (ts : List KbTerm) (i : ℕ)
    → EachVar (λ v _. ρ v ≡ σ v) ts i
    → map (value_of ρ) ts ≡ map (value_of σ) ts
map-EachVar ρ σ [] i h = refl
map-EachVar ρ σ (t ∷ ts) i h = ground (arith, map-EachVar ρ σ ts (suc i))

-- The assignment of the left literal, and for its other variables that of the right.
abbrev combine : (ℕ → ℕ) → (ℕ → ℕ) → KbLiteral → ℕ → ℕ
combine σ τ l v = if contains_key (var_indices l) v then σ v else τ v

-- At the variables of the right literal it is the assignment of that.
combine-right :
    (σ τ : ℕ → ℕ) (l r : KbLiteral)
    → joinable_without_null (make_join l r) (map (value_of σ) l.terms) (map (value_of τ) r.terms)
      ≡ true
    → (v : ℕ) → contains_key (var_indices r) v ≡ true
    → combine σ τ l v ≡ τ v
combine-right σ τ l r h v c = elim (Bool-cases (contains_key (var_indices l) v)) [
  | inr k ↦ rw k refl
  | inl k ↦ elim (Option-cases (lookup v (var_indices l))) [
    | inl n ↦ let q : false ≡ true = rw (n, contains_key) at k in cc
    | inr (is, e) ↦ elim (Option-cases (lookup v (var_indices r))) [
      | inl n ↦ let q : false ≡ true = rw (n, contains_key) at c in cc
      | inr (js, f) ↦ rw k (shared_agree σ τ l r v is js h e f)
    ]
  ]
]

-- Facts that two literals stand for under an assignment each join exactly when there is one
-- assignment under which the literals stand for both.
pub joinable_iff :
    (σ τ : ℕ → ℕ) (l r : KbLiteral)
    → (joinable_without_null (make_join l r) (map (value_of σ) l.terms) (map (value_of τ) r.terms)
        ≡ true)
      ↔ ((ρ : ℕ → ℕ) × (map (value_of ρ) l.terms ≡ map (value_of σ) l.terms)
          × (map (value_of ρ) r.terms ≡ map (value_of τ) r.terms))
joinable_iff σ τ l r = (
  λ h. (
    combine σ τ l,
    map-EachVar (combine σ τ l) σ l.terms 0
        (EachVar-mono _ _ l.terms 0 (λ v _ c. rw c refl) (EachVar-contains_key l)),
    map-EachVar (combine σ τ l) τ r.terms 0 (
        EachVar-mono _ _ r.terms 0 (λ v _ c. combine-right σ τ l r h v c) (EachVar-contains_key r)),
  ),
  λ (ρ, e, f). rw (← e) (rw (← f) (join-instance ρ l r)),
)
