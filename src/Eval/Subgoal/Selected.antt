-- ===== src/Eval/Subgoal/Selected.antt =====
-- The facts that a subgoal selects: the known instances of its literal with a value it asks for.
use fovris.Prelude.{
  ℕ, ◌≡◌, ◌≢◌, ◌↔◌, ◌⊎◌, refl, true, false, [], ◌∷◌, map, Some, arith, inl, inr, length, Bool-cases,
}
use fovris.Truth.{TruthValue, same}
use fovris.Truth.Laws.{same_iff}
use fovris.Truth.Set.{test, empty}
use fovris.Kb.Tuple.{KbTuple}
use fovris.Kb.Literal.{KbLiteral}
use fovris.Kb.Relation.{FactsPool}
use fovris.Eval.Selection.{selection, selectable, matches_truth_value}
use fovris.Eval.Selection.Matching.{value_of, selectable_iff, matches_truth_value_iff}
use fovris.Eval.Subgoal.{reference, select_with_value_match, select_kb_tuple_ref}

pub select-Some :
    (P : KbTuple → Type 0) (kbr : KbLiteral) (facts : FactsPool)
    → Some P (select_kb_tuple_ref (selection kbr) facts)
      ↔ Some (λ b. (select_with_value_match (selection kbr) b ≡ true) × P (reference b)) facts
unfolding select_kb_tuple_ref
select-Some P kbr [] = (λ h. h, λ h. h)
select-Some P kbr (b ∷ facts) =
    let ih = select-Some P kbr facts in
    elim (Bool-cases (select_with_value_match (selection kbr) b)) [
      | inl e ↦
          rw (e, select_kb_tuple_ref)
            (
              λ h. elim h [ inl p ↦ inl (refl, p) | inr k ↦ inr (ih.0 k) ],
              λ h. elim h [ inl p ↦ inl p.1 | inr k ↦ inr (ih.1 k) ],
            )
      | inr e ↦
          rw (e, select_kb_tuple_ref)
            (λ h. inr (ih.0 h), λ h. elim h [ inl p ↦ absurd (no p.0) | inr k ↦ ih.1 k ])
    ]
  where
    no : false ≡ true → ⊥
    no e = cc

-- The tuple stands for the terms of the literal.
abbrev pub IsInstance : KbLiteral → KbTuple → Type 0
IsInstance l t = (σ : ℕ → ℕ) × (map (value_of σ) l.terms ≡ t.terms)

-- The fact is known, and its value is one that the literal asks for.
abbrev pub HasValue : KbLiteral → KbTuple → Type 0
HasValue r b =
    (b.value ≢ TruthValue.unknown) × ((r.logic_set ≡ empty) ⊎ (test r.logic_set b.value ≡ true))

pub select_with_value_match_iff :
    (r : KbLiteral) (b : KbTuple)
    → length r.terms ≡ length b.terms
    → (select_with_value_match (selection r) b ≡ true) ↔ (HasValue r b × IsInstance r b)
select_with_value_match_iff r b h =
    let sel = selectable_iff r b.terms h in
    let val = matches_truth_value_iff r b.value in
    (
      λ e.
          let known : same b.value TruthValue.unknown ≡ false = ground arith in
          let is_selectable : selectable (selection r) b.terms ≡ true = ground arith in
          let is_matched : matches_truth_value (selection r) b.value ≡ true = ground arith in
          let n : b.value ≢ TruthValue.unknown =
            λ p. let q = (same_iff b.value TruthValue.unknown).1 p in cc in
          ((n, (val n).0 is_matched), sel.0 is_selectable),
      λ ((n, v), i). elim (Bool-cases (same b.value TruthValue.unknown)) [
        | inl e ↦ absurd (n ((same_iff b.value TruthValue.unknown).0 e))
        | inr e ↦ rw (e, sel.1 i, (val n).1 v) refl
      ],
    )
