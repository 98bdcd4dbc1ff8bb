-- ===== src/Eval/Subgoal/First.antt =====
-- What the subgoal of the first literal of a rule answers.
use mathlib.Core.List.{Mem}
use mathlib.Core.Logic.{∥∥₁_map}
use fovris.Prelude.{
  ℕ, ◌≡◌, ◌↔◌, sym, ◌∙◌, ap, Bool, true, false, not, ◌&&◌, List, [], ◌∷◌, map, All, Some, Some-cong,
  Mem-Some, arith, inl, inr, length, Bool-cases,
}
use fovris.Truth.{TruthValue, same, resolve_truth_value}
use fovris.Kb.Term.{KbTerm, Terms}
use fovris.Kb.Tuple.{KbTuple}
use fovris.Kb.Literal.{KbLiteral}
use fovris.Kb.Relation.{FactsPool}
use fovris.Eval.Selection.{selection, selectable, matches_truth_value}
use fovris.Eval.Selection.Matching.{value_of}
use fovris.Eval.Projection.{projection, project}
use fovris.Eval.Projection.Instance.{Covers, project_instance}
use fovris.Eval.Subgoal.{first_subgoal, evaluate_first, select_with_value_match}
use fovris.Eval.Subgoal.Selected.{HasValue, select_with_value_match_iff}

abbrev answer : Terms → TruthValue → KbTuple
answer ts v = record { terms = ts; value = v }

-- What the subgoal puts into the table for a fact.
abbrev projected : KbLiteral → Bool → List KbTerm → KbTuple → KbTuple
projected l wanted dest b =
    answer (project (projection l dest) b.terms) (resolve_truth_value b.value wanted)

evaluate_first-Some :
    (l : KbLiteral) (wanted : Bool) (dest : List KbTerm) (facts : FactsPool) (u : KbTuple)
    → Some (λ x. u ≡ x) (evaluate_first (first_subgoal l wanted dest) facts)
      ↔ Some
          (λ b. (select_with_value_match (selection l) b ≡ true) × (u ≡ projected l wanted dest b))
          facts
unfolding evaluate_first first_subgoal
evaluate_first-Some l wanted dest [] u = (λ h. h, λ h. h)
evaluate_first-Some l wanted dest (b ∷ facts) u =
    let ih = evaluate_first-Some l wanted dest facts u in
    let tests =
      selectable (selection l) b.terms
      && matches_truth_value (selection l) b.value
      && not (same b.value TruthValue.unknown) in
    let same_tests : tests ≡ select_with_value_match (selection l) b = ground arith in
    elim (Bool-cases (select_with_value_match (selection l) b)) [
      | inl e ↦
          let t : tests ≡ true = same_tests ∙ e in
          rw (t, evaluate_first)
            (
              λ h. elim h [ inl p ↦ inl (e, p) | inr k ↦ inr (ih.0 k) ],
              λ h. elim h [ inl p ↦ inl p.1 | inr k ↦ inr (ih.1 k) ],
            )
      | inr e ↦
          let t : tests ≡ false = same_tests ∙ e in
          rw (t, evaluate_first)
            (λ h. inr (ih.0 h), λ h. elim h [ inl p ↦ absurd (no (sym e ∙ p.0)) | inr k ↦ ih.1 k ])
    ]
  where
    no : false ≡ true → ⊥
    no e = cc

-- One assignment turns the literal into the fact, and the destination into the terms of the answer.
abbrev pub DerivesFirst : KbLiteral → Bool → List KbTerm → KbTuple → KbTuple → Type 0
DerivesFirst l wanted dest b u =
    (ρ : ℕ → ℕ) × (map (value_of ρ) l.terms ≡ b.terms)
    × (u ≡ record { terms = map (value_of ρ) dest; value = resolve_truth_value b.value wanted })

fact_iff :
    (l : KbLiteral) (wanted : Bool) (dest : List KbTerm) (b u : KbTuple)
    → Covers l dest
    → length l.terms ≡ length b.terms
    → ((select_with_value_match (selection l) b ≡ true) × (u ≡ projected l wanted dest b))
      ↔ (HasValue l b × DerivesFirst l wanted dest b u)
fact_iff l wanted dest b u c h =
    let sel = select_with_value_match_iff l b h in
    let v = resolve_truth_value b.value wanted in
    (
      λ (s, e).
          let (val, (ρ, x)) = sel.0 s in
          let t : project (projection l dest) b.terms ≡ map (value_of ρ) dest =
            rw (← x) (project_instance ρ l dest c) in
          (val, (ρ, x, e ∙ ap (λ ts. answer ts v) t)),
      λ (val, (ρ, x, e)).
          let t : project (projection l dest) b.terms ≡ map (value_of ρ) dest =
            rw (← x) (project_instance ρ l dest c) in
          (sel.1 (val, (ρ, x)), e ∙ sym (ap (λ ts. answer ts v) t)),
    )

-- Where the literal has the variables of the destination and the facts have its arity, a tuple is in
-- the result of the subgoal of the first literal exactly when it is derived from a known fact with a
-- value that the literal asks for: one assignment turns the literal's terms into the fact's, and the
-- destination into the tuple's, and the tuple has the resolved value of the fact.
pub evaluate_first_iff :
    (l : KbLiteral) (wanted : Bool) (dest : List KbTerm) (facts : FactsPool) (u : KbTuple)
    → Covers l dest
    → All (λ b. length l.terms ≡ length b.terms) facts
    → Mem u (evaluate_first (first_subgoal l wanted dest) facts)
      ↔ ∥ Some (λ b. HasValue l b × DerivesFirst l wanted dest b u) facts ∥₁
evaluate_first_iff l wanted dest facts u c arity =
    let members = Mem-Some u (evaluate_first (first_subgoal l wanted dest) facts) in
    let rows = evaluate_first-Some l wanted dest facts u in
    let cong =
      Some-cong (λ b. length l.terms ≡ length b.terms) _ _ facts
        (λ b h. fact_iff l wanted dest b u c h) arity in
    (
      λ h. ∥∥₁_map (members.0 h) (λ s. cong.0 (rows.0 s)),
      λ h. members.1 (∥∥₁_map h (λ s. rows.1 (cong.1 s))),
    )
