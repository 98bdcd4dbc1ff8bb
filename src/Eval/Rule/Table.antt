-- ===== src/Eval/Rule/Table.antt =====
-- A temporary table in the evaluation of a rule, described by the assignments and values that its
-- tuples come from, and one more literal joined to it.
use mathlib.Core.List.{Mem}
use mathlib.Core.Logic.{∥∥₁_map}
use fovris.Prelude.{
  ℕ, ◌≡◌, ◌↔◌, refl, ◌∙◌, ap, Bool, true, List, [], ◌∷◌, map, All, Some, Some-map, Some-collect,
  Some-collect, length,
}
use fovris.Truth.{TruthValue, conjunction, resolve_truth_value, resolve_to_true_or_incons}
use fovris.Kb.Term.{KbTerm, Terms}
use fovris.Kb.Tuple.{KbTuple}
use fovris.Kb.Literal.{KbLiteral}
use fovris.Kb.Relation.{FactsPool}
use fovris.Eval.Selection.Matching.{value_of}
use fovris.Eval.Projection.Instance.{Covers}
use fovris.Eval.Subgoal.{first_subgoal, evaluate_first}
use fovris.Eval.Subgoal.Meaning.{NoNull}
use fovris.Eval.Subgoal.Selected.{HasValue}
use fovris.Eval.Subgoal.First.{DerivesFirst, evaluate_first_iff}
use fovris.Eval.Rule.Scope.{non_null, no_null-non_null}

abbrev pub answer : Terms → TruthValue → KbTuple
answer ts v = record { terms = ts; value = v }

-- What is asked of an assignment and a value.
abbrev pub Spec : Type 1
Spec = (ℕ → ℕ) → TruthValue → Type 0

-- The table holds what the description asks for, with the terms of `dest`.
abbrev pub Describes : Spec → List KbTerm → Bool → List KbTuple → Type 0
Describes S dest wanted table =
    (u : KbTuple)
    → Mem u table
      ↔ ∥ (
          (ρ : ℕ → ℕ) × (v : TruthValue) × S ρ v
          × (u ≡ answer (map (value_of ρ) dest) (resolve_truth_value v wanted))) ∥₁

-- The facts have the arity of the literal and no null term.
abbrev pub IsProper : KbLiteral → FactsPool → Type 0
IsProper l = All (λ b. (length l.terms ≡ length b.terms) × (non_null b.terms ≡ true))

-- The first literal: a known fact that it asks for has the value.
abbrev pub FirstSpec : KbLiteral → FactsPool → Spec
FirstSpec l facts ρ v =
    Some (λ b. HasValue l b × (map (value_of ρ) l.terms ≡ b.terms) × (v ≡ b.value)) facts

-- One more literal: the value is the conjunction with that of a known fact that it asks for.
abbrev pub NextSpec : Spec → KbLiteral → FactsPool → Spec
NextSpec S r facts ρ w =
    (v : TruthValue) × S ρ v
    × Some
        (λ b.
          HasValue r b
          × (map (value_of ρ) r.terms ≡ b.terms)
          × (w ≡ conjunction v (resolve_to_true_or_incons b.value)))
        facts

pub IsProper-length :
    (l : KbLiteral) (facts : FactsPool)
    → IsProper l facts
    → All (λ b. length l.terms ≡ length b.terms) facts
IsProper-length l [] h = tt
IsProper-length l (b ∷ facts) h = (h.0.0, IsProper-length l facts h.1)

pub IsProper-NoNull :
    (l : KbLiteral) (is : List ℕ) (facts : FactsPool) → IsProper l facts → NoNull is facts
IsProper-NoNull l is [] h = tt
IsProper-NoNull l is (b ∷ facts) h =
    (no_null-non_null is b.terms h.0.1, IsProper-NoNull l is facts h.1)

-- An assignment and a value that an answer comes from.
abbrev Source : List KbTerm → Bool → KbTuple → Type 0
Source dest wanted u =
    (ρ : ℕ → ℕ) × (v : TruthValue) × (u
      ≡ answer (map (value_of ρ) dest) (resolve_truth_value v wanted))

abbrev FirstAt : KbLiteral → (ℕ → ℕ) → TruthValue → KbTuple → Type 0
FirstAt l ρ v b = HasValue l b × (map (value_of ρ) l.terms ≡ b.terms) × (v ≡ b.value)

-- The table of the first literal.
pub evaluate_first-Describes :
    (l : KbLiteral) (wanted : Bool) (dest : List KbTerm) (facts : FactsPool)
    → Covers l dest
    → IsProper l facts
    → Describes (FirstSpec l facts) dest wanted (evaluate_first (first_subgoal l wanted dest) facts)
evaluate_first-Describes l wanted dest facts c proper u =
    let answers = evaluate_first_iff l wanted dest facts u c (IsProper-length l facts proper) in
    let collect =
      Some-collect {X = Source dest wanted u} (λ b. HasValue l b × DerivesFirst l wanted dest b u)
        (λ x b. FirstAt l x.0 x.1 b) facts
        (λ b (val, (ρ, x, e)). ((ρ, b.value, e), (val, x, refl))) in
    (
      λ h. ∥∥₁_map (answers.0 h) (λ s. let ((ρ, v, e), k) = collect s in (ρ, v, k, e)),
      λ h. answers.1 (
          ∥∥₁_map h (λ (ρ, v, s, e).
            Some-map (FirstAt l ρ v) (λ b. HasValue l b × DerivesFirst l wanted dest b u) facts
              (λ b (val, x, q). (
                val,
                (
                  ρ,
                  x,
                  e ∙ ap (λ z. answer (map (value_of ρ) dest) (resolve_truth_value z wanted)) q,
                ),
              ))
              s)),
    )
