-- ===== src/Eval/Subgoal/Chain.antt =====
-- The results of a subgoal are a temporary table for the next: they are instances of the relation that
-- the subgoal declares for them (`getResultRelation`).
use mathlib.Core.List.{Mem}
use mathlib.Core.Logic.{∥∥₁_map}
use fovris.Prelude.{◌≡◌, sym, ◌∙◌, ap, Bool, List, map, All, Some-elim, length}
use fovris.Kb.Term.{KbTerm}
use fovris.Kb.Tuple.{KbTuple}
use fovris.Kb.Literal.{KbLiteral}
use fovris.Kb.Relation.{FactsPool}
use fovris.Eval.Selection.Matching.{value_of}
use fovris.Eval.Projection.Instance.{Covers, CoversJoin}
use fovris.Eval.Projection.Result.{project_terms-projection, join_project_terms-join_projection}
use fovris.Eval.Join.{make_join, left_indices, right_indices}
use fovris.Eval.Sort.{Sorter}
use fovris.Eval.Subgoal.{first_subgoal, evaluate_first, next_subgoal, evaluate_without_unknown}
use fovris.Eval.Subgoal.Meaning.{NoNull}
use fovris.Eval.Subgoal.Selected.{HasValue, IsInstance}
use fovris.Eval.Subgoal.First.{DerivesFirst, evaluate_first_iff}
use fovris.Eval.Subgoal.Answers.{Derives, without_unknown_iff}

first-IsInstance :
    (l : KbLiteral) (wanted : Bool) (dest : List KbTerm) (b u : KbTuple)
    → Covers l dest
    → DerivesFirst l wanted dest b u
    → IsInstance (first_subgoal l wanted dest).result_relation u
unfolding first_subgoal
first-IsInstance l wanted dest b u c (ρ, x, e) =
    (ρ, ap (map (value_of ρ)) (project_terms-projection l dest c) ∙ sym (ap (λ t. t.terms) e))

next-IsInstance :
    (l r : KbLiteral) (wanted : Bool) (dest : List KbTerm) (a b u : KbTuple)
    → CoversJoin l r dest
    → Derives l r wanted dest a b u
    → IsInstance (next_subgoal l r wanted dest).result_relation u
unfolding next_subgoal
next-IsInstance l r wanted dest a b u c (ρ, x, y, e) = (
  ρ,
  ap (map (value_of ρ)) (join_project_terms-join_projection l r dest c) ∙ sym (ap (λ t. t.terms) e),
)

-- Where the literal has the variables of the destination and the facts have its arity, every result of
-- the subgoal of the first literal is an instance of its result relation.
evaluate_first-IsInstance :
    (l : KbLiteral) (wanted : Bool) (dest : List KbTerm) (facts : FactsPool) (u : KbTuple)
    → Covers l dest
    → All (λ b. length l.terms ≡ length b.terms) facts
    → Mem u (evaluate_first (first_subgoal l wanted dest) facts)
    → ∥ IsInstance (first_subgoal l wanted dest).result_relation u ∥₁
evaluate_first-IsInstance l wanted dest facts u c arity h =
    ∥∥₁_map ((evaluate_first_iff l wanted dest facts u c arity).0 h) (
      Some-elim (λ b. HasValue l b × DerivesFirst l wanted dest b u) facts
        (λ b d. first-IsInstance l wanted dest b u c d.1))

-- Where the literals have the variables of the destination, the temporary table holds instances of its
-- literal, the facts have the arity of theirs and no null term stands at a position of the join, every
-- result of the subgoal of a literal without unknown is an instance of its result relation.
pub without_unknown-IsInstance :
    (sorter : Sorter) (l r : KbLiteral) (wanted : Bool) (dest : List KbTerm) (tmp : List KbTuple)
    (facts : FactsPool) (u : KbTuple)
    → CoversJoin l r dest
    → All (IsInstance l) tmp
    → All (λ b. length r.terms ≡ length b.terms) facts
    → NoNull (left_indices (make_join l r)) tmp
    → NoNull (right_indices (make_join l r)) facts
    → Mem u (evaluate_without_unknown sorter (next_subgoal l r wanted dest) tmp facts)
    → ∥ IsInstance (next_subgoal l r wanted dest).result_relation u ∥₁
without_unknown-IsInstance sorter l r wanted dest tmp facts u c inst arity p q h =
    ∥∥₁_map ((without_unknown_iff sorter l r wanted dest tmp facts u c inst arity p q).0 h) (
      Some-elim _ tmp (λ a.
        Some-elim (λ b. HasValue r b × Derives l r wanted dest a b u) facts
          (λ b d. next-IsInstance l r wanted dest a b u c d.1)))
