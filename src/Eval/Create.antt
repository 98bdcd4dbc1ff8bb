-- ===== src/Eval/Create.antt =====
-- The choice of a subgoal for a literal (`CreateEvalSubgoalFirst`, `Next`, `NextDisjunction` and `Last`
-- of src/Eval/EvalSubgoal.cc), and a call of the chosen one.
use fovris.Prelude.{ℕ, Bool, true, false, ◌&&◌, if◌then◌else◌, List, [], ◌∷◌, Result, ok, err}
use fovris.Kb.Term.{KbTerm}
use fovris.Kb.Tuple.{KbTuple}
use fovris.Kb.Literal.{KbLiteral, is_unsafe}
use fovris.Kb.Function.{TermType, KbRuleFunction}
use fovris.Kb.Relation.{FactsPool}
use fovris.Eval.Projection.{JoinColumnId}
use fovris.Eval.Functions.{all_of_predicate_functions, function_projections}
use fovris.Eval.Sort.{Sorter}
use fovris.Eval.Subgoal.{
  FirstSubgoal, first_subgoal, evaluate_first, NextSubgoal, next_subgoal, evaluate_next,
  evaluate_next_with_functions, evaluate_without_unknown, evaluate_without_unknown_with_functions,
  evaluate_disjunction,
}

-- The reasons of an `AssertionException`. `empty_vector` stands for `front` of an empty vector, and
-- `subgoals_number` for the assertion on the relations of a rule.
pub data AssertionError : Type 0 where
  first_unsafe tmp_relation_unsafe relations_number subgoals_number empty_vector : AssertionError

-- `EvalDestination`
pub record EvalDestination : Type 0 where
  pub result_is_true : Bool
  pub project_to : List KbTerm

abbrev pub destination : List KbTerm → EvalDestination
destination project_to = record { result_is_true = true; project_to = project_to }

-- The predicates of a subgoal with their projections.
pub record Predicates (V : Type 0) : Type 0 where
  pub projections : List (List JoinColumnId)
  pub functions : List (KbRuleFunction V)

-- The subclasses of `EvalSubgoal`.
pub data Subgoal (V : Type 0) : Type 0 where
  first : FirstSubgoal → Subgoal V
  next without_unknown next_disjunction : NextSubgoal → Subgoal V
  with_functions without_unknown_with_functions : NextSubgoal → Predicates V → Subgoal V

-- `getResultRelation`
abbrev pub result_relation : {V : Type 0} → Subgoal V → KbLiteral
result_relation (first g) = g.result_relation
result_relation (next g) = g.result_relation
result_relation (without_unknown g) = g.result_relation
result_relation (next_disjunction g) = g.result_relation
result_relation (with_functions g p) = g.result_relation
result_relation (without_unknown_with_functions g p) = g.result_relation

module _ {V : Type 0} where
  unfoldable pub create_first : KbLiteral → EvalDestination → Result AssertionError (Subgoal V)
  create_first kbr dest =
      if is_unsafe kbr
      then err first_unsafe
      else ok (first (first_subgoal kbr dest.result_is_true dest.project_to))

  unfoldable pub create_next :
      KbLiteral → KbLiteral → List KbTerm → Result AssertionError (Subgoal V)
  create_next cur_tmp_rel new_rel project_to =
      if is_unsafe cur_tmp_rel
      then err tmp_relation_unsafe
      else if is_unsafe new_rel
      then ok (next (next_subgoal cur_tmp_rel new_rel true project_to))
      else ok (without_unknown (next_subgoal cur_tmp_rel new_rel true project_to))

  unfoldable pub create_next_disjunction :
      KbLiteral → KbLiteral → EvalDestination → Result AssertionError (Subgoal V)
  create_next_disjunction cur_tmp_rel new_rel dest =
      if is_unsafe cur_tmp_rel
      then err tmp_relation_unsafe
      else ok
          (next_disjunction (next_subgoal cur_tmp_rel new_rel dest.result_is_true dest.project_to))

  abbrev no_functions : List (KbRuleFunction V) → Bool
  no_functions [] = true
  no_functions (f ∷ fs) = false

  -- `CreateEvalSubgoalLast` does not test the temporary relation.
  unfoldable pub create_last :
      KbLiteral → KbLiteral → EvalDestination → List (KbRuleFunction V) → Subgoal V
  create_last cur_tmp_rel new_rel dest functions =
      let g = next_subgoal cur_tmp_rel new_rel dest.result_is_true dest.project_to in
      let p : Predicates V = record {
        projections = function_projections cur_tmp_rel new_rel functions;
        functions = functions;
      } in
      if no_functions functions && is_unsafe new_rel
      then next g
      else if no_functions functions
      then without_unknown g
      else if is_unsafe new_rel
      then with_functions g p
      else without_unknown_with_functions g p

  -- `EvalSubgoal::evaluate`
  unfoldable pub evaluate_subgoal :
      Sorter → (ℕ → TermType → V) → Subgoal V → List KbTuple → FactsPool → List KbTuple
  evaluate_subgoal sorter query_term (first g) tmp relation = evaluate_first g relation
  evaluate_subgoal sorter query_term (next g) tmp relation = evaluate_next sorter g tmp relation
  evaluate_subgoal sorter query_term (without_unknown g) tmp relation =
      evaluate_without_unknown sorter g tmp relation
  evaluate_subgoal sorter query_term (next_disjunction g) tmp relation =
      evaluate_disjunction sorter g tmp relation
  evaluate_subgoal sorter query_term (with_functions g p) tmp relation =
      evaluate_next_with_functions sorter
        (all_of_predicate_functions query_term p.projections p.functions) g tmp relation
  evaluate_subgoal sorter query_term (without_unknown_with_functions g p) tmp relation =
      evaluate_without_unknown_with_functions sorter
        (all_of_predicate_functions query_term p.projections p.functions) g tmp relation
