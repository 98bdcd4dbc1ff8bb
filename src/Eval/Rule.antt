-- ===== src/Eval/Rule.antt =====
-- src/Eval/EvalRule.cc: the evaluation of a rule as a chain of subgoals, one for each literal of a
-- disjunct, and of its disjuncts one after the other.
pub mod Scope
pub mod Table
pub mod Joined
pub mod Scoped
pub mod Body
pub mod Meaning
pub mod Start
pub mod Answers
pub mod Returns
use fovris.Prelude.{
  ℕ, zero, suc, ◌+◌, ◌-◌, ◌==◌, Bool, true, false, not, if◌then◌else◌, List, [], ◌∷◌, ◌++◌, map,
  length, Result, ok, err, ◌>>=◌,
}
use fovris.Kb.Term.{KbTerm}
use fovris.Kb.Tuple.{KbTuple}
use fovris.Kb.Literal.{KbLiteral, var_set}
use fovris.Kb.Function.{TermType, KbRuleFunction}
use fovris.Kb.Relation.{FactsPool}
use fovris.Kb.Rule.{KbHeadLiteral, head_literal, KbRuleDisjunct, KbRule, has_disjunction}
use fovris.Eval.Sort.{Sorter}
use fovris.Eval.Create.{
  AssertionError, relations_number, subgoals_number, empty_vector, EvalDestination, destination,
  Subgoal, result_relation, create_first, create_next, create_next_disjunction, create_last,
  evaluate_subgoal,
}
use fovris.Eval.Variables.{
  OrderedVarMap, get_var_set, remove_from_rule_vars, make_vars_counter, make_disjuncts_vars_counter,
  make_body_var_set,
}

-- `EvalDestination{!head.isNegated(), head.getTerms()}`
abbrev pub head_destination : KbHeadLiteral → EvalDestination
head_destination head = record { result_is_true = not head.negated; project_to = head.terms }

-- `EvaluateRuleWithoutDisjunction`: its subgoals, and the relation of the last one's results.
pub record Conjunction (V : Type 0) : Type 0 where
  pub subgoals : List (Subgoal V)
  pub relation : KbLiteral

module _ {V : Type 0} where
  -- The subgoals of the literals after the first: the loop, and the last one.
  unfoldable pub make_rest :
      KbHeadLiteral
      → List (KbRuleFunction V)
      → OrderedVarMap
      → KbLiteral
      → KbLiteral
      → List KbLiteral
      → Result AssertionError (Conjunction V)
  make_rest head functions counter tmp_relation literal [] =
      let g = create_last tmp_relation literal (head_destination head) functions in
      ok (record { subgoals = g ∷ []; relation = result_relation g })
  make_rest head functions counter tmp_relation literal (l ∷ ls) = do
    let counter' = remove_from_rule_vars counter (var_set literal)
    g ← create_next tmp_relation literal (get_var_set counter')
    rest ← make_rest head functions counter' (result_relation g) l ls
    ok (record { subgoals = g ∷ rest.subgoals; relation = rest.relation })

  -- The constructor, for the first disjunct of a rule.
  unfoldable pub make_conjunction :
      KbHeadLiteral → KbRuleDisjunct V → Result AssertionError (Conjunction V)
  make_conjunction head disjunct = elim disjunct.body [
    | [] ↦ err empty_vector
    | literal ∷ [] ↦ do
      g ← create_first literal (head_destination head)
      ok (record { subgoals = g ∷ []; relation = result_relation g })
    | literal ∷ l ∷ ls ↦ do
      let counter = remove_from_rule_vars (make_vars_counter disjunct.body head) (var_set literal)
      g ← create_first literal (destination (get_var_set counter))
      rest ← make_rest head disjunct.functions counter (result_relation g) l ls
      ok (record { subgoals = g ∷ rest.subgoals; relation = rest.relation })
  ]

  module _ (sorter : Sorter) (query_term : ℕ → TermType → V) where
    -- The loop of the call operator.
    unfoldable pub run_subgoals : List KbTuple → List (Subgoal V) → List FactsPool → List KbTuple
    run_subgoals tmp (g ∷ gs) (relation ∷ relations) =
        run_subgoals (evaluate_subgoal sorter query_term g tmp relation) gs relations
    run_subgoals tmp _ _ = tmp

    unfoldable pub evaluate_conjunction :
        Conjunction V → List FactsPool → Result AssertionError (List KbTuple)
    evaluate_conjunction c relations =
        if length c.subgoals == length relations
        then ok (run_subgoals [] c.subgoals relations)
        else err subgoals_number
