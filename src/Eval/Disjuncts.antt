-- ===== src/Eval/Disjuncts.antt =====
-- `EvalRuleWithDisj` of src/Eval/EvalRule.cc: each disjunct is evaluated as a rule of its own, whose
-- head is the variables of the whole rule, and its results are merged into those of the disjuncts
-- before it.
pub mod Parts
pub mod Returns
use fovris.Prelude.{
  ℕ, zero, suc, ◌+◌, ◌%◌, ◌==◌, Bool, true, false, not, if◌then◌else◌, List, [], ◌∷◌, ◌++◌, length,
  Result, ok, err, ◌>>=◌, ◌⊎◌, inl, inr,
}
use fovris.Kb.Tuple.{KbTuple}
use fovris.Kb.Literal.{KbLiteral}
use fovris.Kb.Function.{TermType}
use fovris.Kb.Relation.{FactsPool, u32_mod}
use fovris.Kb.Rule.{KbHeadLiteral, head_literal, KbRuleDisjunct, KbRule, has_disjunction}
use fovris.Eval.Sort.{Sorter}
use fovris.Eval.Create.{
  AssertionError, relations_number, empty_vector, EvalDestination, destination, Subgoal,
  result_relation, create_next_disjunction, evaluate_subgoal,
}
use fovris.Eval.Variables.{
  OrderedVarMap, get_var_set, remove_from_rule_vars, make_disjuncts_vars_counter, make_body_var_set,
}
use fovris.Eval.Rule.{Conjunction, make_conjunction, head_destination, evaluate_conjunction}

-- What the constructor keeps for a disjunct: the number of its literals, its evaluation, and the subgoal
-- that merges its results.
pub record Part (V : Type 0) : Type 0 where
  pub literals_number : ℕ
  pub evaluation : Conjunction V
  pub result_eval : Subgoal V

-- `relations` from one position on, `n` of them.
abbrev pub take_relations : ℕ → List FactsPool → List FactsPool
take_relations (suc n) (r ∷ rs) = r ∷ take_relations n rs
take_relations _ _ = []

abbrev pub drop_relations : ℕ → List FactsPool → List FactsPool
drop_relations (suc n) (r ∷ rs) = drop_relations n rs
drop_relations _ rs = rs

module _ {V : Type 0} where
  -- The evaluation of one disjunct, whose head is `KBHeadLiteral{0, GetVarSet(ruleVarsCounter)}`.
  unfoldable pub make_part :
      OrderedVarMap → KbRuleDisjunct V → Result AssertionError (Conjunction V)
  make_part counter disjunct = make_conjunction (head_literal true 0 (get_var_set counter)) disjunct

  -- The destination of a disjunct after the first: the head for the last one.
  unfoldable pub later_destination :
      KbHeadLiteral → OrderedVarMap → List (KbRuleDisjunct V) → EvalDestination
  later_destination head counter [] = head_destination head
  later_destination head counter (d ∷ ds) = destination (get_var_set counter)

  -- The loop of the constructor after the first disjunct.
  unfoldable pub make_later_parts :
      KbHeadLiteral
      → OrderedVarMap
      → KbLiteral
      → List (KbRuleDisjunct V)
      → Result AssertionError (List (Part V))
  make_later_parts head counter cur_tmp_rel [] = ok []
  make_later_parts head counter cur_tmp_rel (disjunct ∷ ds) = do
    let counter' = remove_from_rule_vars counter (make_body_var_set disjunct.body)
    evaluation ← make_part counter' disjunct
    result_eval ←
        create_next_disjunction cur_tmp_rel evaluation.relation (later_destination head counter' ds)
    parts ← make_later_parts head counter' (result_relation result_eval) ds
    ok (
        record {
          literals_number = length disjunct.body;
          evaluation = evaluation;
          result_eval = result_eval;
        }
        ∷ parts)

  -- The constructor. The merge of the first disjunct is made and never called.
  unfoldable pub make_parts : KbRule V → Result AssertionError (List (Part V))
  make_parts rule = elim rule.disjuncts [
    | [] ↦ ok []
    | disjunct ∷ ds ↦ do
      let counter =
          remove_from_rule_vars (make_disjuncts_vars_counter rule.head rule.disjuncts)
            (make_body_var_set disjunct.body)
      evaluation ← make_part counter disjunct
      result_eval ←
          create_next_disjunction evaluation.relation evaluation.relation
            (destination (get_var_set counter))
      parts ← make_later_parts rule.head counter evaluation.relation ds
      ok (
          record {
            literals_number = length disjunct.body;
            evaluation = evaluation;
            result_eval = result_eval;
          }
          ∷ parts)
  ]

  -- `CreateEvalRule`
  unfoldable pub create_eval_rule : KbRule V → Result AssertionError (Conjunction V ⊎ List (Part V))
  create_eval_rule rule =
      if has_disjunction rule
      then (make_parts rule >>= λ parts. ok (inr parts))
      else elim rule.disjuncts [
        | [] ↦ err empty_vector
        | disjunct ∷ _ ↦ make_conjunction rule.head disjunct >>= λ c. ok (inl c)
      ]

  -- `literalsNum_`
  unfoldable pub literals_num : List (Part V) → ℕ
  literals_num [] = 0
  literals_num (p ∷ ps) = (p.literals_number + literals_num ps) % u32_mod

  module _ (sorter : Sorter) (query_term : ℕ → TermType → V) where
    -- The loop of the call operator after the first disjunct.
    unfoldable pub run_later_parts :
        List KbTuple → List (Part V) → List FactsPool → Result AssertionError (List KbTuple)
    run_later_parts tmp_result [] relations = ok tmp_result
    run_later_parts tmp_result (p ∷ ps) relations = do
      disjunct_result ←
          evaluate_conjunction sorter query_term p.evaluation
            (take_relations p.literals_number relations)
      run_later_parts (evaluate_subgoal sorter query_term p.result_eval tmp_result disjunct_result)
          ps (drop_relations p.literals_number relations)

    -- The call operator.
    unfoldable pub evaluate_disjuncts :
        List (Part V) → List FactsPool → Result AssertionError (List KbTuple)
    evaluate_disjuncts parts relations =
        if not (length relations == literals_num parts) then err relations_number else elim parts [
          | [] ↦ ok []
          | p ∷ ps ↦ do
            disjunct_result ←
                evaluate_conjunction sorter query_term p.evaluation
                  (take_relations p.literals_number relations)
            run_later_parts disjunct_result ps (drop_relations p.literals_number relations)
        ]

    -- `CreateEvalRule`, and a call of the evaluation that it makes.
    unfoldable pub evaluate_rule_on :
        KbRule V → List FactsPool → Result AssertionError (List KbTuple)
    evaluate_rule_on rule relations =
        if has_disjunction rule
        then (make_parts rule >>= λ parts. evaluate_disjuncts parts relations)
        else elim rule.disjuncts [
          | [] ↦ err empty_vector
          | disjunct ∷ _ ↦ do
            c ← make_conjunction rule.head disjunct
            evaluate_conjunction sorter query_term c relations
        ]
