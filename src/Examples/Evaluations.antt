-- ===== src/Examples/Evaluations.antt =====
-- Runs of the theorems on disjunctions, aggregation, queries and the evaluation of modules.
use fovris.Prelude.{
  ℕ, ◌≡◌, refl, ◌==◌, true, false, if◌then◌else◌, List, [], ◌∷◌, map, All, leb, length,
}
use fovris.Truth.{TruthValue, disjunction_wrt_ordering}
use fovris.Truth.Set.{empty}
use fovris.Kb.Tuple.{KbTuple}
use fovris.Kb.Literal.{KbLiteral, var_indices}
use fovris.Kb.Relation.{FactsPool, KbRelation, add_tuple, find}
use fovris.Eval.Join.{Comparison, less, equal, greater}
use fovris.Eval.Disjunction.{disjunction_join}
use fovris.Eval.Disjunction.Lost.{disjunction_join-lost}
use fovris.Eval.Aggregate.{aggregate_sorted_rule_result}
use fovris.Eval.Aggregate.Runs.{EndsIn, aggregate_last_run}
use fovris.Eval.Selection.{at}
use fovris.Eval.Query.{can_be_unified}
use fovris.Eval.Query.Answers.{can_be_unified_iff, can_be_unified-repeated}
use fovris.Eval.Naive.{
  KnowledgeBase, EvalRule, KbModule, not_equals_incons, evaluate_rules, info_of, generate,
  add_results, facts_number, module_incons_facts_number,
}
use fovris.Eval.Naive.Growth.{AllGrow, generate-AllGrow}
use fovris.Examples.{variable, fact, literal_q, relation_q}

abbrev compare_numbers : ℕ → ℕ → Comparison
compare_numbers a b = if leb a b then (if a == b then equal else less) else greater

-- The table 3, 4 and the facts 1, 2: neither 3 nor 4 is in the result.
disjunction_join-lost_example :
    disjunction_join compare_numbers ◌==◌ (λ a b. a) (λ a. a) (λ b. b) (3 ∷ 4 ∷ []) (1 ∷ 2 ∷ [])
    ≡ map (λ b. b) (1 ∷ 2 ∷ [])
disjunction_join-lost_example =
    disjunction_join-lost compare_numbers ◌==◌ (λ a b. a) (λ a. a) (λ b. b) 3 (4 ∷ []) 1 (2 ∷ [])
      (refl, (refl, tt))

-- A last run of a true and a false tuple is not made inconsistent.
aggregate_last_run_example :
    EndsIn
      (aggregate_sorted_rule_result (
        fact (1 ∷ 1 ∷ []) TruthValue.true
        ∷ fact (1 ∷ 2 ∷ []) TruthValue.true
        ∷ fact (1 ∷ 2 ∷ []) TruthValue.false
        ∷ []))
      (aggregate_sorted_rule_result
        (fact (1 ∷ 1 ∷ []) TruthValue.true ∷ fact (1 ∷ 2 ∷ []) TruthValue.true ∷ []))
      (fact (1 ∷ 2 ∷ []) TruthValue.true)
aggregate_last_run_example =
    aggregate_last_run (fact (1 ∷ 2 ∷ []) TruthValue.true) (fact (1 ∷ 2 ∷ []) TruthValue.false ∷ [])
      (refl, tt) (fact (1 ∷ 1 ∷ []) TruthValue.true ∷ []) (refl, tt)

can_be_unified_iff_example : can_be_unified literal_q (5 ∷ 7 ∷ []) ≡ true
unfolding var_indices
can_be_unified_iff_example =
    (can_be_unified_iff literal_q (5 ∷ 7 ∷ []) refl (refl, tt)).1 (λ _. 5, refl)

-- The query q(X, X), where the variable X has the number 4.
abbrev query_xx : KbLiteral
query_xx = record { rel_id = 1; terms = variable 4 ∷ variable 4 ∷ []; logic_set = empty }

can_be_unified-repeated_example :
    All
      (λ e. leb (length e.1) 1 ≡ false → All (λ i. at (4 ∷ 4 ∷ []) i ≡ e.0) e.1)
      (var_indices query_xx)
unfolding can_be_unified
can_be_unified-repeated_example = can_be_unified-repeated query_xx (4 ∷ 4 ∷ []) refl

-- The rule that copies the facts of the relation 1 to the relation 2, and its module.
abbrev first_pool : List FactsPool → List KbTuple
first_pool [] = []
first_pool (facts ∷ pools) = facts

abbrev copy_rule : EvalRule
copy_rule = record { head_rel_id = 2; body_rel_ids = 1 ∷ []; call = first_pool }

abbrev copy_module : KbModule
copy_module = record { rules = copy_rule ∷ []; relation_ids = 2 ∷ []; idb_relation_ids = 2 ∷ [] }

abbrev no_facts : KbRelation
no_facts = record {
  facts = [];
  edb_facts = [];
  incons_facts_number = 0;
  edb_incons_facts_number = 0;
  finalized = true;
}

abbrev knowledge_base : KnowledgeBase
knowledge_base id = if id == 1 then relation_q else no_facts

abbrev pass : KnowledgeBase → KnowledgeBase
pass kb = evaluate_rules not_equals_incons false kb (copy_rule ∷ [])

-- The second pass adds nothing.
generate-AllGrow_example : AllGrow knowledge_base (pass (pass knowledge_base))
unfolding generate facts_number module_incons_facts_number evaluate_rules add_results add_tuple find
    disjunction_wrt_ordering
generate-AllGrow_example =
    generate-AllGrow 2 not_equals_incons false copy_module knowledge_base
      (pass (pass knowledge_base)) (info_of (pass (pass knowledge_base)) copy_module) refl
