-- ===== src/Eval/SemiNaive/Run.antt =====
-- The loops of src/SemiNaiveEvaluation.cc: the generation of a module, and the rounds that correct errors
-- caused by inconsistencies.
use fovris.Prelude.{
  ℕ, zero, suc, ◌==◌, Bool, true, false, ◌&&◌, if◌then◌else◌, List, [], ◌∷◌, Option, none, some,
}
use fovris.Truth.{TruthValue}
use fovris.Eval.Naive.{
  KnowledgeBase, equals_incons, not_equals_incons, module_incons_facts_number, GenInfo, same_info,
  no_info, reset_idb, restore_incons,
}
use fovris.Eval.SemiNaive.{
  SemiNaiveModule, RelationDeltas, create_relation_deltas, first_pass, evaluate_rules_loop,
  are_deltas_empty, generate_rule_idb_info, info_of,
}

module _ (value_pred : TruthValue → Bool) (aggregate naively : Bool) where
  -- `evaluateRules`
  unfoldable pub evaluate_rules :
      SemiNaiveModule → KnowledgeBase → RelationDeltas → KnowledgeBase × RelationDeltas
  evaluate_rules m kb deltas =
      evaluate_rules_loop value_pred aggregate naively kb deltas
        (create_relation_deltas m.relation_ids) (generate_rule_idb_info m.rules)

  -- The `do` loop of `generate`.
  unfoldable pub generate_loop :
      ℕ → SemiNaiveModule → KnowledgeBase → RelationDeltas → Option (KnowledgeBase × GenInfo)
  generate_loop zero m kb deltas = none
  generate_loop (suc fuel) m kb deltas =
      let (kb', deltas') = evaluate_rules m kb deltas in
      let rest = generate_loop fuel m kb' deltas' in
      if are_deltas_empty deltas' then some (kb', info_of kb' m) else rest

  unfoldable pub generate : ℕ → SemiNaiveModule → KnowledgeBase → Option (KnowledgeBase × GenInfo)
  generate fuel m kb =
      let (kb', deltas) =
        first_pass value_pred aggregate kb (create_relation_deltas m.relation_ids) m.rules in
      if are_deltas_empty deltas then some (kb', info_of kb' m) else generate_loop fuel m kb' deltas

-- One round: the new relations, and the numbers of its two generations.
correct_round : ℕ → SemiNaiveModule → KnowledgeBase → Option (KnowledgeBase × (GenInfo × GenInfo))
correct_round fuel m kb =
    elim (generate not_equals_incons false false fuel m (reset_idb kb m.idb_relation_ids)) [
      | none ↦ none
      | some (kb1, gen_true) ↦
          elim (generate equals_incons true true fuel m
            (restore_incons kb kb1 m.idb_relation_ids)) [
              | none ↦ none
              | some (kb2, gen_incons) ↦ some (kb2, (gen_true, gen_incons))
            ]
    ]

-- The loop, entered with the numbers of the round before.
correct_loop : ℕ → ℕ → SemiNaiveModule → KnowledgeBase → GenInfo → GenInfo → Option KnowledgeBase
unfolding correct_round
correct_loop zero inner m kb true_prev incons_prev = none
correct_loop (suc fuel) inner m kb true_prev incons_prev = elim (correct_round inner m kb) [
  | none ↦ none
  | some (kb', (gen_true, gen_incons)) ↦
      let rest = correct_loop fuel inner m kb' gen_true gen_incons in
      if same_info gen_true true_prev && same_info gen_incons incons_prev then some kb' else rest
]

unfoldable pub evaluate_kb_module : ℕ → ℕ → SemiNaiveModule → KnowledgeBase → Option KnowledgeBase
unfolding correct_loop
evaluate_kb_module fuel inner m kb = elim (generate not_equals_incons false false inner m kb) [
  | none ↦ none
  | some (kb', info) ↦
      let rest = correct_loop fuel inner m kb' no_info no_info in
      if module_incons_facts_number kb' m.relation_ids == 0 then some kb' else rest
]

-- `SemiNaiveEvaluation::evaluateKB`
unfoldable pub evaluate_kb : ℕ → ℕ → List SemiNaiveModule → KnowledgeBase → Option KnowledgeBase
evaluate_kb fuel inner [] kb = some kb
evaluate_kb fuel inner (m ∷ modules) kb = elim (evaluate_kb_module fuel inner m kb) [
  | none ↦ none
  | some kb' ↦ evaluate_kb fuel inner modules kb'
]
