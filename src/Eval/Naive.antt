-- ===== src/Eval/Naive.antt =====
-- src/NaiveEvaluation.cc, with `GetRelationRefs` of src/Evaluation.cc: the rules of a module are
-- evaluated over whole relations until no number of facts changes; then, where facts are inconsistent,
-- the module is evaluated again without them until the numbers of two passes agree. The loops take
-- fuel, and `none` means that it ran out.
pub mod Growth
pub mod Fixpoint
pub mod Measure
pub mod Within
pub mod Termination
use fovris.Prelude.{
  ℕ, zero, suc, ◌+◌, ◌%◌, ◌==◌, Bool, true, false, not, ◌&&◌, ◌||◌, if◌then◌else◌, List, [], ◌∷◌,
  map, length, Option, none, some,
}
use fovris.Truth.{TruthValue, same}
use fovris.Kb.Tuple.{KbTuple}
use fovris.Kb.Relation.{FactsPool, KbRelation, add_tuple, clear, clear_incons, add_incons, u32_mod}
use fovris.Eval.Aggregate.{aggregate_sorted_rule_result}

-- The relations of the knowledge base, by their ids.
abbrev pub KnowledgeBase : Type 0
KnowledgeBase = ℕ → KbRelation

-- A change of the relation with the id.
abbrev pub set_relation : KnowledgeBase → ℕ → KbRelation → KnowledgeBase
set_relation kb id r j = if j == id then r else kb j

-- The abstract class `EvalRule`: the head and body relations of its rule, and its call.
pub record EvalRule : Type 0 where
  pub head_rel_id : ℕ
  pub body_rel_ids : List ℕ
  pub call : List FactsPool → List KbTuple

-- `KBModule`, with the evaluations of its rules.
pub record KbModule : Type 0 where
  pub rules : List EvalRule
  pub relation_ids : List ℕ
  pub idb_relation_ids : List ℕ

abbrev pub equals_incons : TruthValue → Bool
equals_incons val = same val TruthValue.incons

abbrev pub not_equals_incons : TruthValue → Bool
not_equals_incons val = not (same val TruthValue.incons)

-- `KBModule::factsNumber` and `KBModule::inconsFactsNumber`, sums of `unsigned`.
unfoldable pub facts_number : KnowledgeBase → List ℕ → ℕ
facts_number kb [] = 0
facts_number kb (id ∷ ids) = (length (kb id).facts + facts_number kb ids) % u32_mod

unfoldable pub module_incons_facts_number : KnowledgeBase → List ℕ → ℕ
module_incons_facts_number kb [] = 0
module_incons_facts_number kb (id ∷ ids) =
    ((kb id).incons_facts_number + module_incons_facts_number kb ids) % u32_mod

-- `AddResultsToRelation`
unfoldable pub add_results : (TruthValue → Bool) → KbRelation → List KbTuple → KbRelation
add_results value_pred r [] = r
add_results value_pred r (tup ∷ results) =
    add_results value_pred (if value_pred tup.value then (add_tuple r tup).0 else r) results

abbrev pub get_relation_refs : KnowledgeBase → EvalRule → List FactsPool
get_relation_refs kb rule = map (λ id. (kb id).facts) rule.body_rel_ids

-- The body of `evaluateRules`.
unfoldable pub evaluate_rule : (TruthValue → Bool) → Bool → KnowledgeBase → EvalRule → KnowledgeBase
evaluate_rule value_pred aggregate kb rule =
    let result = rule.call (get_relation_refs kb rule) in
    let result' = if aggregate then aggregate_sorted_rule_result result else result in
    set_relation kb rule.head_rel_id (add_results value_pred (kb rule.head_rel_id) result')

unfoldable pub evaluate_rules :
    (TruthValue → Bool) → Bool → KnowledgeBase → List EvalRule → KnowledgeBase
unfolding evaluate_rule
evaluate_rules value_pred aggregate kb [] = kb
evaluate_rules value_pred aggregate kb (rule ∷ rules) =
    evaluate_rules value_pred aggregate (evaluate_rule value_pred aggregate kb rule) rules

-- `GenInfo`
pub record GenInfo : Type 0 where
  pub facts_number_ : ℕ
  pub incons_number : ℕ

-- `!(a != b)`
abbrev pub same_info : GenInfo → GenInfo → Bool
same_info a b = a.facts_number_ == b.facts_number_ && a.incons_number == b.incons_number

abbrev pub info_of : KnowledgeBase → KbModule → GenInfo
info_of kb m = record {
  facts_number_ = facts_number kb m.relation_ids;
  incons_number = module_incons_facts_number kb m.relation_ids;
}

-- The `do` loop of `generate`, entered with the numbers `info` of `kb`.
unfoldable pub generate_loop :
    ℕ
    → (TruthValue → Bool)
    → Bool
    → KbModule
    → KnowledgeBase
    → GenInfo
    → Option (KnowledgeBase × GenInfo)
generate_loop zero value_pred aggregate m kb info = none
generate_loop (suc fuel) value_pred aggregate m kb info =
    let kb' = evaluate_rules value_pred aggregate kb m.rules in
    let info' = info_of kb' m in
    let rest = generate_loop fuel value_pred aggregate m kb' info' in
    if same_info info' info then some (kb', info') else rest

unfoldable pub generate :
    ℕ → (TruthValue → Bool) → Bool → KbModule → KnowledgeBase → Option (KnowledgeBase × GenInfo)
unfolding generate_loop
generate fuel value_pred aggregate m kb =
    generate_loop fuel value_pred aggregate m kb (info_of kb m)

-- "backup current idb relations, set current idb relations to original facts, remove facts which are
-- incons in current model"
unfoldable pub reset_idb : KnowledgeBase → List ℕ → KnowledgeBase
reset_idb kb [] = kb
reset_idb kb (id ∷ ids) =
    reset_idb (set_relation kb id (clear_incons (clear (kb id)) (kb id).facts)) ids

-- "add incons facts to idb relations", from the backup.
unfoldable pub restore_incons : KnowledgeBase → KnowledgeBase → List ℕ → KnowledgeBase
restore_incons prev kb [] = kb
restore_incons prev kb (id ∷ ids) =
    restore_incons prev (set_relation kb id (add_incons (kb id) (prev id).facts)) ids

-- One round of the loop that corrects errors caused by inconsistencies: the new relations, and the
-- numbers of its two passes.
correct_round : ℕ → KbModule → KnowledgeBase → Option (KnowledgeBase × (GenInfo × GenInfo))
correct_round fuel m kb =
    elim (generate fuel not_equals_incons false m (reset_idb kb m.idb_relation_ids)) [
      | none ↦ none
      | some (kb1, gen_true) ↦
          elim (generate fuel equals_incons true m (restore_incons kb kb1 m.idb_relation_ids)) [
            | none ↦ none
            | some (kb2, gen_incons) ↦ some (kb2, (gen_true, gen_incons))
          ]
    ]

-- The loop, entered with the numbers of the passes before.
correct_loop : ℕ → ℕ → KbModule → KnowledgeBase → GenInfo → GenInfo → Option KnowledgeBase
unfolding correct_round reset_idb restore_incons
correct_loop zero inner m kb true_prev incons_prev = none
correct_loop (suc fuel) inner m kb true_prev incons_prev = elim (correct_round inner m kb) [
  | none ↦ none
  | some (kb', (gen_true, gen_incons)) ↦
      let rest = correct_loop fuel inner m kb' gen_true gen_incons in
      if same_info gen_true true_prev && same_info gen_incons incons_prev then some kb' else rest
]

abbrev pub no_info : GenInfo
no_info = record { facts_number_ = 0; incons_number = 0 }

unfoldable pub evaluate_kb_module : ℕ → ℕ → KbModule → KnowledgeBase → Option KnowledgeBase
unfolding correct_loop generate
evaluate_kb_module fuel inner m kb = elim (generate inner not_equals_incons false m kb) [
  | none ↦ none
  | some (kb', info) ↦
      let rest = correct_loop fuel inner m kb' no_info no_info in
      if module_incons_facts_number kb' m.relation_ids == 0 then some kb' else rest
]

-- `NaiveEvaluation::evaluateKB`
unfoldable pub evaluate_kb : ℕ → ℕ → List KbModule → KnowledgeBase → Option KnowledgeBase
evaluate_kb fuel inner [] kb = some kb
evaluate_kb fuel inner (m ∷ modules) kb = elim (evaluate_kb_module fuel inner m kb) [
  | none ↦ none
  | some kb' ↦ evaluate_kb fuel inner modules kb'
]
