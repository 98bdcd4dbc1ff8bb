-- ===== src/Eval/SemiNaive.antt =====
-- src/SemiNaiveEvaluation.cc: after a first pass over whole relations, a rule is evaluated once for each
-- literal of a relation that rules fill, with the facts that the pass before added in place of that
-- relation, until a pass adds none. The loops take fuel, and `none` means that it ran out.
pub mod Run
pub mod Deltas
pub mod LastPass
pub mod Progress
pub mod InPass
pub mod Missed
pub mod Termination
use fovris.Prelude.{
  ℕ, zero, suc, ◌==◌, Bool, true, false, not, ◌&&◌, ◌||◌, if◌then◌else◌, List, [], ◌∷◌, ◌++◌, map,
  Option, none, some, ltb,
}
use fovris.Truth.{TruthValue, same}
use fovris.Kb.Tuple.{KbTuple}
use fovris.Kb.Relation.{FactsPool, find, set_value, KbRelation, add_tuple}
use fovris.Eval.Aggregate.{aggregate_sorted_rule_result}
use fovris.Eval.Naive.{
  KnowledgeBase, set_relation, EvalRule, equals_incons, not_equals_incons,
  module_incons_facts_number, get_relation_refs, GenInfo, same_info, no_info, reset_idb,
  restore_incons, facts_number,
}

-- An evaluation, and the number of disjuncts of its rule.
pub record RuleEvaluation : Type 0 where
  pub eval_rule : EvalRule
  pub disjuncts_number : ℕ

-- `KBModule`, with the evaluations of its rules.
pub record SemiNaiveModule : Type 0 where
  pub rules : List RuleEvaluation
  pub relation_ids : List ℕ
  pub idb_relation_ids : List ℕ

-- `std::map<unsigned, FactsPool>`, where a key that is not there is added with no facts when it is
-- looked up.
abbrev pub RelationDeltas : Type 0
RelationDeltas = List (ℕ × FactsPool)

unfoldable pub delta_at : RelationDeltas → ℕ → FactsPool
delta_at [] id = []
delta_at ((j, facts) ∷ deltas) id = if j == id then facts else delta_at deltas id

unfoldable pub set_delta : RelationDeltas → ℕ → FactsPool → RelationDeltas
set_delta [] id facts = (id, facts) ∷ []
set_delta ((j, old) ∷ deltas) id facts =
    if j == id then (j, facts) ∷ deltas else (j, old) ∷ set_delta deltas id facts

abbrev pub no_facts_in : FactsPool → Bool
no_facts_in [] = true
no_facts_in (t ∷ ts) = false

-- `push_back`, which the unique index refuses where the terms are there.
unfoldable pub push_back : FactsPool → KbTuple → FactsPool
push_back delta tup = elim (find delta tup.terms) [ none ↦ delta ++ (tup ∷ []) | some v ↦ delta ]

-- `AddToDeltaRelation`
unfoldable pub add_to_delta : FactsPool → KbTuple → TruthValue → FactsPool
add_to_delta delta tup current_val =
    let pushed = push_back delta tup in
    if same current_val tup.value then pushed else set_value pushed tup.terms current_val

-- The loop of `AddResultsToRelation`: the relation and its delta after.
unfoldable pub add_new_results :
    (TruthValue → Bool) → KbRelation → FactsPool → List KbTuple → KbRelation × FactsPool
add_new_results value_pred relation delta [] = (relation, delta)
add_new_results value_pred relation delta (fact ∷ result) =
    let (relation', (changed, current_val)) = add_tuple relation fact in
    let delta' = if changed then add_to_delta delta fact current_val else delta in
    add_new_results value_pred (if value_pred fact.value then relation' else relation)
      (if value_pred fact.value then delta' else delta) result

-- `AddResultsToRelation`, which aggregates the results where `ProcResultAggregate` is given.
unfoldable pub add_to_relation :
    (TruthValue → Bool)
    → Bool
    → KnowledgeBase
    → RelationDeltas
    → EvalRule
    → List KbTuple
    → KnowledgeBase × RelationDeltas
add_to_relation value_pred aggregate kb deltas rule result =
    let id = rule.head_rel_id in
    let result' = if aggregate then aggregate_sorted_rule_result result else result in
    let (relation, delta) = add_new_results value_pred (kb id) (delta_at deltas id) result' in
    (set_relation kb id relation, set_delta deltas id delta)

unfoldable pub create_relation_deltas : List ℕ → RelationDeltas
create_relation_deltas [] = []
create_relation_deltas (id ∷ ids) = set_delta (create_relation_deltas ids) id []

unfoldable pub first_pass :
    (TruthValue → Bool)
    → Bool
    → KnowledgeBase
    → RelationDeltas
    → List RuleEvaluation
    → KnowledgeBase × RelationDeltas
first_pass value_pred aggregate kb deltas [] = (kb, deltas)
first_pass value_pred aggregate kb deltas (r ∷ rules) =
    let result = r.eval_rule.call (get_relation_refs kb r.eval_rule) in
    let (kb', deltas') = add_to_relation value_pred aggregate kb deltas r.eval_rule result in
    first_pass value_pred aggregate kb' deltas' rules

-- `IdbInfo`
pub record IdbInfo : Type 0 where
  pub is_idb : Bool
  pub rel_id : ℕ

-- The relations with the one at a position replaced.
abbrev pub replace_at : List FactsPool → ℕ → FactsPool → List FactsPool
replace_at [] j delta = []
replace_at (r ∷ rs) zero delta = delta ∷ rs
replace_at (r ∷ rs) (suc j) delta = r ∷ replace_at rs j delta

-- The loop over the literals of a rule, from one position on.
unfoldable pub delta_results :
    EvalRule → List FactsPool → RelationDeltas → ℕ → List IdbInfo → List KbTuple
delta_results rule relation_refs deltas j [] = []
delta_results rule relation_refs deltas j (info ∷ infos) =
    let delta = delta_at deltas info.rel_id in
    let rest = delta_results rule relation_refs deltas (suc j) infos in
    if not info.is_idb || no_facts_in delta
    then rest
    else rule.call (replace_at relation_refs j delta) ++ rest

-- What one rule yields in a pass.
unfoldable pub rule_result :
    Bool → KnowledgeBase → RelationDeltas → RuleEvaluation → List IdbInfo → List KbTuple
rule_result naively kb deltas r infos =
    let relation_refs = get_relation_refs kb r.eval_rule in
    if ltb 1 r.disjuncts_number || naively
    then r.eval_rule.call relation_refs
    else delta_results r.eval_rule relation_refs deltas 0 infos

-- The loop of `evaluateRules`, with the deltas of the pass before and those of this one.
unfoldable pub evaluate_rules_loop :
    (TruthValue → Bool)
    → Bool
    → Bool
    → KnowledgeBase
    → RelationDeltas
    → RelationDeltas
    → List (RuleEvaluation × List IdbInfo)
    → KnowledgeBase × RelationDeltas
evaluate_rules_loop value_pred aggregate naively kb deltas new_deltas [] = (kb, new_deltas)
evaluate_rules_loop value_pred aggregate naively kb deltas new_deltas ((r, infos) ∷ rules) =
    let result = rule_result naively kb deltas r infos in
    let (kb', new_deltas') =
      add_to_relation value_pred aggregate kb new_deltas r.eval_rule result in
    evaluate_rules_loop value_pred aggregate naively kb' deltas new_deltas' rules

unfoldable pub are_deltas_empty : RelationDeltas → Bool
are_deltas_empty [] = true
are_deltas_empty ((id, facts) ∷ deltas) =
    if no_facts_in facts then are_deltas_empty deltas else false

abbrev pub contains : List ℕ → ℕ → Bool
contains [] id = false
contains (j ∷ ids) id = j == id || contains ids id

-- A rule with what `generateRuleIdbInfo` says of its literals.
abbrev pub with_infos : List ℕ → RuleEvaluation → RuleEvaluation × List IdbInfo
with_infos heads r =
    (r, map (λ id. record { is_idb = contains heads id; rel_id = id }) r.eval_rule.body_rel_ids)

-- `generateRuleIdbInfo`, for each rule.
unfoldable pub generate_rule_idb_info : List RuleEvaluation → List (RuleEvaluation × List IdbInfo)
generate_rule_idb_info rules = map (with_infos (map (λ r. r.eval_rule.head_rel_id) rules)) rules

abbrev pub info_of : KnowledgeBase → SemiNaiveModule → GenInfo
info_of kb m = record {
  facts_number_ = facts_number kb m.relation_ids;
  incons_number = module_incons_facts_number kb m.relation_ids;
}
