-- ===== src/Eval/Naive/Within.antt =====
-- Relations whose facts have terms of a list keep to the list, where the rules do.
use fovris.Prelude.{
  ℕ, ◌==◌, ◌≡◌, Bool, true, false, if◌then◌else◌, List, [], ◌∷◌, ◌++◌, map, All, Bool-cases,
  Option-cases, inl, inr,
}
use fovris.Truth.{TruthValue, same, disjunction_wrt_ordering}
use fovris.Kb.Term.{Terms, array_eq}
use fovris.Kb.Tuple.{KbTuple}
use fovris.Kb.Relation.{
  FactsPool, find, set_value, KbRelation, add_tuple, merge_value, turns_incons,
}
use fovris.Eval.Aggregate.{aggregate_sorted_rule_result}
use fovris.Eval.Aggregate.Within.{aggregate_sorted_rule_result-All}
use fovris.Eval.Naive.{
  KnowledgeBase, EvalRule, add_results, set_relation, get_relation_refs, evaluate_rule,
}
use fovris.Eval.Naive.Measure.{is_in}

-- All facts have terms of the list.
abbrev pub IsWithin : List Terms → FactsPool → Type 0
IsWithin U = All (λ t. is_in U t.terms ≡ true)

abbrev pub AllWithin : List Terms → KnowledgeBase → Type 0
AllWithin U kb = (id : ℕ) → IsWithin U (kb id).facts

-- A rule that makes only terms of the list from facts that have terms of the list.
abbrev pub IsClosed : List Terms → EvalRule → Type 0
IsClosed U rule = (refs : List FactsPool) → All (IsWithin U) refs → IsWithin U (rule.call refs)

pub set_value-IsWithin :
    (U : List Terms) (p : FactsPool) (k : Terms) (v : TruthValue)
    → IsWithin U p
    → IsWithin U (set_value p k v)
unfolding set_value
set_value-IsWithin U [] k v h = tt
set_value-IsWithin U (t ∷ p) k v h = elim (Bool-cases (array_eq t.terms k)) [
  | inl e ↦ rw (e, set_value) h
  | inr e ↦ rw (e, set_value) (h.0, set_value-IsWithin U p k v h.1)
]

pub append-IsWithin :
    (U : List Terms) (p : FactsPool) (t : KbTuple)
    → IsWithin U p
    → is_in U t.terms ≡ true
    → IsWithin U (p ++ (t ∷ []))
append-IsWithin U [] t h e = (e, tt)
append-IsWithin U (u ∷ p) t h e = (h.0, append-IsWithin U p t h.1 e)

merge_value-IsWithin :
    (U : List Terms) (r : KbRelation) (t : KbTuple) (prev : TruthValue)
    → IsWithin U r.facts
    → IsWithin U (merge_value r t prev).0.facts
unfolding merge_value
merge_value-IsWithin U r t prev h =
    let new = disjunction_wrt_ordering prev t.value in
    let changed = set_value-IsWithin U r.facts t.terms new h in
    elim (Bool-cases (same prev new)) [
      | inl s ↦ rw s h
      | inr s ↦ elim (Bool-cases (turns_incons prev new)) [
        | inl i ↦ rw s (rw i changed)
        | inr i ↦ rw s (rw i changed)
      ]
    ]

pub add_tuple-IsWithin :
    (U : List Terms) (r : KbRelation) (t : KbTuple)
    → IsWithin U r.facts
    → is_in U t.terms ≡ true
    → IsWithin U (add_tuple r t).0.facts
unfolding add_tuple
add_tuple-IsWithin U r t h k = elim (Option-cases (find r.facts t.terms)) [
  | inl e ↦ rw (e, add_tuple) (append-IsWithin U r.facts t h k)
  | inr (prev, e) ↦ rw (e, add_tuple) (merge_value-IsWithin U r t prev h)
]

add_results-IsWithin :
    (U : List Terms) (p : TruthValue → Bool) (r : KbRelation) (results : List KbTuple)
    → IsWithin U r.facts
    → IsWithin U results
    → IsWithin U (add_results p r results).facts
unfolding add_results
add_results-IsWithin U p r [] h k = h
add_results-IsWithin U p r (t ∷ results) h k = elim (Bool-cases (p t.value)) [
  | inl e ↦
      rw (e, add_results)
        (add_results-IsWithin U p (add_tuple r t).0 results (add_tuple-IsWithin U r t h k.0) k.1)
  | inr e ↦ rw (e, add_results) (add_results-IsWithin U p r results h k.1)
]

pub refs-IsWithin :
    (U : List Terms) (kb : KnowledgeBase) (ids : List ℕ)
    → AllWithin U kb
    → All (IsWithin U) (map (λ id. (kb id).facts) ids)
refs-IsWithin U kb [] h = tt
refs-IsWithin U kb (id ∷ ids) h = (h id, refs-IsWithin U kb ids h)

-- What is added for a rule.
abbrev pub rule_results : Bool → KnowledgeBase → EvalRule → List KbTuple
rule_results aggregate kb rule =
    if aggregate
    then aggregate_sorted_rule_result (rule.call (get_relation_refs kb rule))
    else rule.call (get_relation_refs kb rule)

pub rule_results-IsWithin :
    (U : List Terms) (aggregate : Bool) (kb : KnowledgeBase) (rule : EvalRule)
    → IsClosed U rule
    → AllWithin U kb
    → IsWithin U (rule_results aggregate kb rule)
rule_results-IsWithin U false kb rule c h =
    c (get_relation_refs kb rule) (refs-IsWithin U kb rule.body_rel_ids h)
rule_results-IsWithin U true kb rule c h =
    aggregate_sorted_rule_result-All (λ k. is_in U k ≡ true) (rule.call (get_relation_refs kb rule))
      (c (get_relation_refs kb rule) (refs-IsWithin U kb rule.body_rel_ids h))

pub evaluate_rule-AllWithin :
    (U : List Terms) (p : TruthValue → Bool) (aggregate : Bool) (kb : KnowledgeBase)
    (rule : EvalRule)
    → IsClosed U rule
    → AllWithin U kb
    → AllWithin U (evaluate_rule p aggregate kb rule)
unfolding evaluate_rule
evaluate_rule-AllWithin U p aggregate kb rule c h id = elim (Bool-cases (id == rule.head_rel_id)) [
  | inl e ↦
      rw (e, set_relation)
        (add_results-IsWithin U p (kb rule.head_rel_id) (rule_results aggregate kb rule)
          (h rule.head_rel_id) (rule_results-IsWithin U aggregate kb rule c h))
  | inr e ↦ rw (e, set_relation) (h id)
]
