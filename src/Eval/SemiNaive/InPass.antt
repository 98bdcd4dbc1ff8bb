-- ===== src/Eval/SemiNaive/InPass.antt =====
-- What holds all through a pass over the rules of a module: nothing is forgotten, all facts keep to a list
-- of terms, and something was told or the deltas are empty.
use fovris.Prelude.{
  ℕ, zero, suc, ◌<◌, ◌==◌, ◌||◌, ◌≡◌, ◌⊎◌, refl, Bool, true, not, if◌then◌else◌, List, [], ◌∷◌,
  ◌++◌, All, ltb, arith, Bool-cases, inl, inr, ==_iff, eq_refl,
}
use fovris.Truth.{TruthValue}
use fovris.Kb.Term.{Terms}
use fovris.Kb.Tuple.{KbTuple}
use fovris.Kb.Relation.{FactsPool}
use fovris.Eval.Aggregate.{aggregate_sorted_rule_result}
use fovris.Eval.Aggregate.Within.{aggregate_sorted_rule_result-All}
use fovris.Eval.Naive.{KnowledgeBase, EvalRule, set_relation, get_relation_refs}
use fovris.Eval.Naive.Growth.{AllGrow, AllGrow-refl, AllGrow-trans}
use fovris.Eval.Naive.Measure.{is_in}
use fovris.Eval.Naive.Within.{IsWithin, AllWithin, IsClosed, refs-IsWithin}
use fovris.Eval.Naive.Termination.{total, total-AllGrow}
use fovris.Eval.SemiNaive.{
  RuleEvaluation, RelationDeltas, IdbInfo, delta_at, set_delta, add_new_results, add_to_relation,
  create_relation_deltas, first_pass, replace_at, delta_results, rule_result, evaluate_rules_loop,
  are_deltas_empty, contains, no_facts_in,
}
use fovris.Eval.SemiNaive.LastPass.{delta_at-empty}
use fovris.Eval.SemiNaive.Progress.{
  add_new_results-Grows, add_new_results-progress, add_new_results-IsWithin, total_less,
}

-- The facts of all deltas have terms of the list.
abbrev pub DeltasWithin : List Terms → RelationDeltas → Type 0
DeltasWithin U = All (λ e. IsWithin U e.1)

delta_at-IsWithin :
    (U : List Terms) (deltas : RelationDeltas) (id : ℕ)
    → DeltasWithin U deltas
    → IsWithin U (delta_at deltas id)
unfolding delta_at
delta_at-IsWithin U [] id h = tt
delta_at-IsWithin U ((j, facts) ∷ deltas) id h = elim (Bool-cases (j == id)) [
  | inl e ↦ rw (e, delta_at) h.0
  | inr e ↦ rw (e, delta_at) (delta_at-IsWithin U deltas id h.1)
]

set_delta-DeltasWithin :
    (U : List Terms) (deltas : RelationDeltas) (id : ℕ) (facts : FactsPool)
    → DeltasWithin U deltas
    → IsWithin U facts
    → DeltasWithin U (set_delta deltas id facts)
unfolding set_delta
set_delta-DeltasWithin U [] id facts h k = (k, tt)
set_delta-DeltasWithin U ((j, old) ∷ deltas) id facts h k = elim (Bool-cases (j == id)) [
  | inl e ↦ rw (e, set_delta) (k, h.1)
  | inr e ↦ rw (e, set_delta) (h.0, set_delta-DeltasWithin U deltas id facts h.1 k)
]

set_delta_empty :
    (deltas : RelationDeltas) (id : ℕ)
    → are_deltas_empty deltas ≡ true
    → are_deltas_empty (set_delta deltas id []) ≡ true
unfolding set_delta are_deltas_empty
set_delta_empty [] id h = refl
set_delta_empty ((j, []) ∷ deltas) id h = ground (arith, set_delta_empty deltas id)
set_delta_empty ((j, t ∷ ts) ∷ deltas) id h = absurd (ground (arith, h))

pub create_relation_deltas_empty :
    (U : List Terms) (ids : List ℕ)
    → (are_deltas_empty (create_relation_deltas ids) ≡ true)
      × DeltasWithin U (create_relation_deltas ids)
unfolding create_relation_deltas are_deltas_empty
create_relation_deltas_empty U [] = (refl, tt)
create_relation_deltas_empty U (id ∷ ids) =
    let (e, h) = create_relation_deltas_empty U ids in
    (
      set_delta_empty (create_relation_deltas ids) id e,
      set_delta-DeltasWithin U (create_relation_deltas ids) id [] h tt,
    )

module _ (U : List Terms) (ids : List ℕ) where
  -- A pass so far: nothing is forgotten, all keeps to the list, and something was told or the deltas are
  -- empty.
  abbrev pub InPass : KnowledgeBase → KnowledgeBase × RelationDeltas → Type 0
  InPass start (kb, deltas) =
      AllGrow start kb
      × AllWithin U kb
      × DeltasWithin U deltas
      × ((total U kb ids < total U start ids) ⊎ (are_deltas_empty deltas ≡ true))

  -- A rule whose head is a relation of the module, and that keeps to the list.
  abbrev pub IsProperRule : RuleEvaluation → Type 0
  IsProperRule r = IsClosed U r.eval_rule × (contains ids r.eval_rule.head_rel_id ≡ true)

  -- What is told of the head's relation counts; else its delta stays as it was.
  empty-InPass :
      (p : TruthValue → Bool) (start kb : KnowledgeBase) (deltas : RelationDeltas) (head : ℕ)
      (results : List KbTuple)
      → contains ids head ≡ true
      → IsWithin U results
      → AllGrow start kb
      → AllGrow kb (set_relation kb head (add_new_results p (kb head) [] results).0)
      → are_deltas_empty deltas ≡ true
      → (total U (set_relation kb head (add_new_results p (kb head) [] results).0) ids
          < total U start ids)
        ⊎ (are_deltas_empty (set_delta deltas head (add_new_results p (kb head) [] results).1)
            ≡ true)
  empty-InPass p start kb deltas head results c w g step e =
      let news = add_new_results p (kb head) [] results in
      let kb' = set_relation kb head news.0 in
      elim (add_new_results-progress U p (kb head) results w) [
        | inl m ↦
            let less = total_less U kb kb' ids head step c (rw (eq_refl head) m) in
            let before = total-AllGrow U start kb ids g in inl (omega (arith, less, before))
        | inr m ↦ inr (rw m (set_delta_empty deltas head e))
      ]

  moves-InPass :
      (p : TruthValue → Bool) (start kb : KnowledgeBase) (deltas : RelationDeltas) (head : ℕ)
      (results : List KbTuple)
      → contains ids head ≡ true
      → IsWithin U results
      → AllGrow start kb
      → AllGrow kb
          (set_relation kb head (add_new_results p (kb head) (delta_at deltas head) results).0)
      → (total U kb ids < total U start ids) ⊎ (are_deltas_empty deltas ≡ true)
      → (total U
            (set_relation kb head (add_new_results p (kb head) (delta_at deltas head) results).0)
            ids
          < total U start ids)
        ⊎ (are_deltas_empty
              (set_delta deltas head (add_new_results p (kb head) (delta_at deltas head) results).1)
            ≡ true)
  moves-InPass p start kb deltas head results c w g step (inl m) =
      let news = add_new_results p (kb head) (delta_at deltas head) results in
      let less = total-AllGrow U kb (set_relation kb head news.0) ids step in
      inl (omega (arith, m, less))
  moves-InPass p start kb deltas head results c w g step (inr e) =
      let old = delta_at-empty deltas head e in
      rw old (empty-InPass p start kb deltas head results c w g (rw old at step) e)

  add_to_relation-InPass :
      (p : TruthValue → Bool) (aggregate : Bool) (start kb : KnowledgeBase)
      (deltas : RelationDeltas) (rule : EvalRule) (result : List KbTuple)
      → contains ids rule.head_rel_id ≡ true
      → IsWithin U result
      → InPass start (kb, deltas)
      → InPass start (add_to_relation p aggregate kb deltas rule result)
  unfolding add_to_relation
  add_to_relation-InPass p aggregate start kb deltas rule result c w (g, h, d, m) =
      let head = rule.head_rel_id in
      let result' : List KbTuple =
        if aggregate then aggregate_sorted_rule_result result else result in
      let w' : IsWithin U result' = elim (Bool-cases aggregate) [
        | inl e ↦ rw e (aggregate_sorted_rule_result-All (λ k. is_in U k ≡ true) result w)
        | inr e ↦ rw e w
      ] in
      let old = delta_at deltas head in
      let news = add_new_results p (kb head) old result' in
      let kb' = set_relation kb head news.0 in
      let within =
        add_new_results-IsWithin U p (kb head) old result' (h head)
          (delta_at-IsWithin U deltas head d) w' in
      let step : AllGrow kb kb' = λ id k. elim (Bool-cases (id == head)) [
        | inl e ↦
            rw (e, set_relation)
              (rw ((==_iff id head).0 e) (add_new_results-Grows p (kb head) old result' k))
        | inr e ↦ rw (e, set_relation) (AllGrow-refl kb id k)
      ] in
      (
        AllGrow-trans start kb kb' g step,
        λ id. elim (Bool-cases (id == head)) [
          | inl e ↦ rw (e, set_relation) within.0
          | inr e ↦ rw (e, set_relation) (h id)
        ],
        set_delta-DeltasWithin U deltas head news.1 d within.1,
        moves-InPass p start kb deltas head result' c w' g step m,
      )

  pub first_pass-InPass :
      (p : TruthValue → Bool) (aggregate : Bool) (start kb : KnowledgeBase)
      (deltas : RelationDeltas) (rules : List RuleEvaluation)
      → All IsProperRule rules
      → InPass start (kb, deltas)
      → InPass start (first_pass p aggregate kb deltas rules)
  unfolding first_pass
  first_pass-InPass p aggregate start kb deltas [] c h = h
  first_pass-InPass p aggregate start kb deltas (r ∷ rules) c h =
      let refs = get_relation_refs kb r.eval_rule in
      let result = r.eval_rule.call refs in
      let next = add_to_relation p aggregate kb deltas r.eval_rule result in
      first_pass-InPass p aggregate start next.0 next.1 rules c.1 (
        add_to_relation-InPass p aggregate start kb deltas r.eval_rule result c.0.1
          (c.0.0 refs (refs-IsWithin U kb r.eval_rule.body_rel_ids h.1)) h)

  replace_at-IsWithin :
      (refs : List FactsPool) (j : ℕ) (delta : FactsPool)
      → All (IsWithin U) refs
      → IsWithin U delta
      → All (IsWithin U) (replace_at refs j delta)
  replace_at-IsWithin [] j delta h k = tt
  replace_at-IsWithin (r ∷ refs) zero delta h k = (k, h.1)
  replace_at-IsWithin (r ∷ refs) (suc j) delta h k = (h.0, replace_at-IsWithin refs j delta h.1 k)

  append-AllIsWithin :
      (xs ys : List KbTuple) → IsWithin U xs → IsWithin U ys → IsWithin U (xs ++ ys)
  append-AllIsWithin [] ys h k = k
  append-AllIsWithin (x ∷ xs) ys h k = (h.0, append-AllIsWithin xs ys h.1 k)

  delta_results-IsWithin :
      (rule : EvalRule) (refs : List FactsPool) (deltas : RelationDeltas) (j : ℕ)
      (infos : List IdbInfo)
      → IsClosed U rule
      → All (IsWithin U) refs
      → DeltasWithin U deltas
      → IsWithin U (delta_results rule refs deltas j infos)
  unfolding delta_results
  delta_results-IsWithin rule refs deltas j [] c h d = tt
  delta_results-IsWithin rule refs deltas j (info ∷ infos) c h d =
      let delta = delta_at deltas info.rel_id in
      let rest = delta_results-IsWithin rule refs deltas (suc j) infos c h d in
      let here =
        c (replace_at refs j delta)
          (replace_at-IsWithin refs j delta h (delta_at-IsWithin U deltas info.rel_id d)) in
      elim (Bool-cases (not info.is_idb || no_facts_in delta)) [
        | inl e ↦ rw (e, delta_results) rest
        | inr e ↦
            rw (e, delta_results)
              (append-AllIsWithin (rule.call (replace_at refs j delta))
                (delta_results rule refs deltas (suc j) infos) here rest)
      ]

  rule_result-IsWithin :
      (naively : Bool) (kb : KnowledgeBase) (deltas : RelationDeltas) (r : RuleEvaluation)
      (infos : List IdbInfo)
      → IsClosed U r.eval_rule
      → AllWithin U kb
      → DeltasWithin U deltas
      → IsWithin U (rule_result naively kb deltas r infos)
  unfolding rule_result
  rule_result-IsWithin naively kb deltas r infos c h d =
      let refs = get_relation_refs kb r.eval_rule in
      let within = refs-IsWithin U kb r.eval_rule.body_rel_ids h in
      elim (Bool-cases (ltb 1 r.disjuncts_number || naively)) [
        | inl e ↦ rw e (c refs within)
        | inr e ↦ rw e (delta_results-IsWithin r.eval_rule refs deltas 0 infos c within d)
      ]

  pub evaluate_rules_loop-InPass :
      (p : TruthValue → Bool) (aggregate naively : Bool) (start kb : KnowledgeBase)
      (deltas new_deltas : RelationDeltas) (rules : List (RuleEvaluation × List IdbInfo))
      → All (λ r. IsProperRule r.0) rules
      → DeltasWithin U deltas
      → InPass start (kb, new_deltas)
      → InPass start (evaluate_rules_loop p aggregate naively kb deltas new_deltas rules)
  unfolding evaluate_rules_loop
  evaluate_rules_loop-InPass p aggregate naively start kb deltas new_deltas [] c d h = h
  evaluate_rules_loop-InPass p aggregate naively start kb deltas new_deltas ((r, infos) ∷ rules) c d
        h =
      let result = rule_result naively kb deltas r infos in
      let next = add_to_relation p aggregate kb new_deltas r.eval_rule result in
      evaluate_rules_loop-InPass p aggregate naively start next.0 deltas next.1 rules c.1 d (
        add_to_relation-InPass p aggregate start kb new_deltas r.eval_rule result c.0.1
          (rule_result-IsWithin naively kb deltas r infos c.0.0 h.1 d) h)
