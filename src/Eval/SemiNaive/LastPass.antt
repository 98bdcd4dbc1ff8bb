-- ===== src/Eval/SemiNaive/LastPass.antt =====
-- Where the generation of a module stops: after a pass whose deltas are empty.
use mathlib.Core.Path.{subst}
use fovris.Prelude.{
  ℕ, zero, suc, ◌==◌, ◌≡◌, refl, sym, ◌∙◌, ap, Bool, true, false, if◌then◌else◌, List, [], ◌∷◌,
  Option, none, some, arith, Bool-cases, inl, inr, ==_iff,
}
use fovris.Truth.{TruthValue}
use fovris.Kb.Term.{Terms}
use fovris.Kb.Tuple.{KbTuple}
use fovris.Kb.Relation.{FactsPool, find}
use fovris.Eval.Aggregate.{aggregate_sorted_rule_result}
use fovris.Eval.Naive.{KnowledgeBase, EvalRule, GenInfo, set_relation, get_relation_refs}
use fovris.Eval.Naive.Growth.{AllGrow, AllGrow-refl, AllGrow-trans, Grows}
use fovris.Eval.SemiNaive.{
  RuleEvaluation, SemiNaiveModule, RelationDeltas, IdbInfo, delta_at, set_delta, add_new_results,
  add_to_relation, create_relation_deltas, first_pass, rule_result, evaluate_rules_loop,
  are_deltas_empty, generate_rule_idb_info, info_of,
}
use fovris.Eval.SemiNaive.Deltas.{has, is_news, Records, add_new_results-Records}
use fovris.Eval.SemiNaive.Run.{evaluate_rules, generate_loop, generate}

-- Since the first knowledge base nothing is forgotten, and all news stands in the deltas.
abbrev AllRecorded : KnowledgeBase → KnowledgeBase × RelationDeltas → Type 0
AllRecorded start (kb, deltas) =
    (id : ℕ) → Grows (start id) (kb id) × Records (start id) (kb id) (delta_at deltas id)

pub delta_at-set_delta :
    (deltas : RelationDeltas) (id j : ℕ) (facts : FactsPool)
    → delta_at (set_delta deltas id facts) j ≡ (if j == id then facts else delta_at deltas j)
unfolding delta_at set_delta
delta_at-set_delta [] id j facts = ground arith
delta_at-set_delta ((i, old) ∷ deltas) id j facts =
    ground (arith, delta_at-set_delta deltas id j facts)

add_to_relation-AllRecorded :
    (p : TruthValue → Bool) (aggregate : Bool) (start kb : KnowledgeBase) (deltas : RelationDeltas)
    (rule : EvalRule) (result : List KbTuple)
    → AllRecorded start (kb, deltas)
    → AllRecorded start (add_to_relation p aggregate kb deltas rule result)
unfolding add_to_relation
add_to_relation-AllRecorded p aggregate start kb deltas rule result h id =
    let head = rule.head_rel_id in
    let result' : List KbTuple =
      if aggregate then aggregate_sorted_rule_result result else result in
    let news = add_new_results p (kb head) (delta_at deltas head) result' in
    elim (Bool-cases (id == head)) [
      | inl e ↦
          let q = (==_iff id head).0 e in
          rw (delta_at-set_delta deltas head id news.1, set_relation, e)
            (rw q (
              add_new_results-Records p (start head) (kb head) (delta_at deltas head) result'
                (h head).0 (h head).1))
      | inr e ↦ rw (delta_at-set_delta deltas head id news.1, set_relation, e) (h id)
    ]

first_pass-AllRecorded :
    (p : TruthValue → Bool) (aggregate : Bool) (start kb : KnowledgeBase) (deltas : RelationDeltas)
    (rules : List RuleEvaluation)
    → AllRecorded start (kb, deltas)
    → AllRecorded start (first_pass p aggregate kb deltas rules)
unfolding first_pass
first_pass-AllRecorded p aggregate start kb deltas [] h = h
first_pass-AllRecorded p aggregate start kb deltas (r ∷ rules) h =
    let result = r.eval_rule.call (get_relation_refs kb r.eval_rule) in
    let next = add_to_relation p aggregate kb deltas r.eval_rule result in
    first_pass-AllRecorded p aggregate start next.0 next.1 rules
      (add_to_relation-AllRecorded p aggregate start kb deltas r.eval_rule result h)

evaluate_rules_loop-AllRecorded :
    (p : TruthValue → Bool) (aggregate naively : Bool) (start kb : KnowledgeBase)
    (deltas new_deltas : RelationDeltas) (rules : List (RuleEvaluation × List IdbInfo))
    → AllRecorded start (kb, new_deltas)
    → AllRecorded start (evaluate_rules_loop p aggregate naively kb deltas new_deltas rules)
unfolding evaluate_rules_loop
evaluate_rules_loop-AllRecorded p aggregate naively start kb deltas new_deltas [] h = h
evaluate_rules_loop-AllRecorded p aggregate naively start kb deltas new_deltas ((r, infos) ∷ rules)
      h =
    let result = rule_result naively kb deltas r infos in
    let next = add_to_relation p aggregate kb new_deltas r.eval_rule result in
    evaluate_rules_loop-AllRecorded p aggregate naively start next.0 deltas next.1 rules
      (add_to_relation-AllRecorded p aggregate start kb new_deltas r.eval_rule result h)

pub delta_at-empty :
    (deltas : RelationDeltas) (id : ℕ) → are_deltas_empty deltas ≡ true → delta_at deltas id ≡ []
unfolding delta_at are_deltas_empty
delta_at-empty [] id h = refl
delta_at-empty ((j, []) ∷ deltas) id h = ground (arith, delta_at-empty deltas id h)
delta_at-empty ((j, t ∷ ts) ∷ deltas) id h = absurd (ground (arith, h))

is_news-same : (o : Option TruthValue) → is_news o o ≡ false
is_news-same none = refl
is_news-same (some v) = ground arith

-- A pass begins with nothing new.
begin-AllRecorded : (kb : KnowledgeBase) (deltas : RelationDeltas) → AllRecorded kb (kb, deltas)
begin-AllRecorded kb deltas id =
    (AllGrow-refl kb id, λ k e. absurd (no (sym (is_news-same (find (kb id).facts k)) ∙ e)))
  where
    no : false ≡ true → ⊥
    no e = cc

-- No fact is new, and none has turned inconsistent.
abbrev pub NoNews : KnowledgeBase → KnowledgeBase → Type 0
NoNews prev kb =
    (id : ℕ) (k : Terms) → is_news (find (prev id).facts k) (find (kb id).facts k) ≡ false

empty-NoNews :
    (prev kb : KnowledgeBase) (deltas : RelationDeltas)
    → AllRecorded prev (kb, deltas)
    → are_deltas_empty deltas ≡ true
    → AllGrow prev kb × NoNews prev kb
unfolding find
empty-NoNews prev kb deltas h e = (
  λ id. (h id).0,
  λ id k. elim (Bool-cases (is_news (find (prev id).facts k) (find (kb id).facts k))) [
    | inr q ↦ q
    | inl q ↦
        let found : has (delta_at deltas id) k ≡ true = (h id).1 k q in
        let none_found : has (delta_at deltas id) k ≡ false =
          ap (λ facts. has facts k) (delta_at-empty deltas id e) in
        absurd (no (sym none_found ∙ found))
  ],
)
  where
    no : false ≡ true → ⊥
    no e = cc

-- The passes of a generation: `Reaches prev kb deltas` says that a pass over the relations `prev` left the
-- relations `kb` and the deltas. After the first pass another one is made while the deltas are not empty.
module _ (p : TruthValue → Bool) (aggregate naively : Bool) (m : SemiNaiveModule)
    (start : KnowledgeBase) where
  pub data Reaches : KnowledgeBase → KnowledgeBase → RelationDeltas → Type 0 where
    first :
        Reaches start
          (first_pass p aggregate start (create_relation_deltas m.relation_ids) m.rules).0
          (first_pass p aggregate start (create_relation_deltas m.relation_ids) m.rules).1
    next :
        {prev kb : KnowledgeBase} {deltas : RelationDeltas}
        → Reaches prev kb deltas
        → are_deltas_empty deltas ≡ false
        → Reaches kb
            (evaluate_rules p aggregate naively m kb deltas).0
            (evaluate_rules p aggregate naively m kb deltas).1

  -- The relations are those after a pass that is reached, over relations that know no less than the first
  -- ones, and its deltas are empty. The pass forgets nothing, makes no new fact and turns none
  -- inconsistent, and the numbers are those after it.
  abbrev pub IsLastPass : KnowledgeBase → GenInfo → Type 0
  IsLastPass kb' info =
      (prev : KnowledgeBase) × (deltas : RelationDeltas) × Reaches prev kb' deltas
      × (are_deltas_empty deltas ≡ true)
      × AllGrow start prev
      × AllGrow prev kb'
      × NoNews prev kb'
      × (info ≡ info_of kb' m)

  returned-IsLastPass :
      (prev kb kb' : KnowledgeBase) (deltas : RelationDeltas) (info : GenInfo)
      → Reaches prev kb deltas
      → are_deltas_empty deltas ≡ true
      → AllGrow start prev
      → AllRecorded prev (kb, deltas)
      → Path (Option (KnowledgeBase × GenInfo)) (some (kb, info_of kb m)) (some (kb', info))
      → IsLastPass kb' info
  returned-IsLastPass prev kb kb' deltas info r e g recorded h =
      let (grow, none_new) = empty-NoNews prev kb deltas recorded e in
      subst (λ (z : KnowledgeBase × GenInfo). IsLastPass z.0 z.1)
        (ap (λ o. elim o [ none ↦ (kb, info_of kb m) | some z ↦ z ]) h)
        (prev, deltas, r, e, g, grow, none_new, refl)

  pass-AllRecorded :
      (kb : KnowledgeBase) (deltas : RelationDeltas)
      → AllRecorded kb (evaluate_rules p aggregate naively m kb deltas)
  unfolding evaluate_rules
  pass-AllRecorded kb deltas =
      evaluate_rules_loop-AllRecorded p aggregate naively kb kb deltas
        (create_relation_deltas m.relation_ids) (generate_rule_idb_info m.rules)
        (begin-AllRecorded kb (create_relation_deltas m.relation_ids))

  generate_loop-IsLastPass :
      (fuel : ℕ) (prev kb : KnowledgeBase) (deltas : RelationDeltas) (kb' : KnowledgeBase)
      (info : GenInfo)
      → Reaches prev kb deltas
      → are_deltas_empty deltas ≡ false
      → AllGrow start kb
      → generate_loop p aggregate naively fuel m kb deltas ≡ some (kb', info)
      → IsLastPass kb' info
  unfolding generate_loop
  generate_loop-IsLastPass zero prev kb deltas kb' info r more g h = cc
  generate_loop-IsLastPass (suc fuel) prev kb deltas kb' info r more g h =
      let (kb1, deltas1) = evaluate_rules p aggregate naively m kb deltas in
      let recorded = pass-AllRecorded kb deltas in
      elim (Bool-cases (are_deltas_empty deltas1)) [
        | inl e ↦
            returned-IsLastPass kb kb1 kb' deltas1 info (next r more) e g recorded
              (rw (e, generate_loop) at h)
        | inr e ↦
            generate_loop-IsLastPass fuel kb kb1 deltas1 kb' info (next r more) e
              (AllGrow-trans start kb kb1 g (λ id. (recorded id).0)) (rw (e, generate_loop) at h)
      ]

  -- A generation that returns has made passes until one with empty deltas, and returns the relations of
  -- that pass and their numbers. Over relations that know no less than the ones it began with, the pass
  -- forgot no fact, made none that was not there and turned none inconsistent.
  pub semi_naive_generate-IsLastPass :
      (fuel : ℕ) (kb' : KnowledgeBase) (info : GenInfo)
      → generate p aggregate naively fuel m start ≡ some (kb', info)
      → IsLastPass kb' info
  unfolding generate
  semi_naive_generate-IsLastPass fuel kb' info h =
      let deltas = create_relation_deltas m.relation_ids in
      let (kb1, deltas1) = first_pass p aggregate start deltas m.rules in
      let recorded =
        first_pass-AllRecorded p aggregate start start deltas m.rules
          (begin-AllRecorded start deltas) in
      elim (Bool-cases (are_deltas_empty deltas1)) [
        | inl e ↦
            returned-IsLastPass start kb1 kb' deltas1 info first e (AllGrow-refl start) recorded
              (rw (e, generate) at h)
        | inr e ↦
            generate_loop-IsLastPass fuel start kb1 deltas1 kb' info first e (λ id. (recorded id).0)
              (rw (e, generate) at h)
      ]
