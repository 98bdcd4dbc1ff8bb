-- ===== src/Eval/Naive/Growth.antt =====
-- A pass over the rules only adds to what is known: no fact is forgotten, and the value of a fact only
-- moves up in the knowledge order.
use fovris.Prelude.{
  ℕ, zero, suc, ◌==◌, ◌≡◌, Bool, List, [], ◌∷◌, Option, none, some, arith, Bool-cases, Option-cases,
  inl, inr, ==_iff,
}
use fovris.Truth.{TruthValue, disjunction_wrt_ordering}
use fovris.Kb.Term.{Terms, array_eq}
use fovris.Kb.Tuple.{KbTuple}
use fovris.Kb.Relation.{find, KbRelation, add_tuple}
use fovris.Kb.Relation.Facts.{find-add_tuple}
use fovris.Eval.Naive.{
  KnowledgeBase, EvalRule, KbModule, GenInfo, add_results, evaluate_rule, evaluate_rules,
  generate_loop, generate, set_relation, info_of, same_info,
}

-- The knowledge order, with a fact that is not there below all values.
abbrev pub AtMost : Option TruthValue → Option TruthValue → Type 0
AtMost none w = Unit
AtMost (some v) none = ⊥
AtMost (some v) (some w) = disjunction_wrt_ordering v w ≡ w

pub AtMost-refl : (o : Option TruthValue) → AtMost o o
unfolding disjunction_wrt_ordering
AtMost-refl none = tt
AtMost-refl (some v) = ground arith

pub AtMost-trans : (o p q : Option TruthValue) → AtMost o p → AtMost p q → AtMost o q
unfolding disjunction_wrt_ordering
AtMost-trans none p q h k = tt
AtMost-trans (some u) none q h k = absurd h
AtMost-trans (some u) (some v) none h k = absurd k
AtMost-trans (some u) (some v) (some w) h k = ground arith

AtMost-told : (v t : TruthValue) → AtMost (some v) (some (disjunction_wrt_ordering v t))
unfolding disjunction_wrt_ordering
AtMost-told v t = ground arith

-- Every fact of the first relation is known in the second.
abbrev pub Grows : KbRelation → KbRelation → Type 0
Grows r s = (k : Terms) → AtMost (find r.facts k) (find s.facts k)

pub add_tuple-Grows : (r : KbRelation) (t : KbTuple) → Grows r (add_tuple r t).0
add_tuple-Grows r t k = rw (find-add_tuple r t k) (elim (Bool-cases (array_eq t.terms k)) [
  | inl e ↦ rw e (elim (Option-cases (find r.facts k)) [
    | inl n ↦ rw n tt
    | inr (v, s) ↦ rw s (AtMost-told v t.value)
  ])
  | inr e ↦ rw e (AtMost-refl (find r.facts k))
])

pub add_results-Grows :
    (p : TruthValue → Bool) (r : KbRelation) (results : List KbTuple)
    → Grows r (add_results p r results)
unfolding add_results
add_results-Grows p r [] k = AtMost-refl (find r.facts k)
add_results-Grows p r (t ∷ results) k = elim (Bool-cases (p t.value)) [
  | inl e ↦
      rw (e, add_results)
        (AtMost-trans (find r.facts k) (find (add_tuple r t).0.facts k)
          (find (add_results p (add_tuple r t).0 results).facts k) (add_tuple-Grows r t k)
          (add_results-Grows p (add_tuple r t).0 results k))
  | inr e ↦ rw (e, add_results) (add_results-Grows p r results k)
]

-- Every fact of every relation is known after the pass.
abbrev pub AllGrow : KnowledgeBase → KnowledgeBase → Type 0
AllGrow kb kb' = (id : ℕ) → Grows (kb id) (kb' id)

pub AllGrow-refl : (kb : KnowledgeBase) → AllGrow kb kb
AllGrow-refl kb id k = AtMost-refl (find (kb id).facts k)

pub AllGrow-trans : (a b c : KnowledgeBase) → AllGrow a b → AllGrow b c → AllGrow a c
AllGrow-trans a b c g h id k =
    AtMost-trans (find (a id).facts k) (find (b id).facts k) (find (c id).facts k) (g id k) (h id k)

pub evaluate_rule-AllGrow :
    (p : TruthValue → Bool) (aggregate : Bool) (kb : KnowledgeBase) (rule : EvalRule)
    → AllGrow kb (evaluate_rule p aggregate kb rule)
unfolding evaluate_rule
evaluate_rule-AllGrow p aggregate kb rule id k = elim (Bool-cases (id == rule.head_rel_id)) [
  | inl e ↦
      rw (e, set_relation)
        (rw ((==_iff id rule.head_rel_id).0 e) (add_results-Grows p (kb rule.head_rel_id) _ k))
  | inr e ↦ rw (e, set_relation) (AtMost-refl (find (kb id).facts k))
]

pub evaluate_rules-AllGrow :
    (p : TruthValue → Bool) (aggregate : Bool) (kb : KnowledgeBase) (rules : List EvalRule)
    → AllGrow kb (evaluate_rules p aggregate kb rules)
unfolding evaluate_rules
evaluate_rules-AllGrow p aggregate kb [] = AllGrow-refl kb
evaluate_rules-AllGrow p aggregate kb (rule ∷ rules) =
    AllGrow-trans kb (evaluate_rule p aggregate kb rule)
      (evaluate_rules p aggregate (evaluate_rule p aggregate kb rule) rules)
      (evaluate_rule-AllGrow p aggregate kb rule)
      (evaluate_rules-AllGrow p aggregate (evaluate_rule p aggregate kb rule) rules)

generate_loop-AllGrow :
    (fuel : ℕ) (p : TruthValue → Bool) (aggregate : Bool) (m : KbModule) (kb : KnowledgeBase)
    (info : GenInfo) (kb' : KnowledgeBase) (info' : GenInfo)
    → generate_loop fuel p aggregate m kb info ≡ some (kb', info')
    → AllGrow kb kb'
unfolding generate_loop
generate_loop-AllGrow zero p aggregate m kb info kb' info' h = cc
generate_loop-AllGrow (suc fuel) p aggregate m kb info kb' info' h =
    let kb1 = evaluate_rules p aggregate kb m.rules in
    elim (Bool-cases (same_info (info_of kb1 m) info)) [
      | inl e ↦
          let k : some (kb1, info_of kb1 m) ≡ some (kb', info') = rw (e, generate_loop) at h in
          let q : kb1 ≡ kb' = cc in rw (← q) (evaluate_rules-AllGrow p aggregate kb m.rules)
      | inr e ↦ AllGrow-trans kb kb1 kb' (evaluate_rules-AllGrow p aggregate kb m.rules) (
          generate_loop-AllGrow fuel p aggregate m kb1 (info_of kb1 m) kb' info'
            (rw (e, generate_loop) at h))
    ]

-- A generation that returns keeps every fact of every relation, and the value of a fact only moves up
-- in the knowledge order.
pub generate-AllGrow :
    (fuel : ℕ) (p : TruthValue → Bool) (aggregate : Bool) (m : KbModule) (kb kb' : KnowledgeBase)
    (info : GenInfo)
    → generate fuel p aggregate m kb ≡ some (kb', info)
    → AllGrow kb kb'
unfolding generate
generate-AllGrow fuel p aggregate m kb kb' info h =
    generate_loop-AllGrow fuel p aggregate m kb (info_of kb m) kb' info h
