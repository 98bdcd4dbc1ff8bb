-- ===== src/Eval/Naive/Measure.antt =====
-- How often the facts with terms of a list can still be told something that `addTuple` reports.
use fovris.Prelude.{
  ℕ, ◌+◌, ◌*◌, ◌<◌, ◌≤◌, ◌≡◌, ◌⊎◌, refl, sym, ◌∙◌, Bool, true, false, if◌then◌else◌, List, [], ◌∷◌,
  Option, none, some, All, any, length, arith, Bool-cases, Option-cases, inl, inr,
}
use fovris.Truth.{TruthValue, same, disjunction_wrt_ordering}
use fovris.Kb.Term.{Terms, array_eq, array_eq_iff}
use fovris.Kb.Tuple.{KbTuple}
use fovris.Kb.Relation.{
  FactsPool, find, set_value, KbRelation, add_tuple, merge_value, turns_incons,
}
use fovris.Eval.Naive.{add_results}
use fovris.Eval.Naive.Growth.{AtMost, Grows, add_tuple-Grows, add_results-Grows}
use fovris.Eval.SemiNaive.Deltas.{is_news, add_tuple-is_news}

-- The terms are in the list.
abbrev pub is_in : List Terms → Terms → Bool
is_in U k = any (λ j. array_eq j k) U

weight : Option TruthValue → ℕ
weight none = 2
weight (some v) = if same v TruthValue.incons then 0 else 1

unfoldable pub measure : List Terms → FactsPool → ℕ
unfolding weight
measure [] facts = 0
measure (k ∷ U) facts = weight (find facts k) + measure U facts

weight-AtMost : (o p : Option TruthValue) → AtMost o p → weight p ≤ weight o
unfolding weight disjunction_wrt_ordering
weight-AtMost none none h = ground arith
weight-AtMost none (some w) h = ground arith
weight-AtMost (some v) none h = absurd h
weight-AtMost (some v) (some w) h = ground arith

weight-is_news : (o p : Option TruthValue) → AtMost o p → is_news o p ≡ true → weight p < weight o
unfolding weight disjunction_wrt_ordering
weight-is_news none none h e = cc
weight-is_news none (some w) h e = ground arith
weight-is_news (some v) none h e = absurd h
weight-is_news (some v) (some w) h e = ground arith

pub measure-Grows :
    (U : List Terms) (r s : KbRelation) → Grows r s → measure U s.facts ≤ measure U r.facts
unfolding measure
measure-Grows [] r s h = omega arith
measure-Grows (k ∷ U) r s h =
    let here = weight-AtMost (find r.facts k) (find s.facts k) (h k) in
    let rest = measure-Grows U r s h in omega (arith, here, rest)

pub measure-is_news :
    (U : List Terms) (r s : KbRelation) (k : Terms)
    → Grows r s
    → is_in U k ≡ true
    → is_news (find r.facts k) (find s.facts k) ≡ true
    → measure U s.facts < measure U r.facts
unfolding measure
measure-is_news [] r s k h e n = cc
measure-is_news (j ∷ U) r s k h e n = elim (Bool-cases (array_eq j k)) [
  | inl q ↦
      let same_terms : j ≡ k = (array_eq_iff j k).0 q in
      let here = weight-is_news (find r.facts j) (find s.facts j) (h j) (rw same_terms n) in
      let rest = measure-Grows U r s h in omega (arith, here, rest)
  | inr q ↦
      let here = weight-AtMost (find r.facts j) (find s.facts j) (h j) in
      let rest = measure-is_news U r s k h (rw q at e) n in omega (arith, here, rest)
]

weight_bound : (o : Option TruthValue) → weight o ≤ 2
unfolding weight
weight_bound none = omega arith
weight_bound (some v) = ground arith

pub measure_bound : (U : List Terms) (facts : FactsPool) → measure U facts ≤ 2 * length U
unfolding measure
measure_bound [] facts = omega arith
measure_bound (k ∷ U) facts =
    let here = weight_bound (find facts k) in
    let rest = measure_bound U facts in omega (arith, here, rest)

-- The numbers that the loop of `generate` compares.
abbrev pub SameNumbers : KbRelation → KbRelation → Type 0
SameNumbers r s =
    (length r.facts ≡ length s.facts) × (r.incons_facts_number ≡ s.incons_facts_number)

length-set_value :
    (p : FactsPool) (k : Terms) (v : TruthValue) → length (set_value p k v) ≡ length p
unfolding set_value
length-set_value [] k v = refl
length-set_value (t ∷ p) k v = ground (arith, length-set_value p k v)

unreported_value :
    (r : KbRelation) (t : KbTuple) (prev : TruthValue)
    → (merge_value r t prev).1.0 ≡ false
    → SameNumbers r (merge_value r t prev).0
unfolding merge_value
unreported_value r t prev h =
    let new = disjunction_wrt_ordering prev t.value in
    elim (Bool-cases (same prev new)) [
      | inl s ↦ rw s (refl, refl)
      | inr s ↦ elim (Bool-cases (turns_incons prev new)) [
        | inl i ↦ absurd (ground (arith, h, s, i))
        | inr i ↦ rw s (rw i (sym (length-set_value r.facts t.terms new), refl))
      ]
    ]

pub unreported-SameNumbers :
    (r : KbRelation) (t : KbTuple) → (add_tuple r t).1.0 ≡ false → SameNumbers r (add_tuple r t).0
unfolding add_tuple
unreported-SameNumbers r t h = elim (Option-cases (find r.facts t.terms)) [
  | inl e ↦ let q : true ≡ false = rw (e, add_tuple) at h in absurd (no q)
  | inr (prev, e) ↦ rw (e, add_tuple) (unreported_value r t prev (rw (e, add_tuple) at h))
]
  where
    no : true ≡ false → ⊥
    no e = cc

-- Either something is reported, or the numbers stay.
abbrev pub Moves : List Terms → KbRelation → KbRelation → Type 0
Moves U r s = (measure U s.facts < measure U r.facts) ⊎ SameNumbers r s

add_tuple-Moves :
    (U : List Terms) (r : KbRelation) (t : KbTuple)
    → is_in U t.terms ≡ true
    → Moves U r (add_tuple r t).0
add_tuple-Moves U r t h = elim (Bool-cases (add_tuple r t).1.0) [
  | inl e ↦ inl (
      measure-is_news U r (add_tuple r t).0 t.terms (add_tuple-Grows r t) h
        (sym (add_tuple-is_news r t) ∙ e))
  | inr e ↦ inr (unreported-SameNumbers r t e)
]

Moves-trans :
    (U : List Terms) (a b c : KbRelation)
    → Grows a b
    → Grows b c
    → Moves U a b
    → Moves U b c
    → Moves U a c
Moves-trans U a b c g h (inl m) k = let rest = measure-Grows U b c h in inl (omega (arith, m, rest))
Moves-trans U a b c g h (inr m) (inl k) =
    let first = measure-Grows U a b g in inl (omega (arith, first, k))
Moves-trans U a b c g h (inr m) (inr k) = inr (m.0 ∙ k.0, m.1 ∙ k.1)

pub add_results-Moves :
    (U : List Terms) (p : TruthValue → Bool) (r : KbRelation) (results : List KbTuple)
    → All (λ t. is_in U t.terms ≡ true) results
    → Moves U r (add_results p r results)
unfolding add_results
add_results-Moves U p r [] h = inr (refl, refl)
add_results-Moves U p r (t ∷ results) h = elim (Bool-cases (p t.value)) [
  | inl e ↦
      rw (e, add_results)
        (Moves-trans U r (add_tuple r t).0 (add_results p (add_tuple r t).0 results)
          (add_tuple-Grows r t) (add_results-Grows p (add_tuple r t).0 results)
          (add_tuple-Moves U r t h.0) (add_results-Moves U p (add_tuple r t).0 results h.1))
  | inr e ↦ rw (e, add_results) (add_results-Moves U p r results h.1)
]
