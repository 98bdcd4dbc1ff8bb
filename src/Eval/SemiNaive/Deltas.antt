-- ===== src/Eval/SemiNaive/Deltas.antt =====
-- A delta records every fact that a pass added to its relation or made inconsistent.
use fovris.Prelude.{
  ◌||◌, ◌&&◌, ◌≡◌, refl, sym, ◌∙◌, ap, Bool, true, false, if◌then◌else◌, List, [], ◌∷◌, Option,
  none, some, arith, Bool-cases, Option-cases, inl, inr,
}
use fovris.Truth.{TruthValue, same, disjunction_wrt_ordering}
use fovris.Kb.Term.{Terms, array_eq, array_eq_iff}
use fovris.Kb.Tuple.{KbTuple}
use fovris.Kb.Relation.{
  FactsPool, find, set_value, KbRelation, add_tuple, merge_value, turns_incons,
}
use fovris.Kb.Relation.Facts.{told, find-append, find-set_value, find-add_tuple, array_eq_refl}
use fovris.Eval.Naive.Growth.{AtMost, Grows, add_tuple-Grows, AtMost-trans}
use fovris.Eval.SemiNaive.{push_back, add_to_delta, add_new_results}

abbrev pub is_some : Option TruthValue → Bool
is_some none = false
is_some (some v) = true

-- There is a fact with the terms.
abbrev pub has : FactsPool → Terms → Bool
has facts k = is_some (find facts k)

-- The fact was not there and is now, or it is inconsistent now and was not.
abbrev pub is_news : Option TruthValue → Option TruthValue → Bool
is_news none none = false
is_news none (some w) = true
is_news (some v) none = false
is_news (some v) (some w) = turns_incons v w

has-push_back :
    (d : FactsPool) (t : KbTuple) (k : Terms)
    → has (push_back d t) k ≡ (array_eq t.terms k || has d k)
unfolding push_back
has-push_back d t k = elim (Option-cases (find d t.terms)) [
  | inl e ↦ rw (e, push_back) (ground (arith, find-append d t k))
  | inr (v, e) ↦ rw (e, push_back) (ground (arith, array_eq_iff t.terms k, e))
]

has-set_value : (d : FactsPool) (j k : Terms) (v : TruthValue) → has (set_value d j v) k ≡ has d k
has-set_value d j k v = ground (arith, find-set_value d j k v)

has-add_to_delta :
    (d : FactsPool) (t : KbTuple) (v : TruthValue) (k : Terms)
    → has (add_to_delta d t v) k ≡ (array_eq t.terms k || has d k)
unfolding add_to_delta
has-add_to_delta d t v k =
    ground (arith, has-push_back d t k, has-set_value (push_back d t) t.terms k v)

turns_incons-reported :
    (prev new : TruthValue) → same prev new ≡ true → turns_incons prev new ≡ false
turns_incons-reported prev new e = ground arith

add_tuple-reported :
    (r : KbRelation) (t : KbTuple)
    → (add_tuple r t).1.0
      ≡ is_news (find r.facts t.terms) (some (told (find r.facts t.terms) t.value))
unfolding add_tuple merge_value
add_tuple-reported r t = elim (Option-cases (find r.facts t.terms)) [
  | inl e ↦ rw (e, add_tuple) refl
  | inr (prev, e) ↦
      let new = disjunction_wrt_ordering prev t.value in
      rw (e, add_tuple)
        (elim (Bool-cases (same prev new)) [
          | inl s ↦ rw (s, turns_incons-reported prev new s) refl
          | inr s ↦ elim (Bool-cases (turns_incons prev new)) [
            | inl i ↦ ground (arith, s, i)
            | inr i ↦ ground (arith, s, i)
          ]
        ])
]

pub find-add_tuple_at :
    (r : KbRelation) (t : KbTuple)
    → find (add_tuple r t).0.facts t.terms ≡ some (told (find r.facts t.terms) t.value)
find-add_tuple_at r t =
    find-add_tuple r t t.terms
    ∙ ap (λ b. if b then some (told (find r.facts t.terms) t.value) else find r.facts t.terms)
        (array_eq_refl t.terms)

-- `addTuple` reports that a fact is new, or that it turned inconsistent.
pub add_tuple-is_news :
    (r : KbRelation) (t : KbTuple)
    → (add_tuple r t).1.0 ≡ is_news (find r.facts t.terms) (find (add_tuple r t).0.facts t.terms)
add_tuple-is_news r t =
    add_tuple-reported r t ∙ ap (is_news (find r.facts t.terms)) (sym (find-add_tuple_at r t))

is_news-same : (o : Option TruthValue) → is_news o o ≡ false
is_news-same none = refl
is_news-same (some v) = ground arith

-- What is news in two steps is news in one of them.
is_news_trans :
    (o p q : Option TruthValue)
    → AtMost o p
    → is_news o q ≡ true
    → (is_news o p || is_news p q) ≡ true
is_news_trans none none q h e = e
is_news_trans none (some v) q h e = refl
is_news_trans (some u) none q h e = absurd h
is_news_trans (some u) (some v) none h e = ground arith
is_news_trans (some u) (some v) (some w) h e = ground arith

-- What is news since the first relation stands in the delta.
abbrev pub Records : KbRelation → KbRelation → FactsPool → Type 0
Records r0 r d = (k : Terms) → is_news (find r0.facts k) (find r.facts k) ≡ true → has d k ≡ true

-- The delta after a tuple is added, in the loop of `AddResultsToRelation`.
abbrev delta_after : KbRelation → FactsPool → KbTuple → FactsPool
delta_after r d t = if (add_tuple r t).1.0 then add_to_delta d t (add_tuple r t).1.1 else d

news_at :
    (r : KbRelation) (t : KbTuple) (k : Terms)
    → is_news (find r.facts k) (find (add_tuple r t).0.facts k)
      ≡ (array_eq t.terms k && (add_tuple r t).1.0)
news_at r t k = elim (Bool-cases (array_eq t.terms k)) [
  | inl e ↦
      let q : t.terms ≡ k = (array_eq_iff t.terms k).0 e in
      rw e (
        ap (λ j. is_news (find r.facts j) (find (add_tuple r t).0.facts j)) (sym q)
        ∙ sym (add_tuple-is_news r t))
  | inr e ↦
      let q : find (add_tuple r t).0.facts k ≡ find r.facts k = rw e at (find-add_tuple r t k) in
      rw e (ap (is_news (find r.facts k)) q ∙ is_news-same (find r.facts k))
]

has-delta_after :
    (r : KbRelation) (d : FactsPool) (t : KbTuple) (k : Terms)
    → (has d k || is_news (find r.facts k) (find (add_tuple r t).0.facts k)) ≡ true
    → has (delta_after r d t) k ≡ true
has-delta_after r d t k h =
    let news = news_at r t k in
    let added = has-add_to_delta d t (add_tuple r t).1.1 k in
    elim (Bool-cases (add_tuple r t).1.0) [
      | inl e ↦ rw e (added ∙ join_or (array_eq t.terms k) (has d k) (rw (news, e) at h))
      | inr e ↦ rw e (drop_or (array_eq t.terms k) (has d k) (rw (news, e) at h))
    ]
  where
    join_or : (a b : Bool) → (b || a && true) ≡ true → (a || b) ≡ true
    join_or a b h = ground arith

    drop_or : (a b : Bool) → (b || a && false) ≡ true → b ≡ true
    drop_or a b h = ground arith

-- One step of the loop, and all of it.
add_tuple-Records :
    (r0 r : KbRelation) (d : FactsPool) (t : KbTuple)
    → Grows r0 r
    → Records r0 r d
    → Records r0 (add_tuple r t).0 (delta_after r d t)
add_tuple-Records r0 r d t g h k e =
    let split =
      is_news_trans (find r0.facts k) (find r.facts k) (find (add_tuple r t).0.facts k) (g k) e in
    has-delta_after r d t k (elim (Bool-cases (is_news (find r0.facts k) (find r.facts k))) [
      | inl s ↦ rw (h k s) refl
      | inr s ↦ ground (arith, split, s)
    ])

pub add_new_results-Records :
    (p : TruthValue → Bool) (r0 r : KbRelation) (d : FactsPool) (results : List KbTuple)
    → Grows r0 r
    → Records r0 r d
    → Grows r0 (add_new_results p r d results).0
      × Records r0 (add_new_results p r d results).0 (add_new_results p r d results).1
unfolding add_new_results
add_new_results-Records p r0 r d [] g h = (g, h)
add_new_results-Records p r0 r d (t ∷ results) g h = elim (Bool-cases (p t.value)) [
  | inl e ↦
      rw (e, add_new_results)
        (add_new_results-Records p r0 (add_tuple r t).0 (delta_after r d t) results
          (λ k.
            AtMost-trans (find r0.facts k) (find r.facts k) (find (add_tuple r t).0.facts k) (g k)
              (add_tuple-Grows r t k))
          (add_tuple-Records r0 r d t g h))
  | inr e ↦ rw (e, add_new_results) (add_new_results-Records p r0 r d results g h)
]
