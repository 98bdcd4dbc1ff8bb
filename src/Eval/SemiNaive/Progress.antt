-- ===== src/Eval/SemiNaive/Progress.antt =====
-- What a rule adds: either a fact is told something, or the deltas stay empty; and all facts keep to a list
-- of terms.
use fovris.Prelude.{
  ℕ, ◌<◌, ◌==◌, ◌≡◌, ◌⊎◌, refl, sym, ◌∙◌, Bool, true, if◌then◌else◌, List, [], ◌∷◌, arith,
  Bool-cases, Option-cases, inl, inr, ==_iff,
}
use fovris.Truth.{TruthValue, same}
use fovris.Kb.Term.{Terms}
use fovris.Kb.Tuple.{KbTuple}
use fovris.Kb.Relation.{FactsPool, find, KbRelation, add_tuple}
use fovris.Eval.Naive.{KnowledgeBase}
use fovris.Eval.Naive.Growth.{Grows, AllGrow, add_tuple-Grows, AtMost-trans, AtMost-refl}
use fovris.Eval.Naive.Measure.{is_in, measure, measure-Grows, measure-is_news}
use fovris.Eval.Naive.Within.{IsWithin, set_value-IsWithin, append-IsWithin, add_tuple-IsWithin}
use fovris.Eval.Naive.Termination.{total, total-AllGrow}
use fovris.Eval.SemiNaive.{push_back, add_to_delta, add_new_results, contains}
use fovris.Eval.SemiNaive.Deltas.{add_tuple-is_news}

pub add_new_results-Grows :
    (p : TruthValue → Bool) (r : KbRelation) (d : FactsPool) (results : List KbTuple)
    → Grows r (add_new_results p r d results).0
unfolding add_new_results
add_new_results-Grows p r d [] k = AtMost-refl (find r.facts k)
add_new_results-Grows p r d (t ∷ results) k =
    let d' = if (add_tuple r t).1.0 then add_to_delta d t (add_tuple r t).1.1 else d in
    elim (Bool-cases (p t.value)) [
      | inl e ↦
          rw (e, add_new_results)
            (AtMost-trans (find r.facts k) (find (add_tuple r t).0.facts k)
              (find (add_new_results p (add_tuple r t).0 d' results).0.facts k)
              (add_tuple-Grows r t k) (add_new_results-Grows p (add_tuple r t).0 d' results k))
      | inr e ↦ rw (e, add_new_results) (add_new_results-Grows p r d results k)
    ]

-- Something is told, or the delta stays empty.
pub add_new_results-progress :
    (U : List Terms) (p : TruthValue → Bool) (r : KbRelation) (results : List KbTuple)
    → IsWithin U results
    → (measure U (add_new_results p r [] results).0.facts < measure U r.facts)
      ⊎ ((add_new_results p r [] results).1 ≡ [])
unfolding add_new_results
add_new_results-progress U p r [] h = inr refl
add_new_results-progress U p r (t ∷ results) h = elim (Bool-cases (p t.value)) [
  | inr e ↦ rw (e, add_new_results) (add_new_results-progress U p r results h.1)
  | inl e ↦
      let next = (add_tuple r t).0 in
      let less = measure-Grows U r next (add_tuple-Grows r t) in
      elim (Bool-cases (add_tuple r t).1.0) [
        | inl c ↦
            let d = add_to_delta [] t (add_tuple r t).1.1 in
            let told =
              measure-is_news U r next t.terms (add_tuple-Grows r t) h.0
                (sym (add_tuple-is_news r t) ∙ c) in
            let rest =
              measure-Grows U next (add_new_results p next d results).0
                (add_new_results-Grows p next d results) in
            rw (e, c, add_new_results) (inl (omega (arith, told, rest)))
        | inr c ↦
            rw (e, c, add_new_results)
              (elim (add_new_results-progress U p next results h.1) [
                | inl m ↦ inl (omega (arith, m, less))
                | inr m ↦ inr m
              ])
      ]
]

add_to_delta-IsWithin :
    (U : List Terms) (d : FactsPool) (t : KbTuple) (v : TruthValue)
    → IsWithin U d
    → is_in U t.terms ≡ true
    → IsWithin U (add_to_delta d t v)
unfolding add_to_delta push_back
add_to_delta-IsWithin U d t v h k =
    let pushed : IsWithin U (push_back d t) = elim (Option-cases (find d t.terms)) [
      | inl e ↦ rw (e, push_back) (append-IsWithin U d t h k)
      | inr (w, e) ↦ rw (e, push_back) h
    ] in
    elim (Bool-cases (same v t.value)) [
      | inl e ↦ rw e pushed
      | inr e ↦ rw e (set_value-IsWithin U (push_back d t) t.terms v pushed)
    ]

pub add_new_results-IsWithin :
    (U : List Terms) (p : TruthValue → Bool) (r : KbRelation) (d : FactsPool)
    (results : List KbTuple)
    → IsWithin U r.facts
    → IsWithin U d
    → IsWithin U results
    → IsWithin U (add_new_results p r d results).0.facts
      × IsWithin U (add_new_results p r d results).1
unfolding add_new_results
add_new_results-IsWithin U p r d [] h k l = (h, k)
add_new_results-IsWithin U p r d (t ∷ results) h k l = elim (Bool-cases (p t.value)) [
  | inr e ↦ rw (e, add_new_results) (add_new_results-IsWithin U p r d results h k l.1)
  | inl e ↦
      let next = add_tuple-IsWithin U r t h l.0 in
      elim (Bool-cases (add_tuple r t).1.0) [
        | inl c ↦
            rw (e, c, add_new_results)
              (add_new_results-IsWithin U p (add_tuple r t).0 (add_to_delta d t (add_tuple r t).1.1)
                results next (add_to_delta-IsWithin U d t (add_tuple r t).1.1 k l.0) l.1)
        | inr c ↦
            rw (e, c, add_new_results)
              (add_new_results-IsWithin U p (add_tuple r t).0 d results next k l.1)
      ]
]

-- What is told of one of the relations counts.
pub total_less :
    (U : List Terms) (kb kb' : KnowledgeBase) (ids : List ℕ) (id : ℕ)
    → AllGrow kb kb'
    → contains ids id ≡ true
    → measure U (kb' id).facts < measure U (kb id).facts
    → total U kb' ids < total U kb ids
unfolding total
total_less U kb kb' [] id g c m = cc
total_less U kb kb' (j ∷ ids) id g c m = elim (Bool-cases (j == id)) [
  | inl e ↦
      let q : id ≡ j = sym ((==_iff j id).0 e) in
      let here : measure U (kb' j).facts < measure U (kb j).facts = rw (← q) m in
      let rest = total-AllGrow U kb kb' ids g in omega (arith, here, rest)
  | inr e ↦
      let here = measure-Grows U (kb j) (kb' j) (g j) in
      let rest = total_less U kb kb' ids id g (rw e at c) m in omega (arith, here, rest)
]
