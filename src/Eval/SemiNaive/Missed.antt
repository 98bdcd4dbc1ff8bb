-- ===== src/Eval/SemiNaive/Missed.antt =====
-- A change of a value that neither the delta nor the numbers of a relation show.
use fovris.Prelude.{◌≡◌, refl, ◌∙◌, ap, Bool, true, false, [], ◌∷◌, some, arith}
use fovris.Truth.{TruthValue, same, disjunction_wrt_ordering}
use fovris.Kb.Tuple.{KbTuple}
use fovris.Kb.Relation.{FactsPool, find, KbRelation, add_tuple}
use fovris.Kb.Relation.Facts.{told}
use fovris.Eval.Naive.Measure.{SameNumbers, unreported-SameNumbers}
use fovris.Eval.SemiNaive.{add_new_results}
use fovris.Eval.SemiNaive.Deltas.{is_news, add_tuple-is_news, find-add_tuple_at}

told_unknown : (v : TruthValue) → told (some TruthValue.unknown) v ≡ v
unfolding disjunction_wrt_ordering
told_unknown v = ground arith

unreported :
    (r : KbRelation) (t : KbTuple)
    → find r.facts t.terms ≡ some TruthValue.unknown
    → same t.value TruthValue.incons ≡ false
    → (add_tuple r t).1.0 ≡ false
unreported r t u i =
    let after = find-add_tuple_at r t in
    let q : is_news (find r.facts t.terms) (find (add_tuple r t).0.facts t.terms)
        ≡ is_news (some TruthValue.unknown) (some t.value) =
      rw (after, u, told_unknown t.value) refl in
    add_tuple-is_news r t ∙ q ∙ ground (arith, i)

-- Where a fact is unknown and its terms get a result that is wanted and not inconsistent, its value becomes
-- that of the result, but the delta, the number of facts and the number of inconsistent facts stay as they
-- are.
pub add_new_results-missed :
    (p : TruthValue → Bool) (r : KbRelation) (d : FactsPool) (t : KbTuple)
    → p t.value ≡ true
    → find r.facts t.terms ≡ some TruthValue.unknown
    → same t.value TruthValue.incons ≡ false
    → (find (add_new_results p r d (t ∷ [])).0.facts t.terms ≡ some t.value)
      × ((add_new_results p r d (t ∷ [])).1 ≡ d)
      × SameNumbers r (add_new_results p r d (t ∷ [])).0
unfolding add_new_results
add_new_results-missed p r d t w u i =
    let flag = unreported r t u i in
    let value : find (add_tuple r t).0.facts t.terms ≡ some t.value =
      find-add_tuple_at r t ∙ rw u (ap some (told_unknown t.value)) in
    rw (w, flag) (value, refl, unreported-SameNumbers r t flag)
