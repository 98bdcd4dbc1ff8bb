-- ===== src/Examples/Relations.antt =====
-- Runs of the theorems on literals and relations.
use fovris.Prelude.{◌≡◌, refl, [], ◌∷◌, some, arith}
use fovris.Truth.{TruthValue, disjunction_wrt_ordering}
use fovris.Kb.Relation.{
  find, set_value, merge_value, add_tuple, add_edb_tuple, finalize, clear_incons, clear,
}
use fovris.Kb.Relation.Facts.{find-add_tuple}
use fovris.Kb.Relation.Reset.{adds, adds_edb, clears_incons, here, next, clear-finalize}
use fovris.Kb.Relation.Incons.{find-clear_incons, count_of, IsCounted, add_tuple-IsCounted}
use fovris.Examples.{fact, facts_q, relation_q}

-- The fact 4 8 is true, and is told to be false.
find-add_tuple_example :
    find (add_tuple relation_q (fact (4 ∷ 8 ∷ []) TruthValue.false)).0.facts (4 ∷ 8 ∷ [])
    ≡ some TruthValue.incons
unfolding disjunction_wrt_ordering find
find-add_tuple_example = find-add_tuple relation_q (fact (4 ∷ 8 ∷ []) TruthValue.false) (4 ∷ 8 ∷ [])

-- The relation is finalized, gets a fact and a refused extensional one, loses its inconsistent facts, and is
-- cleared.
clear-finalize_example :
    clear (
      clear_incons
        (add_edb_tuple
          (add_tuple (finalize relation_q) (fact (1 ∷ 2 ∷ []) TruthValue.true)).0
          (fact (3 ∷ 3 ∷ []) TruthValue.true))
        facts_q)
    ≡ finalize relation_q
clear-finalize_example = clear-finalize relation_q _ refl (
    next
      (next (next here (adds (fact (1 ∷ 2 ∷ []) TruthValue.true)))
        (adds_edb (fact (3 ∷ 3 ∷ []) TruthValue.true)))
      (clears_incons facts_q))

-- The pool lists 5 7 as inconsistent.
find-clear_incons_example :
    find (clear_incons relation_q facts_q).facts (5 ∷ 7 ∷ []) ≡ some TruthValue.unknown
unfolding find
find-clear_incons_example = find-clear_incons relation_q facts_q (5 ∷ 7 ∷ [])

-- No fact is inconsistent any more, and the counter says that one is.
add_tuple-IsCounted_example :
    IsCounted (add_tuple relation_q (fact (4 ∷ 8 ∷ []) TruthValue.false)).0
unfolding add_tuple merge_value find set_value count_of disjunction_wrt_ordering
add_tuple-IsCounted_example =
    add_tuple-IsCounted relation_q (fact (4 ∷ 8 ∷ []) TruthValue.false) (λ e. cc) refl (omega arith)
