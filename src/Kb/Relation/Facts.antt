-- ===== src/Kb/Relation/Facts.antt =====
-- The facts of a relation as a map from terms to values: what adding a tuple does to it.
use fovris.Prelude.{
  ◌≡◌, refl, true, false, if◌then◌else◌, [], ◌∷◌, ◌++◌, Option, none, some, arith, Option-cases,
  inl, inr,
}
use fovris.Truth.{TruthValue, disjunction_wrt_ordering}
use fovris.Truth.Laws.{same_iff}
use fovris.Kb.Term.{Terms, array_eq, array_eq_iff}
use fovris.Kb.Tuple.{KbTuple}
use fovris.Kb.Relation.{
  FactsPool, find, set_value, KbRelation, merge_value, add_tuple, merge_edb_value, add_edb_tuple,
}

-- The value of a fact after `value` was told in addition to what is known.
abbrev pub told : Option TruthValue → TruthValue → TruthValue
told none value = value
told (some prev) value = disjunction_wrt_ordering prev value

-- The value of a fact that is there becomes `v`.
abbrev pub replace : Option TruthValue → TruthValue → Option TruthValue
replace none v = none
replace (some _) v = some v

pub find-set_value :
    (p : FactsPool) (k j : Terms) (v : TruthValue)
    → find (set_value p k v) j ≡ (if array_eq k j then replace (find p j) v else find p j)
unfolding find set_value
find-set_value [] k j v = ground arith
find-set_value (t ∷ p) k j v = ground (
  arith,
  find-set_value p k j v,
  array_eq_iff k j,
  array_eq_iff t.terms k,
  array_eq_iff t.terms j,
)

pub find-append :
    (p : FactsPool) (t : KbTuple) (k : Terms)
    → find (p ++ (t ∷ [])) k ≡ elim (find p k) [
      | some v ↦ some v
      | none ↦ if array_eq t.terms k then some t.value else none
    ]
unfolding find
find-append [] t k = ground arith
find-append (u ∷ p) t k = ground (arith, find-append p t k)

pub array_eq_refl : (k : Terms) → array_eq k k ≡ true
array_eq_refl k = (array_eq_iff k k).1 refl

find-merge_value :
    (r : KbRelation) (t : KbTuple) (prev : TruthValue) (k : Terms)
    → find r.facts t.terms ≡ some prev
    → find (merge_value r t prev).0.facts k ≡ (
        if array_eq t.terms k then some (disjunction_wrt_ordering prev t.value) else find r.facts k)
unfolding merge_value
find-merge_value r t prev k h =
    let new = disjunction_wrt_ordering prev t.value in
    ground (arith, find-set_value r.facts t.terms k new, array_eq_iff t.terms k, same_iff prev new)

-- `addTuple` tells the fact with the tuple's terms the tuple's value, whether it was there or not,
-- and leaves every other fact as it was.
pub find-add_tuple :
    (r : KbRelation) (t : KbTuple) (k : Terms)
    → find (add_tuple r t).0.facts k
      ≡ (if array_eq t.terms k then some (told (find r.facts k) t.value) else find r.facts k)
unfolding add_tuple
find-add_tuple r t k = elim (Option-cases (find r.facts t.terms)) [
  | inl e ↦ rw (e, add_tuple) (ground (arith, find-append r.facts t k, array_eq_iff t.terms k))
  | inr (prev, e) ↦
      rw (e, add_tuple) (ground (arith, find-merge_value r t prev k e, array_eq_iff t.terms k))
]

find-merge_edb_value :
    (r : KbRelation) (t : KbTuple) (prev : TruthValue) (k : Terms)
    → find r.edb_facts t.terms ≡ some prev
    → find (merge_edb_value r t prev).edb_facts k ≡ (
        if array_eq t.terms k
        then some (disjunction_wrt_ordering prev t.value)
        else find r.edb_facts k)
unfolding merge_edb_value
find-merge_edb_value r t prev k h =
    let new = disjunction_wrt_ordering prev t.value in
    ground
      (arith, find-set_value r.edb_facts t.terms k new, array_eq_iff t.terms k, same_iff prev new)

-- `addEdbTuple` does the same to the extensional facts, until the relation is finalized.
find-add_edb_tuple :
    (r : KbRelation) (t : KbTuple) (k : Terms)
    → r.finalized ≡ false
    → find (add_edb_tuple r t).edb_facts k ≡ (
        if array_eq t.terms k then some (told (find r.edb_facts k) t.value) else find r.edb_facts k)
unfolding add_edb_tuple
find-add_edb_tuple r t k open_ = elim (Option-cases (find r.edb_facts t.terms)) [
  | inl e ↦
      rw (open_, e, add_edb_tuple)
        (ground (arith, find-append r.edb_facts t k, array_eq_iff t.terms k))
  | inr (prev, e) ↦
      rw (open_, e, add_edb_tuple)
        (ground (arith, find-merge_edb_value r t prev k e, array_eq_iff t.terms k))
]
