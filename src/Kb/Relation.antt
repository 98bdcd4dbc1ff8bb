-- ===== src/Kb/Relation.antt =====
-- src/KB/KBRelation.h and src/KB/KBRelation.cc: a relation's facts, its extensional facts and the
-- counters of inconsistent facts. A `FactsPool` is a Boost container of tuples in insertion order
-- with a unique index on their terms: `push_back` refuses a tuple whose terms are there, and
-- `modify` changes the one tuple that was found.
pub mod Facts
pub mod Incons
pub mod Reset
use fovris.Prelude.{
  ℕ, ◌+◌, ◌-◌, ◌%◌, Bool, true, false, not, if◌then◌else◌, ◌&&◌, List, [], ◌∷◌, ◌++◌, Option, none,
  some, length,
}
use fovris.Truth.{TruthValue, same, disjunction_wrt_ordering}
use fovris.Kb.Term.{Terms, array_eq}
use fovris.Kb.Tuple.{KbTuple}

abbrev pub FactsPool : Type 0
FactsPool = List KbTuple

-- The value of the tuple with the terms, through the unique index.
unfoldable pub find : FactsPool → Terms → Option TruthValue
find [] k = none
find (t ∷ ts) k = if array_eq t.terms k then some t.value else find ts k

-- `modify` at the tuple with the terms.
unfoldable pub set_value : FactsPool → Terms → TruthValue → FactsPool
set_value [] k v = []
set_value (t ∷ ts) k v =
    if array_eq t.terms k then record t { value = v } ∷ ts else t ∷ set_value ts k v

-- `unsigned` counters.
abbrev pub u32_mod : ℕ
u32_mod = 0x100000000

abbrev pub incr : ℕ → ℕ
incr n = (n + 1) % u32_mod

abbrev pub decr : ℕ → ℕ
decr n = (n + u32_mod - 1) % u32_mod

pub record KbRelation : Type 0 where
  pub facts : FactsPool
  pub edb_facts : FactsPool
  pub incons_facts_number : ℕ
  pub edb_incons_facts_number : ℕ
  pub finalized : Bool

-- `prevValue != Incons && newValue == Incons`
abbrev pub turns_incons : TruthValue → TruthValue → Bool
turns_incons prev new = not (same prev TruthValue.incons) && same new TruthValue.incons

-- `addTuple` where the terms are there with the value `prev`.
unfoldable pub merge_value : KbRelation → KbTuple → TruthValue → KbRelation × (Bool × TruthValue)
merge_value r t prev =
    let new = disjunction_wrt_ordering prev t.value in
    let facts' = set_value r.facts t.terms new in
    if same prev new
    then (r, (false, prev))
    else if turns_incons prev new
    then (
      record r { facts = facts'; incons_facts_number = incr r.incons_facts_number },
      (true, TruthValue.incons),
    )
    else (record r { facts = facts' }, (false, prev))

-- `addTuple`: the new relation, and the pair that it returns.
unfoldable pub add_tuple : KbRelation → KbTuple → KbRelation × (Bool × TruthValue)
unfolding merge_value
add_tuple r t = elim (find r.facts t.terms) [
  | some prev ↦ merge_value r t prev
  | none ↦ (record r { facts = r.facts ++ (t ∷ []) }, (true, t.value))
]

-- `addEdbTuple` where the terms are there with the value `prev`.
merge_edb_value : KbRelation → KbTuple → TruthValue → KbRelation
merge_edb_value r t prev =
    let new = disjunction_wrt_ordering prev t.value in
    let facts' = set_value r.edb_facts t.terms new in
    if same prev new
    then r
    else if turns_incons prev new
    then record r { edb_facts = facts'; edb_incons_facts_number = incr r.edb_incons_facts_number }
    else record r { edb_facts = facts' }

unfoldable pub add_edb_tuple : KbRelation → KbTuple → KbRelation
unfolding merge_edb_value
add_edb_tuple r t = if r.finalized then r else elim (find r.edb_facts t.terms) [
  | some prev ↦ merge_edb_value r t prev
  | none ↦ record r { edb_facts = r.edb_facts ++ (t ∷ []) }
]

unfoldable pub finalize : KbRelation → KbRelation
finalize r = if r.finalized then r else record r {
  facts = r.edb_facts;
  finalized = true;
  incons_facts_number = r.edb_incons_facts_number;
}

-- The body of `clearIncons` at terms that may be there: `it` still stands at the tuple when its value
-- is tested after `modify`.
clear_terms : KbRelation → Terms → KbRelation
clear_terms r k = elim (find r.facts k) [
  | none ↦ r
  | some v ↦
      let facts' = set_value r.facts k TruthValue.unknown in
      if same v TruthValue.unknown then r else elim (find facts' k) [
        | some TruthValue.incons ↦ record r {
          facts = facts';
          incons_facts_number = decr r.incons_facts_number;
        }
        | _ ↦ record r { facts = facts' }
      ]
]

-- One round of `clearIncons`.
clear_one : KbRelation → KbTuple → KbRelation
clear_one r t = if same t.value TruthValue.incons then clear_terms r t.terms else r

unfoldable pub clear_incons : KbRelation → FactsPool → KbRelation
unfolding clear_one clear_terms
clear_incons r [] = r
clear_incons r (t ∷ removed) = clear_incons (clear_one r t) removed

-- `inconsFactsNumber_++` of `addIncons`.
abbrev count_incons : KbRelation → KbRelation
count_incons r = record r { incons_facts_number = incr r.incons_facts_number }

-- One round of `addIncons`.
add_one_incons : KbRelation → KbTuple → KbRelation
add_one_incons r t = if same t.value TruthValue.incons then count_incons (add_tuple r t).0 else r

unfoldable pub add_incons : KbRelation → FactsPool → KbRelation
unfolding add_one_incons
add_incons r [] = r
add_incons r (t ∷ added) = add_incons (add_one_incons r t) added

unfoldable pub clear : KbRelation → KbRelation
clear r = record r { facts = r.edb_facts; incons_facts_number = r.edb_incons_facts_number }

unfoldable pub remove : KbRelation → KbTuple → KbRelation × Bool
remove r t = elim (find r.facts t.terms) [
  | some _ ↦ (record r { facts = set_value r.facts t.terms TruthValue.unknown }, true)
  | none ↦ (r, false)
]
