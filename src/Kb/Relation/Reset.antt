-- ===== src/Kb/Relation/Reset.antt =====
-- The extensional facts of a relation that is finalized: what is done to the relation never changes them, and
-- `clear` goes back to them.
use fovris.Prelude.{◌≡◌, refl, true, false, [], ◌∷◌, arith}
use fovris.Kb.Tuple.{KbTuple}
use fovris.Kb.Relation.{
  FactsPool, KbRelation, merge_value, add_tuple, add_edb_tuple, finalize, clear_terms, clear_one,
  clear_incons, add_one_incons, add_incons, clear, remove,
}

-- The operations that change a relation.
pub data Step : KbRelation → KbRelation → Type 0 where
  adds : {r : KbRelation} (t : KbTuple) → Step r (add_tuple r t).0
  adds_edb : {r : KbRelation} (t : KbTuple) → Step r (add_edb_tuple r t)
  finalizes : {r : KbRelation} → Step r (finalize r)
  clears_incons : {r : KbRelation} (removed : FactsPool) → Step r (clear_incons r removed)
  adds_incons : {r : KbRelation} (added : FactsPool) → Step r (add_incons r added)
  clears : {r : KbRelation} → Step r (clear r)
  removes : {r : KbRelation} (t : KbTuple) → Step r (remove r t).0

-- What becomes of a relation by any sequence of them.
pub data Becomes (r : KbRelation) : KbRelation → Type 0 where
  here : Becomes r r
  next : {s u : KbRelation} → Becomes r s → Step s u → Becomes r u

-- A relation has these extensional facts, and is finalized.
abbrev HasBase : KbRelation → KbRelation → Type 0
HasBase r s =
    (s.edb_facts ≡ r.edb_facts)
    × (s.edb_incons_facts_number ≡ r.edb_incons_facts_number)
    × (s.finalized ≡ true)

add_tuple-HasBase : (r s : KbRelation) (t : KbTuple) → HasBase r s → HasBase r (add_tuple s t).0
unfolding add_tuple merge_value
add_tuple-HasBase r s t h = ground arith

clear_one-HasBase : (r s : KbRelation) (t : KbTuple) → HasBase r s → HasBase r (clear_one s t)
unfolding clear_one clear_terms
clear_one-HasBase r s t h = ground arith

clear_incons-HasBase :
    (r s : KbRelation) (removed : FactsPool) → HasBase r s → HasBase r (clear_incons s removed)
unfolding clear_incons
clear_incons-HasBase r s [] h = h
clear_incons-HasBase r s (t ∷ removed) h =
    clear_incons-HasBase r (clear_one s t) removed (clear_one-HasBase r s t h)

add_one_incons-HasBase :
    (r s : KbRelation) (t : KbTuple) → HasBase r s → HasBase r (add_one_incons s t)
unfolding add_one_incons
add_one_incons-HasBase r s t h = ground (arith, add_tuple-HasBase r s t h)

add_incons-HasBase :
    (r s : KbRelation) (added : FactsPool) → HasBase r s → HasBase r (add_incons s added)
unfolding add_incons
add_incons-HasBase r s [] h = h
add_incons-HasBase r s (t ∷ added) h =
    add_incons-HasBase r (add_one_incons s t) added (add_one_incons-HasBase r s t h)

Step-HasBase : (r : KbRelation) {s u : KbRelation} → Step s u → HasBase r s → HasBase r u
unfolding add_edb_tuple finalize clear remove
Step-HasBase r (adds {r = s} t) h = add_tuple-HasBase r s t h
Step-HasBase r (adds_edb {r = s} t) h = ground arith
Step-HasBase r finalizes h = ground arith
Step-HasBase r (clears_incons {r = s} removed) h = clear_incons-HasBase r s removed h
Step-HasBase r (adds_incons {r = s} added) h = add_incons-HasBase r s added h
Step-HasBase r clears h = h
Step-HasBase r (removes {r = s} t) h = ground arith

Becomes-HasBase : (r : KbRelation) {s u : KbRelation} → Becomes s u → HasBase r s → HasBase r u
Becomes-HasBase r here h = h
Becomes-HasBase r (next b step) h = Step-HasBase r step (Becomes-HasBase r b h)

-- Whatever is done to a relation after `finalize`, by any sequence of the operations, `clear` makes of it what
-- `finalize` had made: the extensional facts and their number of inconsistent ones.
pub clear-finalize :
    (r s : KbRelation) → r.finalized ≡ false → Becomes (finalize r) s → clear s ≡ finalize r
unfolding finalize clear
clear-finalize r s h b =
    let base : HasBase r s = Becomes-HasBase r b (rw h (refl, refl, refl)) in
    rw (base.0, base.1, base.2, h)
