-- ===== src/Kb/Relation/Incons.antt =====
-- Inconsistent facts: what `clearIncons` and `addIncons` do to the facts, and what becomes of the
-- counter `inconsFactsNumber_`.
use fovris.Prelude.{
  ℕ, ◌+◌, ◌<◌, ◌≡◌, ◌≢◌, refl, ◌∙◌, Bool, if◌then◌else◌, ◌&&◌, [], ◌∷◌, ◌++◌, some, arith,
  Option-cases, inl, inr, any,
}
use fovris.Truth.{TruthValue, same, disjunction_wrt_ordering}
use fovris.Truth.Laws.{same_iff}
use fovris.Kb.Term.{Terms, array_eq, array_eq_iff}
use fovris.Kb.Tuple.{KbTuple}
use fovris.Kb.Relation.{
  FactsPool, find, set_value, KbRelation, merge_value, add_tuple, clear_terms, clear_one,
  clear_incons, u32_mod,
}
use fovris.Kb.Relation.Facts.{find-set_value, replace}

-- The pool has the terms with the value `incons`.
abbrev pub lists_incons : FactsPool → Terms → Bool
lists_incons p k = any (λ t. same t.value TruthValue.incons && array_eq t.terms k) p

find-clear_one :
    (r : KbRelation) (t : KbTuple) (k : Terms)
    → find (clear_one r t).facts k ≡ (
        if same t.value TruthValue.incons && array_eq t.terms k
        then replace (find r.facts k) TruthValue.unknown
        else find r.facts k)
unfolding clear_one clear_terms
find-clear_one r t k = ground (
  arith,
  find-set_value r.facts t.terms k TruthValue.unknown,
  array_eq_iff t.terms k,
  λ (v : TruthValue). same_iff v TruthValue.unknown,
)

-- `clearIncons` makes unknown exactly the facts that are there and that the pool lists as
-- inconsistent.
pub find-clear_incons :
    (r : KbRelation) (removed : FactsPool) (k : Terms)
    → find (clear_incons r removed).facts k ≡ (
        if lists_incons removed k
        then replace (find r.facts k) TruthValue.unknown
        else find r.facts k)
unfolding clear_incons
find-clear_incons r [] k = refl
find-clear_incons r (t ∷ removed) k =
    ground (arith, find-clear_incons (clear_one r t) removed k, find-clear_one r t k)

clear_one-counter :
    (r : KbRelation) (t : KbTuple) → (clear_one r t).incons_facts_number ≡ r.incons_facts_number
unfolding clear_one clear_terms
clear_one-counter r t =
    ground (
      arith,
      find-set_value r.facts t.terms t.terms TruthValue.unknown,
      array_eq_iff t.terms t.terms,
    )

-- `clearIncons` leaves the counter of inconsistent facts as it was, whatever facts it makes unknown.
clear_incons-counter :
    (r : KbRelation) (removed : FactsPool)
    → (clear_incons r removed).incons_facts_number ≡ r.incons_facts_number
unfolding clear_incons
clear_incons-counter r [] = refl
clear_incons-counter r (t ∷ removed) =
    clear_incons-counter (clear_one r t) removed ∙ clear_one-counter r t

-- How many facts are inconsistent.
abbrev pub incons_of : TruthValue → ℕ
incons_of TruthValue.incons = 1
incons_of _ = 0

unfoldable pub count_of : FactsPool → ℕ
count_of [] = 0
count_of (t ∷ p) = incons_of t.value + count_of p

count_of-append :
    (p : FactsPool) (t : KbTuple) → count_of (p ++ (t ∷ [])) ≡ count_of p + incons_of t.value
unfolding count_of
count_of-append [] t = ground arith
count_of-append (u ∷ p) t = ground (arith, count_of-append p t)

count_of-set_value :
    (p : FactsPool) (k : Terms) (prev v : TruthValue)
    → find p k ≡ some prev
    → count_of (set_value p k v) + incons_of prev ≡ count_of p + incons_of v
unfolding count_of set_value find
count_of-set_value [] k prev v h = ground arith
count_of-set_value (t ∷ p) k prev v h = ground (arith, count_of-set_value p k prev v)

-- The counter says how many facts are inconsistent.
abbrev pub IsCounted : KbRelation → Type 0
IsCounted r = r.incons_facts_number ≡ count_of r.facts

merge_value-IsCounted :
    (r : KbRelation) (t : KbTuple) (prev : TruthValue)
    → find r.facts t.terms ≡ some prev
    → IsCounted r
    → count_of (merge_value r t prev).0.facts < u32_mod
    → IsCounted (merge_value r t prev).0
unfolding merge_value disjunction_wrt_ordering
merge_value-IsCounted r t prev e c small =
    let new = disjunction_wrt_ordering prev t.value in
    ground (arith, count_of-set_value r.facts t.terms prev new)

-- `addTuple` keeps the counter exact, if the tuple is not itself inconsistent and the number of
-- inconsistent facts fits the counter.
pub add_tuple-IsCounted :
    (r : KbRelation) (t : KbTuple)
    → t.value ≢ TruthValue.incons
    → IsCounted r
    → count_of (add_tuple r t).0.facts < u32_mod
    → IsCounted (add_tuple r t).0
unfolding add_tuple
add_tuple-IsCounted r t ne c = elim (Option-cases (find r.facts t.terms)) [
  | inl e ↦ rw (e, add_tuple) (λ small. ground (arith, count_of-append r.facts t))
  | inr (prev, e) ↦ rw (e, add_tuple) (merge_value-IsCounted r t prev e c)
]
