-- ===== src/Truth/Laws.antt =====
-- The tables against two orders. In the truth order false < unknown < incons < true the
-- connectives are the greater and the lesser value. In the knowledge order a value says what is
-- told for a fact and what is told against it.
use fovris.Prelude.{max, min, ◌≡◌, ◌↔◌, Bool, true, false, ◌||◌, arith}
use fovris.Truth.{
  TruthValue, code, negation, disjunction, conjunction, disjunction_wrt_ordering, same,
}

-- What is told for a fact with the value, and what is told against it.
abbrev pub told_for : TruthValue → Bool
told_for TruthValue.true = true
told_for TruthValue.incons = true
told_for _ = false

abbrev pub told_against : TruthValue → Bool
told_against TruthValue.false = true
told_against TruthValue.incons = true
told_against _ = false

-- Disjunction is the greater and conjunction the lesser of two values in the truth order
-- false < unknown < incons < true.
connectives-truth_order :
    (a b : TruthValue)
    → (code (disjunction a b) ≡ max (code a) (code b))
      × (code (conjunction a b) ≡ min (code a) (code b))
unfolding disjunction conjunction
connectives-truth_order a b = ground arith

-- The disjunction with respect to the knowledge order collects what is told for and against the
-- fact by either value; negation exchanges the two.
knowledge_join :
    (a b : TruthValue)
    → (told_for (disjunction_wrt_ordering a b) ≡ told_for a || told_for b)
      × (told_against (disjunction_wrt_ordering a b) ≡ told_against a || told_against b)
      × (told_for (negation a) ≡ told_against a)
      × (told_against (negation a) ≡ told_for a)
unfolding disjunction_wrt_ordering negation
knowledge_join a b = ground arith

pub eq_of_told :
    (a b : TruthValue) → told_for a ≡ told_for b → told_against a ≡ told_against b → a ≡ b
eq_of_told a b p q = ground arith

pub same_iff : (a b : TruthValue) → (same a b ≡ true) ↔ (a ≡ b)
same_iff a b = ground arith
