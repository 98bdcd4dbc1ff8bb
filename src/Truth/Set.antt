-- ===== src/Truth/Set.antt =====
-- src/TruthValueSet.cc and include/fovris/TruthValueSet.h: the bit set of truth values that
-- constrains an external literal, one field for each bit.
pub mod Laws
use fovris.Prelude.{ℕ, ◌+◌, ◌==◌, Bool, true, false, not, if◌then◌else◌, List, [], ◌∷◌, length, all}
use fovris.Truth.{TruthValue}

pub record TruthValueSet : Type 0 where
  pub has_false : Bool
  pub has_unknown : Bool
  pub has_incons : Bool
  pub has_true : Bool

-- `set.test`
unfoldable pub test : TruthValueSet → TruthValue → Bool
test s TruthValue.false = s.has_false
test s TruthValue.unknown = s.has_unknown
test s TruthValue.incons = s.has_incons
test s TruthValue.true = s.has_true

-- `set.set`
unfoldable pub set_bit : TruthValueSet → TruthValue → Bool → TruthValueSet
set_bit s TruthValue.false b = record s { has_false = b }
set_bit s TruthValue.unknown b = record s { has_unknown = b }
set_bit s TruthValue.incons b = record s { has_incons = b }
set_bit s TruthValue.true b = record s { has_true = b }

abbrev pub empty : TruthValueSet
empty = record { has_false = false; has_unknown = false; has_incons = false; has_true = false }

-- The loop of the constructors.
set_all : TruthValueSet → List TruthValue → TruthValueSet
set_all s [] = s
set_all s (t ∷ values) = set_all (set_bit s t true) values

unfoldable pub of_values : List TruthValue → TruthValueSet
unfolding set_all set_bit
of_values values = set_all empty values

-- `for (auto val : {True, False, Incons, Unknown}) copy.set.set(val, !set.test(val))`
complement_loop : TruthValueSet → TruthValueSet → List TruthValue → TruthValueSet
complement_loop s copy [] = copy
complement_loop s copy (val ∷ vals) = complement_loop s (set_bit copy val (not (test s val))) vals

unfoldable pub get_complement : TruthValueSet → TruthValueSet
unfolding complement_loop set_bit test
get_complement s =
    complement_loop s s
      (TruthValue.true ∷ TruthValue.false ∷ TruthValue.incons ∷ TruthValue.unknown ∷ [])

unfoldable pub get_negation : TruthValueSet → TruthValueSet
unfolding set_bit test
get_negation s =
    if test s TruthValue.true
    then if test s TruthValue.false
      then s
      else set_bit (set_bit s TruthValue.true false) TruthValue.false true
    else if test s TruthValue.false
    then set_bit (set_bit s TruthValue.false false) TruthValue.true true
    else s

-- The loop of `getSet` over the codes 0 to 3.
collect : TruthValueSet → List TruthValue → List TruthValue
collect s [] = []
collect s (t ∷ ts) = if test s t then t ∷ collect s ts else collect s ts

unfoldable pub get_set : TruthValueSet → List TruthValue
unfolding collect test
get_set s =
    collect s (TruthValue.false ∷ TruthValue.unknown ∷ TruthValue.incons ∷ TruthValue.true ∷ [])

-- `set.count()`
unfoldable pub size : TruthValueSet → ℕ
size s = bit s.has_false + bit s.has_unknown + bit s.has_incons + bit s.has_true
  where
    bit : Bool → ℕ
    bit b = if b then 1 else 0

unfoldable pub is_empty : TruthValueSet → Bool
unfolding size
is_empty s = size s == 0
