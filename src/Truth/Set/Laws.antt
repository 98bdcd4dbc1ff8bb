-- ===== src/Truth/Set/Laws.antt =====
-- What the set operations do to the members of a set.
use fovris.Prelude.{◌≡◌, true, not, List, [], ◌∷◌, ◌||◌, any, arith, length}
use fovris.Truth.{TruthValue, negation, same}
use fovris.Truth.Set.{
  TruthValueSet, test, set_bit, set_all, empty, of_values, get_complement, get_negation, get_set,
  size,
}

-- The complement has a value exactly when the set does not.
pub test-get_complement :
    (s : TruthValueSet) (v : TruthValue) → test (get_complement s) v ≡ not (test s v)
unfolding get_complement
test-get_complement s v = ground arith

-- The negation of a set has a value exactly when the set has the value's negation.
pub test-get_negation :
    (s : TruthValueSet) (v : TruthValue) → test (get_negation s) v ≡ test s (negation v)
unfolding get_negation negation
test-get_negation s v = ground arith

test-set_bit :
    (s : TruthValueSet) (t v : TruthValue) → test (set_bit s t true) v ≡ test s v || same t v
unfolding test set_bit
test-set_bit s t v = ground arith

test-set_all :
    (s : TruthValueSet) (values : List TruthValue) (v : TruthValue)
    → test (set_all s values) v ≡ test s v || any (λ t. same t v) values
unfolding set_all
test-set_all s [] v = ground arith
test-set_all s (t ∷ values) v =
    ground (arith, test-set_all (set_bit s t true) values v, test-set_bit s t v)

-- A set built from a list has exactly the values of the list.
test-of_values :
    (values : List TruthValue) (v : TruthValue)
    → test (of_values values) v ≡ any (λ t. same t v) values
unfolding of_values test
test-of_values values v = ground (arith, test-set_all empty values v)

-- `getSet` lists a value exactly when the set has it, and as many values as `size` counts.
get_set_lem :
    (s : TruthValueSet) (v : TruthValue)
    → (any (λ t. same t v) (get_set s) ≡ test s v) × (length (get_set s) ≡ size s)
unfolding get_set size
get_set_lem s v = ground arith
