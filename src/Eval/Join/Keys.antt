-- ===== src/Eval/Join/Keys.antt =====
-- The comparisons of a join are one total order on the keys of the facts: the lists of their values
-- at the positions of the join.
use fovris.Prelude.{
  ℕ, ltb, ◌==◌, ◌≡◌, ◌⊎◌, inl, inr, refl, ◌↔◌, Bool, true, false, if◌then◌else◌, List, [], ◌∷◌, map,
  all, arith, not,
}
use fovris.Kb.Term.{Terms, is_null}
use fovris.Eval.Selection.{at}
use fovris.Eval.Join.{
  Join, left_indices, right_indices, Comparison, less, equal, greater, compare_without_null,
  compare_terms, joinable_without_null, joinable, tuple_less,
}

-- The lexicographic order on keys.
pub key_order : List ℕ → List ℕ → Comparison
key_order [] [] = equal
key_order [] (y ∷ ys) = less
key_order (x ∷ xs) [] = greater
key_order (x ∷ xs) (y ∷ ys) = if x == y then key_order xs ys else if ltb x y then less else greater

abbrev pub key : List ℕ → Terms → List ℕ
key is terms = map (at terms) is

abbrev pub is_less : Comparison → Bool
is_less less = true
is_less _ = false

abbrev pub is_equal : Comparison → Bool
is_equal equal = true
is_equal _ = false

pub Comparison-cases : (c : Comparison) → (c ≡ less) ⊎ (c ≡ equal) ⊎ (c ≡ greater)
Comparison-cases less = inl refl
Comparison-cases equal = inr (inl refl)
Comparison-cases greater = inr (inr refl)

pub greater-above :
    (x y z : List ℕ)
    → key_order x y ≡ greater
    → is_less (key_order z x) ≡ false
    → key_order z y ≡ greater
unfolding key_order
greater-above [] [] z h k = cc
greater-above [] (b ∷ y) z h k = cc
greater-above (a ∷ x) [] [] h k = cc
greater-above (a ∷ x) [] (c ∷ z) h k = refl
greater-above (a ∷ x) (b ∷ y) [] h k = cc
greater-above (a ∷ x) (b ∷ y) (c ∷ z) h k = ground (arith, greater-above x y z)

pub less-below :
    (x y z : List ℕ) → key_order x y ≡ less → is_less (key_order z y) ≡ false → key_order x z ≡ less
unfolding key_order
less-below [] [] z h k = cc
less-below [] (b ∷ y) [] h k = cc
less-below [] (b ∷ y) (c ∷ z) h k = refl
less-below (a ∷ x) [] z h k = cc
less-below (a ∷ x) (b ∷ y) [] h k = cc
less-below (a ∷ x) (b ∷ y) (c ∷ z) h k = ground (arith, less-below x y z)

pub key_order-equal : (x y : List ℕ) → (key_order x y ≡ equal) ↔ (x ≡ y)
unfolding key_order
key_order-equal [] [] = ground arith
key_order-equal [] (b ∷ y) = ground arith
key_order-equal (a ∷ x) [] = ground arith
key_order-equal (a ∷ x) (b ∷ y) = ground (arith, key_order-equal x y)

pub compare_without_null-key :
    (j : Join) (a b : Terms)
    → compare_without_null j a b ≡ key_order (key (left_indices j) a) (key (right_indices j) b)
unfolding compare_without_null key_order
compare_without_null-key [] a b = refl
compare_without_null-key (p ∷ j) a b = ground (arith, compare_without_null-key j a b)

pub joinable_without_null-key :
    (j : Join) (a b : Terms) → joinable_without_null j a b ≡ is_equal (compare_without_null j a b)
unfolding joinable_without_null compare_without_null
joinable_without_null-key [] a b = refl
joinable_without_null-key (p ∷ j) a b = ground (arith, joinable_without_null-key j a b)

pub tuple_less-key :
    (is : List ℕ) (a b : Terms) → tuple_less is a b ≡ is_less (key_order (key is a) (key is b))
unfolding tuple_less key_order
tuple_less-key [] a b = refl
tuple_less-key (i ∷ is) a b = ground (arith, tuple_less-key is a b)

-- The fact has no null term at the positions.
abbrev pub no_null : List ℕ → Terms → Bool
no_null is terms = all (λ i. not (is_null (at terms i))) is

pub compare_terms-no_null :
    (j : Join) (a b : Terms)
    → no_null (left_indices j) a ≡ true
    → no_null (right_indices j) b ≡ true
    → (compare_terms j a b ≡ compare_without_null j a b)
      × (joinable j a b ≡ joinable_without_null j a b)
unfolding compare_terms compare_without_null joinable joinable_without_null
compare_terms-no_null [] a b h k = (refl, refl)
compare_terms-no_null (p ∷ j) a b h k = ground (arith, compare_terms-no_null j a b)

pub key_order-flip : (x y : List ℕ) → key_order x y ≡ greater → key_order y x ≡ less
unfolding key_order
key_order-flip [] [] h = cc
key_order-flip [] (b ∷ y) h = cc
key_order-flip (a ∷ x) [] h = refl
key_order-flip (a ∷ x) (b ∷ y) h = ground (arith, key_order-flip x y)

pub greater-below :
    (x y z : List ℕ)
    → key_order x y ≡ greater
    → is_less (key_order y z) ≡ false
    → key_order x z ≡ greater
unfolding key_order
greater-below [] [] z h k = cc
greater-below [] (b ∷ y) z h k = cc
greater-below (a ∷ x) [] [] h k = refl
greater-below (a ∷ x) [] (c ∷ z) h k = cc
greater-below (a ∷ x) (b ∷ y) [] h k = refl
greater-below (a ∷ x) (b ∷ y) (c ∷ z) h k = ground (arith, greater-below x y z)

pub key_antisymm :
    (x y : List ℕ) → is_less (key_order x y) ≡ false → is_less (key_order y x) ≡ false → x ≡ y
key_antisymm x y h k =
    ground (arith, Comparison-cases (key_order x y), key_order-flip x y, key_order-equal x y)
