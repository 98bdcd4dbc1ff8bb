-- ===== src/Api/Order/Laws.antt =====
-- The order of terms: it is the strict order that a map with terms as its keys asks for, dates and times apart.
use fovris.Prelude.{
  Option-cases, inl, inr, ℕ, ◌≡◌, refl, arith, ◌==◌, ltb, not, Bool, true, false, if◌then◌else◌, [],
  ◌∷◌, Option, some,
}
use fovris.Interning.Integers.{ℤ, pos, negsuc, int_lt}
use fovris.Interning.Term.{
  Term, integer, real, logic, string, id, var, date, date_time, get_type, String, string_lt,
}
use fovris.Store.Checks.{type_code}
use fovris.Api.Predicates.Types.{is_date}
use fovris.Api.Order.{less_value, term_less}

string_lt_irrefl : (s : String) → string_lt s s ≡ false
string_lt_irrefl [] = refl
string_lt_irrefl (x ∷ s) = ground (arith, string_lt_irrefl s)

string_lt_trans :
    (s t u : String) → string_lt s t ≡ true → string_lt t u ≡ true → string_lt s u ≡ true
string_lt_trans [] [] u h k = cc
string_lt_trans [] (y ∷ t) [] h k = cc
string_lt_trans [] (y ∷ t) (z ∷ u) h k = refl
string_lt_trans (x ∷ s) [] u h k = cc
string_lt_trans (x ∷ s) (y ∷ t) [] h k = cc
string_lt_trans (x ∷ s) (y ∷ t) (z ∷ u) h k = ground (arith, string_lt_trans s t u)

-- Two strings neither of which is less are equal.
string_lt_total : (s t : String) → string_lt s t ≡ false → string_lt t s ≡ false → s ≡ t
string_lt_total [] [] h k = refl
string_lt_total [] (y ∷ t) h k = cc
string_lt_total (x ∷ s) [] h k = cc
string_lt_total (x ∷ s) (y ∷ t) h k = ground (arith, string_lt_total s t)

int_lt_irrefl : (i : ℤ) → int_lt i i ≡ false
int_lt_irrefl (pos n) = ground arith
int_lt_irrefl (negsuc n) = ground arith

int_lt_trans : (i j k : ℤ) → int_lt i j ≡ true → int_lt j k ≡ true → int_lt i k ≡ true
int_lt_trans i j k h e = ground arith

module _ {R : Type 0} (real_eq real_lt : R → R → Bool) where
  term_less_irrefl :
      ((d : R) → real_lt d d ≡ false)
      → (t : Term R) → (term_less real_eq real_lt t t ≡ some true → ⊥)
  unfolding term_less
  term_less_irrefl h (integer i) = ground (arith, int_lt_irrefl i)
  term_less_irrefl h (real d) = ground (arith, h d)
  term_less_irrefl h (logic v) = ground arith
  term_less_irrefl h (string s) = ground (arith, string_lt_irrefl s)
  term_less_irrefl h (id s) = ground (arith, string_lt_irrefl s)
  term_less_irrefl h (var s) = ground (arith, string_lt_irrefl s)
  term_less_irrefl h (date d) = ground arith
  term_less_irrefl h (date_time d) = ground arith

  -- Among terms of one type.
  less_value_trans :
      ((a b c : R) → real_lt a b ≡ true → real_lt b c ≡ true → real_lt a c ≡ true)
      → (t u v : Term R) → (type_code (get_type t) == type_code (get_type u)) ≡ true
      → (type_code (get_type u) == type_code (get_type v)) ≡ true
      → less_value real_eq real_lt t u ≡ some true
      → less_value real_eq real_lt u v ≡ some true
      → less_value real_eq real_lt t v ≡ some true
  less_value_trans h (integer a) (integer b) (integer c) p q = ground (arith, int_lt_trans a b c)
  less_value_trans h (real a) (real b) (real c) p q = ground (arith, h a b c)
  less_value_trans h (logic a) (logic b) (logic c) p q = ground arith
  less_value_trans h (string a) (string b) (string c) p q = ground (arith, string_lt_trans a b c)
  less_value_trans h (id a) (id b) (id c) p q = ground (arith, string_lt_trans a b c)
  less_value_trans h (var a) (var b) (var c) p q = ground (arith, string_lt_trans a b c)
  less_value_trans h (date a) (date b) v p q = λ e f. cc
  less_value_trans h (date_time a) (date_time b) v p q = λ e f. cc
  less_value_trans h t u v p q = absurd (ground (arith, p, q))

-- First by type, then by value.
lexicographic :
    (a b c : ℕ) (x y z : Option Bool)
    → ((a == b) ≡ true → (b == c) ≡ true → x ≡ some true → y ≡ some true → z ≡ some true)
    → (if not (b == a) then some (ltb a b) else x) ≡ some true
    → (if not (c == b) then some (ltb b c) else y) ≡ some true
    → (if not (c == a) then some (ltb a c) else z) ≡ some true
lexicographic a b c x y z h e f = ground (arith, h)

module _ {R : Type 0} (real_eq real_lt : R → R → Bool) where
  -- The comparison is defined where the first term is no date or time.
  term_less_defined :
      (t u : Term R)
      → is_date (get_type t) ≡ false
      → (b : Bool) × (term_less real_eq real_lt t u ≡ some b)
  unfolding term_less
  term_less_defined t u h = elim (Option-cases (term_less real_eq real_lt t u)) [
    | inr defined ↦ defined
    | inl undefined ↦ absurd (ground (arith, undefined))
  ]

  -- `operator<` of terms that are no dates or times is defined, and is a strict order where `<` of `double`
  -- is one; two variables of which neither is less have one name, so that a map with variables as its keys is
  -- one from names. Two dates or two times are never compared to true, since that comparison is undefined.
  pub term_less-is_strict_order :
      ((d : R) → real_lt d d ≡ false)
      → ((a b c : R) → real_lt a b ≡ true → real_lt b c ≡ true → real_lt a c ≡ true)
      → ((t u : Term R)
          → is_date (get_type t) ≡ false
          → (b : Bool) × (term_less real_eq real_lt t u ≡ some b))
        × ((t : Term R) → term_less real_eq real_lt t t ≡ some true → ⊥)
        × ((t u v : Term R)
            → term_less real_eq real_lt t u ≡ some true
            → term_less real_eq real_lt u v ≡ some true
            → term_less real_eq real_lt t v ≡ some true)
        × ((x y : String)
            → term_less real_eq real_lt (var x) (var y) ≡ some false
            → term_less real_eq real_lt (var y) (var x) ≡ some false
            → x ≡ y)
  unfolding term_less
  term_less-is_strict_order irrefl trans = (
    term_less_defined,
    term_less_irrefl real_eq real_lt irrefl,
    (λ t u v.
        lexicographic (type_code (get_type t)) (type_code (get_type u)) (type_code (get_type v))
          (less_value real_eq real_lt t u) (less_value real_eq real_lt u v)
          (less_value real_eq real_lt t v) (less_value_trans real_eq real_lt trans t u v)),
    (λ x y e f. string_lt_total x y (ground (arith, e)) (ground (arith, f))),
  )
