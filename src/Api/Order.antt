-- ===== src/Api/Order.antt =====
-- The comparisons of src/Term.cc. `none` stands for the comparison of strings through the union of a term
-- that holds none, a date or a time.
pub mod Laws
use mathlib.Core.Option as Option
use fovris.Prelude.{
  ◌==◌, ltb, ◌&&◌, ◌||◌, not, Bool, true, false, if◌then◌else◌, Option, none, some,
}
use fovris.Truth.{TruthValue, code}
use fovris.Interning.Integers.{int_eq, int_lt}
use fovris.Interning.Term.{
  Term, integer, real, logic, string, id, var, date, date_time, get_type, String, string_eq,
  string_lt,
}
use fovris.Store.Checks.{type_code, type_eq}

-- A comparison of two strings, where there are two.
abbrev both : (String → String → Bool) → Option String → Option String → Option Bool
both compares (some a) (some b) = some (compares a b)
both compares _ _ = none

module _ {R : Type 0} where
  -- `*val_.s_`
  abbrev text : Term R → Option String
  text (string s) = some s
  text (id s) = some s
  text (var s) = some s
  text _ = none

module _ {R : Type 0} (real_eq real_lt : R → R → Bool) where
  -- The `switch` of `operator==`, by the type of the first term.
  abbrev equal_value : Term R → Term R → Option Bool
  equal_value (integer a) (integer b) = some (int_eq a b)
  equal_value (real a) (real b) = some (real_eq a b)
  equal_value (logic a) (logic b) = some (code a == code b)
  equal_value t u = both string_eq (text t) (text u)

  -- `operator==`: terms of different types are compared where one is a string and the other's type is after
  -- the strings'.
  unfoldable pub term_equal : Term R → Term R → Option Bool
  term_equal t u =
      let a = type_code (get_type t) in
      let b = type_code (get_type u) in
      if not (a == b) && (ltb b 3 || ltb a 3)
      then some false
      else if not (a == b) && (ltb 3 b && ltb 3 a)
      then some false
      else equal_value t u

  -- `operator!=`
  unfoldable pub term_not_equal : Term R → Term R → Option Bool
  unfolding term_equal
  term_not_equal t u = Option.map not (term_equal t u)

  -- The `switch` of `operator<`.
  abbrev pub less_value : Term R → Term R → Option Bool
  less_value (integer a) (integer b) = some (int_lt a b)
  less_value (real a) (real b) = some (real_lt a b)
  less_value (logic a) (logic b) = some (ltb (code a) (code b))
  less_value t u = both string_lt (text t) (text u)

  -- `operator<`
  unfoldable pub term_less : Term R → Term R → Option Bool
  term_less t u =
      if not (type_eq (get_type u) (get_type t))
      then some (ltb (type_code (get_type t)) (type_code (get_type u)))
      else less_value t u

  -- `operator>`
  unfoldable pub term_greater : Term R → Term R → Option Bool
  unfolding term_less
  term_greater t u = Option.map not (term_less t u)
