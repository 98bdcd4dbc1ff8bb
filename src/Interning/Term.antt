-- ===== src/Interning/Term.antt =====
-- include/fovris/Term.h and src/Term.cc: the terms of the interface, with the time points of
-- include/fovris/DateTime.h. A `std::string` is the list of its characters. `R` is the type `double`
-- with its `==` and `<`. `none` stands for an exception of the constructor.
use fovris.Prelude.{ℕ, ltb, ◌==◌, ◌&&◌, ◌||◌, Bool, true, false, List, [], ◌∷◌, Option, none, some}
use fovris.Truth.{TruthValue}
use fovris.Kb.Function.{TermType}
use fovris.Interning.Integers.{ℤ, int_eq}

abbrev pub String : Type 0
String = List ℕ

abbrev pub string_eq : String → String → Bool
string_eq [] [] = true
string_eq (x ∷ a) (y ∷ b) = x == y && string_eq a b
string_eq _ _ = false

abbrev pub string_lt : String → String → Bool
string_lt [] [] = false
string_lt [] (y ∷ b) = true
string_lt (x ∷ a) [] = false
string_lt (x ∷ a) (y ∷ b) = ltb x y || (x == y && string_lt a b)

-- A time point, in the ticks of the clock.
pub record Date : Type 0 where
  pub tp : ℤ

pub record DateTime : Type 0 where
  pub tp : ℤ

-- `Date::operator==`
abbrev pub date_eq : Date → Date → Bool
date_eq a b = int_eq a.tp b.tp

-- `DateTime::operator==`
abbrev pub date_time_eq : DateTime → DateTime → Bool
date_time_eq a b = int_eq a.tp b.tp

pub data Term (R : Type 0) : Type 0 where
  integer : ℤ → Term R
  real : R → Term R
  logic : TruthValue → Term R
  string id var : String → Term R
  date : Date → Term R
  date_time : DateTime → Term R

module _ {R : Type 0} where
  abbrev pub get_type : Term R → TermType
  get_type (integer i) = TermType.integer
  get_type (real d) = TermType.real
  get_type (logic t) = TermType.logic
  get_type (string s) = TermType.string
  get_type (id s) = TermType.id
  get_type (var s) = TermType.var
  get_type (date d) = TermType.date
  get_type (date_time d) = TermType.date_time

  -- `Term(const std::string &, TermType)`
  unfoldable pub string_term : String → TermType → Option (Term R)
  string_term s TermType.string = some (string s)
  string_term s TermType.id = some (id s)
  string_term s TermType.var = some (var s)
  string_term s _ = none
