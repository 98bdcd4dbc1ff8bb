-- ===== src/Store/Checks.antt =====
-- The checks of terms and literals at the start of src/KnowledgeBase.cc. The map from variables to what
-- is known of them, `std::map<Term, VarInfo>`, is a list of entries with the names of the variables:
-- its keys are all variables, and `operator<` orders variables by their names.
pub mod Summary
pub mod Variables
use fovris.Prelude.{
  ℕ, zero, suc, ◌==◌, ◌&&◌, ◌||◌, not, if◌then◌else◌, Bool, true, false, List, [], ◌∷◌, Option,
  none, some, length, all, Result, ok, err, ◌>>=◌, ltb, leb,
}
use fovris.Kb.Function.{TermType}
use fovris.Interning.Term.{
  Term, integer, real, logic, string, id, var, date, date_time, get_type, String, string_eq,
}
use fovris.Api.{Exception, is_var, Literal, RuleLiteral, RelationDef, is_function}

-- The enumerators of `TermType` by their numbers.
abbrev pub type_code : TermType → ℕ
type_code TermType.integer = 0
type_code TermType.real = 1
type_code TermType.logic = 2
type_code TermType.string = 3
type_code TermType.id = 4
type_code TermType.date = 5
type_code TermType.date_time = 6
type_code TermType.var = 7

abbrev pub type_eq : TermType → TermType → Bool
type_eq a b = type_code a == type_code b

pub record VarInfo : Type 0 where
  pub type : TermType
  pub satisfied : Bool

abbrev pub VarDiff : Type 0
VarDiff = List (String × VarInfo)

-- `find`
unfoldable pub find_var : VarDiff → String → Option VarInfo
find_var [] x = none
find_var ((y, info) ∷ m) x = if string_eq y x then some info else find_var m x

-- `varDiff[term].satisfied = true`
unfoldable pub set_satisfied : VarDiff → String → VarDiff
set_satisfied [] x = []
set_satisfied ((y, info) ∷ m) x =
    if string_eq y x
    then (y, record info { satisfied = true }) ∷ m
    else (y, info) ∷ set_satisfied m x

-- The body of the loop of `calcVarDiff` at a variable.
unfoldable pub calc_var : VarDiff → String → TermType → Bool → Result Exception VarDiff
unfolding find_var set_satisfied
calc_var m x type safe = elim (find_var m x) [
  | none ↦ ok ((x, record { type = type; satisfied = safe }) ∷ m)
  | some info ↦
      let m' = if safe then set_satisfied m x else m in
      if type_eq info.type type then ok m' else err Exception.invalid_input
]

-- The word characters of the regular expressions of src/Term.cc, in the C locale.
abbrev is_lower : ℕ → Bool
is_lower c = leb 97 c && leb c 122

abbrev is_upper : ℕ → Bool
is_upper c = leb 65 c && leb c 90

abbrev is_word : ℕ → Bool
is_word c = is_lower c || is_upper c || (leb 48 c && leb c 57) || c == 95

-- `regex_match` with `[a-z_]+[\w_]*`, and with `[A-Z]\w*`.
abbrev matches_id_regex : String → Bool
matches_id_regex [] = false
matches_id_regex (c ∷ s) = (is_lower c || c == 95) && all is_word s

abbrev matches_var_regex : String → Bool
matches_var_regex [] = false
matches_var_regex (c ∷ s) = is_upper c && all is_word s

abbrev pub comparable : TermType → TermType → Bool
comparable TermType.integer TermType.real = true
comparable TermType.real TermType.integer = true
comparable a b = type_eq a b

-- `relDefMap`, from the names of the relations of a module to their definitions.
unfoldable pub find_def : List RelationDef → String → Option RelationDef
find_def [] x = none
find_def (d ∷ defs) x = if string_eq d.predicate_symbol x then some d else find_def defs x

module _ {R : Type 0} where
  -- The loop of `calcVarDiff`.
  unfoldable pub calc_var_loop :
      List (Term R) → List TermType → Bool → VarDiff → Result Exception VarDiff
  unfolding calc_var
  calc_var_loop [] types safe m = ok m
  calc_var_loop (t ∷ terms) [] safe m = ok m
  calc_var_loop (var x ∷ terms) (type ∷ types) safe m =
      calc_var m x type safe >>= calc_var_loop terms types safe
  calc_var_loop (_ ∷ terms) (type ∷ types) safe m = calc_var_loop terms types safe m

  unfoldable pub calc_var_diff :
      List (Term R) → List TermType → VarDiff → Bool → Result Exception VarDiff
  unfolding calc_var_loop
  calc_var_diff terms types m safe =
      if length terms == length types
      then calc_var_loop terms types safe m
      else err Exception.assertion_failed

  -- The loop of `checkDomainsTerms`, where the sizes agree.
  unfoldable pub fits_columns : List TermType → List (Term R) → Bool
  fits_columns (type ∷ types) (t ∷ terms) =
      (is_var t || type_eq type (get_type t)) && fits_columns types terms
  fits_columns _ _ = true

  unfoldable pub check_domains_terms : List TermType → List (Term R) → Result Exception Unit
  unfolding fits_columns
  check_domains_terms types terms =
      if length types == length terms && fits_columns types terms
      then ok tt
      else err Exception.invalid_input

  -- `CanBe`
  unfoldable pub can_be : Term R → TermType → Bool
  can_be t type = type_eq (get_type t) type || string_can_be t type
    where
      string_can_be : Term R → TermType → Bool
      string_can_be (string s) TermType.id = matches_id_regex s
      string_can_be (string s) TermType.var = matches_var_regex s
      string_can_be _ _ = false

  -- The loop of `checkDomainsGroundTerms`, where the sizes agree.
  unfoldable pub fits_ground : List TermType → List (Term R) → Bool
  unfolding can_be
  fits_ground (type ∷ types) (t ∷ terms) =
      (type_eq type (get_type t) || can_be t type) && fits_ground types terms
  fits_ground _ _ = true

  unfoldable pub check_domains_ground_terms : List TermType → List (Term R) → Result Exception Unit
  unfolding fits_ground
  check_domains_ground_terms types terms =
      if length types == length terms && fits_ground types terms
      then ok tt
      else err Exception.invalid_input

  -- The type of an argument of a built-in predicate, with `getTermTypeFromMap` for a variable.
  unfoldable pub argument_type : Term R → VarDiff → Result Exception TermType
  unfolding find_var
  argument_type (var x) m = elim (find_var m x) [
    | none ↦ err Exception.invalid_input
    | some info ↦ ok info.type
  ]
  argument_type t m = ok (get_type t)

  -- `checkTermsForBuiltinPredicate`
  unfoldable pub check_terms_for_builtin_predicate :
      Term R → Term R → VarDiff → Result Exception Unit
  unfolding argument_type
  check_terms_for_builtin_predicate t u m = do
    a ← argument_type t m
    b ← argument_type u m
    if comparable a b then ok tt else err Exception.invalid_input

  -- `checkFunction`
  unfoldable pub check_function : RuleLiteral R → VarDiff → Result Exception Unit
  unfolding check_terms_for_builtin_predicate
  check_function l m = if not l.is_builtin_function then ok tt else elim l.literal.terms [
    | t ∷ u ∷ [] ↦ check_terms_for_builtin_predicate t u m
    | _ ↦ err Exception.invalid_input
  ]

  -- `checkLiteral`, of a head.
  unfoldable pub check_literal : List RelationDef → Literal R → Result Exception RelationDef
  unfolding find_def check_domains_terms
  check_literal defs l = elim (find_def defs l.predicate_symbol) [
    | none ↦ err Exception.invalid_input
    | some d ↦ check_domains_terms d.types l.terms >>= λ fits. ok d
  ]

  -- `checkLiteral`, of a literal in a body.
  unfoldable pub check_body_literal : List RelationDef → RuleLiteral R → Result Exception Unit
  unfolding find_def check_literal
  check_body_literal defs l = elim (find_def defs l.literal.predicate_symbol) [
    | none ↦ if is_function l then ok tt else err Exception.invalid_input
    | some d ↦ check_literal defs l.literal >>= λ found. ok tt
  ]

  -- `checkFact`
  unfoldable pub check_fact : List RelationDef → Literal R → Result Exception Unit
  unfolding find_def check_domains_ground_terms
  check_fact defs l = elim (find_def defs l.predicate_symbol) [
    | none ↦ err Exception.invalid_input
    | some d ↦ check_domains_ground_terms d.types l.terms
  ]
