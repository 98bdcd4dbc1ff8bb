-- ===== src/Api/Predicates.antt =====
-- src/Pred/BinPredicateFunction.cc and the map of src/RuleLiteral.cc: the built-in predicates. `R` is the type
-- `double` with its `==`, its `<` and the conversion from `int`.
pub mod Types
use fovris.Prelude.{
  ◌==◌, ltb, ◌||◌, not, Bool, true, false, if◌then◌else◌, List, [], ◌∷◌, Option, none, some, Result,
  ok, err,
}
use fovris.Truth.{TruthValue, code}
use fovris.Interning.Integers.{ℤ, int_eq, int_lt}
use fovris.Interning.Term.{
  Term, integer, real, logic, string, id, var, date, date_time, String, string_eq, string_lt,
}
use fovris.Api.{Exception}

pub data BuiltinPredicate : Type 0 where
  lt le gt ge eq neq : BuiltinPredicate

-- `op` of `Less`, `LessEqual`, `Greater`, `GreaterEqual`, `EqualTo` and `NotEqualTo`, at a type with `==`
-- and `<`.
unfoldable pub op : {T : Type 0} → (T → T → Bool) → (T → T → Bool) → BuiltinPredicate → T → T → Bool
op equal less BuiltinPredicate.lt t u = less t u
op equal less BuiltinPredicate.le t u = less t u || equal t u
op equal less BuiltinPredicate.gt t u = less u t
op equal less BuiltinPredicate.ge t u = less u t || equal t u
op equal less BuiltinPredicate.eq t u = equal t u
op equal less BuiltinPredicate.neq t u = not (equal t u)

-- `predicateFunctionMap`, with the keys "=", "!=", "<", "<=", ">" and ">=".
unfoldable pub predicate_function_map : String → Option BuiltinPredicate
predicate_function_map s =
    if string_eq s (61 ∷ [])
    then some BuiltinPredicate.eq
    else if string_eq s (33 ∷ 61 ∷ [])
    then some BuiltinPredicate.neq
    else if string_eq s (60 ∷ [])
    then some BuiltinPredicate.lt
    else if string_eq s (60 ∷ 61 ∷ [])
    then some BuiltinPredicate.le
    else if string_eq s (62 ∷ [])
    then some BuiltinPredicate.gt
    else if string_eq s (62 ∷ 61 ∷ [])
    then some BuiltinPredicate.ge
    else none

module _ {R : Type 0} (real_eq real_lt : R → R → Bool) (to_real : ℤ → R) where
  -- The calls of `dispatch`, which get their arguments by the type that `TypeMapper` has for them:
  -- for dates that is `std::string`, and `get` throws.
  unfoldable pub dispatch : BuiltinPredicate → Term R → Term R → Result Exception Bool
  unfolding op
  dispatch pred (integer a) (real b) = ok (op real_eq real_lt pred (to_real a) b)
  dispatch pred (integer a) (integer b) = ok (op int_eq int_lt pred a b)
  dispatch pred (real a) (real b) = ok (op real_eq real_lt pred a b)
  dispatch pred (real a) (integer b) = ok (op real_eq real_lt pred a (to_real b))
  dispatch pred (string a) (string b) = ok (op string_eq string_lt pred a b)
  dispatch pred (id a) (id b) = ok (op string_eq string_lt pred a b)
  dispatch pred (logic a) (logic b) =
      ok (op (λ t u. code t == code u) (λ t u. ltb (code t) (code u)) pred a b)
  dispatch pred (date a) (date b) = err Exception.incorrect_value
  dispatch pred (date_time a) (date_time b) = err Exception.incorrect_value
  dispatch pred (var a) (var b) = ok (op string_eq string_lt pred a b)
  dispatch pred _ _ = err Exception.assertion_failed

  -- `binDispatch`, with a call of what it gives.
  unfoldable pub bin_predicate : BuiltinPredicate → List (Term R) → Result Exception Bool
  unfolding dispatch
  bin_predicate pred (a ∷ b ∷ []) = dispatch pred a b
  bin_predicate pred _ = err Exception.assertion_failed
