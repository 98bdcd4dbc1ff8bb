-- ===== src/Api/Predicates/Types.antt =====
-- When a built-in predicate has a value.
use fovris.Prelude.{
  ◌≡◌, sym, ◌∙◌, ap, bind_ok, guard_ok, ok_inj, Bool, true, false, ◌&&◌, not, arith, [], ◌∷◌, is_ok,
  ok, err,
}
use fovris.Kb.Function.{TermType}
use fovris.Interning.Integers.{ℤ}
use fovris.Interning.Term.{Term, get_type}
use fovris.Api.{Exception}
use fovris.Api.Predicates.{BuiltinPredicate, dispatch, bin_predicate}
use fovris.Store.Checks.{comparable, VarDiff, argument_type, check_terms_for_builtin_predicate}

abbrev pub is_date : TermType → Bool
is_date TermType.date = true
is_date TermType.date_time = true
is_date _ = false

module _ {R : Type 0} (real_eq real_lt : R → R → Bool) (to_real : ℤ → R) where
  dispatch-is_ok :
      (pred : BuiltinPredicate) (a b : Term R)
      → is_ok (dispatch real_eq real_lt to_real pred a b)
        ≡ (comparable (get_type a) (get_type b) && not (is_date (get_type a)))
  unfolding dispatch
  dispatch-is_ok pred a b = ground arith

  dispatch-date :
      (pred : BuiltinPredicate) (a b : Term R)
      → comparable (get_type a) (get_type b) ≡ true
      → is_date (get_type a) ≡ true
      → dispatch real_eq real_lt to_real pred a b ≡ err Exception.incorrect_value
  unfolding dispatch
  dispatch-date pred a b c d = ground arith

  -- A built-in predicate whose arguments were accepted has a value for terms of the types that were found for
  -- the arguments, except for dates and times: for these it throws, whatever the predicate is.
  pub bin_predicate-checked :
      (pred : BuiltinPredicate) (t u v w : Term R) (m : VarDiff)
      → check_terms_for_builtin_predicate t u m ≡ ok tt
      → argument_type t m ≡ ok (get_type v)
      → argument_type u m ≡ ok (get_type w)
      → (is_ok (bin_predicate real_eq real_lt to_real pred (v ∷ w ∷ []))
          ≡ not (is_date (get_type v)))
        × (is_date (get_type v) ≡ true
            → bin_predicate real_eq real_lt to_real pred (v ∷ w ∷ [])
              ≡ err Exception.incorrect_value)
  unfolding bin_predicate check_terms_for_builtin_predicate
  bin_predicate-checked pred t u v w m accepted tv uw =
      let (a, ta, rest) = bind_ok (argument_type t m) _ tt accepted in
      let (b, ub, rest') = bind_ok (argument_type u m) _ tt rest in
      let (fit, done) = guard_ok (comparable a b) tt tt Exception.invalid_input rest' in
      let same_a : a ≡ get_type v = ok_inj (sym ta ∙ tv) in
      let same_b : b ≡ get_type w = ok_inj (sym ub ∙ uw) in
      let fit' : comparable (get_type v) (get_type w) ≡ true =
        ap (comparable (get_type v)) (sym same_b) ∙ ap (λ k. comparable k b) (sym same_a) ∙ fit in
      (
        dispatch-is_ok pred v w ∙ ap (λ k. k && not (is_date (get_type v))) fit',
        dispatch-date pred v w fit',
      )
