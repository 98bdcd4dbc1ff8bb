-- ===== src/Examples/Compared.antt =====
-- Runs of the theorems on the built-in predicates and the order of terms.
use fovris.Prelude.{Bool, ℕ, ◌==◌, ◌≡◌, refl, true, false, [], ◌∷◌, some, err, arith, ltb, is_ok}
use fovris.Interning.Term.{get_type, Term, string, var, String, integer, real, date_time}
use fovris.Interning.Integers.{ℤ, pos, negsuc}
use fovris.Api.Predicates.{BuiltinPredicate, bin_predicate}
use fovris.Api.Predicates.Types.{is_date, bin_predicate-checked}
use fovris.Api.Order.{term_less, term_greater}
use fovris.Api.Order.Laws.{term_less-is_strict_order}
use fovris.Api.{Exception}
use fovris.Store.Checks.{check_terms_for_builtin_predicate}

-- `int` to the numbers that stand for those of type `double`.
abbrev to_number : ℤ → ℕ
to_number (pos n) = n
to_number (negsuc n) = 0

-- `1 < 2`, where 2 is of the type `double`, which the numbers stand for.
bin_predicate-checked_example :
    (is_ok (bin_predicate ◌==◌ ltb to_number BuiltinPredicate.lt (integer (pos 1) ∷ real 2 ∷ []))
      ≡ true)
    × (false ≡ true
        → bin_predicate ◌==◌ ltb to_number BuiltinPredicate.lt (integer (pos 1) ∷ real 2 ∷ [])
          ≡ err Exception.incorrect_value)
unfolding check_terms_for_builtin_predicate
bin_predicate-checked_example =
    bin_predicate-checked ◌==◌ ltb to_number BuiltinPredicate.lt (integer (pos 1)) (real 2)
      (integer (pos 1)) (real 2) [] refl refl refl

-- Two times are not compared.
bin_predicate_times :
    bin_predicate ◌==◌ ltb to_number BuiltinPredicate.lt
      (date_time (record { tp = pos 1 }) ∷ date_time (record { tp = pos 2 }) ∷ [])
    ≡ err Exception.incorrect_value
unfolding bin_predicate
bin_predicate_times = refl

term_less-is_strict_order_example :
    ((t u : Term ℕ) → is_date (get_type t) ≡ false → (b : Bool) × (term_less ◌==◌ ltb t u ≡ some b))
    × ((t : Term ℕ) → term_less ◌==◌ ltb t t ≡ some true → ⊥)
    × ((t u v : Term ℕ)
        → term_less ◌==◌ ltb t u ≡ some true
        → term_less ◌==◌ ltb u v ≡ some true
        → term_less ◌==◌ ltb t v ≡ some true)
    × ((y z : String)
        → term_less ◌==◌ ltb (var y) (var z) ≡ some false
        → term_less ◌==◌ ltb (var z) (var y) ≡ some false
        → y ≡ z)
term_less-is_strict_order_example =
    term_less-is_strict_order ◌==◌ ltb (λ d. ground arith) (λ a b c h k. ground arith)

-- A term is greater than itself.
greater_than_itself : term_greater ◌==◌ ltb (string []) (string []) ≡ some true
unfolding term_greater
greater_than_itself = refl
