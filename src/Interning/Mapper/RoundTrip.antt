-- ===== src/Interning/Mapper/RoundTrip.antt =====
-- The terms that a mapper gives back for the ids of the terms that it was given.
use mathlib.Core.Option as Option
use fovris.Prelude.{◌≡◌, refl, ◌∙◌, ap, Bool, true, [], ◌∷◌, Option, none, some, arith}
use fovris.Truth.{TruthValue, code}
use fovris.Kb.Function.{TermType}
use fovris.Interning.Integers.{ℤ, pos, negsuc, int_eq, IsInt, to_int-to_unsigned}
use fovris.Interning.Pool.{DataPool, get, insert}
use fovris.Interning.Pool.Laws.{IsPool, get-insert, query_id-insert}
use fovris.Interning.Term.{
  Term, integer, real, logic, string, id, var, date, date_time, get_type, String, string_eq,
  date_eq, date_time_eq, string_term,
}
use fovris.Interning.Mapper.{TermMapper, intern_term, query_term, query_term_id, truth_of}

pub string_eq_refl : (s : String) → string_eq s s ≡ true
string_eq_refl [] = refl
string_eq_refl (x ∷ s) = ground (arith, string_eq_refl s)

pub string_eq_sound : (s t : String) → string_eq s t ≡ true → s ≡ t
string_eq_sound [] [] h = refl
string_eq_sound [] (y ∷ t) h = cc
string_eq_sound (x ∷ s) [] h = cc
string_eq_sound (x ∷ s) (y ∷ t) h = ground (arith, string_eq_sound s t)

int_eq_refl : (i : ℤ) → int_eq i i ≡ true
int_eq_refl (pos n) = ground arith
int_eq_refl (negsuc n) = ground arith

int_eq_sound : (i j : ℤ) → int_eq i j ≡ true → i ≡ j
int_eq_sound (pos n) (pos m) h = ground arith
int_eq_sound (pos n) (negsuc m) h = cc
int_eq_sound (negsuc n) (pos m) h = cc
int_eq_sound (negsuc n) (negsuc m) h = ground arith

-- The ids of the four pools are positions.
abbrev pub IsMapper : {R : Type 0} → TermMapper R → Type 0
IsMapper m =
    IsPool m.dbl_term_pool
    × IsPool m.date_term_pool
    × IsPool m.date_time_term_pool
    × IsPool m.str_term_pool

module _ {R : Type 0} (real_eq : R → R → Bool) where
  -- An `int` is in its range, and a `double` is equal to itself, which is to say not NaN.
  abbrev pub IsValue : Term R → Type 0
  IsValue (integer i) = IsInt i
  IsValue (real d) = real_eq d d ≡ true
  IsValue _ = Unit

  -- The same term, where numbers of type `double` are compared by `==`.
  abbrev pub Same : Term R → Term R → Type 0
  Same (real d) (real e) = real_eq d e ≡ true
  Same t u = t ≡ u

  string_at-insert :
      (p : DataPool String) (s : String)
      → IsPool p
      → get (insert string_eq p s).0 (insert string_eq p s).1.0 ≡ some s
  string_at-insert p s pool =
      let (x, at, e) = get-insert string_eq p s (string_eq_refl s) pool in
      at ∙ ap some (string_eq_sound x s e)

  abbrev of_string : TermType → Option String → Option (Term R)
  of_string type o = elim o [ none ↦ none | some s ↦ string_term s type ]

  truth_of-code : (t : TruthValue) → truth_of (code t) ≡ some t
  truth_of-code TruthValue.false = refl
  truth_of-code TruthValue.unknown = refl
  truth_of-code TruthValue.incons = refl
  truth_of-code TruthValue.true = refl

  -- Where the ids of the pools are positions, the term that `queryTerm` gives for the id and the type of
  -- a term that was interned is that term, and an equal number where the term is a `double`. An `int` is
  -- in its range, and a `double` is not NaN.
  pub query_term-intern_term :
      (m : TermMapper R) (t : Term R)
      → IsMapper m
      → IsValue t
      → (u : Term R) × (query_term
            (intern_term real_eq m t).0
            (intern_term real_eq m t).1
            (get_type t)
          ≡ some u)
        × Same u t
  unfolding intern_term query_term string_term
  query_term-intern_term m (string s) pools h =
      (string s, ap (of_string TermType.string) (string_at-insert m.str_term_pool s pools.3), refl)
  query_term-intern_term m (id s) pools h =
      (id s, ap (of_string TermType.id) (string_at-insert m.str_term_pool s pools.3), refl)
  query_term-intern_term m (var s) pools h =
      (var s, ap (of_string TermType.var) (string_at-insert m.str_term_pool s pools.3), refl)
  query_term-intern_term m (integer i) pools h =
      (integer i, ap (λ n. some (integer n)) (to_int-to_unsigned i h), refl)
  query_term-intern_term m (logic t) pools h =
      (logic t, ap (Option.map logic) (truth_of-code t), refl)
  query_term-intern_term m (real d) pools h =
      let (x, at, e) = get-insert real_eq m.dbl_term_pool d h pools.0 in
      (real x, ap (Option.map real) at, e)
  query_term-intern_term m (date d) pools h =
      let (x, at, e) = get-insert date_eq m.date_term_pool d (int_eq_refl d.tp) pools.1 in
      (
        date x,
        ap (Option.map date) at,
        ap (λ n. date (record { tp = n })) (int_eq_sound x.tp d.tp e),
      )
  query_term-intern_term m (date_time d) pools h =
      let (x, at, e) = get-insert date_time_eq m.date_time_term_pool d (int_eq_refl d.tp) pools.2 in
      (
        date_time x,
        ap (Option.map date_time) at,
        ap (λ n. date_time (record { tp = n })) (int_eq_sound x.tp d.tp e),
      )

  -- A term that was interned has the id that `internTerm` gave, for `queryTermId`, where a `double` is
  -- not NaN.
  pub query_term_id-intern_term :
      (m : TermMapper R) (t : Term R)
      → IsValue t
      → query_term_id real_eq (intern_term real_eq m t).0 t ≡ some (intern_term real_eq m t).1
  unfolding intern_term query_term_id
  query_term_id-intern_term m (string s) h =
      query_id-insert string_eq m.str_term_pool s (string_eq_refl s)
  query_term_id-intern_term m (id s) h =
      query_id-insert string_eq m.str_term_pool s (string_eq_refl s)
  query_term_id-intern_term m (var s) h =
      query_id-insert string_eq m.str_term_pool s (string_eq_refl s)
  query_term_id-intern_term m (integer i) h = refl
  query_term_id-intern_term m (logic t) h = refl
  query_term_id-intern_term m (real d) h = query_id-insert real_eq m.dbl_term_pool d h
  query_term_id-intern_term m (date d) h =
      query_id-insert date_eq m.date_term_pool d (int_eq_refl d.tp)
  query_term_id-intern_term m (date_time d) h =
      query_id-insert date_time_eq m.date_time_term_pool d (int_eq_refl d.tp)
