-- ===== src/Interning/Mapper.antt =====
-- src/TermMapper.cc: the four pools, and the ids of terms. `none` stands for an exception: of `at`, or
-- of the constructor of a term.
pub mod RoundTrip
pub mod Kept
use mathlib.Core.Option as Option
use fovris.Prelude.{ℕ, ◌%◌, ◌==◌, if◌then◌else◌, Bool, Option, none, some}
use fovris.Truth.{TruthValue, code}
use fovris.Kb.Function.{TermType}
use fovris.Interning.Integers.{ℤ, to_unsigned, to_int}
use fovris.Interning.Pool.{DataPool, empty_pool, get, query_id, insert}
use fovris.Interning.Term.{
  Term, integer, real, logic, string, id, var, date, date_time, String, string_eq, Date, date_eq,
  DateTime, date_time_eq, string_term,
}

pub record TermMapper (R : Type 0) : Type 0 where
  pub dbl_term_pool : DataPool R
  pub date_term_pool : DataPool Date
  pub date_time_term_pool : DataPool DateTime
  pub str_term_pool : DataPool String

-- `static_cast<TruthValue>`, whose underlying type has 8 bits. `none` stands for a number that is no
-- enumerator's.
abbrev pub truth_of : ℕ → Option TruthValue
truth_of u =
    let v = u % 256 in
    if v == 0
    then some TruthValue.false
    else if v == 1
    then some TruthValue.unknown
    else if v == 2
    then some TruthValue.incons
    else if v == 3
    then some TruthValue.true
    else none

module _ {R : Type 0} where
  abbrev set_string : TermMapper R → DataPool String × (ℕ × Bool) → TermMapper R × ℕ
  set_string m (p, (i, new)) = (record m { str_term_pool = p }, i)

  abbrev string_at : TermMapper R → ℕ → TermType → Option (Term R)
  string_at m i type = elim (get m.str_term_pool i) [ none ↦ none | some s ↦ string_term s type ]

  -- `queryTerm`
  unfoldable pub query_term : TermMapper R → ℕ → TermType → Option (Term R)
  query_term m i TermType.var = string_at m i TermType.var
  query_term m i TermType.id = string_at m i TermType.id
  query_term m i TermType.string = string_at m i TermType.string
  query_term m i TermType.date = Option.map date (get m.date_term_pool i)
  query_term m i TermType.date_time = Option.map date_time (get m.date_time_term_pool i)
  query_term m i TermType.real = Option.map real (get m.dbl_term_pool i)
  query_term m i TermType.integer = some (integer (to_int i))
  query_term m i TermType.logic = Option.map logic (truth_of i)

module _ {R : Type 0} (real_eq : R → R → Bool) where
  -- `internTerm`
  unfoldable pub intern_term : TermMapper R → Term R → TermMapper R × ℕ
  intern_term m (string s) = set_string m (insert string_eq m.str_term_pool s)
  intern_term m (id s) = set_string m (insert string_eq m.str_term_pool s)
  intern_term m (var s) = set_string m (insert string_eq m.str_term_pool s)
  intern_term m (date d) =
      let (p, (i, new)) = insert date_eq m.date_term_pool d in (record m { date_term_pool = p }, i)
  intern_term m (date_time d) =
      let (p, (i, new)) = insert date_time_eq m.date_time_term_pool d in
      (record m { date_time_term_pool = p }, i)
  intern_term m (real d) =
      let (p, (i, new)) = insert real_eq m.dbl_term_pool d in (record m { dbl_term_pool = p }, i)
  intern_term m (integer n) = (m, to_unsigned n)
  intern_term m (logic t) = (m, code t)

  -- `queryTermId`
  unfoldable pub query_term_id : TermMapper R → Term R → Option ℕ
  query_term_id m (string s) = query_id string_eq m.str_term_pool s
  query_term_id m (id s) = query_id string_eq m.str_term_pool s
  query_term_id m (var s) = query_id string_eq m.str_term_pool s
  query_term_id m (date d) = query_id date_eq m.date_term_pool d
  query_term_id m (date_time d) = query_id date_time_eq m.date_time_term_pool d
  query_term_id m (real d) = query_id real_eq m.dbl_term_pool d
  query_term_id m (integer n) = some (to_unsigned n)
  query_term_id m (logic t) = some (code t)
