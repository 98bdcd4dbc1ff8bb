-- ===== src/Api/RawQuery.antt =====
-- src/Query.cc: a query read from a string. The scanner is not modelled: the list of the tokens that
-- `Lexer::scan` returns, with their texts, is an argument. `to_double` is `std::stod`, with `none` where it
-- throws, and `is_valid_date` and `tm_to_time_point` are those of Api/Dates.
pub mod Accepted
pub mod Shape
use fovris.Prelude.{
  ℕ, zero, suc, ◌+◌, ◌-◌, ◌*◌, ◌%◌, ltb, leb, ◌==◌, ◌&&◌, ◌||◌, not, Bool, true, false,
  if◌then◌else◌, List, [], ◌∷◌, ◌++◌, Option, none, some, Result, ok, err, ◌>>=◌,
}
use fovris.Truth.{TruthValue}
use fovris.Interning.Integers.{ℤ, pos, negsuc}
use fovris.Interning.Term.{
  Term, integer, real, logic, string, id, var, date, date_time, String, Date, DateTime,
}
use fovris.Api.{Query}
use fovris.Api.Dates.{DateException, Tm, stoi_from, date_of_string, date_time_of_string}

-- The codes of tokens with the text of those that have one. `failed` is `Lexer::ErrorCode`, and `other` a
-- code that no query has.
pub data Token : Type 0 where
  tok_id tok_var tok_string tok_date tok_datetime tok_integer tok_real : String → Token
  tok_true tok_false tok_incons tok_unknown : Token
  tok_dot tok_lrb tok_rrb tok_comma tok_end failed other : Token

-- What is thrown: `ParsingError`, an exception of a date, and `std::out_of_range`.
pub data QueryException : Type 0 where
  parsing_error out_of_range : QueryException
  invalid_date : DateException → QueryException

abbrev pub is_id : Token → Bool
is_id (tok_id s) = true
is_id _ = false

abbrev pub is_dot : Token → Bool
is_dot tok_dot = true
is_dot _ = false

abbrev pub is_lrb : Token → Bool
is_lrb tok_lrb = true
is_lrb _ = false

abbrev pub is_failed : Token → Bool
is_failed failed = true
is_failed _ = false

abbrev pub is_comma : Token → Bool
is_comma tok_comma = true
is_comma _ = false

abbrev pub is_rrb : Token → Bool
is_rrb tok_rrb = true
is_rrb _ = false

-- `tokenCode == tokens[tokIdx]`
abbrev pub is_expected : ℕ → Token → Bool
is_expected i tok =
    if i == 0 || i == 2 then is_id tok else if i == 1 then is_dot tok else is_lrb tok

-- The condition of the branch that throws or ends the loop.
abbrev pub is_misplaced : ℕ → Token → Bool
is_misplaced i tok =
    (ltb i 4 && not (is_expected i tok)) || (leb 4 i && (i % 2 == 1) && not (is_comma tok))

-- `std::stoi` of a token: digits, or a sign and digits.
abbrev pub token_stoi : String → Result QueryException ℤ
token_stoi [] = ok (pos 0)
token_stoi (c ∷ s) =
    if c == 45
    then (let n = stoi_from 0 s in
        if leb n 0x80000000
        then ok (if n == 0 then pos 0 else negsuc (n - 1))
        else err QueryException.out_of_range)
    else (let n = stoi_from 0 (c ∷ s) in
        if ltb n 0x80000000 then ok (pos n) else err QueryException.out_of_range)

-- An exception of a date as one of a query.
abbrev pub throw_date : {A : Type 0} → Result DateException A → Result QueryException A
throw_date r = elim r [ err thrown ↦ err (QueryException.invalid_date thrown) | ok a ↦ ok a ]

module _ {R : Type 0} where
  -- `terms.emplace_back`
  abbrev pub emplace_back : Option (Term R) → Query R → Query R
  emplace_back none q = q
  emplace_back (some t) q = record q { terms = q.terms ++ t ∷ [] }

module _ {R : Type 0} (to_double : String → Option R) (is_valid_date : ℤ → ℕ → ℕ → Bool)
    (tm_to_time_point : Tm → ℤ) where
  -- The cases of the `switch` apart from `TOK_ID`: the term that is appended, if any.
  unfoldable pub read_term : Token → Result QueryException (Option (Term R))
  read_term (tok_var s) = ok (some (var s))
  read_term (tok_string s) = ok (some (string s))
  read_term (tok_date s) =
      throw_date (date_of_string is_valid_date tm_to_time_point s) >>= λ d. ok (some (date d))
  read_term (tok_datetime s) =
      throw_date (date_time_of_string is_valid_date tm_to_time_point s) >>= λ d.
      ok (some (date_time d))
  read_term (tok_integer s) = token_stoi s >>= λ n. ok (some (integer n))
  read_term (tok_real s) = elim (to_double s) [
    | none ↦ err QueryException.out_of_range
    | some d ↦ ok (some (real d))
  ]
  read_term tok_true = ok (some (logic TruthValue.true))
  read_term tok_false = ok (some (logic TruthValue.false))
  read_term tok_incons = ok (some (logic TruthValue.incons))
  read_term tok_unknown = ok (some (logic TruthValue.unknown))
  read_term tok_dot = ok none
  read_term tok_lrb = ok none
  read_term tok_comma = ok none
  read_term _ = err QueryException.parsing_error

  -- The `switch`.
  unfoldable pub read_token : ℕ → Token → Query R → Result QueryException (Query R)
  read_token i (tok_id s) q =
      if i == 0
      then ok (record q { module_symbol = s })
      else if i == 2
      then ok (record q { predicate_symbol = s })
      else if leb 4 i
      then ok (emplace_back (some (id s)) q)
      else ok q
  read_token i tok q = read_term tok >>= λ t. ok (emplace_back t q)

  -- The loop, from the token of a number on. Behind the last token the scanner returns `TOK_END`, for which
  -- every branch throws.
  unfoldable pub read_tokens : List Token → ℕ → Query R → Result QueryException (Query R)
  unfolding read_token
  read_tokens [] i q = err QueryException.parsing_error
  read_tokens (tok ∷ toks) i q =
      if is_failed tok
      then err QueryException.parsing_error
      else if is_misplaced i tok
      then if is_rrb tok && ltb 4 i then ok q else err QueryException.parsing_error
      else read_token i tok q >>= λ r. read_tokens toks (suc i) r

  -- `makeQueryFromRawString`
  unfoldable pub make_query_from_raw_string : List Token → Result QueryException (Query R)
  unfolding read_tokens
  make_query_from_raw_string toks =
      read_tokens toks 0 (record { module_symbol = []; predicate_symbol = []; terms = [] })
