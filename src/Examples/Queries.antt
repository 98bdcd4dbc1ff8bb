-- ===== src/Examples/Queries.antt =====
-- Runs of the theorems on queries that are read from tokens.
use fovris.Prelude.{ℕ, ◌≡◌, refl, true, List, [], ◌∷◌, ok, err, none, Option, Bool}
use fovris.Interning.Integers.{ℤ, pos, negsuc}
use fovris.Interning.Term.{integer, var, String}
use fovris.Api.{Query}
use fovris.Api.Dates.{Tm}
use fovris.Api.RawQuery.{Token, QueryException, read_term, make_query_from_raw_string}
use fovris.Api.RawQuery.Accepted.{separate, make_query_from_raw_string-separate}
use fovris.Api.RawQuery.Shape.{make_query_from_raw_string-shape}

-- No number is a `double`, every day is valid, and all have one time.
abbrev no_double : String → Option ℕ
no_double s = none

abbrev any_day : ℤ → ℕ → ℕ → Bool
any_day y m d = true

abbrev one_time : Tm → ℤ
one_time tm = pos 0

-- m.p(X,-12)
abbrev name_m : String
name_m = 109 ∷ []

abbrev name_p : String
name_p = 112 ∷ []

abbrev arguments : List Token
arguments =
    separate (Token.tok_var (88 ∷ [])) (Token.tok_integer (45 ∷ 49 ∷ 50 ∷ []) ∷ [])
      (Token.tok_rrb ∷ [])

abbrev tokens : List Token
tokens = Token.tok_id name_m ∷ Token.tok_dot ∷ Token.tok_id name_p ∷ Token.tok_lrb ∷ arguments

abbrev query_m : Query ℕ
query_m = record {
  module_symbol = name_m;
  predicate_symbol = name_p;
  terms = var (88 ∷ []) ∷ integer (negsuc 11) ∷ [];
}

make_query_from_raw_string-separate_example :
    make_query_from_raw_string no_double any_day one_time tokens ≡ ok query_m
unfolding read_term
make_query_from_raw_string-separate_example =
    make_query_from_raw_string-separate no_double any_day one_time name_m name_p
      (Token.tok_var (88 ∷ [])) (Token.tok_integer (45 ∷ 49 ∷ 50 ∷ []) ∷ []) []

read_m : make_query_from_raw_string no_double any_day one_time tokens ≡ ok query_m
unfolding make_query_from_raw_string read_term
read_m = refl

make_query_from_raw_string-shape_example :
    (m : String) × (p : String) × (a : Token) × (args : List Token) × (behind : List Token)
    × (tokens
        ≡ Token.tok_id m
          ∷ Token.tok_dot
          ∷ Token.tok_id p
          ∷ Token.tok_lrb
          ∷ separate a args (Token.tok_rrb ∷ behind))
make_query_from_raw_string-shape_example =
    make_query_from_raw_string-shape no_double any_day one_time tokens query_m read_m

-- m.p() is not read.
no_arguments :
    make_query_from_raw_string no_double any_day one_time (
      Token.tok_id name_m
      ∷ Token.tok_dot
      ∷ Token.tok_id name_p
      ∷ Token.tok_lrb
      ∷ Token.tok_rrb
      ∷ [])
    ≡ err QueryException.parsing_error
unfolding make_query_from_raw_string read_term
no_arguments = refl

-- m.p(,,,) is read as a query without terms.
only_commas :
    make_query_from_raw_string no_double any_day one_time (
      Token.tok_id name_m
      ∷ Token.tok_dot
      ∷ Token.tok_id name_p
      ∷ Token.tok_lrb
      ∷ separate Token.tok_comma (Token.tok_comma ∷ []) (Token.tok_rrb ∷ []))
    ≡ ok (record query_m { terms = [] })
unfolding make_query_from_raw_string read_term
only_commas = refl
