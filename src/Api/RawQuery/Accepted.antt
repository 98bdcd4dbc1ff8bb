-- ===== src/Api/RawQuery/Accepted.antt =====
-- What a list of tokens is read as.
use mathlib.Core.List.{append-nil, append_assoc}
use fovris.Prelude.{
  none, some, ◌++◌, ℕ, suc, ◌+◌, ◌*◌, ◌≡◌, refl, ◌∙◌, ap, arith, Bool, false, List, [], ◌∷◌, Option,
  some, Result, ok, err, ◌>>=◌,
}
use fovris.Interning.Integers.{ℤ}
use fovris.Interning.Term.{Term, id, String}
use fovris.Api.{Query}
use fovris.Api.Dates.{Tm}
use fovris.Api.RawQuery.{
  Token, QueryException, is_misplaced, emplace_back, read_term, read_token, read_tokens,
  make_query_from_raw_string,
}

-- Arguments with commas between them, and what is behind them.
abbrev pub separate : Token → List Token → List Token → List Token
separate a [] behind = a ∷ behind
separate a (b ∷ toks) behind = a ∷ Token.tok_comma ∷ separate b toks behind

bind_then :
    {E A B C : Type 0} (r : Result E A) (f : A → B) (g : B → Result E C) (h : A → Result E C)
    → ((a : A) → g (f a) ≡ h a)
    → ((r >>= λ a. ok (f a)) >>= g) ≡ (r >>= h)
bind_then (err thrown) f g h e = refl
bind_then (ok a) f g h e = e a

module _ {R : Type 0} where
  -- The last argument, and one before others.
  add_last :
      (r : Result QueryException (Option (Term R))) (m p : String) (before : List (Term R))
      → (r >>= λ t.
          ok (emplace_back t (record { module_symbol = m; predicate_symbol = p; terms = before })))
        ≡ ((r >>= λ t. ok (elim t [ none ↦ [] | some u ↦ u ∷ [] ])) >>= λ ts.
            ok (record { module_symbol = m; predicate_symbol = p; terms = before ++ ts }))
  add_last (err thrown) m p before = refl
  add_last (ok none) m p before = rw append-nil
  add_last (ok (some t)) m p before = refl

  add_first :
      (r : Result QueryException (Option (Term R))) (rest : Result QueryException (List (Term R)))
      (add : Query R → Result QueryException (Query R)) (m p : String) (before : List (Term R))
      → ((b : List (Term R))
          → add (record { module_symbol = m; predicate_symbol = p; terms = b }) ≡ (
              rest >>= λ ts.
              ok (record { module_symbol = m; predicate_symbol = p; terms = b ++ ts })))
      → (r >>= λ t.
          add (emplace_back t (record { module_symbol = m; predicate_symbol = p; terms = before })))
        ≡ ((r >>= λ t. rest >>= λ ts. ok (elim t [ none ↦ ts | some u ↦ u ∷ ts ])) >>= λ ts.
            ok (record { module_symbol = m; predicate_symbol = p; terms = before ++ ts }))
  add_first (err thrown) rest add m p before h = refl
  add_first (ok none) (err thrown) add m p before h = h before
  add_first (ok none) (ok ts) add m p before h = h before
  add_first (ok (some t)) (err thrown) add m p before h = h (before ++ (t ∷ []))
  add_first (ok (some t)) (ok ts) add m p before h = h (before ++ (t ∷ [])) ∙ rw append_assoc

module _ {R : Type 0} (to_double : String → Option R) (is_valid_date : ℤ → ℕ → ℕ → Bool)
    (tm_to_time_point : Tm → ℤ) where
  -- The term that an argument stands for, if any.
  abbrev pub argument : Token → Result QueryException (Option (Term R))
  argument (Token.tok_id s) = ok (some (id s))
  argument tok = read_term to_double is_valid_date tm_to_time_point tok

  -- The terms of the arguments, without those that stand for none.
  abbrev pub terms_of : List Token → Result QueryException (List (Term R))
  terms_of [] = ok []
  terms_of (a ∷ toks) =
      argument a >>= λ t. terms_of toks >>= λ ts. ok (elim t [ none ↦ ts | some u ↦ u ∷ ts ])

  -- The query with the terms of the arguments added one by one.
  abbrev add_arguments : Token → List Token → Query R → Result QueryException (Query R)
  add_arguments a [] q = argument a >>= λ t. ok (emplace_back t q)
  add_arguments a (b ∷ toks) q = argument a >>= λ t. add_arguments b toks (emplace_back t q)

  read_token-argument :
      (k : ℕ) (a : Token) (q : Query R)
      → read_token to_double is_valid_date tm_to_time_point (4 + k) a q
        ≡ (argument a >>= λ t. ok (emplace_back t q))
  unfolding read_token
  read_token-argument k (Token.tok_id s) q = ground arith
  read_token-argument k a q = refl

  -- A token that is in its place.
  pub read_tokens-next :
      (i : ℕ) (tok : Token) (toks : List Token) (q : Query R)
      → is_misplaced i tok ≡ false
      → read_tokens to_double is_valid_date tm_to_time_point (tok ∷ toks) i q ≡ (
          read_token to_double is_valid_date tm_to_time_point i tok q >>= λ r.
          read_tokens to_double is_valid_date tm_to_time_point toks (suc i) r)
  unfolding read_tokens read_token read_term
  read_tokens-next i Token.failed toks q h = refl
  read_tokens-next i tok toks q h = rw h

  pub even_lem : (k : ℕ) (a : Token) → is_misplaced (4 + k * 2) a ≡ false
  even_lem k a = ground arith

  -- The parenthesis that ends the arguments, and a comma between them.
  read_tokens-rrb :
      (k : ℕ) (behind : List Token) (q : Query R)
      → read_tokens to_double is_valid_date tm_to_time_point
          (Token.tok_rrb ∷ behind)
          (suc (4 + k * 2))
          q
        ≡ ok q
  unfolding read_tokens
  read_tokens-rrb k behind q = ground arith

  read_tokens-comma :
      (k : ℕ) (toks : List Token) (q : Query R)
      → read_tokens to_double is_valid_date tm_to_time_point
          (Token.tok_comma ∷ toks)
          (suc (4 + k * 2))
          q
        ≡ read_tokens to_double is_valid_date tm_to_time_point toks (4 + suc k * 2) q
  unfolding read_token read_term
  read_tokens-comma k toks q =
      let next : suc (suc (4 + k * 2)) ≡ 4 + suc k * 2 = omega arith in
      read_tokens-next (suc (4 + k * 2)) Token.tok_comma toks q (ground arith)
      ∙ ap (λ i. read_tokens to_double is_valid_date tm_to_time_point toks i q) next

  read_tokens-argument :
      (k : ℕ) (a : Token) (toks : List Token) (q : Query R)
      (after : Query R → Result QueryException (Query R))
      → ((r : Query R)
          → read_tokens to_double is_valid_date tm_to_time_point toks (suc (4 + k * 2)) r ≡ after r)
      → read_tokens to_double is_valid_date tm_to_time_point (a ∷ toks) (4 + k * 2) q
        ≡ (argument a >>= λ t. after (emplace_back t q))
  read_tokens-argument k a toks q after h =
      read_tokens-next (4 + k * 2) a toks q (even_lem k a)
      ∙ ap
          (λ r. r >>= λ s.
            read_tokens to_double is_valid_date tm_to_time_point toks (suc (4 + k * 2)) s)
          (read_token-argument (k * 2) a q)
      ∙ bind_then (argument a) (λ t. emplace_back t q) _ (λ t. after (emplace_back t q))
          (λ t. h (emplace_back t q))

  read_tokens-separate :
      (k : ℕ) (a : Token) (args behind : List Token) (q : Query R)
      → read_tokens to_double is_valid_date tm_to_time_point
          (separate a args (Token.tok_rrb ∷ behind))
          (4 + k * 2)
          q
        ≡ add_arguments a args q
  read_tokens-separate k a [] behind q =
      read_tokens-argument k a (Token.tok_rrb ∷ behind) q (λ r. ok r) (read_tokens-rrb k behind)
  read_tokens-separate k a (b ∷ args) behind q =
      read_tokens-argument k a (Token.tok_comma ∷ separate b args (Token.tok_rrb ∷ behind)) q
        (add_arguments b args)
        (λ r.
          read_tokens-comma k (separate b args (Token.tok_rrb ∷ behind)) r
          ∙ read_tokens-separate (suc k) b args behind r)

  add_arguments-terms_of :
      (a : Token) (args : List Token) (m p : String) (before : List (Term R))
      → add_arguments a args (record { module_symbol = m; predicate_symbol = p; terms = before })
        ≡ (terms_of (a ∷ args) >>= λ ts.
            ok (record { module_symbol = m; predicate_symbol = p; terms = before ++ ts }))
  add_arguments-terms_of a [] m p before = add_last (argument a) m p before
  add_arguments-terms_of a (b ∷ args) m p before =
      add_first (argument a) (terms_of (b ∷ args)) (add_arguments b args) m p before
        (add_arguments-terms_of b args m p)

  -- A query of a name of a module, a dot, a name of a relation, and one or more arguments in parentheses with
  -- commas between them is read as the terms of its arguments, or not read where one of them is not; what is
  -- behind the parenthesis is ignored, and a dot, a comma or a parenthesis `(` is an argument without a term.
  pub make_query_from_raw_string-separate :
      (m p : String) (a : Token) (args behind : List Token)
      → make_query_from_raw_string to_double is_valid_date tm_to_time_point (
          Token.tok_id m
          ∷ Token.tok_dot
          ∷ Token.tok_id p
          ∷ Token.tok_lrb
          ∷ separate a args (Token.tok_rrb ∷ behind))
        ≡ (terms_of (a ∷ args) >>= λ ts.
            ok (record { module_symbol = m; predicate_symbol = p; terms = ts }))
  unfolding make_query_from_raw_string read_term
  make_query_from_raw_string-separate m p a args behind =
      read_tokens-separate 0 a args behind _ ∙ add_arguments-terms_of a args m p []
