-- ===== src/Api/RawQuery/Shape.antt =====
-- The tokens of a query that is read.
use fovris.Prelude.{
  ℕ, suc, ◌+◌, ◌*◌, ◌<◌, ◌≡◌, refl, sym, ◌∙◌, ap, arith, ltb, ◌&&◌, Bool, true, false,
  if◌then◌else◌, List, [], ◌∷◌, Option, Result, ok, err, bind_ok, not_ok, and_true, ◌⊎◌, inl, inr,
}
use fovris.Interning.Integers.{ℤ}
use fovris.Interning.Term.{String}
use fovris.Api.{Query}
use fovris.Api.Dates.{Tm}
use fovris.Api.RawQuery.{
  Token, is_misplaced, is_expected, is_comma, is_id, is_dot, is_lrb, is_rrb, read_tokens,
  make_query_from_raw_string, read_token,
}
use fovris.Api.RawQuery.Accepted.{separate, read_tokens-next, even_lem}

is_id-shape : (t : Token) → is_id t ≡ true → (s : String) × (t ≡ Token.tok_id s)
is_id-shape (Token.tok_id s) h = (s, refl)
is_id-shape t h = absurd (ground (arith, h))

is_dot-shape : (t : Token) → is_dot t ≡ true → t ≡ Token.tok_dot
is_dot-shape Token.tok_dot h = refl
is_dot-shape t h = absurd (ground (arith, h))

is_lrb-shape : (t : Token) → is_lrb t ≡ true → t ≡ Token.tok_lrb
is_lrb-shape Token.tok_lrb h = refl
is_lrb-shape t h = absurd (ground (arith, h))

is_comma-shape : (t : Token) → is_comma t ≡ true → t ≡ Token.tok_comma
is_comma-shape Token.tok_comma h = refl
is_comma-shape t h = absurd (ground (arith, h))

is_rrb-shape : (t : Token) → is_rrb t ≡ true → t ≡ Token.tok_rrb
is_rrb-shape Token.tok_rrb h = refl
is_rrb-shape t h = absurd (ground (arith, h))

-- How a step of the loop does not throw.
step_ok :
    {E A : Type 0} (fails misplaced closes : Bool) (q r : A) (e : E) (rest : Result E A)
    → (if fails then err e else if misplaced then if closes then ok q else err e else rest) ≡ ok r
    → ((misplaced ≡ true) × (closes ≡ true)) ⊎ ((misplaced ≡ false) × (rest ≡ ok r))
step_ok true misplaced closes q r e rest h = absurd (not_ok e r h)
step_ok false true true q r e rest h = inl (refl, refl)
step_ok false true false q r e rest h = absurd (not_ok e r h)
step_ok false false closes q r e rest h = inr (refl, h)

header_lem : (i : ℕ) (tok : Token) → i < 4 → is_misplaced i tok ≡ false → is_expected i tok ≡ true
header_lem i tok h e = ground arith

odd_lem : (k : ℕ) (tok : Token) → is_misplaced (suc (4 + k * 2)) tok ≡ false → is_comma tok ≡ true
odd_lem k tok e = ground arith

joined :
    (toks : List Token) (t : Token) (ts : List Token) (u : Token) (us : List Token) (v : Token)
    (vs : List Token) (w : Token) (ws : List Token)
    → toks ≡ t ∷ ts
    → ts ≡ u ∷ us
    → us ≡ v ∷ vs
    → vs ≡ w ∷ ws
    → toks ≡ t ∷ u ∷ v ∷ w ∷ ws
joined toks t ts u us v vs w ws a b c d = rw (a, b, c, d)

headed :
    (t u v w : Token) (ws : List Token) (m p : String)
    → t ≡ Token.tok_id m
    → u ≡ Token.tok_dot
    → v ≡ Token.tok_id p
    → w ≡ Token.tok_lrb
    → t ∷ u ∷ v ∷ w ∷ ws ≡ Token.tok_id m ∷ Token.tok_dot ∷ Token.tok_id p ∷ Token.tok_lrb ∷ ws
headed t u v w ws m p a b c d = rw (a, b, c, d)

module _ {R : Type 0} (to_double : String → Option R) (is_valid_date : ℤ → ℕ → ℕ → Bool)
    (tm_to_time_point : Tm → ℤ) where
  -- The tokens before the arguments.
  read_tokens-header :
      (i : ℕ) (toks : List Token) (q r : Query R)
      → i < 4
      → read_tokens to_double is_valid_date tm_to_time_point toks i q ≡ ok r
      → (tok : Token) × (rest : List Token) × (s : Query R) × (toks ≡ tok ∷ rest)
        × (is_expected i tok ≡ true)
        × (read_tokens to_double is_valid_date tm_to_time_point rest (suc i) s ≡ ok r)
  unfolding read_tokens
  read_tokens-header i [] q r h e = absurd (not_ok _ r e)
  read_tokens-header i (tok ∷ toks) q r h e =
      elim (step_ok _ (is_misplaced i tok) (is_rrb tok && ltb 4 i) _ r _ _ e) [
        | inl closed ↦ absurd (ground arith)
        | inr next ↦
            let (s, read, rest) =
              bind_ok (read_token to_double is_valid_date tm_to_time_point i tok q) _ r next.1 in
            (tok, toks, s, refl, header_lem i tok h next.0, rest)
      ]

  -- A token with an odd number.
  read_tokens-odd :
      (k : ℕ) (tok : Token) (toks : List Token) (q r : Query R)
      → read_tokens to_double is_valid_date tm_to_time_point (tok ∷ toks) (suc (4 + k * 2)) q ≡ ok r
      → (tok ≡ Token.tok_rrb)
        ⊎ ((tok ≡ Token.tok_comma)
            × ((s : Query R) × (read_tokens to_double is_valid_date tm_to_time_point toks
                    (suc (suc (4 + k * 2)))
                    s
                  ≡ ok r)))
  unfolding read_tokens
  read_tokens-odd k tok toks q r e =
      elim (step_ok _ (is_misplaced (suc (4 + k * 2)) tok) (is_rrb tok && ltb 4 (suc (4 + k * 2))) _
        r _ _ e) [
          | inl closed ↦ inl (is_rrb-shape tok (and_true (is_rrb tok) _ closed.1).0)
          | inr next ↦
              let (s, read, rest) =
                bind_ok
                  (read_token to_double is_valid_date tm_to_time_point (suc (4 + k * 2)) tok q) _ r
                  next.1 in
              inr (is_comma-shape tok (odd_lem k tok next.0), (s, rest))
        ]

  -- The tokens from the first argument on.
  read_tokens-arguments :
      (k : ℕ) (toks : List Token) (q r : Query R)
      → read_tokens to_double is_valid_date tm_to_time_point toks (4 + k * 2) q ≡ ok r
      → (a : Token) × (args : List Token) × (behind : List Token) × (toks
          ≡ separate a args (Token.tok_rrb ∷ behind))
  unfolding read_tokens
  read_tokens-arguments k [] q r e = absurd (not_ok _ r e)
  read_tokens-arguments k (a ∷ []) q r e =
      let (s, read, rest) =
        bind_ok (read_token to_double is_valid_date tm_to_time_point (4 + k * 2) a q) _ r (
          sym (
            read_tokens-next to_double is_valid_date tm_to_time_point (4 + k * 2) a [] q
              (even_lem to_double is_valid_date tm_to_time_point k a))
          ∙ e) in
      absurd (not_ok _ r rest)
  read_tokens-arguments k (a ∷ b ∷ toks) q r e =
      let (s, read, rest) =
        bind_ok (read_token to_double is_valid_date tm_to_time_point (4 + k * 2) a q) _ r (
          sym (
            read_tokens-next to_double is_valid_date tm_to_time_point (4 + k * 2) a (b ∷ toks) q
              (even_lem to_double is_valid_date tm_to_time_point k a))
          ∙ e) in
      let next : suc (suc (4 + k * 2)) ≡ 4 + suc k * 2 = omega arith in
      elim (read_tokens-odd k b toks s r rest) [
        | inl closed ↦ (a, [], toks, ap (λ t. a ∷ t ∷ toks) closed)
        | inr comma ↦
            let (t, more) = comma.1 in
            let (c, args, behind, shape) = read_tokens-arguments (suc k) toks t r (
              sym (ap (λ i. read_tokens to_double is_valid_date tm_to_time_point toks i t) next)
              ∙ more) in
            (
              a,
              c ∷ args,
              behind,
              ap (λ t. a ∷ t ∷ toks) comma.0 ∙ ap (λ rest. a ∷ Token.tok_comma ∷ rest) shape,
            )
      ]

  -- A list of tokens is read only if it is a name of a module, a dot, a name of a relation, and one or more
  -- arguments in parentheses with commas between them, with anything behind.
  pub make_query_from_raw_string-shape :
      (toks : List Token) (q : Query R)
      → make_query_from_raw_string to_double is_valid_date tm_to_time_point toks ≡ ok q
      → (m : String) × (p : String) × (a : Token) × (args : List Token) × (behind : List Token)
        × (toks
            ≡ Token.tok_id m
              ∷ Token.tok_dot
              ∷ Token.tok_id p
              ∷ Token.tok_lrb
              ∷ separate a args (Token.tok_rrb ∷ behind))
  unfolding make_query_from_raw_string
  make_query_from_raw_string-shape toks q e =
      let (t, ts, q₁, te, tx, e₁) = read_tokens-header 0 toks _ q (omega arith) e in
      let (u, us, q₂, ue, ux, e₂) = read_tokens-header 1 ts q₁ q (omega arith) e₁ in
      let (v, vs, q₃, ve, vx, e₃) = read_tokens-header 2 us q₂ q (omega arith) e₂ in
      let (w, ws, q₄, we, wx, e₄) = read_tokens-header 3 vs q₃ q (omega arith) e₃ in
      let (m, tm) = is_id-shape t tx in
      let (p, vp) = is_id-shape v vx in
      let (a, args, behind, shape) = read_tokens-arguments 0 ws q₄ q e₄ in
      (
        m,
        p,
        a,
        args,
        behind,
        joined toks t ts u us v vs w ws te ue ve we
            ∙ headed t u v w ws m p tm (is_dot-shape u ux) vp (is_lrb-shape w wx)
            ∙ ap (λ rest. Token.tok_id m ∷ Token.tok_dot ∷ Token.tok_id p ∷ Token.tok_lrb ∷ rest)
                shape,
      )
