-- ===== src/Kb/Term.antt =====
-- src/KB/KBTerm.h, src/KB/KBGroundTerm.h and the comparisons of include/fovris/Array.h.
use fovris.Prelude.{
  ℕ, ◌==◌, ltb, ◌≡◌, ◌↔◌, Bool, true, false, not, if◌then◌else◌, List, [], ◌∷◌, length, arith,
}

-- A `KBTerm` is an interned constant or a variable. Its value is an `unsigned`.
pub record KbTerm : Type 0 where
  pub val : ℕ
  pub is_var : Bool

-- A `KBGroundTerm` is its value.
abbrev pub KbGroundTerm : Type 0
KbGroundTerm = ℕ

abbrev pub null_val : ℕ
null_val = 0xFFFFFFFF

abbrev pub is_null : KbGroundTerm → Bool
is_null t = t == null_val

-- `KBTerm::operator==` compares the values alone.
abbrev pub term_eq : KbTerm → KbTerm → Bool
term_eq a b = a.val == b.val

-- `Array<KBGroundTerm>`
abbrev pub Terms : Type 0
Terms = List KbGroundTerm

-- The loop of `Array::operator==`, entered when the sizes agree.
abbrev pub array_eq_loop : Terms → Terms → Bool
array_eq_loop (x ∷ xs) (y ∷ ys) = if x == y then array_eq_loop xs ys else false
array_eq_loop _ _ = true

abbrev pub array_eq : Terms → Terms → Bool
array_eq a b = if length a == length b then array_eq_loop a b else false

-- The loop of `Array::operator<`, entered when the sizes agree.
array_lt_loop : Terms → Terms → Bool
array_lt_loop (x ∷ xs) (y ∷ ys) = if not (ltb x y) then false else array_lt_loop xs ys
array_lt_loop _ _ = true

unfoldable pub array_lt : Terms → Terms → Bool
unfolding array_lt_loop
array_lt a b =
    if ltb (length a) (length b)
    then true
    else if ltb (length b) (length a)
    then false
    else array_lt_loop a b

pub array_eq_iff : (a b : Terms) → (array_eq a b ≡ true) ↔ (a ≡ b)
array_eq_iff [] [] = ground arith
array_eq_iff [] (y ∷ b) = ground arith
array_eq_iff (x ∷ a) [] = ground arith
array_eq_iff (x ∷ a) (y ∷ b) = ground (arith, array_eq_iff a b)
