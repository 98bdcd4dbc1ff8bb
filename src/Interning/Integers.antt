-- ===== src/Interning/Integers.antt =====
-- The type `int`, and its casts to `unsigned` and back.
use fovris.Prelude.{ℕ, ◌-◌, ◌<◌, ◌≡◌, Bool, true, false, arith, ltb, ◌==◌, if◌then◌else◌}

pub data ℤ : Type 0 where
  pos negsuc : ℕ → ℤ

abbrev pub int_eq : ℤ → ℤ → Bool
int_eq (pos a) (pos b) = a == b
int_eq (negsuc a) (negsuc b) = a == b
int_eq _ _ = false

-- `a < b`
abbrev pub int_lt : ℤ → ℤ → Bool
int_lt (pos a) (pos b) = ltb a b
int_lt (pos a) (negsuc b) = false
int_lt (negsuc a) (pos b) = true
int_lt (negsuc a) (negsuc b) = ltb b a

-- `static_cast<unsigned>`, of an `int` of 32 bits.
unfoldable pub to_unsigned : ℤ → ℕ
to_unsigned (pos n) = n
to_unsigned (negsuc n) = 0xFFFFFFFF - n

-- `static_cast<int>`
unfoldable pub to_int : ℕ → ℤ
to_int u = if ltb u 0x80000000 then pos u else negsuc (0xFFFFFFFF - u)

-- The values of an `int`.
abbrev pub IsInt : ℤ → Type 0
IsInt (pos n) = n < 0x80000000
IsInt (negsuc n) = n < 0x80000000

pub to_int-to_unsigned : (i : ℤ) → IsInt i → to_int (to_unsigned i) ≡ i
unfolding to_int to_unsigned
to_int-to_unsigned (pos n) h = ground arith
to_int-to_unsigned (negsuc n) h =
    let q : 0xFFFFFFFF - (0xFFFFFFFF - n) ≡ n = omega arith in ground (arith, q)
