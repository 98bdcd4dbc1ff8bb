-- ===== src/Prelude/Results.antt =====
-- What a function returns that may throw: its value, or the exception.
use mathlib.Core.Path.{◌≡◌, refl, ap}
use fovris.Prelude.Tests.{if◌then◌else◌}
use mathlib.Core.Bool.{Bool, true, false}

pub data Result (E A : Type 0) : Type 0 where
  err : E → Result E A
  ok : A → Result E A

module _ {E A : Type 0} where
  -- Whether nothing was thrown.
  abbrev pub is_ok : Result E A → Bool
  is_ok r = elim r [ err thrown ↦ false | ok value ↦ true ]

  -- What is done with the value; an exception is passed on.
  infixl 5 ◌>>=◌
  abbrev pub ◌>>=◌ : {B : Type 0} → Result E A → (A → Result E B) → Result E B
  r >>= then_do = elim r [ err thrown ↦ err thrown | ok value ↦ then_do value ]

  pub ok_inj : {a b : A} → ◌≡◌ {A = Result E A} (ok a) (ok b) → a ≡ b
  ok_inj {a} e = ap (λ r. elim r [ err thrown ↦ a | ok value ↦ value ]) e

  -- What a sequence returned, it returned after its first part returned.
  pub bind_ok :
      {B : Type 0} (r : Result E A) (f : A → Result E B) (b : B)
      → (r >>= f) ≡ ok b
      → (a : A) × (r ≡ ok a) × (f a ≡ ok b)
  bind_ok (err thrown) f b h = cc
  bind_ok (ok a) f b h = (a, refl, h)

  -- What is returned behind a test.
  pub guard_ok :
      (c : Bool) (a b : A) (e : E)
      → ◌≡◌ {A = Result E A} (if c then ok a else err e) (ok b)
      → (c ≡ true) × (a ≡ b)
  guard_ok true a b e h = (refl, ok_inj h)
  guard_ok false a b e h = cc

  pub if_ok :
      (c : Bool) (r : Result E A) (b : A) (e : E)
      → (if c then r else err e) ≡ ok b
      → (c ≡ true) × (r ≡ ok b)
  if_ok true r b e h = (refl, h)
  if_ok false r b e h = cc

  pub not_ok : (e : E) (b : A) → ◌≡◌ {A = Result E A} (err e) (ok b) → ⊥
  not_ok e b h = cc
