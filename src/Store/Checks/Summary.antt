-- ===== src/Store/Checks/Summary.antt =====
-- The map of `calcVarDiff` as a summary of the occurrences of variables that it was given.
use fovris.Prelude.{
  ℕ, zero, suc, ==_iff, ◌≡◌, refl, sym, ◌∙◌, ap, Bool, true, false, ◌||◌, if◌then◌else◌, List, [],
  ◌∷◌, Option, none, some, inl, inr, Bool-cases, Option-cases, arith, All, Result, ok, err, ok_inj,
  guard_ok,
}
use mathlib.Core.Path.{subst}
use fovris.Api.{Exception}
use fovris.Kb.Function.{TermType}
use fovris.Interning.Term.{String, string_eq}
use fovris.Interning.Mapper.RoundTrip.{string_eq_refl, string_eq_sound}
use fovris.Store.Checks.{type_eq, type_code, VarInfo, VarDiff, find_var, set_satisfied, calc_var}

-- A variable in a column of a type, in a literal that binds it or does not.
pub record Occurrence : Type 0 where
  pub name : String
  pub type : TermType
  pub binds : Bool

abbrev pub is_satisfied : Option VarInfo → Bool
is_satisfied none = false
is_satisfied (some info) = info.satisfied

-- What is known of a variable from its occurrences, the latest first.
unfoldable pub summary : List Occurrence → String → Option VarInfo
summary [] x = none
summary (o ∷ os) x =
    let rest = summary os x in
    if string_eq o.name x
    then some (record { type = o.type; satisfied = o.binds || is_satisfied rest })
    else rest

abbrev pub Summarises : VarDiff → List Occurrence → Type 0
Summarises m os = (x : String) → find_var m x ≡ summary os x

-- Every occurrence has the type that is known of its variable.
abbrev pub HasType : List Occurrence → Occurrence → Type 0
HasType os o = (info : VarInfo) × (summary os o.name ≡ some info) × (info.type ≡ o.type)

abbrev pub IsConsistent : List Occurrence → Type 0
IsConsistent os = All (HasType os) os

-- The type with a number.
abbrev type_of : ℕ → TermType
type_of zero = TermType.integer
type_of (suc zero) = TermType.real
type_of (suc (suc zero)) = TermType.logic
type_of (suc (suc (suc zero))) = TermType.string
type_of (suc (suc (suc (suc zero)))) = TermType.id
type_of (suc (suc (suc (suc (suc zero))))) = TermType.date
type_of (suc (suc (suc (suc (suc (suc zero)))))) = TermType.date_time
type_of _ = TermType.var

type_of-code : (a : TermType) → a ≡ type_of (type_code a)
type_of-code a = elim a as (λ k. k ≡ type_of (type_code k)) [
  | TermType.integer ↦ refl
  | TermType.real ↦ refl
  | TermType.logic ↦ refl
  | TermType.string ↦ refl
  | TermType.id ↦ refl
  | TermType.date ↦ refl
  | TermType.date_time ↦ refl
  | TermType.var ↦ refl
]

pub type_eq_sound : (a b : TermType) → type_eq a b ≡ true → a ≡ b
type_eq_sound a b h =
    type_of-code a ∙ ap type_of ((==_iff (type_code a) (type_code b)).0 h) ∙ sym (type_of-code b)

pub All-map :
    {A : Type 0} (P Q : A → Type 0) (l : List A) → ((a : A) → P a → Q a) → All P l → All Q l
All-map P Q [] f h = tt
All-map P Q (a ∷ l) f h = (f a h.0, All-map P Q l f h.1)

string_eq_iff_sym : (x y : String) → string_eq x y ≡ string_eq y x
string_eq_iff_sym [] [] = refl
string_eq_iff_sym [] (y ∷ t) = refl
string_eq_iff_sym (x ∷ s) [] = refl
string_eq_iff_sym (x ∷ s) (y ∷ t) = ground (arith, string_eq_iff_sym s t)

-- The entry of a variable after it is found satisfied.
abbrev satisfy : Option VarInfo → Option VarInfo
satisfy none = none
satisfy (some info) = some (record info { satisfied = true })

find_var-set_satisfied :
    (m : VarDiff) (x y : String)
    → find_var (set_satisfied m x) y
      ≡ (if string_eq x y then satisfy (find_var m y) else find_var m y)
unfolding find_var set_satisfied
find_var-set_satisfied [] x y = ground arith
find_var-set_satisfied ((z, info) ∷ m) x y = ground (
  arith,
  find_var-set_satisfied m x y,
  string_eq_refl x,
  string_eq_sound x y,
  string_eq_sound z x,
  string_eq_sound z y,
)

none_apart : {A : Type 0} {a : A} → none ≡ some a → ⊥
none_apart h = cc

or_false : (b : Bool) → (b || false) ≡ b
or_false true = refl
or_false false = refl

-- The two lookups agree after the entry of a variable is found satisfied, or is left.
calc_var-known :
    (m : VarDiff) (os : List Occurrence) (x : String) (type : TermType) (safe : Bool)
    (info : VarInfo)
    → Summarises m os
    → find_var m x ≡ some info
    → info.type ≡ type
    → Summarises
        (if safe then set_satisfied m x else m)
        (record { name = x; type = type; binds = safe } ∷ os)
unfolding summary
calc_var-known m os x type true info h e t y = elim (Bool-cases (string_eq x y)) [
  | inr differ ↦ rw (find_var-set_satisfied m x y, differ, h y) refl
  | inl same ↦
      let here : find_var m y ≡ some info = rw (← string_eq_sound x y same) e in
      rw (find_var-set_satisfied m x y, same, here, t) refl
]
calc_var-known m os x type false info h e t y = elim (Bool-cases (string_eq x y)) [
  | inr differ ↦ rw (differ, h y) refl
  | inl same ↦
      let here : find_var m y ≡ some info = rw (← string_eq_sound x y same) e in
      let there : summary os y ≡ some info = sym (h y) ∙ here in rw (same, here, there, ← t) refl
]

module _ (m : VarDiff) (os : List Occurrence) (x : String) (type : TermType) (safe : Bool) where
  abbrev added : Occurrence
  added = record { name = x; type = type; binds = safe }

  calc_var-new :
      Summarises m os
      → find_var m x ≡ none
      → Summarises ((x, record { type = type; satisfied = safe }) ∷ m) (added ∷ os)
  unfolding find_var summary
  calc_var-new h e y = elim (Bool-cases (string_eq x y)) [
    | inr differ ↦ rw (differ, h y) refl
    | inl same ↦
        let none_yet : summary os y ≡ none =
          sym (h y) ∙ ap (find_var m) (sym (string_eq_sound x y same)) ∙ e in
        rw (same, none_yet, or_false safe) refl
  ]

  pub calc_var-Summarises :
      (m' : VarDiff)
      → Summarises m os
      → calc_var m x type safe ≡ ok m'
      → Summarises m' (added ∷ os)
        × ((info : VarInfo) → summary os x ≡ some info → info.type ≡ type)
  unfolding calc_var
  calc_var-Summarises m' h e = elim (Option-cases (find_var m x)) [
    | inl new ↦
        let entries = (x, record { type = type; satisfied = safe }) ∷ m in
        let r : ◌≡◌ {A = Result Exception VarDiff} (ok entries) (ok m') = rw (new, calc_var) at e in
        (
          subst (λ k. Summarises k (added ∷ os)) (ok_inj r) (calc_var-new h new),
          λ info q. absurd (none_apart (sym new ∙ h x ∙ q)),
        )
    | inr (info, known) ↦
        let entries = if safe then set_satisfied m x else m in
        let r : (if type_eq info.type type then ok entries else err Exception.invalid_input)
            ≡ ok m' =
          rw (known, calc_var) at e in
        let (same_type, same_entries) =
          guard_ok (type_eq info.type type) entries m' Exception.invalid_input r in
        let t : info.type ≡ type = type_eq_sound info.type type same_type in
        (
          subst (λ k. Summarises k (added ∷ os)) same_entries
              (calc_var-known m os x type safe info h known t),
          λ other q.
              ap (λ o. elim o [ none ↦ type | some i ↦ i.type ]) (sym q ∙ sym (h x) ∙ known) ∙ t,
        )
  ]
