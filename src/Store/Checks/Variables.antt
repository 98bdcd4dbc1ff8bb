-- ===== src/Store/Checks/Variables.antt =====
-- What the map of `calcVarDiff` says of the occurrences of variables that it was given.
use fovris.Prelude.{
  ◌==◌, ◌≡◌, refl, sym, ◌∙◌, ap, Bool, true, ◌||◌, List, [], ◌∷◌, none, some, Some-cong, inl, inr,
  Bool-cases, Option-cases, not_ok, arith, All, Some, length, ok, ok_inj, bind_ok, if_ok,
}
use mathlib.Core.Path.{subst}
use fovris.Api.{Exception}
use fovris.Kb.Function.{TermType}
use fovris.Interning.Term.{Term, var, String, string_eq}
use fovris.Interning.Mapper.RoundTrip.{string_eq_refl, string_eq_sound}
use fovris.Store.Checks.{
  VarInfo, VarDiff, find_var, calc_var, calc_var_loop, calc_var_diff, argument_type,
}
use fovris.Store.Rules.{all_vars_satisfied}
use fovris.Store.Checks.Summary.{
  Occurrence, summary, Summarises, HasType, IsConsistent, All-map, is_satisfied,
  calc_var-Summarises,
}

-- All occurrences of a variable have one type.
abbrev pub HasOneType : List Occurrence → Type 0
HasOneType os = All (λ o. All (λ p. p.name ≡ o.name → p.type ≡ o.type) os) os

-- Every variable occurs in a literal that binds it, in a column of the same type.
abbrev pub IsBound : List Occurrence → Type 0
IsBound os = All (λ o. Some (λ p. (p.name ≡ o.name) × (p.type ≡ o.type) × (p.binds ≡ true)) os) os

-- The occurrences of variables in a literal over columns.
unfoldable pub occurrences : {R : Type 0} → List (Term R) → List TermType → Bool → List Occurrence
occurrences [] types safe = []
occurrences (t ∷ terms) [] safe = []
occurrences (var x ∷ terms) (type ∷ types) safe =
    record { name = x; type = type; binds = safe } ∷ occurrences terms types safe
occurrences (_ ∷ terms) (type ∷ types) safe = occurrences terms types safe

-- More occurrences, each before what is there.
unfoldable pub push : List Occurrence → List Occurrence → List Occurrence
push [] os = os
push (o ∷ new) os = push new (o ∷ os)

-- An occurrence more, of a type that agrees with what is known.
HasType-cons :
    (os : List Occurrence) (o p : Occurrence)
    → ((info : VarInfo) → summary os o.name ≡ some info → info.type ≡ o.type)
    → HasType os p
    → HasType (o ∷ os) p
unfolding summary
HasType-cons os o p agrees (info, known, t) = elim (Bool-cases (string_eq o.name p.name)) [
  | inr differ ↦ (info, rw (differ, known) refl, t)
  | inl same ↦
      let here : summary os o.name ≡ some info =
        ap (summary os) (string_eq_sound o.name p.name same) ∙ known in
      (
        record { type = o.type; satisfied = o.binds || is_satisfied (summary os p.name) },
        rw same refl,
        sym (agrees info here) ∙ t,
      )
]

cons-IsConsistent :
    (os : List Occurrence) (o : Occurrence)
    → ((info : VarInfo) → summary os o.name ≡ some info → info.type ≡ o.type)
    → IsConsistent os
    → IsConsistent (o ∷ os)
unfolding summary
cons-IsConsistent os o agrees h = (
  (
    record { type = o.type; satisfied = o.binds || is_satisfied (summary os o.name) },
    rw (string_eq_refl o.name) refl,
    refl,
  ),
  All-map (HasType os) (HasType (o ∷ os)) os (λ p. HasType-cons os o p agrees) h,
)

-- What a map knows of some occurrences, and that they agree.
abbrev pub Knows : VarDiff → List Occurrence → Type 0
Knows m os = Summarises m os × IsConsistent os

-- A literal adds its occurrences, where nothing is thrown.
calc_var_loop-Knows :
    {R : Type 0} (terms : List (Term R)) (types : List TermType) (safe : Bool) (m m' : VarDiff)
    (os : List Occurrence)
    → Knows m os
    → calc_var_loop terms types safe m ≡ ok m'
    → Knows m' (push (occurrences terms types safe) os)
unfolding calc_var_loop occurrences push
calc_var_loop-Knows [] types safe m m' os h e = subst (λ k. Knows k os) (ok_inj e) h
calc_var_loop-Knows (t ∷ terms) [] safe m m' os h e = subst (λ k. Knows k os) (ok_inj e) h
calc_var_loop-Knows (var x ∷ terms) (type ∷ types) safe m m' os (sums, agree) e =
    let (n, here, rest) = bind_ok (calc_var m x type safe) (calc_var_loop terms types safe) m' e in
    let (sums', agrees) = calc_var-Summarises m os x type safe n sums here in
    let o : Occurrence = record { name = x; type = type; binds = safe } in
    calc_var_loop-Knows terms types safe n m' (o ∷ os) (sums', cons-IsConsistent os o agrees agree)
      rest
calc_var_loop-Knows (_ ∷ terms) (type ∷ types) safe m m' os h e =
    calc_var_loop-Knows terms types safe m m' os h e

-- The same for the whole check, whose sizes agree.
pub calc_var_diff-Knows :
    {R : Type 0} (terms : List (Term R)) (types : List TermType) (m m' : VarDiff) (safe : Bool)
    (os : List Occurrence)
    → Knows m os
    → calc_var_diff terms types m safe ≡ ok m'
    → Knows m' (push (occurrences terms types safe) os)
unfolding calc_var_diff
calc_var_diff-Knows terms types m m' safe os h e =
    calc_var_loop-Knows terms types safe m m' os h
      (if_ok (length terms == length types) (calc_var_loop terms types safe m) m'
        Exception.assertion_failed e).1

-- A variable that is known to be satisfied has an occurrence that binds it.
summary-Bound :
    (os : List Occurrence) (x : String)
    → is_satisfied (summary os x) ≡ true
    → Some (λ p. (p.name ≡ x) × (p.binds ≡ true)) os
unfolding summary
summary-Bound [] x h = cc
summary-Bound (o ∷ os) x h = elim (Bool-cases (string_eq o.name x)) [
  | inr differ ↦ inr (summary-Bound os x (rw differ at h))
  | inl same ↦
      let q : (o.binds || is_satisfied (summary os x)) ≡ true = rw same at h in
      elim (Bool-cases o.binds) [
        | inl binds ↦ inl (string_eq_sound o.name x same, binds)
        | inr silent ↦ inr (summary-Bound os x (rw silent at q))
      ]
]

find_var-satisfied :
    (m : VarDiff) (x : String) (info : VarInfo)
    → all_vars_satisfied m ≡ true
    → find_var m x ≡ some info
    → info.satisfied ≡ true
unfolding find_var all_vars_satisfied
find_var-satisfied [] x info a h = cc
find_var-satisfied ((y, i) ∷ m) x info a h = ground (arith, find_var-satisfied m x info)

-- The other occurrences of a variable have the type of one.
same_types :
    (os : List Occurrence) (o : Occurrence)
    → IsConsistent os
    → HasType os o
    → All (λ p. p.name ≡ o.name → p.type ≡ o.type) os
same_types os o agree (info, known, t) =
    All-map (HasType os) _ os
      (λ p (info', known', t') e.
        let same : some info ≡ some info' = sym known ∙ ap (summary os) (sym e) ∙ known' in
        sym t' ∙ ap (λ k. elim k [ none ↦ o.type | some i ↦ i.type ]) (sym same) ∙ t)
      agree

-- The occurrences of which a map knows: those of one variable have one type.
pub Knows-HasOneType : (m : VarDiff) (os : List Occurrence) → Knows m os → HasOneType os
Knows-HasOneType m os (sums, agree) =
    All-map (HasType os) _ os (λ o t. same_types os o agree t) agree

-- Where all variables are satisfied, every one is bound, in a column of its type.
pub Knows-IsBound :
    (m : VarDiff) (os : List Occurrence) → Knows m os → all_vars_satisfied m ≡ true → IsBound os
Knows-IsBound m os (sums, agree) h =
    All-map (HasType os) _ os
      (λ o (info, known, t).
        let satisfied = find_var-satisfied m o.name info h (sums o.name ∙ known) in
        let bound = summary-Bound os o.name (ap is_satisfied known ∙ satisfied) in
        (Some-cong _ _ _ os (λ p same. (λ (n, b). (n, same n, b), λ (n, e, b). (n, b)))
            (same_types os o agree (info, known, t))).0
          bound)
      agree

-- An argument of a built-in predicate that is a variable has an occurrence that binds it.
abbrev pub IsBoundArgument : {R : Type 0} → List Occurrence → Term R → Type 0
IsBoundArgument os (var x) = Some (λ p. (p.name ≡ x) × (p.binds ≡ true)) os
IsBoundArgument os _ = Unit

variable-Bound :
    (m : VarDiff) (os : List Occurrence) (x : String) (info : VarInfo)
    → Knows m os
    → all_vars_satisfied m ≡ true
    → find_var m x ≡ some info
    → Some (λ p. (p.name ≡ x) × (p.binds ≡ true)) os
variable-Bound m os x info (sums, agree) h known =
    summary-Bound os x
      (ap is_satisfied (sym (sums x) ∙ known) ∙ find_var-satisfied m x info h known)

pub argument_type-IsBoundArgument :
    {R : Type 0} (t : Term R) (m : VarDiff) (os : List Occurrence) (type : TermType)
    → Knows m os
    → all_vars_satisfied m ≡ true
    → argument_type t m ≡ ok type
    → IsBoundArgument os t
unfolding argument_type
argument_type-IsBoundArgument (var x) m os type knows h e = elim (Option-cases (find_var m x)) [
  | inl unknown ↦ absurd (not_ok Exception.invalid_input type (rw (unknown, argument_type) at e))
  | inr (info, known) ↦ variable-Bound m os x info knows h known
]
argument_type-IsBoundArgument _ m os type knows h e = tt

pub no_variables : Knows [] []
unfolding find_var summary
no_variables = (λ x. refl, tt)
