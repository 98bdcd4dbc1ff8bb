-- ===== src/Eval/Rule/Scope.antt =====
-- What a temporary table of a rule knows of the assignment: its terms determine the values of the
-- variables of all literals before, and none of them is null.
use fovris.Prelude.{
  ℕ, zero, suc, ◌==◌, ◌≡◌, refl, sym, Bool, true, false, not, List, [], ◌∷◌, map, all, All, arith,
  Bool-cases, Option-cases, inl, inr, ==_iff, eq_refl,
}
use fovris.Kb.Term.{KbTerm, Terms, is_null}
use fovris.Kb.Literal.{KbLiteral, lookup, var_indices, indices_loop, contains_key}
use fovris.Kb.Literal.VarIndices.{EachVar, Each-indices_loop}
use fovris.Kb.Literal.Positions.{
  is_among, EachVar-mono, EachVar-contains_key, lookup-first, indices_loop-IsFilled,
}
use fovris.Eval.Selection.{at}
use fovris.Eval.Selection.Matching.{value_of}
use fovris.Eval.Join.Keys.{no_null}
use fovris.Eval.Join.Agreement.{map-EachVar}
use fovris.Eval.Projection.Present.{filter, filter-All}
use fovris.Eval.Variables.Among.{Holds}

-- No term is null.
abbrev pub non_null : Terms → Bool
non_null = all (λ x. not (is_null x))

non_null-at : (xs : Terms) (i : ℕ) → non_null xs ≡ true → is_null (at xs i) ≡ false
non_null-at [] i h = refl
non_null-at (x ∷ xs) zero h = ground arith
non_null-at (x ∷ xs) (suc i) h = non_null-at xs i (ground arith)

pub no_null-non_null : (is : List ℕ) (xs : Terms) → non_null xs ≡ true → no_null is xs ≡ true
no_null-non_null [] xs h = refl
no_null-non_null (i ∷ is) xs h = rw (non_null-at xs i h) (no_null-non_null is xs h)

-- What holds of the variables of a literal holds of each of them.
pub EachVar-at :
    (P : ℕ → Type 0) (l : KbLiteral) (v : ℕ)
    → EachVar (λ v _. P v) l.terms 0
    → contains_key (var_indices l) v ≡ true
    → P v
unfolding var_indices
EachVar-at P l v h c = elim (Option-cases (lookup v (var_indices l))) [
  | inl n ↦ let q : false ≡ true = rw (n, contains_key) at c in absurd (no q)
  | inr (is, e) ↦
      lookup-first (λ v _. P v) (indices_loop l.terms 0 []) v is
        (indices_loop-IsFilled l.terms 0 [] tt)
        ((Each-indices_loop (λ v _. P v) l.terms 0 []).1 (tt, h)) e
]
  where
    no : false ≡ true → ⊥
    no e = cc

-- The values of the variables of an instance without null terms are not null.
pub non_null-EachVar :
    (ρ : ℕ → ℕ) (ts : List KbTerm) (i : ℕ)
    → non_null (map (value_of ρ) ts) ≡ true
    → EachVar (λ v _. is_null (ρ v) ≡ false) ts i
non_null-EachVar ρ [] i h = tt
non_null-EachVar ρ (t ∷ ts) i h = (λ e. ground arith, non_null-EachVar ρ ts (suc i) (ground arith))

-- Variables whose values are not null make an instance without null terms.
pub non_null-map :
    (ρ : ℕ → ℕ) (ts : List KbTerm)
    → All (λ t. t.is_var ≡ true) ts
    → All (λ t. is_null (ρ t.val) ≡ false) ts
    → non_null (map (value_of ρ) ts) ≡ true
non_null-map ρ [] v h = refl
non_null-map ρ (t ∷ ts) v h = ground (arith, non_null-map ρ ts v.1 h.1)

EachVar-both :
    (P Q : ℕ → ℕ → Type 0) (ts : List KbTerm) (i : ℕ)
    → EachVar P ts i
    → EachVar Q ts i
    → EachVar (λ v j. P v j × Q v j) ts i
EachVar-both P Q [] i h k = tt
EachVar-both P Q (t ∷ ts) i h k = (λ e. (h.0 e, k.0 e), EachVar-both P Q ts (suc i) h.1 k.1)

-- Assignments that agree on a list of variables agree on each of them.
among_agree :
    (ρ σ : ℕ → ℕ) (ts : List KbTerm) (v : ℕ)
    → All (λ t. t.is_var ≡ true) ts
    → map (value_of ρ) ts ≡ map (value_of σ) ts
    → is_among ts v ≡ true
    → ρ v ≡ σ v
among_agree ρ σ [] v a e h = cc
among_agree ρ σ (t ∷ ts) v a e h = ground (arith, among_agree ρ σ ts v a.1)

-- The values of a list of variables determine an instance of a literal whose variables it holds.
pub Holds-determines :
    (ts : List KbTerm) (l : KbLiteral) (ρ σ : ℕ → ℕ)
    → All (λ t. t.is_var ≡ true) ts
    → Holds ts l
    → map (value_of ρ) ts ≡ map (value_of σ) ts
    → map (value_of ρ) l.terms ≡ map (value_of σ) l.terms
Holds-determines ts l ρ σ a h e = map-EachVar ρ σ l.terms 0 (
    EachVar-mono (λ v _. is_among ts v ≡ true) (λ v _. ρ v ≡ σ v) l.terms 0
      (λ v j k. among_agree ρ σ ts v a e k) h)

pub filter-among :
    (p : KbTerm → Bool) (ts : List KbTerm) (v : ℕ)
    → All (λ t. t.is_var ≡ true) ts
    → ((t : KbTerm) → t.is_var ≡ true → t.val ≡ v → p t ≡ true)
    → is_among ts v ≡ true
    → is_among (filter p ts) v ≡ true
unfolding filter
filter-among p [] v a f h = h
filter-among p (t ∷ ts) v a f h = elim (Bool-cases (v == t.val)) [
  | inl e ↦ let q = (==_iff v t.val).0 e in rw (f t a.0 (sym q), filter) (rw e refl)
  | inr e ↦
      let rest = filter-among p ts v a.1 f (rw e at h) in
      elim (Bool-cases (p t)) [ inl k ↦ rw (k, filter) (rw e rest) | inr k ↦ rw (k, filter) rest ]
]

-- The variables of a literal stay where the test passes them.
pub filter-Holds :
    (p : KbTerm → Bool) (ts : List KbTerm) (l : KbLiteral)
    → All (λ t. t.is_var ≡ true) ts
    → ((t : KbTerm) → t.is_var ≡ true → contains_key (var_indices l) t.val ≡ true → p t ≡ true)
    → Holds ts l
    → Holds (filter p ts) l
filter-Holds p ts l a f h =
    EachVar-mono (λ v _. (is_among ts v ≡ true) × (contains_key (var_indices l) v ≡ true))
      (λ v _. is_among (filter p ts) v ≡ true) l.terms 0
      (λ v _ (k, c). filter-among p ts v a (λ t e q. f t e (rw q c)) k)
      (EachVar-both (λ v _. is_among ts v ≡ true) (λ v _. contains_key (var_indices l) v ≡ true)
        l.terms 0 h (EachVar-contains_key l))

among_self_tail :
    (u : KbTerm) (ts ss : List KbTerm)
    → All (λ t. is_among ts t.val ≡ true) ss
    → All (λ t. is_among (u ∷ ts) t.val ≡ true) ss
among_self_tail u ts [] h = tt
among_self_tail u ts (s ∷ ss) h = (ground arith, among_self_tail u ts ss h.1)

among_self : (ts : List KbTerm) → All (λ t. is_among ts t.val ≡ true) ts
among_self [] = tt
among_self (t ∷ ts) = (rw (eq_refl t.val) refl, among_self_tail t ts ts (among_self ts))

All-EachVar :
    (P : ℕ → Type 0) (ts : List KbTerm) (i : ℕ) → All (λ t. P t.val) ts → EachVar (λ v _. P v) ts i
All-EachVar P [] i h = tt
All-EachVar P (t ∷ ts) i h = (λ _. h.0, All-EachVar P ts (suc i) h.1)

-- A list of variables holds those that are filtered out of it.
pub Holds-filter :
    (p : KbTerm → Bool) (ts : List KbTerm) (l : KbLiteral) → l.terms ≡ filter p ts → Holds ts l
Holds-filter p ts l e = rw e (
    All-EachVar (λ v. is_among ts v ≡ true) (filter p ts) 0
      (filter-All (λ t. is_among ts t.val ≡ true) p ts (among_self ts)))
