-- ===== src/Kb/Literal/Positions.antt =====
-- The first position of a variable in a literal, which joins and projections read (src/KB/KBLiteral.cc).
use fovris.Prelude.{
  ℕ, suc, ◌<◌, ◌==◌, ◌||◌, ◌≡◌, refl, Bool, true, List, [], ◌∷◌, ◌++◌, some, All, arith, Bool-cases,
  inl, inr, map, get_or, length, any, ==_iff, eq_refl,
}
use fovris.Kb.Term.{KbTerm}
use fovris.Kb.Literal.{
  KbLiteral, VarIndices, lookup, var_indices, indices_loop, add_index, contains_key, var_set_loop,
  make_var_set, var_set, first_index, get_ordered_unique_var_indices,
}
use fovris.Kb.Literal.VarIndices.{Each, EachVar, Each-indices_loop}

-- Every variable of the map has a position.
abbrev pub IsFilled : VarIndices → Type 0
IsFilled m = All (λ e. 0 < length e.1) m

length_append_one : (is : List ℕ) (i : ℕ) → 0 < length (is ++ (i ∷ []))
length_append_one [] i = omega arith
length_append_one (j ∷ is) i = omega arith

add_index-IsFilled : (v i : ℕ) (m : VarIndices) → IsFilled m → IsFilled (add_index v i m)
unfolding add_index
add_index-IsFilled v i [] f = (omega arith, tt)
add_index-IsFilled v i ((w, is) ∷ m) f =
    ground (arith, add_index-IsFilled v i m, length_append_one is i)

pub indices_loop-IsFilled :
    (ts : List KbTerm) (i : ℕ) (m : VarIndices) → IsFilled m → IsFilled (indices_loop ts i m)
unfolding indices_loop
indices_loop-IsFilled [] i m f = f
indices_loop-IsFilled (t ∷ ts) i m f = elim (Bool-cases t.is_var) [
  | inl e ↦
      rw e (indices_loop-IsFilled ts (suc i) (add_index t.val i m) (add_index-IsFilled t.val i m f))
  | inr e ↦ rw e (indices_loop-IsFilled ts (suc i) m f)
]

pub All-first : (P : ℕ → Type 0) (is : List ℕ) → 0 < length is → All P is → P (get_or is 0 0)
All-first P [] h k = absurd (omega arith)
All-first P (i ∷ is) h k = k.0

-- What holds of the positions of a variable holds of the first.
pub lookup-first :
    (P : ℕ → ℕ → Type 0) (m : VarIndices) (v : ℕ) (is : List ℕ)
    → IsFilled m
    → Each P m
    → lookup v m ≡ some is
    → P v (get_or is 0 0)
unfolding lookup
lookup-first P [] v is f h e = cc
lookup-first P ((w, js) ∷ m) v is f h e = ground (arith, lookup-first P m v is, All-first (P w) js)

pub EachVar-mono :
    (P Q : ℕ → ℕ → Type 0) (ts : List KbTerm) (i : ℕ)
    → ((v j : ℕ) → P v j → Q v j)
    → EachVar P ts i
    → EachVar Q ts i
EachVar-mono P Q [] i f h = tt
EachVar-mono P Q (t ∷ ts) i f h = (λ e. f t.val i (h.0 e), EachVar-mono P Q ts (suc i) f h.1)

-- Whether a variable is among the terms.
abbrev pub is_among : List KbTerm → ℕ → Bool
is_among set v = any (λ u. v == u.val) set

-- The loop of `makeVarSet` passes over a variable only if it was pushed before.
var_set_loop-EachVar :
    (set ts : List KbTerm) (i : ℕ)
    → EachVar (λ v _. (is_among set v || is_among (var_set_loop set ts) v) ≡ true) ts i
unfolding var_set_loop
var_set_loop-EachVar set [] i = tt
var_set_loop-EachVar set (t ∷ ts) i = elim (Bool-cases t.is_var) [
  | inl e ↦ elim (Bool-cases (is_among set t.val)) [
    | inl k ↦ (
      λ _. ground arith,
      EachVar-mono _ _ ts (suc i) (λ v j h. ground arith) (var_set_loop-EachVar set ts (suc i)),
    )
    | inr k ↦ (
      λ _. ground (arith, eq_refl t.val),
      EachVar-mono _ _ ts (suc i) (λ v j h. ground arith)
          (var_set_loop-EachVar (t ∷ set) ts (suc i)),
    )
  ]
  | inr e ↦ (
    λ k. cc,
    EachVar-mono _ _ ts (suc i) (λ v j h. ground arith) (var_set_loop-EachVar set ts (suc i)),
  )
]

first_index-among :
    (f : ℕ → ℕ) (set : List KbTerm) (v : ℕ)
    → is_among set v ≡ true
    → any (λ j. f v == j) (map (λ t. f t.val) set) ≡ true
first_index-among f [] v h = h
first_index-among f (t ∷ set) v h = elim (Bool-cases (v == t.val)) [
  | inl e ↦ let p : v ≡ t.val = (==_iff v t.val).0 e in rw p (rw (eq_refl (f t.val)) refl)
  | inr e ↦ ground (arith, first_index-among f set v)
]

-- The first position of each variable is one of the positions of the set of variables.
pub lookup-first-among :
    (l : KbLiteral) (v : ℕ) (is : List ℕ)
    → lookup v (var_indices l) ≡ some is
    → any (λ j. get_or is 0 0 == j) (get_ordered_unique_var_indices l) ≡ true
unfolding get_ordered_unique_var_indices first_index var_set make_var_set var_indices
lookup-first-among l v is e =
    let m = indices_loop l.terms 0 [] in
    let among : is_among (var_set_loop [] l.terms) v ≡ true =
      lookup-first (λ u _. is_among (var_set_loop [] l.terms) u ≡ true) m v is
        (indices_loop-IsFilled l.terms 0 [] tt)
        ((Each-indices_loop _ l.terms 0 []).1 (tt, var_set_loop-EachVar [] l.terms 0)) e in
    let k = first_index-among (first_index m) (var_set_loop [] l.terms) v among in
    let q : first_index m v ≡ get_or is 0 0 = rw (e, first_index) refl in rw (← q) k

-- Every variable of the literal has its key.
contains_key-tail :
    (w : ℕ) (is : List ℕ) (m n : VarIndices)
    → All (λ e. contains_key m e.0 ≡ true) n
    → All (λ e. contains_key ((w, is) ∷ m) e.0 ≡ true) n
unfolding lookup
contains_key-tail w is m [] h = tt
contains_key-tail w is m (e ∷ n) h = (
  elim (Bool-cases (e.0 == w)) [
    | inl k ↦ rw (k, lookup, contains_key) refl
    | inr k ↦ rw (k, lookup, contains_key) h.0
  ],
  contains_key-tail w is m n h.1,
)

Each-contains_key : (m : VarIndices) → All (λ e. contains_key m e.0 ≡ true) m
unfolding lookup
Each-contains_key [] = tt
Each-contains_key ((w, is) ∷ m) =
    (rw (eq_refl w, lookup, contains_key) refl, contains_key-tail w is m m (Each-contains_key m))

All-const : {P : Type 0} (is : List ℕ) → P → All (λ _. P) is
All-const [] p = tt
All-const (i ∷ is) p = (p, All-const is p)

Each-const : (P : ℕ → Type 0) (m : VarIndices) → All (λ e. P e.0) m → Each (λ v _. P v) m
Each-const P [] h = tt
Each-const P (e ∷ m) h = (All-const e.1 h.0, Each-const P m h.1)

pub EachVar-contains_key :
    (l : KbLiteral) → EachVar (λ v _. contains_key (var_indices l) v ≡ true) l.terms 0
unfolding var_indices
EachVar-contains_key l =
    let m = indices_loop l.terms 0 [] in
    ((Each-indices_loop (λ v _. contains_key m v ≡ true) l.terms 0 []).0
      (Each-const (λ v. contains_key m v ≡ true) m (Each-contains_key m))).1

pub lookup-filled :
    (m : VarIndices) (v : ℕ) (is : List ℕ) → IsFilled m → lookup v m ≡ some is → 0 < length is
unfolding lookup
lookup-filled [] v is f e = cc
lookup-filled ((w, js) ∷ m) v is f e = ground (arith, lookup-filled m v is)

-- Every variable of the literal is in its set of variables.
pub variables-among : (l : KbLiteral) → EachVar (λ v _. is_among (var_set l) v ≡ true) l.terms 0
unfolding var_set make_var_set
variables-among l = var_set_loop-EachVar [] l.terms 0

var_set_loop-is_var : (set ts : List KbTerm) → All (λ t. t.is_var ≡ true) (var_set_loop set ts)
unfolding var_set_loop
var_set_loop-is_var set [] = tt
var_set_loop-is_var set (t ∷ ts) =
    ground (arith, var_set_loop-is_var set ts, var_set_loop-is_var (t ∷ set) ts)

pub make_var_set-is_var : (ts : List KbTerm) → All (λ t. t.is_var ≡ true) (make_var_set ts)
unfolding make_var_set
make_var_set-is_var ts = var_set_loop-is_var [] ts
