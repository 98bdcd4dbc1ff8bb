-- ===== src/Kb/Literal/VarIndices.antt =====
-- The map from the variables of a literal to their positions: its keys ascend, and it holds exactly
-- the positions of the variables.
use fovris.Prelude.{
  ℕ, suc, ◌<◌, ◌≡◌, ◌↔◌, true, List, [], ◌∷◌, ◌++◌, All, arith, Bool-cases, inl, inr,
}
use fovris.Kb.Term.{KbTerm}
use fovris.Kb.Literal.{VarIndices, lookup, add_index, indices_loop, create_same_vars_indices}

-- The keys ascend.
abbrev pub IsSorted : VarIndices → Type 0
IsSorted [] = Unit
IsSorted ((v, is) ∷ m) = All (λ e. v < e.0) m × IsSorted m

below-add_index :
    (w v i : ℕ) (m : VarIndices)
    → w < v
    → All (λ e. w < e.0) m
    → All (λ e. w < e.0) (add_index v i m)
unfolding add_index
below-add_index w v i [] h b = (h, tt)
below-add_index w v i ((u, is) ∷ m) h b = ground (arith, below-add_index w v i m)

below_trans : (w v : ℕ) (m : VarIndices) → w < v → All (λ e. v < e.0) m → All (λ e. w < e.0) m
below_trans w v [] h b = tt
below_trans w v (e ∷ m) h b = (omega arith, below_trans w v m h b.1)

add_index-IsSorted : (v i : ℕ) (m : VarIndices) → IsSorted m → IsSorted (add_index v i m)
unfolding add_index
add_index-IsSorted v i [] s = (tt, tt)
add_index-IsSorted v i ((w, is) ∷ m) s =
    ground (arith, add_index-IsSorted v i m, below-add_index w v i m, below_trans v w m)

pub indices_loop-IsSorted :
    (ts : List KbTerm) (i : ℕ) (m : VarIndices) → IsSorted m → IsSorted (indices_loop ts i m)
unfolding indices_loop
indices_loop-IsSorted [] i m s = s
indices_loop-IsSorted (t ∷ ts) i m s = elim (Bool-cases t.is_var) [
  | inl e ↦
      rw e (indices_loop-IsSorted ts (suc i) (add_index t.val i m) (add_index-IsSorted t.val i m s))
  | inr e ↦ rw e (indices_loop-IsSorted ts (suc i) m s)
]

-- Every position of every variable has the property.
abbrev pub Each : (ℕ → ℕ → Type 0) → VarIndices → Type 0
Each P m = All (λ e. All (P e.0) e.1) m

Each-append_one : (P : ℕ → Type 0) (is : List ℕ) (i : ℕ) → All P (is ++ (i ∷ [])) ↔ (All P is × P i)
Each-append_one P [] i = (λ h. (tt, h.0), λ h. (h.1, tt))
Each-append_one P (j ∷ is) i = ground (arith, Each-append_one P is i)

Each-add_index :
    (P : ℕ → ℕ → Type 0) (v i : ℕ) (m : VarIndices) → Each P (add_index v i m) ↔ (Each P m × P v i)
unfolding add_index
Each-add_index P v i [] = ground arith
Each-add_index P v i ((w, is) ∷ m) =
    ground (arith, Each-add_index P v i m, Each-append_one (P w) is i)

-- The property holds at the variables of the terms, the first of which stands at `i`.
abbrev pub EachVar : (ℕ → ℕ → Type 0) → List KbTerm → ℕ → Type 0
EachVar P [] i = Unit
EachVar P (t ∷ ts) i = (t.is_var ≡ true → P t.val i) × EachVar P ts (suc i)

pub Each-indices_loop :
    (P : ℕ → ℕ → Type 0) (ts : List KbTerm) (i : ℕ) (m : VarIndices)
    → Each P (indices_loop ts i m) ↔ (Each P m × EachVar P ts i)
unfolding indices_loop
Each-indices_loop P [] i m = ground arith
Each-indices_loop P (t ∷ ts) i m = ground (
  arith,
  Each-indices_loop P ts (suc i) (add_index t.val i m),
  Each-indices_loop P ts (suc i) m,
  Each-add_index P t.val i m,
)

-- `createSameVarsIndices` orders its map by the variables, and the map holds a position for a
-- variable exactly where the variable stands among the terms.
create_same_vars_indices_lem :
    (P : ℕ → ℕ → Type 0) (terms : List KbTerm)
    → IsSorted (create_same_vars_indices terms)
      × (Each P (create_same_vars_indices terms) ↔ EachVar P terms 0)
unfolding create_same_vars_indices
create_same_vars_indices_lem P terms =
    (indices_loop-IsSorted terms 0 [] tt, ground (arith, Each-indices_loop P terms 0 []))

-- In a sorted map a key is looked up past the keys before it.
pub lookup-above :
    (w : ℕ) (is : List ℕ) (m : VarIndices)
    → All (λ e. w < e.0) m
    → All (λ e. lookup e.0 ((w, is) ∷ m) ≡ lookup e.0 m) m
unfolding lookup
lookup-above w is m b = go m m b
  where
    go :
        (n m : VarIndices)
        → All (λ e. w < e.0) n
        → All (λ e. lookup e.0 ((w, is) ∷ m) ≡ lookup e.0 m) n
    go [] m b = tt
    go (e ∷ n) m b = (ground arith, go n m b.1)

pub EachVar-suc :
    (P : ℕ → ℕ → Type 0) (ts : List KbTerm) (i : ℕ)
    → EachVar P ts (suc i) ↔ EachVar (λ v j. P v (suc j)) ts i
EachVar-suc P [] i = (λ h. h, λ h. h)
EachVar-suc P (t ∷ ts) i = ground (arith, EachVar-suc P ts (suc i))
