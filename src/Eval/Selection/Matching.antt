-- ===== src/Eval/Selection/Matching.antt =====
-- Selection is matching: a fact is selectable exactly when some assignment of values to variables
-- turns the literal's terms into the fact's.
use fovris.Prelude.{
  ℕ, suc, ◌==◌, ◌≡◌, ◌↔◌, ◌≢◌, ◌⊎◌, refl, true, false, if◌then◌else◌, List, [], ◌∷◌, none, some,
  All, arith, map, get_or, length, all, leb, eq_refl, ap,
}
use fovris.Truth.{TruthValue}
use fovris.Truth.Set.{test, empty}
use fovris.Kb.Term.{KbTerm, Terms}
use fovris.Kb.Literal.{KbLiteral, VarIndices, lookup, indices_loop}
use fovris.Kb.Literal.VarIndices.{
  IsSorted, Each, EachVar, Each-indices_loop, indices_loop-IsSorted, lookup-above,
}
use fovris.Eval.Selection.{
  at, val_constraint_loop, attr_of, selection, check_positions, check_attr_constraints,
  check_val_constraints, selectable, matches_truth_value,
}

-- What a term stands for under an assignment of the variables.
abbrev pub value_of : (ℕ → ℕ) → KbTerm → ℕ
value_of σ t = if t.is_var then σ t.val else t.val

-- The assignment that reads each variable at its first position.
abbrev assign : Terms → VarIndices → ℕ → ℕ
assign terms m v = elim (lookup v m) [ some is ↦ at terms (get_or is 0 0) | none ↦ 0 ]

two_positions : (n : ℕ) → leb (suc (suc n)) 1 ≡ false
two_positions n = ground arith

check_positions→All :
    (terms : Terms) (is : List ℕ)
    → check_positions terms is ≡ true
    → All (λ i. at terms i ≡ at terms (get_or is 0 0)) is
check_positions→All terms [] h = tt
check_positions→All terms (i ∷ []) h = (refl, tt)
check_positions→All terms (i ∷ j ∷ is) h = go (i ∷ j ∷ is) i (rw two_positions at h)
  where
    go :
        (is : List ℕ) (k : ℕ)
        → all (λ i. at terms i == at terms k) is ≡ true
        → All (λ i. at terms i ≡ at terms k) is
    go [] k h = tt
    go (i ∷ is) k h = (ground arith, go is k (ground arith))

All→check_positions :
    (terms : Terms) (is : List ℕ) (x : ℕ)
    → All (λ i. at terms i ≡ x) is
    → check_positions terms is ≡ true
All→check_positions terms [] x h = refl
All→check_positions terms (i ∷ []) x h = refl
All→check_positions terms (i ∷ j ∷ is) x h = rw two_positions (go (i ∷ j ∷ is) i h.0 h)
  where
    go :
        (is : List ℕ) (k : ℕ)
        → at terms k ≡ x
        → All (λ i. at terms i ≡ x) is
        → all (λ i. at terms i == at terms k) is ≡ true
    go [] k e h = refl
    go (i ∷ is) k e h = ground (arith, go is k e h.1)

-- The positions agree with an assignment that looks the variables up alike.
transfer :
    (terms : Terms) (m m' n : VarIndices)
    → All (λ e. lookup e.0 m' ≡ lookup e.0 m) n
    → Each (λ v j. at terms j ≡ assign terms m v) n
    → Each (λ v j. at terms j ≡ assign terms m' v) n
transfer terms m m' [] h k = tt
transfer terms m m' (e ∷ n) h k = (rw (h.0, assign) k.0, transfer terms m m' n h.1 k.1)

check_attr→Each :
    (terms : Terms) (m : VarIndices)
    → IsSorted m
    → check_attr_constraints (attr_of m) terms ≡ true
    → Each (λ v j. at terms j ≡ assign terms m v) m
unfolding lookup
check_attr→Each terms [] s h = tt
check_attr→Each terms ((w, is) ∷ m) s h = (
  rw (eq_refl w, assign) (check_positions→All terms is (ground arith)),
  transfer terms m ((w, is) ∷ m) m (lookup-above w is m s.0)
      (check_attr→Each terms m s.1 (ground arith)),
)

Each→check_attr :
    (terms : Terms) (σ : ℕ → ℕ) (m : VarIndices)
    → Each (λ v j. at terms j ≡ σ v) m
    → check_attr_constraints (attr_of m) terms ≡ true
Each→check_attr terms σ [] h = refl
Each→check_attr terms σ ((w, is) ∷ m) h =
    rw (All→check_positions terms is (σ w) h.0) (Each→check_attr terms σ m h.1)

-- The constants among the terms, the first of which stands at `i`, are those of the fact.
abbrev pub EachConst : (ℕ → ℕ) → List KbTerm → ℕ → Type 0
EachConst f [] i = Unit
EachConst f (t ∷ ts) i = (t.is_var ≡ false → f i ≡ t.val) × EachConst f ts (suc i)

pub check_val_iff :
    (terms : Terms) (ts : List KbTerm) (i : ℕ)
    → (check_val_constraints (val_constraint_loop i ts) terms ≡ true) ↔ EachConst (at terms) ts i
unfolding val_constraint_loop
check_val_iff terms [] i = (λ _. tt, λ _. refl)
check_val_iff terms (t ∷ ts) i = ground (arith, check_val_iff terms ts (suc i))

-- The terms stand for the values of `f` from `i` on.
abbrev Agree : (ℕ → ℕ) → List KbTerm → ℕ → (ℕ → ℕ) → Type 0
Agree σ [] i f = Unit
Agree σ (t ∷ ts) i f = (value_of σ t ≡ f i) × Agree σ ts (suc i) f

Agree-iff :
    (σ f : ℕ → ℕ) (ts : List KbTerm) (i : ℕ)
    → (EachVar (λ v j. f j ≡ σ v) ts i × EachConst f ts i) ↔ Agree σ ts i f
Agree-iff σ f [] i = (λ _. tt, λ _. (tt, tt))
Agree-iff σ f (t ∷ ts) i = ground (arith, Agree-iff σ f ts (suc i))

Agree-suc :
    (σ f : ℕ → ℕ) (ts : List KbTerm) (i : ℕ) → Agree σ ts (suc i) f ↔ Agree σ ts i (λ j. f (suc j))
Agree-suc σ f [] i = (λ _. tt, λ _. tt)
Agree-suc σ f (t ∷ ts) i = ground (arith, Agree-suc σ f ts (suc i))

pub length-map : (σ : ℕ → ℕ) (ts : List KbTerm) → length ts ≡ length (map (value_of σ) ts)
length-map σ [] = refl
length-map σ (t ∷ ts) = ap suc (length-map σ ts)

Agree-map :
    (σ : ℕ → ℕ) (ts : List KbTerm) (xs : Terms)
    → length ts ≡ length xs
    → Agree σ ts 0 (at xs) ↔ (map (value_of σ) ts ≡ xs)
Agree-map σ [] [] h = (λ _. refl, λ _. tt)
Agree-map σ [] (x ∷ xs) h = absurd (omega arith)
Agree-map σ (t ∷ ts) [] h = absurd (omega arith)
Agree-map σ (t ∷ ts) (x ∷ xs) h = ground (arith, Agree-map σ ts xs, Agree-suc σ (at (x ∷ xs)) ts 0)

pub variables_agree :
    (σ : ℕ → ℕ) (ts : List KbTerm) → EachVar (λ v j. at (map (value_of σ) ts) j ≡ σ v) ts 0
variables_agree σ ts =
    ((Agree-iff σ (at (map (value_of σ) ts)) ts 0).1
      ((Agree-map σ ts (map (value_of σ) ts) (length-map σ ts)).1 refl)).0

-- A fact of the literal's arity is selectable exactly when some assignment of values to variables
-- turns the literal's terms into the fact's terms.
pub selectable_iff :
    (kbr : KbLiteral) (xs : Terms)
    → length kbr.terms ≡ length xs
    → (selectable (selection kbr) xs ≡ true) ↔ ((σ : ℕ → ℕ) × (map (value_of σ) kbr.terms ≡ xs))
unfolding selectable selection
selectable_iff kbr xs h = (
  λ sel.
      let m = indices_loop kbr.terms 0 [] in
      let σ = assign xs m in
      let vars : Each (λ v j. at xs j ≡ σ v) m =
        check_attr→Each xs m (indices_loop-IsSorted kbr.terms 0 [] tt) (ground arith) in
      let consts : EachConst (at xs) kbr.terms 0 =
        (check_val_iff xs kbr.terms 0).0 (ground arith) in
      (
        σ,
        (Agree-map σ kbr.terms xs h).0 (
            (Agree-iff σ (at xs) kbr.terms 0).0
              (((Each-indices_loop (λ v j. at xs j ≡ σ v) kbr.terms 0 []).0 vars).1, consts)),
      ),
  λ (σ, e).
      let (vars, consts) = (Agree-iff σ (at xs) kbr.terms 0).1 ((Agree-map σ kbr.terms xs h).1 e) in
      rw
        (Each→check_attr xs σ (indices_loop kbr.terms 0 [])
          ((Each-indices_loop (λ v j. at xs j ≡ σ v) kbr.terms 0 []).1 (tt, vars)))
        ((check_val_iff xs kbr.terms 0).1 consts),
)

-- A truth value passes a literal's constraint exactly when the constraint has it or is empty; the
-- value unknown does not pass where it is all that the constraint has.
pub matches_truth_value_iff :
    (kbr : KbLiteral) (t : TruthValue)
    → t ≢ TruthValue.unknown
    → (matches_truth_value (selection kbr) t ≡ true)
      ↔ ((kbr.logic_set ≡ empty) ⊎ (test kbr.logic_set t ≡ true))
unfolding matches_truth_value selection
matches_truth_value_iff kbr t h = ground arith
