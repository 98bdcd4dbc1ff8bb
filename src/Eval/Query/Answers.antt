-- ===== src/Eval/Query/Answers.antt =====
-- Which facts answer a query: those that match it, where no variable stands twice; where one does, its
-- positions are compared with the variable's own number.
use fovris.Prelude.{
  ℕ, suc, ◌==◌, leb, ◌≡◌, ◌↔◌, refl, true, false, List, [], ◌∷◌, length, all, All, arith, map,
}
use fovris.Kb.Term.{KbTerm, Terms}
use fovris.Kb.Literal.{KbLiteral, VarIndices, var_indices, indices_loop}
use fovris.Kb.Literal.VarIndices.{Each, EachVar, Each-indices_loop, EachVar-suc}
use fovris.Eval.Selection.{
  at, selection, selectable, attr_of, check_attr_constraints, check_val_constraints,
  val_constraint_loop,
}
use fovris.Eval.Selection.Matching.{value_of, selectable_iff, EachConst, check_val_iff}
use fovris.Eval.Query.{term_at, check_same_vars, check_terms, can_be_unified}
use fovris.Kb.Literal.Positions.{IsFilled, indices_loop-IsFilled, All-first}

-- No variable stands at two positions.
abbrev pub IsLinear : VarIndices → Type 0
IsLinear m = All (λ e. leb (length e.1) 1 ≡ true) m

check_same_vars-linear :
    (terms : List KbTerm) (tuple : Terms) (m : VarIndices)
    → IsLinear m
    → (check_same_vars terms tuple m ≡ true) × (check_attr_constraints (attr_of m) tuple ≡ true)
unfolding check_same_vars
check_same_vars-linear terms tuple [] h = (refl, refl)
check_same_vars-linear terms tuple (e ∷ m) h = rw h.0 (check_same_vars-linear terms tuple m h.1)

EachConst-suc :
    (f : ℕ → ℕ) (ts : List KbTerm) (i : ℕ)
    → EachConst f ts (suc i) ↔ EachConst (λ j. f (suc j)) ts i
EachConst-suc f [] i = (λ h. h, λ h. h)
EachConst-suc f (t ∷ ts) i = ground (arith, EachConst-suc f ts (suc i))

check_terms_iff :
    (ts : List KbTerm) (xs : Terms)
    → length ts ≡ length xs
    → (check_terms ts xs ≡ true) ↔ EachConst (at xs) ts 0
unfolding check_terms
check_terms_iff [] [] h = (λ _. tt, λ _. refl)
check_terms_iff [] (x ∷ xs) h = absurd (omega arith)
check_terms_iff (t ∷ ts) [] h = absurd (omega arith)
check_terms_iff (t ∷ ts) (x ∷ xs) h =
    ground (arith, check_terms_iff ts xs, EachConst-suc (at (x ∷ xs)) ts 0)

selectable_linear :
    (ql : KbLiteral) (tuple : Terms)
    → check_attr_constraints (attr_of (var_indices ql)) tuple ≡ true
    → (selectable (selection ql) tuple ≡ true)
      ↔ (check_val_constraints (val_constraint_loop 0 ql.terms) tuple ≡ true)
unfolding selectable selection
selectable_linear ql tuple attr = rw attr (λ h. h, λ h. h)

-- A query in which no variable stands twice is answered by exactly the facts of its arity that some
-- assignment of values to its variables turns its terms into.
pub can_be_unified_iff :
    (ql : KbLiteral) (tuple : Terms)
    → length ql.terms ≡ length tuple
    → IsLinear (var_indices ql)
    → (can_be_unified ql tuple ≡ true) ↔ ((σ : ℕ → ℕ) × (map (value_of σ) ql.terms ≡ tuple))
unfolding can_be_unified
can_be_unified_iff ql tuple h linear =
    let (same_vars, attr) = check_same_vars-linear ql.terms tuple (var_indices ql) linear in
    let terms = check_terms_iff ql.terms tuple h in
    let matching = selectable_iff ql tuple h in
    let values = check_val_iff tuple ql.terms 0 in
    let selects = selectable_linear ql tuple attr in
    rw same_vars (
      λ c. matching.0 (selects.1 (values.1 (terms.0 c))),
      λ s. terms.1 (values.0 (selects.0 (matching.1 s))),
    )

-- The positions of a variable hold its number.
EachVar-self : (ts : List KbTerm) → EachVar (λ v j. term_at ts j ≡ v) ts 0
EachVar-self [] = tt
EachVar-self (t ∷ ts) =
    (λ _. refl, (EachVar-suc (λ v j. term_at (t ∷ ts) j ≡ v) ts 0).1 (EachVar-self ts))

all→All :
    (x : ℕ) (tuple : Terms) (is : List ℕ)
    → all (λ i. at tuple i == x) is ≡ true
    → All (λ i. at tuple i ≡ x) is
all→All x tuple [] h = tt
all→All x tuple (i ∷ is) h = ground (arith, all→All x tuple is)

same_vars-numbers :
    (terms : List KbTerm) (tuple : Terms) (m : VarIndices)
    → IsFilled m
    → Each (λ v j. term_at terms j ≡ v) m
    → check_same_vars terms tuple m ≡ true
    → All (λ e. leb (length e.1) 1 ≡ false → All (λ i. at tuple i ≡ e.0) e.1) m
unfolding check_same_vars
same_vars-numbers terms tuple [] f h c = tt
same_vars-numbers terms tuple ((v, is) ∷ m) f h c =
    let first = All-first (λ j. term_at terms j ≡ v) is f.0 h.0 in
    let ih = same_vars-numbers terms tuple m f.1 h.1 in
    ground (arith, first, ih, all→All v tuple is)

-- A fact answers a query with a variable at several positions only if it holds, at each of them, the
-- number that stands for the variable in the query.
pub can_be_unified-repeated :
    (ql : KbLiteral) (tuple : Terms)
    → can_be_unified ql tuple ≡ true
    → All (λ e. leb (length e.1) 1 ≡ false → All (λ i. at tuple i ≡ e.0) e.1) (var_indices ql)
unfolding can_be_unified
can_be_unified-repeated ql tuple c =
    same_vars-numbers ql.terms tuple (indices_loop ql.terms 0 [])
      (indices_loop-IsFilled ql.terms 0 [] tt)
      ((Each-indices_loop _ ql.terms 0 []).1 (tt, EachVar-self ql.terms)) (ground arith)
