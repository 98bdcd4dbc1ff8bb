-- ===== src/Eval/Merge/Nested.antt =====
-- On sorted tables the merge join is the nested-loop join.
use mathlib.Core.List.{Perm, append_assoc, perm_append_comm}
use mathlib.Core.List.Perm
use fovris.Prelude.{
  ℕ, ◌≡◌, inl, inr, refl, sym, Bool, true, false, if◌then◌else◌, List, [], ◌∷◌, ◌++◌, All, arith,
  ◌∙◌,
}
use fovris.Eval.Join.{Comparison, less, greater}
use fovris.Eval.Join.Keys.{
  key_order, is_less, is_equal, Comparison-cases, greater-above, less-below, key_order-equal,
  key_order-flip,
}
use fovris.Eval.Merge.{column, row, merge_join}

-- What the nested loops emit.
module _ {A B C : Type 0} (joins : A → B → Bool) (emit : A → B → List C) where
  abbrev pub row_all : A → List B → List C
  row_all a [] = []
  row_all a (b ∷ bs) = (if joins a b then emit a b else []) ++ row_all a bs

  abbrev pub column_all : B → List A → List C
  column_all b [] = []
  column_all b (a ∷ l) = (if joins a b then emit a b else []) ++ column_all b l

  abbrev pub nested : List A → List B → List C
  nested [] bs = []
  nested (a ∷ l) bs = row_all a bs ++ nested l bs

pub perm_swap : {C : Type 0} (x y z : List C) → Perm (x ++ (y ++ z)) (y ++ (x ++ z))
perm_swap x y z =
    let p = Perm.append_right z (perm_append_comm x y) in rw append_assoc at (rw append_assoc at p)

-- The block that one round emits, against the row and the column that it stands for.
perm_block :
    {C : Type 0} (e c r m n nb : List C)
    → Perm m n
    → Perm nb (c ++ n)
    → Perm (e ++ (c ++ (r ++ m))) ((e ++ r) ++ nb)
perm_block e c r m n nb p q =
    let right : Perm (r ++ nb) (c ++ (r ++ n)) =
      Perm.trans (Perm.append_left r q) (perm_swap r c n) in
    let left : Perm (c ++ (r ++ m)) (c ++ (r ++ n)) = Perm.append_left c (Perm.append_left r p) in
    rw (append_assoc e r nb) (Perm.append_left e (Perm.trans left (Perm.symm right)))

nested-cons :
    {A B C : Type 0} (joins : A → B → Bool) (emit : A → B → List C) (l : List A) (b : B)
    (bs : List B)
    → Perm (nested joins emit l (b ∷ bs)) (column_all joins emit b l ++ nested joins emit l bs)
nested-cons joins emit [] b bs = Perm.refl []
nested-cons joins emit (a ∷ l) b bs =
    let e = if joins a b then emit a b else [] in
    let r = row_all joins emit a bs in
    let n = nested joins emit l bs in
    let c = column_all joins emit b l in
    let tail : Perm (r ++ nested joins emit l (b ∷ bs)) (c ++ (r ++ n)) =
      Perm.trans (Perm.append_left r (nested-cons joins emit l b bs)) (perm_swap r c n) in
    rw (append_assoc e r (nested joins emit l (b ∷ bs)), append_assoc e c (r ++ n))
      (Perm.append_left e tail)

-- No later element has a smaller key.
abbrev pub SortedBy : {A : Type 0} → (A → List ℕ) → List A → Type 0
SortedBy k [] = Unit
SortedBy k (a ∷ l) = All (λ b. is_less (key_order (k b) (k a)) ≡ false) l × SortedBy k l

-- A comparison by keys.
module _ {A B C : Type 0} (ka : A → List ℕ) (kb : B → List ℕ) (cmp : A → B → Comparison)
    (joins : A → B → Bool) (emit : A → B → List C)
    (by_key : (a : A) (b : B) → cmp a b ≡ key_order (ka a) (kb b))
    (by_cmp : (a : A) (b : B) → joins a b ≡ is_equal (cmp a b)) where
  -- The keys of the list are not below the key `x`.
  abbrev Above : {D : Type 0} → (D → List ℕ) → List ℕ → List D → Type 0
  Above k x l = All (λ d. is_less (key_order (k d) x) ≡ false) l

  column_all-none :
      (l : List A) (b : B)
      → All (λ a. key_order (ka a) (kb b) ≡ greater) l
      → column_all joins emit b l ≡ []
  column_all-none [] b h = refl
  column_all-none (a ∷ l) b h = ground (arith, column_all-none l b h.1, by_key a b, by_cmp a b)

  row_all-none :
      (a : A) (bs : List B)
      → All (λ b. key_order (ka a) (kb b) ≡ less) bs
      → row_all joins emit a bs ≡ []
  row_all-none a [] h = refl
  row_all-none a (b ∷ bs) h = ground (arith, row_all-none a bs h.1, by_key a b, by_cmp a b)

  Above-greater :
      (x y : List ℕ) (l : List A)
      → key_order x y ≡ greater
      → Above ka x l
      → All (λ a. key_order (ka a) y ≡ greater) l
  Above-greater x y [] h k = tt
  Above-greater x y (a ∷ l) h k = (greater-above x y (ka a) h k.0, Above-greater x y l h k.1)

  Above-less :
      (x y : List ℕ) (l : List B)
      → key_order x y ≡ less
      → Above kb y l
      → All (λ b. key_order x (kb b) ≡ less) l
  Above-less x y [] h k = tt
  Above-less x y (b ∷ l) h k = (less-below x y (kb b) h k.0, Above-less x y l h k.1)

  column-column_all :
      (l : List A) (b : B)
      → SortedBy ka l
      → Above ka (kb b) l
      → column cmp joins emit b l ≡ column_all joins emit b l
  unfolding column
  column-column_all [] b s h = refl
  column-column_all (a ∷ l) b s h = elim (Comparison-cases (cmp a b)) [
    | inl lt ↦ absurd (ground (arith, by_key a b))
    | inr (inl eq) ↦ ground (arith, by_cmp a b, column-column_all l b s.1 h.1)
    | inr (inr gt) ↦
        let none_joins =
          column_all-none l b (Above-greater (ka a) (kb b) l (sym (by_key a b) ∙ gt) s.0) in
        ground (arith, by_cmp a b, none_joins)
  ]

  row-row_all :
      (a : A) (bs : List B)
      → SortedBy kb bs
      → Above kb (ka a) bs
      → row cmp joins emit a bs ≡ row_all joins emit a bs
  unfolding row
  row-row_all a [] s h = refl
  row-row_all a (b ∷ bs) s h = elim (Comparison-cases (cmp a b)) [
    | inl lt ↦
        let none_joins =
          row_all-none a bs (Above-less (ka a) (kb b) bs (sym (by_key a b) ∙ lt) s.0) in
        ground (arith, by_cmp a b, none_joins)
    | inr (inl eq) ↦ ground (arith, by_cmp a b, row-row_all a bs s.1 h.1)
    | inr (inr gt) ↦ absurd (ground (arith, by_key a b, key_order-flip (ka a) (kb b)))
  ]

  nested-nil : (l : List A) → nested joins emit l [] ≡ []
  nested-nil [] = refl
  nested-nil (a ∷ l) = nested-nil l

  nested-drop :
      (l : List A) (b : B) (bs : List B)
      → All (λ a. key_order (ka a) (kb b) ≡ greater) l
      → nested joins emit l (b ∷ bs) ≡ nested joins emit l bs
  nested-drop [] b bs h = refl
  nested-drop (a ∷ l) b bs h = ground (arith, nested-drop l b bs h.1, by_key a b, by_cmp a b)

  -- On tables that are sorted by their keys the merge join emits what the nested loops emit.
  pub merge_join-nested :
      (l : List A) (bs : List B)
      → SortedBy ka l
      → SortedBy kb bs
      → Perm (merge_join cmp joins emit l bs) (nested joins emit l bs)
  unfolding merge_join
  merge_join-nested [] bs s t = Perm.refl []
  merge_join-nested (a ∷ l) [] s t = rw (nested-nil l) (Perm.refl [])
  merge_join-nested (a ∷ l) (b ∷ bs) s t = elim (Comparison-cases (cmp a b)) [
    | inl lt ↦
        let k = sym (by_key a b) ∙ lt in
        let none_joins = row_all-none a (b ∷ bs) (k, Above-less (ka a) (kb b) bs k t.0) in
        rw (lt, merge_join) (rw none_joins (merge_join-nested l (b ∷ bs) s.1 t))
    | inr (inl eq) ↦
        let same_key = (key_order-equal (ka a) (kb b)).0 (sym (by_key a b) ∙ eq) in
        let col = column-column_all l b s.1 (rw same_key at s.0) in
        let run = row-row_all a bs t.1 (rw (← same_key) at t.0) in
        let joined : joins a b ≡ true = rw (by_cmp a b) (rw eq refl) in
        rw (eq, merge_join, joined, col, run)
          (perm_block (emit a b) (column_all joins emit b l) (row_all joins emit a bs)
            (merge_join cmp joins emit l bs) (nested joins emit l bs) (nested joins emit l (b ∷ bs))
            (merge_join-nested l bs s.1 t.1) (nested-cons joins emit l b bs))
    | inr (inr gt) ↦
        let k = sym (by_key a b) ∙ gt in
        let none_joins = nested-drop (a ∷ l) b bs (k, Above-greater (ka a) (kb b) l k s.0) in
        rw (gt, merge_join) (rw none_joins (merge_join-nested (a ∷ l) bs s t.1))
  ]
