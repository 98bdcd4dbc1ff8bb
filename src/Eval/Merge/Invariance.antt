-- ===== src/Eval/Merge/Invariance.antt =====
-- The nested-loop join up to the order of its tables, and the merge join under comparisons that agree
-- on the tables.
use mathlib.Core.List.{Perm, Permᴰ, Mem, mem-cons, not-mem-nil, mem-cons_self, Perm-prop}
use mathlib.Core.List.Perm
use mathlib.Core.Logic.{∥∥₁_elim}
use mathlib.Core.Logic.Or
use mathlib.Core.Bool.{So-prop}
use fovris.Prelude.{◌≡◌, refl, Bool, true, if◌then◌else◌, List, [], ◌∷◌, All, arith}
use fovris.Eval.Join.{Comparison}
use fovris.Eval.Merge.{column, row, merge_join}
use fovris.Eval.Merge.Nested.{row_all, nested, perm_swap}

-- A test holds for the elements of a table in any order.
pub All-perm :
    {A : Type 0} (p : A → Bool) (l m : List A)
    → Perm l m
    → All (λ a. p a ≡ true) m
    → All (λ a. p a ≡ true) l
All-perm {A} p l m q h = from_mem l (λ x i. of_mem m h x ((Perm.mem_iff q).0 i))
  where
    of_mem : (m : List A) → All (λ a. p a ≡ true) m → (x : A) → Mem x m → p x ≡ true
    of_mem [] h x i = absurd (not-mem-nil i)
    of_mem (a ∷ m) h x i = Or.elim (So-prop _) (mem-cons.0 i) (λ e. rw e h.0) (of_mem m h.1 x)

    from_mem : (l : List A) → ((x : A) → Mem x l → p x ≡ true) → All (λ a. p a ≡ true) l
    from_mem [] h = tt
    from_mem (a ∷ l) h = (h a mem-cons_self, from_mem l (λ x i. h x (mem-cons.1 (Or.inr i))))

module _ {A B C : Type 0} (joins : A → B → Bool) (emit : A → B → List C) where
  abbrev part : A → B → List C
  part a b = if joins a b then emit a b else []

  row_all-permᴰ :
      (a : A) {bs cs : List B}
      → Permᴰ bs cs
      → Perm (row_all joins emit a bs) (row_all joins emit a cs)
  row_all-permᴰ a Permᴰ.nil = Perm.refl []
  row_all-permᴰ a (Permᴰ.cons e p) = rw e (Perm.append_left _ (row_all-permᴰ a p))
  row_all-permᴰ a (Permᴰ.swap {a' = x} {b' = y} {l = cs} e f) =
      rw (e, f) (perm_swap (part a y) (part a x) (row_all joins emit a cs))
  row_all-permᴰ a (Permᴰ.trans p q) = Perm.trans (row_all-permᴰ a p) (row_all-permᴰ a q)

  nested-permᴰ :
      {l m : List A} (bs : List B)
      → Permᴰ l m
      → Perm (nested joins emit l bs) (nested joins emit m bs)
  nested-permᴰ bs Permᴰ.nil = Perm.refl []
  nested-permᴰ bs (Permᴰ.cons e p) = rw e (Perm.append_left _ (nested-permᴰ bs p))
  nested-permᴰ bs (Permᴰ.swap {a' = x} {b' = y} {l = m} e f) =
      rw (e, f)
        (perm_swap (row_all joins emit y bs) (row_all joins emit x bs) (nested joins emit m bs))
  nested-permᴰ bs (Permᴰ.trans p q) = Perm.trans (nested-permᴰ bs p) (nested-permᴰ bs q)

  rows-permᴰ :
      (l : List A) {bs cs : List B}
      → Permᴰ bs cs
      → Perm (nested joins emit l bs) (nested joins emit l cs)
  rows-permᴰ [] p = Perm.refl []
  rows-permᴰ (a ∷ l) p = Perm.append (row_all-permᴰ a p) (rows-permᴰ l p)

  -- The order of the tables does not matter to the nested loops, up to the order of the result.
  pub nested-perm :
      (l m : List A) (bs cs : List B)
      → Perm l m
      → Perm bs cs
      → Perm (nested joins emit l bs) (nested joins emit m cs)
  nested-perm l m bs cs p q =
      Perm.trans (∥∥₁_elim p Perm-prop (nested-permᴰ bs)) (∥∥₁_elim q Perm-prop (rows-permᴰ m))

module _ {A B C : Type 0} (cmp cmp' : A → B → Comparison) (joins : A → B → Bool)
    (emit : A → B → List C) (pa : A → Bool) (pb : B → Bool)
    (agree : (a : A) (b : B) → pa a ≡ true → pb b ≡ true → cmp a b ≡ cmp' a b) where
  column_cong : (b : B) (l : List A) → column cmp joins emit b l ≡ column cmp' joins emit b l
  unfolding column
  column_cong b [] = refl
  column_cong b (a ∷ l) = ground (arith, column_cong b l)

  row_cong : (a : A) (bs : List B) → row cmp joins emit a bs ≡ row cmp' joins emit a bs
  unfolding row
  row_cong a [] = refl
  row_cong a (b ∷ bs) = ground (arith, row_cong a bs)

  pub merge_join_cong :
      (l : List A) (bs : List B)
      → All (λ a. pa a ≡ true) l
      → All (λ b. pb b ≡ true) bs
      → merge_join cmp joins emit l bs ≡ merge_join cmp' joins emit l bs
  unfolding merge_join
  merge_join_cong [] bs h k = refl
  merge_join_cong (a ∷ l) [] h k = refl
  merge_join_cong (a ∷ l) (b ∷ bs) h k = ground (
    arith,
    agree a b h.0 k.0,
    column_cong b l,
    row_cong a bs,
    merge_join_cong (a ∷ l) bs h k.1,
    merge_join_cong l (b ∷ bs) h.1 k,
    merge_join_cong l bs h.1 k.1,
  )
