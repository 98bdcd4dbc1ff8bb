-- ===== src/Eval/Disjunction/Lost.antt =====
-- A tuple of the temporary table that stands above all facts of the current table is not kept.
use fovris.Prelude.{◌≡◌, refl, Bool, false, List, [], ◌∷◌, All, map}
use fovris.Eval.Join.{Comparison, greater}
use fovris.Eval.Disjunction.{disjunction_loop, unjoined, disjunction_join}

module _ {A B C : Type 0} (cmp : A → B → Comparison) (joins : A → B → Bool) (emit : A → B → C)
    (left : A → C) (right : B → C) where
  disjunction_loop-greater :
      (a : A) (l : List A) (bs : List B)
      → All (λ b. cmp a b ≡ greater) bs
      → disjunction_loop cmp joins emit left right (a ∷ l) bs ≡ ([], map (λ _. false) bs)
  unfolding disjunction_loop
  disjunction_loop-greater a l [] h = refl
  disjunction_loop-greater a l (b ∷ bs) h =
      rw (h.0, disjunction_loop) (rw (disjunction_loop-greater a l bs h.1))

  unjoined_all :
      (bs : List B) → unjoined cmp joins emit left right (map (λ _. false) bs) bs ≡ map right bs
  unfolding unjoined
  unjoined_all [] = refl
  unjoined_all (b ∷ bs) = rw (unjoined_all bs)

  -- Where the first tuple of the temporary table is greater than every fact of the current table, and
  -- there is such a fact, the merge yields the right complements of the facts alone: the tuples of the
  -- temporary table are lost.
  pub disjunction_join-lost :
      (a : A) (l : List A) (b : B) (bs : List B)
      → All (λ c. cmp a c ≡ greater) (b ∷ bs)
      → disjunction_join cmp joins emit left right (a ∷ l) (b ∷ bs) ≡ map right (b ∷ bs)
  unfolding disjunction_join
  disjunction_join-lost a l b bs h =
      rw (disjunction_loop-greater a l (b ∷ bs) h) (unjoined_all (b ∷ bs))
