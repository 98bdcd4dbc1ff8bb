-- ===== src/Eval/Unknown/Antijoin.antt =====
-- A literal in {unknown} keeps the tuples that join with no fact. On sorted tables the loop does so
-- for all tuples but those below the first fact, which it drops.
use fovris.Prelude.{
  ℕ, ◌≡◌, inl, inr, refl, sym, ◌∙◌, Bool, true, false, if◌then◌else◌, List, [], ◌∷◌, ◌++◌, Option,
  none, some, All, any, arith,
}
use fovris.Eval.Join.{Comparison, less, greater}
use fovris.Eval.Join.Keys.{
  key_order, is_less, is_equal, Comparison-cases, less-below, key_order-equal, greater-below,
  greater-above, key_antisymm,
}
use fovris.Eval.Merge.Nested.{SortedBy}
use fovris.Eval.Unknown.{complement_all, skip_matched, finish, unknown_join}

-- The tuples that join with no fact, in order.
abbrev pub unmatched : {A B C : Type 0} → (A → B → Bool) → (A → List C) → List A → List B → List C
unmatched matched complement [] bs = []
unmatched matched complement (a ∷ l) bs =
    if any (matched a) bs
    then unmatched matched complement l bs
    else complement a ++ unmatched matched complement l bs

-- The tuples from the first one that is not less than the first fact.
abbrev pub drop_below : {A B : Type 0} → (A → B → Comparison) → List B → List A → List A
drop_below cmp [] l = l
drop_below cmp (b ∷ bs) [] = []
drop_below cmp (b ∷ bs) (a ∷ l) = if is_less (cmp a b) then drop_below cmp (b ∷ bs) l else a ∷ l

module _ {A B C : Type 0} (ka : A → List ℕ) (kb : B → List ℕ) (cmp : A → B → Comparison)
    (joins matched : A → B → Bool) (emit : A → B → List C) (complement : A → List C)
    (by_key : (a : A) (b : B) → cmp a b ≡ key_order (ka a) (kb b))
    (by_cmp : (a : A) (b : B) → matched a b ≡ is_equal (cmp a b)) where
  abbrev Above : {D : Type 0} → (D → List ℕ) → List ℕ → List D → Type 0
  Above k x l = All (λ d. is_less (key_order (k d) x) ≡ false) l

  abbrev join_from : List A → Option B → List B → List C
  join_from = unknown_join cmp joins matched emit complement true true

  abbrev rest_of : List A → List B → List C
  rest_of = unmatched matched complement

  unmatched_by_key : (a : A) (b : B) → matched a b ≡ is_equal (key_order (ka a) (kb b))
  unmatched_by_key a b = rw (← by_key a b) (by_cmp a b)

  -- A tuple below a fact joins with none of the facts from there on.
  none-Above :
      (a : A) (y : List ℕ) (bs : List B)
      → key_order (ka a) y ≡ less
      → Above kb y bs
      → any (matched a) bs ≡ false
  none-Above a y [] h k = refl
  none-Above a y (b ∷ bs) h k =
      ground (arith, unmatched_by_key a b, less-below (ka a) y (kb b), none-Above a y bs h k.1)

  drop_fact :
      (l : List A) (p : B) (bs : List B)
      → All (λ a. key_order (ka a) (kb p) ≡ greater) l
      → rest_of l (p ∷ bs) ≡ rest_of l bs
  drop_fact [] p bs h = refl
  drop_fact (a ∷ l) p bs h = ground (arith, unmatched_by_key a p, drop_fact l p bs h.1)

  All-greater :
      (x y : List ℕ) (l : List A)
      → key_order x y ≡ greater
      → Above ka x l
      → All (λ a. key_order (ka a) y ≡ greater) l
  All-greater x y [] h k = tt
  All-greater x y (a ∷ l) h k = (greater-above x y (ka a) h k.0, All-greater x y l h k.1)

  matches_next :
      (a : A) (p b : B)
      → is_less (key_order (kb b) (kb p)) ≡ false
      → is_less (key_order (ka a) (kb b)) ≡ false
      → matched a p ≡ true
      → matched a b ≡ true
  matches_next a p b h k m = ground (
    arith,
    unmatched_by_key a p,
    unmatched_by_key a b,
    Comparison-cases (key_order (ka a) (kb p)),
    key_order-equal (ka a) (kb p),
    key_order-equal (ka a) (kb b),
    key_antisymm (kb b) (kb p),
  )

  -- The fact before the current one matches what the current one matches.
  same_fact :
      (l : List A) (x : List ℕ) (p b : B) (bs : List B)
      → x ≡ kb b
      → is_less (key_order (kb b) (kb p)) ≡ false
      → Above ka x l
      → rest_of l (p ∷ b ∷ bs) ≡ rest_of l (b ∷ bs)
  same_fact [] x p b bs e h k = refl
  same_fact (a ∷ l) x p b bs e h k =
      let below : is_less (key_order (ka a) (kb b)) ≡ false = rw e at k.0 in
      ground (arith, matches_next a p b h below, same_fact l x p b bs e h k.1)

  no_fact :
      (l : List A) → complement_all cmp joins matched emit complement true true l ≡ rest_of l []
  unfolding complement_all
  no_fact [] = refl
  no_fact (a ∷ l) = ground (arith, no_fact l)

  last_fact :
      (l : List A) (p : B)
      → SortedBy ka l
      → Above ka (kb p) l
      → finish cmp joins matched emit complement true true (some p) l ≡ rest_of l (p ∷ [])
  unfolding finish complement_all skip_matched
  last_fact [] p s k = refl
  last_fact (a ∷ l) p s k = elim (Comparison-cases (key_order (ka a) (kb p))) [
    | inl lt ↦ absurd (ground arith)
    | inr (inl eq) ↦ ground (arith, unmatched_by_key a p, last_fact l p s.1 k.1)
    | inr (inr gt) ↦ ground (
      arith,
      unmatched_by_key a p,
      no_fact l,
      drop_fact l p [] (All-greater (ka a) (kb p) l gt s.0),
    )
  ]

  Above-of_greater :
      (y : List ℕ) (l : List A) → All (λ a. key_order (ka a) y ≡ greater) l → Above ka y l
  Above-of_greater y [] h = tt
  Above-of_greater y (a ∷ l) h = (rw h.0 refl, Above-of_greater y l h.1)

  -- From a fact on that no tuple is below, the loop keeps what joins with no fact.
  after_fact :
      (l : List A) (p : B) (bs : List B)
      → SortedBy ka l
      → SortedBy kb (p ∷ bs)
      → Above ka (kb p) l
      → join_from l (some p) bs ≡ rest_of l (p ∷ bs)
  unfolding unknown_join
  after_fact [] p bs s t k = refl
  after_fact (a ∷ l) p [] s t k = last_fact (a ∷ l) p s k
  after_fact (a ∷ l) p (b ∷ bs) s t k = elim (Comparison-cases (cmp a b)) [
    | inl lt ↦
        let none_later = none-Above a (kb b) bs (sym (by_key a b) ∙ lt) t.1.0 in
        let misses : matched a b ≡ false = rw (by_cmp a b) (rw lt refl) in
        rw (lt, unknown_join)
          (ground (arith, after_fact l p (b ∷ bs) s.1 t k.1, none_later, misses))
    | inr (inl eq) ↦
        let same_key = (key_order-equal (ka a) (kb b)).0 (sym (by_key a b) ∙ eq) in
        let hits : matched a b ≡ true = rw (by_cmp a b) (rw eq refl) in
        let ih = after_fact l b bs s.1 t.1 (rw same_key at s.0) in
        let merged = same_fact l (ka a) p b bs same_key t.0.0 s.0 in
        rw (eq, unknown_join) (ground (arith, ih, merged, hits))
    | inr (inr gt) ↦
        let k' = sym (by_key a b) ∙ gt in
        let far = greater-below (ka a) (kb b) (kb p) k' t.0.0 in
        let ih =
          after_fact (a ∷ l) b bs s t.1
            (Above-of_greater (kb b) (a ∷ l) (k', All-greater (ka a) (kb b) l k' s.0)) in
        let dropped = drop_fact (a ∷ l) p (b ∷ bs) (far, All-greater (ka a) (kb p) l far s.0) in
        rw (gt, unknown_join) (ih ∙ sym dropped)
  ]

  -- On sorted tables a literal in {unknown} keeps, in order, the tuples that join with no fact, but
  -- of these only those from the first tuple on that is not less than the first fact.
  pub unknown_join-unmatched :
      (l : List A) (bs : List B)
      → SortedBy ka l
      → SortedBy kb bs
      → unknown_join cmp joins matched emit complement true true l none bs
        ≡ unmatched matched complement (drop_below cmp bs l) bs
  unfolding unknown_join finish
  unknown_join-unmatched [] [] s t = refl
  unknown_join-unmatched [] (b ∷ bs) s t = refl
  unknown_join-unmatched (a ∷ l) [] s t = no_fact (a ∷ l)
  unknown_join-unmatched (a ∷ l) (b ∷ bs) s t = elim (Comparison-cases (cmp a b)) [
    | inl lt ↦ rw (lt, unknown_join) (unknown_join-unmatched l (b ∷ bs) s.1 t)
    | inr (inl eq) ↦
        let same_key = (key_order-equal (ka a) (kb b)).0 (sym (by_key a b) ∙ eq) in
        let hits : matched a b ≡ true = rw (by_cmp a b) (rw eq refl) in
        let ih = after_fact l b bs s.1 t (rw same_key at s.0) in
        rw (eq, unknown_join) (ground (arith, ih, hits))
    | inr (inr gt) ↦
        let k' = sym (by_key a b) ∙ gt in
        let ih =
          after_fact (a ∷ l) b bs s t
            (Above-of_greater (kb b) (a ∷ l) (k', All-greater (ka a) (kb b) l k' s.0)) in
        rw (gt, unknown_join) ih
  ]
