-- ===== src/Eval/Merge/Members.antt =====
-- The members of the nested-loop join: one for each pair that joins.
use fovris.Prelude.{
  ◌≡◌, refl, ◌↔◌, Bool, true, false, List, [], ◌∷◌, Some, Some-append, inl, inr, Bool-cases,
}
use fovris.Eval.Merge.Nested.{nested, row_all}

module _ {A B C : Type 0} (joins : A → B → Bool) (emit : A → B → C) (P : C → Type 0) where
  row_all-Some :
      (a : A) (bs : List B)
      → Some P (row_all joins (λ a b. emit a b ∷ []) a bs)
        ↔ Some (λ b. (joins a b ≡ true) × P (emit a b)) bs
  row_all-Some a [] = (λ h. h, λ h. h)
  row_all-Some a (b ∷ bs) =
      let ih = row_all-Some a bs in
      elim (Bool-cases (joins a b)) [
        | inl e ↦ rw e (
          λ h. elim h [ inl p ↦ inl (refl, p) | inr k ↦ inr (ih.0 k) ],
          λ h. elim h [ inl p ↦ inl p.1 | inr k ↦ inr (ih.1 k) ],
        )
        | inr e ↦ rw e (λ h. inr (ih.0 h), λ h. elim h [ inl p ↦ absurd (no p.0) | inr k ↦ ih.1 k ])
      ]
    where
      no : false ≡ true → ⊥
      no e = cc

  pub nested-Some :
      (l : List A) (bs : List B)
      → Some P (nested joins (λ a b. emit a b ∷ []) l bs)
        ↔ Some (λ a. Some (λ b. (joins a b ≡ true) × P (emit a b)) bs) l
  nested-Some [] bs = (λ h. h, λ h. h)
  nested-Some (a ∷ l) bs =
      let ih = nested-Some l bs in
      let row = row_all-Some a bs in
      let split =
        Some-append P (row_all joins (λ a b. emit a b ∷ []) a bs)
          (nested joins (λ a b. emit a b ∷ []) l bs) in
      (
        λ h. elim (split.0 h) [ inl p ↦ inl (row.0 p) | inr k ↦ inr (ih.0 k) ],
        λ h. elim h [ inl p ↦ split.1 (inl (row.1 p)) | inr k ↦ split.1 (inr (ih.1 k)) ],
      )
