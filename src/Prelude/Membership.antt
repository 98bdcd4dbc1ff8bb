-- ===== src/Prelude/Membership.antt =====
-- The elements of a list that have a property, in joined, mapped and permuted lists.
use mathlib.Core.Path.{◌≡◌, refl}
use mathlib.Core.Logic.{◌↔◌, ◌⊎◌, inl, inr, ∥∥₁_elim, ∥∥₁_map, ∥∥₁_prop}
use mathlib.Core.Logic.Or
use mathlib.Core.List.{List, [], ◌∷◌, ◌++◌, Mem, mem-cons, not-mem-nil}
use fovris.Prelude.Lists.{Some, All}

module _ {A : Type 0} where
  pub Some-append : (P : A → Type 0) (xs ys : List A) → Some P (xs ++ ys) ↔ (Some P xs ⊎ Some P ys)
  Some-append P [] ys = (λ h. inr h, λ h. elim h [ inl f ↦ absurd f | inr k ↦ k ])
  Some-append P (x ∷ xs) ys = (
    λ h. elim h [
      | inl p ↦ inl (inl p)
      | inr k ↦ elim ((Some-append P xs ys).0 k) [ inl l ↦ inl (inr l) | inr r ↦ inr r ]
    ],
    λ h. elim h [
      | inl (inl p) ↦ inl p
      | inl (inr l) ↦ inr ((Some-append P xs ys).1 (inl l))
      | inr r ↦ inr ((Some-append P xs ys).1 (inr r))
    ],
  )

  -- Under a property of all elements one property may stand for another.
  pub Some-cong :
      (H P Q : A → Type 0) (l : List A)
      → ((a : A) → H a → P a ↔ Q a)
      → All H l
      → Some P l ↔ Some Q l
  Some-cong H P Q [] f h = (λ k. k, λ k. k)
  Some-cong H P Q (a ∷ l) f h =
      let ih = Some-cong H P Q l f h.1 in
      let here = f a h.0 in
      (
        λ k. elim k [ inl p ↦ inl (here.0 p) | inr r ↦ inr (ih.0 r) ],
        λ k. elim k [ inl p ↦ inl (here.1 p) | inr r ↦ inr (ih.1 r) ],
      )

  pub Some-elim : {X : Type 0} (P : A → Type 0) (l : List A) → ((a : A) → P a → X) → Some P l → X
  Some-elim P [] f h = absurd h
  Some-elim P (a ∷ l) f h = elim h [ inl p ↦ f a p | inr r ↦ Some-elim P l f r ]

  -- Membership, as a property of some element.
  pub Mem-Some : (u : A) (l : List A) → Mem u l ↔ ∥ Some (λ x. u ≡ x) l ∥₁
  Mem-Some u [] = (λ h. absurd (not-mem-nil h), λ h. ∥∥₁_elim h ∥∥₁_prop (λ f. absurd f))
  Mem-Some u (x ∷ l) = (
    λ h.
        Or.elim ∥∥₁_prop (mem-cons.0 h) (λ e. ∣ inl e ∣₁)
          (λ m. ∥∥₁_map ((Mem-Some u l).0 m) (λ s. inr s)),
    λ h. ∥∥₁_elim h ∥∥₁_prop (λ s. elim s [
      | inl e ↦ mem-cons.1 (Or.inl e)
      | inr r ↦ mem-cons.1 (Or.inr ((Mem-Some u l).1 ∣ r ∣₁))
    ]),
  )

  pub Some-map : (P Q : A → Type 0) (l : List A) → ((a : A) → P a → Q a) → Some P l → Some Q l
  Some-map P Q [] f h = h
  Some-map P Q (a ∷ l) f h = elim h [ inl p ↦ inl (f a p) | inr r ↦ inr (Some-map P Q l f r) ]

  -- An element that has the property is a member, and a member that has it is such an element.
  pub Some-member : (P : A → Type 0) (l : List A) → Some P l → (a : A) × Mem a l × P a
  Some-member P [] h = absurd h
  Some-member P (x ∷ l) h = elim h [
    | inl p ↦ (x, mem-cons.1 (Or.inl refl), p)
    | inr r ↦ let (a, m, p) = Some-member P l r in (a, mem-cons.1 (Or.inr m), p)
  ]

  pub member-Some : (P : A → Type 0) (l : List A) (a : A) → Mem a l → P a → ∥ Some P l ∥₁
  member-Some P l a m p =
      ∥∥₁_map ((Mem-Some a l).0 m) (Some-map (λ x. a ≡ x) P l (λ x e. rw (← e) p))

  -- What holds of the members holds of all elements.
  pub member-All : (P : A → Type 0) (l : List A) → ((a : A) → Mem a l → P a) → All P l
  member-All P [] h = tt
  member-All P (x ∷ l) h =
      (h x (mem-cons.1 (Or.inl refl)), member-All P l (λ a m. h a (mem-cons.1 (Or.inr m))))

  -- What comes with the element that has a property comes with the list.
  pub Some-collect :
      {X : Type 0} (P : A → Type 0) (Q : X → A → Type 0) (l : List A)
      → ((a : A) → P a → (x : X) × Q x a)
      → Some P l
      → (x : X) × Some (Q x) l
  Some-collect P Q [] f h = absurd h
  Some-collect P Q (a ∷ l) f h = elim h [
    | inl p ↦ let (x, q) = f a p in (x, inl q)
    | inr r ↦ let (x, s) = Some-collect P Q l f r in (x, inr s)
  ]

  pub Some-All : (P H : A → Type 0) (l : List A) → All H l → Some P l → (a : A) × H a × P a
  Some-All P H [] h s = absurd s
  Some-All P H (a ∷ l) h s = elim s [ inl p ↦ (a, h.0, p) | inr r ↦ Some-All P H l h.1 r ]
