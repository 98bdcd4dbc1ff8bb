-- ===== src/Eval/Sort/Insertion.antt =====
-- A sorter by insertion: that the interface `Sorter` can be met.
use mathlib.Core.List.{Perm}
use mathlib.Core.List.Perm
use fovris.Prelude.{◌≡◌, Bool, true, false, if◌then◌else◌, List, [], ◌∷◌, All, Bool-cases, inl, inr}
use fovris.Eval.Sort.{IsStrictWeak, IsOrdered, Sorter}

module _ {A : Type 0} (lt : A → A → Bool) where
  insert : A → List A → List A
  insert x [] = x ∷ []
  insert x (y ∷ ys) = let rest = insert x ys in if lt x y then x ∷ y ∷ ys else y ∷ rest

  insert_all : List A → List A
  unfolding insert
  insert_all [] = []
  insert_all (x ∷ xs) = insert x (insert_all xs)

  insert-perm : (x : A) (l : List A) → Perm (insert x l) (x ∷ l)
  unfolding insert
  insert-perm x [] = Perm.refl (x ∷ [])
  insert-perm x (y ∷ ys) = elim (Bool-cases (lt x y)) [
    | inl e ↦ rw (e, insert) (Perm.refl (x ∷ y ∷ ys))
    | inr e ↦ rw (e, insert) (Perm.trans (Perm.cons y (insert-perm x ys)) (Perm.swap x y ys))
  ]

  insert_all-perm : (l : List A) → Perm (insert_all l) l
  unfolding insert_all
  insert_all-perm [] = Perm.refl []
  insert_all-perm (x ∷ xs) =
      Perm.trans (insert-perm x (insert_all xs)) (Perm.cons x (insert_all-perm xs))

  All-insert : (P : A → Type 0) (x : A) (l : List A) → P x → All P l → All P (insert x l)
  unfolding insert
  All-insert P x [] p h = (p, tt)
  All-insert P x (y ∷ ys) p h = elim (Bool-cases (lt x y)) [
    | inl e ↦ rw (e, insert) (p, h)
    | inr e ↦ rw (e, insert) (h.0, All-insert P x ys p h.1)
  ]

  not_less_after :
      (w : IsStrictWeak lt) (x y b : A) → lt x y ≡ true → lt b y ≡ false → lt b x ≡ false
  not_less_after w x y b h k = elim (Bool-cases (lt b x)) [
    | inl e ↦ let t = w.transitive b x y e h in cc
    | inr e ↦ e
  ]

  All-not_less_after :
      (w : IsStrictWeak lt) (x y : A) (l : List A)
      → lt x y ≡ true
      → All (λ b. lt b y ≡ false) l
      → All (λ b. lt b x ≡ false) l
  All-not_less_after w x y [] h k = tt
  All-not_less_after w x y (b ∷ l) h k =
      (not_less_after w x y b h k.0, All-not_less_after w x y l h k.1)

  insert-IsOrdered :
      (w : IsStrictWeak lt) (x : A) (l : List A) → IsOrdered lt l → IsOrdered lt (insert x l)
  unfolding insert
  insert-IsOrdered w x [] h = (tt, tt)
  insert-IsOrdered w x (y ∷ ys) h = elim (Bool-cases (lt x y)) [
    | inl e ↦
        rw (e, insert)
          ((not_less_after w x y y e (w.irreflexive y), All-not_less_after w x y ys e h.0), h)
    | inr e ↦
        rw (e, insert) (All-insert (λ b. lt b y ≡ false) x ys e h.0, insert-IsOrdered w x ys h.1)
  ]

  insert_all-IsOrdered : (w : IsStrictWeak lt) (l : List A) → IsOrdered lt (insert_all l)
  unfolding insert_all
  insert_all-IsOrdered w [] = tt
  insert_all-IsOrdered w (x ∷ xs) = insert-IsOrdered w x (insert_all xs) (insert_all-IsOrdered w xs)

pub insertion_sorter : Sorter
insertion_sorter = record {
  sort = λ A lt l. insert_all lt l;
  sort-perm = λ A lt l. insert_all-perm lt l;
  sort-IsOrdered = λ A lt l w. insert_all-IsOrdered lt w l;
}
