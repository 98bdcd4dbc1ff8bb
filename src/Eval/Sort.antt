-- ===== src/Eval/Sort.antt =====
-- The sorting of relations before a join (`sortRelation` of src/Eval/EvalSubgoal.cc): `std::sort`, or
-- the parallel merge sort of src/Eval/omp_mergesort.h for large relations, under the comparison of
-- the terms at given positions. The sort is a parameter with what both promise.
pub mod Order
pub mod Insertion
use mathlib.Core.List.{Perm}
use fovris.Prelude.{◌≡◌, Bool, true, false, List, [], ◌∷◌, All}

-- What `std::sort` asks of its comparison.
pub record IsStrictWeak {A : Type 0} (lt : A → A → Bool) : Type 0 where
  pub irreflexive : (a : A) → lt a a ≡ false
  pub transitive : (a b c : A) → lt a b ≡ true → lt b c ≡ true → lt a c ≡ true
  pub incomparable : (a b c : A) → lt a b ≡ false → lt b c ≡ false → lt a c ≡ false

-- No later element is less than an earlier one.
abbrev pub IsOrdered : {A : Type 0} → (A → A → Bool) → List A → Type 0
IsOrdered lt [] = Unit
IsOrdered lt (a ∷ l) = All (λ b. lt b a ≡ false) l × IsOrdered lt l

-- The order of elements that compare equal is left open.
pub record Sorter : Type 1 where
  pub sort : (A : Type 0) → (A → A → Bool) → List A → List A
  pub sort-perm : (A : Type 0) (lt : A → A → Bool) (l : List A) → Perm (sort A lt l) l
  pub sort-IsOrdered :
      (A : Type 0) (lt : A → A → Bool) (l : List A) → IsStrictWeak lt → IsOrdered lt (sort A lt l)
