-- ===== src/Eval/Merge.antt =====
-- The merge join that the subgoals of src/Eval/EvalSubgoal.cc share for literals without unknown:
-- `cmp` is the comparison of the join, `joins` the test of the inner loops, and `emit` what is put
-- into the new table for a pair. An iterator that only moves forward is the suffix that is left.
pub mod Invariance
pub mod Nested
pub mod Members
use fovris.Prelude.{Bool, if◌then◌else◌, List, [], ◌∷◌, ◌++◌}
use fovris.Eval.Join.{Comparison, less, equal, greater}

module _ {A B C : Type 0} (cmp : A → B → Comparison) (joins : A → B → Bool)
    (emit : A → B → List C) where
  -- The loop over `tmpItNext`.
  unfoldable pub column : B → List A → List C
  column b [] = []
  column b (a ∷ ls) = if joins a b then emit a b ++ column b ls else []

  -- The loop over `curItNext`.
  unfoldable pub row : A → List B → List C
  row a [] = []
  row a (b ∷ bs) = if joins a b then emit a b ++ row a bs else []

  -- The outer loop.
  unfoldable pub merge_join : List A → List B → List C
  unfolding column row
  merge_join (a ∷ ls) (b ∷ bs) = elim (cmp a b) [
    | greater ↦ merge_join (a ∷ ls) bs
    | less ↦ merge_join ls (b ∷ bs)
    | equal ↦ emit a b ++ (column b ls ++ (row a bs ++ merge_join ls bs))
  ]
  merge_join _ _ = []
