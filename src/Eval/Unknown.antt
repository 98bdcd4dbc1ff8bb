-- ===== src/Eval/Unknown.antt =====
-- The merge join of src/Eval/EvalSubgoal.cc for literals whose constraint has unknown: a tuple of
-- the temporary table that joins with no fact is kept too. `cmp` compares without nulls, `joins` is
-- the test of the inner loops, `matched` that of the tests against the fact before the current one,
-- `emit` is what is put into the new table for a pair and `complement` what is put there for a tuple
-- that joins with no fact.
pub mod Antijoin
use fovris.Prelude.{Bool, true, false, if◌then◌else◌, List, [], ◌∷◌, ◌++◌, not, Option, none, some}
use fovris.Eval.Join.{Comparison, less, equal, greater}
use fovris.Eval.Merge.{column, row}

module _ {A B C : Type 0} (cmp : A → B → Comparison) (joins matched : A → B → Bool)
    (emit : A → B → List C) (complement : A → List C) (has_unknown only_unknown : Bool) where
  pub complement_all : List A → List C
  complement_all [] = []
  complement_all (a ∷ l) = complement a ++ complement_all l

  -- After the outer loop: the tuples that still join with the last fact are passed over.
  pub skip_matched : B → List A → List A
  skip_matched b [] = []
  skip_matched b (a ∷ l) = if matched a b then skip_matched b l else a ∷ l

  -- What follows the outer loop. `prev` is the fact before the current one; there is none where the
  -- current one is the first.
  pub finish : Option B → List A → List C
  unfolding complement_all skip_matched
  finish prev l =
      if not has_unknown
      then []
      else elim prev [ none ↦ complement_all l | some b ↦ complement_all (skip_matched b l) ]

  -- The branch of the outer loop where the tuple is less than the fact.
  pub keep_unmatched : Option B → A → List C
  keep_unmatched prev a =
      if has_unknown
      then elim prev [ none ↦ [] | some b ↦ if matched a b then [] else complement a ]
      else []

  -- The outer loop, and what follows it.
  unfoldable pub unknown_join : List A → Option B → List B → List C
  unfolding finish keep_unmatched column row
  unknown_join [] prev bs = []
  unknown_join (a ∷ l) prev [] = finish prev (a ∷ l)
  unknown_join (a ∷ l) prev (b ∷ bs) = elim (cmp a b) [
    | greater ↦ unknown_join (a ∷ l) (some b) bs
    | less ↦ keep_unmatched prev a ++ unknown_join l prev (b ∷ bs)
    | equal ↦
        (if only_unknown
          then []
          else emit a b ++ (column cmp joins emit b l ++ row cmp joins emit a bs))
        ++ unknown_join l (some b) bs
  ]
