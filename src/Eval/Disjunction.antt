-- ===== src/Eval/Disjunction.antt =====
-- The merge of the results of two disjuncts (`EvalSubgoalNextDisjunction` of
-- src/Eval/EvalSubgoal.cc). `emit` is what is put into the new table for a pair, `left` what is put
-- there for a tuple of the temporary table that the outer loop passes over, and `right` what is put
-- there for a tuple of the current table that was not marked as joined.
pub mod Lost
use fovris.Prelude.{Bool, true, false, if◌then◌else◌, List, [], ◌∷◌, ◌++◌, map}
use fovris.Eval.Join.{Comparison, less, equal, greater}
use fovris.Eval.Merge.{column, row}

module _ {A B C : Type 0} (cmp : A → B → Comparison) (joins : A → B → Bool) (emit : A → B → C)
    (left : A → C) (right : B → C) where
  abbrev one : A → B → List C
  one a b = emit a b ∷ []

  -- The outer loop: the new table, and the flags `curTmpTableAnyJoined` from the current tuple on.
  -- Where the loop ends, the flags of the tuples that are left are false.
  pub disjunction_loop : List A → List B → List C × List Bool
  disjunction_loop (a ∷ l) (b ∷ bs) = elim (cmp a b) [
    | greater ↦ let (out, flags) = disjunction_loop (a ∷ l) bs in (out, false ∷ flags)
    | less ↦ let (out, flags) = disjunction_loop l (b ∷ bs) in (left a ∷ out, flags)
    | equal ↦
        let (out, flags) = disjunction_loop l bs in
        (emit a b ∷ (column cmp joins one b l ++ (row cmp joins one a bs ++ out)), true ∷ flags)
  ]
  disjunction_loop _ bs = ([], map (λ _. false) bs)

  -- `if (curTmpTable.empty())`
  pub if_empty : List A → List B → List C
  if_empty l [] = map left l
  if_empty l (b ∷ bs) = []

  -- The loop over `curTmpTableAnyJoined`.
  pub unjoined : List Bool → List B → List C
  unjoined (joined ∷ flags) (b ∷ bs) =
      if joined then unjoined flags bs else right b ∷ unjoined flags bs
  unjoined _ _ = []

  unfoldable pub disjunction_join : List A → List B → List C
  unfolding disjunction_loop if_empty unjoined column row
  disjunction_join l bs =
      let (out, flags) = disjunction_loop l bs in out ++ (if_empty l bs ++ unjoined flags bs)
