-- ===== src/Eval/Aggregate.antt =====
-- `AggregateSortedRuleResult` of src/Evaluation.cc: one tuple for each run of tuples with the same
-- terms.
pub mod Runs
pub mod Within
use fovris.Prelude.{Bool, not, ◌&&◌, if◌then◌else◌, List, [], ◌∷◌}
use fovris.Truth.{TruthValue, same}
use fovris.Kb.Term.{array_eq}
use fovris.Kb.Tuple.{KbTuple}

-- The loop, with `tupleToInsertIt` and `bestValue`. The best value is not set anew where a run ends,
-- and the last tuple is pushed with the value that it has.
aggregate_loop : KbTuple → TruthValue → List KbTuple → List KbTuple
aggregate_loop current best [] = current ∷ []
aggregate_loop current best (t ∷ result) =
    let next_run = record current { value = best } ∷ aggregate_loop t best result in
    let incons = aggregate_loop current TruthValue.incons result in
    let same_run = aggregate_loop current best result in
    if not (array_eq t.terms current.terms)
    then next_run
    else if not (same t.value best) && not (same t.value TruthValue.incons)
    then incons
    else same_run

unfoldable pub aggregate_sorted_rule_result : List KbTuple → List KbTuple
unfolding aggregate_loop
aggregate_sorted_rule_result [] = []
aggregate_sorted_rule_result (t ∷ result) = aggregate_loop t t.value result
