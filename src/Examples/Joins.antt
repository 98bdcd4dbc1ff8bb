-- ===== src/Examples/Joins.antt =====
-- Runs of the theorems on selections, projections and subgoals.
use mathlib.Core.List.{Perm}
use fovris.Prelude.{ℕ, ◌≡◌, refl, ◌==◌, Bool, true, false, if◌then◌else◌, [], ◌∷◌, inl}
use fovris.Truth.Set.{test, of_values}
use fovris.Kb.Term.{Terms}
use fovris.Kb.Literal.{var_indices}
use fovris.Eval.Selection.{selection, selectable, has_unknown, has_only_unknown}
use fovris.Eval.Selection.Matching.{selectable_iff}
use fovris.Eval.Projection.{join_projection, join_project}
use fovris.Eval.Projection.Instance.{join_project_instance}
use fovris.Eval.Join.{make_join, compare_without_null, joinable_without_null}
use fovris.Eval.Merge.Nested.{nested}
use fovris.Eval.Sort.Insertion.{insertion_sorter}
use fovris.Eval.Unknown.Antijoin.{unmatched, drop_below}
use fovris.Eval.Subgoal.{
  NextSubgoal, next_subgoal, emit_pair, emit_matching, emit_left, on_marked, select_kb_tuple_ref,
  select_kb_tuple_ref_and_match, sort_left, sort_marked, evaluate_without_unknown,
  evaluate_without_unknown_with_functions, evaluate_next,
}
use fovris.Eval.Subgoal.Meaning.{joins, without_unknown-nested, evaluate_next-unmatched}
use fovris.Examples.{table_p, literal_q, literal_q_unknown, head_terms, tuples_p, facts_q}

-- q(5, 7) is an instance of q(Y, 7).
selectable_iff_example : selectable (selection literal_q) (5 ∷ 7 ∷ []) ≡ true
selectable_iff_example = (selectable_iff literal_q (5 ∷ 7 ∷ []) refl).1 (λ _. 5, refl)

-- X is 1, and Y is 5.
abbrev assignment : ℕ → ℕ
assignment v = if v == 0 then 1 else 5

join_project_instance_example :
    join_project (join_projection table_p literal_q head_terms) (1 ∷ 5 ∷ []) (5 ∷ 7 ∷ [])
    ≡ 1 ∷ 9 ∷ 5 ∷ []
unfolding var_indices
join_project_instance_example =
    join_project_instance assignment table_p literal_q head_terms
      (λ _. inl refl, (λ e. cc, (λ _. inl refl, tt)))

-- The subgoals of q(Y, 7) after p(X, Y).
abbrev goal_q : NextSubgoal
goal_q = next_subgoal table_p literal_q true head_terms

abbrev goal_q_unknown : NextSubgoal
goal_q_unknown = next_subgoal table_p literal_q_unknown true head_terms

-- A built-in that holds where the first terms differ.
abbrev first_terms_differ : Terms → Terms → Bool
first_terms_differ (a ∷ as') (b ∷ bs) = if a == b then false else true
first_terms_differ _ _ = true

without_unknown-nested_example :
    Perm (evaluate_without_unknown insertion_sorter goal_q tuples_p facts_q) (
      nested
        (joins insertion_sorter goal_q)
        (emit_pair goal_q)
        tuples_p
        (select_kb_tuple_ref goal_q.selection_ facts_q))
    × Perm
        (evaluate_without_unknown_with_functions insertion_sorter first_terms_differ goal_q tuples_p
          facts_q)
        (nested
          (joins insertion_sorter goal_q)
          (emit_matching first_terms_differ goal_q)
          tuples_p
          (select_kb_tuple_ref goal_q.selection_ facts_q))
unfolding next_subgoal make_join
without_unknown-nested_example =
    without_unknown-nested insertion_sorter goal_q first_terms_differ tuples_p facts_q
      (refl, (refl, (refl, tt))) (refl, (refl, (refl, tt)))

evaluate_next-unmatched_example : evaluate_next insertion_sorter goal_q_unknown tuples_p facts_q ≡ (
    let cur =
      sort_marked insertion_sorter goal_q_unknown
        (select_kb_tuple_ref_and_match goal_q_unknown.selection_ facts_q) in
    unmatched
      (on_marked joinable_without_null goal_q_unknown.join)
      (emit_left goal_q_unknown)
      (drop_below
        (on_marked compare_without_null goal_q_unknown.join)
        cur
        (sort_left insertion_sorter goal_q_unknown tuples_p))
      cur)
unfolding next_subgoal selection has_unknown has_only_unknown test of_values
evaluate_next-unmatched_example =
    evaluate_next-unmatched insertion_sorter goal_q_unknown tuples_p facts_q refl refl
