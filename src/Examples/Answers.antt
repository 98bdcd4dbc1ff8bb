-- ===== src/Examples/Answers.antt =====
-- Runs of the theorems on what subgoals answer.
use mathlib.Core.List.{Mem}
use fovris.Prelude.{ℕ, ◌≡◌, refl, ◌==◌, true, if◌then◌else◌, [], ◌∷◌, inl, inr}
use fovris.Truth.{TruthValue, conjunction, resolve_truth_value, resolve_to_true_or_incons}
use fovris.Truth.Set.{test, of_values}
use fovris.Kb.Literal.{var_indices}
use fovris.Eval.Join.{make_join, joinable_without_null}
use fovris.Eval.Join.Agreement.{joinable_iff}
use fovris.Eval.Sort.Insertion.{insertion_sorter}
use fovris.Eval.Subgoal.{first_subgoal, evaluate_first, next_subgoal, evaluate_without_unknown}
use fovris.Eval.Subgoal.Selected.{IsInstance}
use fovris.Eval.Subgoal.First.{evaluate_first_iff}
use fovris.Eval.Subgoal.Answers.{without_unknown_iff}
use fovris.Eval.Subgoal.Chain.{without_unknown-IsInstance}
use fovris.Examples.{variable, value, fact, table_p, literal_q, head_terms, tuples_p, facts_q}

-- X is the first number, and Y the second.
abbrev x_and_y : ℕ → ℕ → ℕ → ℕ
x_and_y x y v = if v == 0 then x else y

-- p(3, 5) and q(5, 7) join, since X = 3 and Y = 5 does for both.
joinable_iff_example :
    joinable_without_null (make_join table_p literal_q) (3 ∷ 5 ∷ []) (5 ∷ 7 ∷ []) ≡ true
joinable_iff_example =
    (joinable_iff (x_and_y 3 5) (x_and_y 0 5) table_p literal_q).1 (x_and_y 3 5, refl, refl)

-- The subgoal of q(Y, 7) as a first literal finds Y = 5.
evaluate_first_iff_example :
    Mem
      (fact (5 ∷ 9 ∷ []) TruthValue.incons)
      (evaluate_first (first_subgoal literal_q true (variable 1 ∷ value 9 ∷ [])) facts_q)
unfolding test of_values var_indices resolve_truth_value
evaluate_first_iff_example =
    (evaluate_first_iff literal_q true (variable 1 ∷ value 9 ∷ []) facts_q
        (fact (5 ∷ 9 ∷ []) TruthValue.incons) (λ _. refl, (λ e. cc, tt))
        (refl, (refl, (refl, tt)))).1
      ∣ inl ((λ e. cc, inr refl), (x_and_y 0 5, refl, refl)) ∣₁

-- The subgoal of q(Y, 7) after p(X, Y) finds X = 3 and Y = 5.
without_unknown_iff_example : Mem (fact (3 ∷ 9 ∷ 5 ∷ []) TruthValue.incons) (
    evaluate_without_unknown insertion_sorter
      (next_subgoal table_p literal_q true head_terms)
      tuples_p
      facts_q)
unfolding test of_values var_indices make_join resolve_truth_value conjunction
    resolve_to_true_or_incons
without_unknown_iff_example =
    (without_unknown_iff insertion_sorter table_p literal_q true head_terms tuples_p facts_q
        (fact (3 ∷ 9 ∷ 5 ∷ []) TruthValue.incons) (λ _. inl refl, (λ e. cc, (λ _. inl refl, tt)))
        ((x_and_y 3 5, refl), ((x_and_y 2 4, refl), ((x_and_y 1 5, refl), tt)))
        (refl, (refl, (refl, tt))) (refl, (refl, (refl, tt))) (refl, (refl, (refl, tt)))).1
      ∣ inl (inl ((λ e. cc, inr refl), (x_and_y 3 5, refl, refl, refl))) ∣₁

-- The same answers, for the relations of the results.
finds_y :
    Mem
      (fact (5 ∷ 9 ∷ []) TruthValue.incons)
      (evaluate_first (first_subgoal literal_q true (variable 1 ∷ value 9 ∷ [])) facts_q)
unfolding test of_values var_indices resolve_truth_value
finds_y =
    (evaluate_first_iff literal_q true (variable 1 ∷ value 9 ∷ []) facts_q
        (fact (5 ∷ 9 ∷ []) TruthValue.incons) (λ _. refl, (λ e. cc, tt))
        (refl, (refl, (refl, tt)))).1
      ∣ inl ((λ e. cc, inr refl), (x_and_y 0 5, refl, refl)) ∣₁

finds_x_and_y : Mem (fact (3 ∷ 9 ∷ 5 ∷ []) TruthValue.incons) (
    evaluate_without_unknown insertion_sorter
      (next_subgoal table_p literal_q true head_terms)
      tuples_p
      facts_q)
unfolding test of_values var_indices make_join resolve_truth_value conjunction
    resolve_to_true_or_incons
finds_x_and_y =
    (without_unknown_iff insertion_sorter table_p literal_q true head_terms tuples_p facts_q
        (fact (3 ∷ 9 ∷ 5 ∷ []) TruthValue.incons) (λ _. inl refl, (λ e. cc, (λ _. inl refl, tt)))
        ((x_and_y 3 5, refl), ((x_and_y 2 4, refl), ((x_and_y 1 5, refl), tt)))
        (refl, (refl, (refl, tt))) (refl, (refl, (refl, tt))) (refl, (refl, (refl, tt)))).1
      ∣ inl (inl ((λ e. cc, inr refl), (x_and_y 3 5, refl, refl, refl))) ∣₁

without_unknown-IsInstance_example :
    ∥ IsInstance
      (next_subgoal table_p literal_q true head_terms).result_relation
      (fact (3 ∷ 9 ∷ 5 ∷ []) TruthValue.incons) ∥₁
unfolding var_indices make_join
without_unknown-IsInstance_example =
    without_unknown-IsInstance insertion_sorter table_p literal_q true head_terms tuples_p facts_q
      (fact (3 ∷ 9 ∷ 5 ∷ []) TruthValue.incons) (λ _. inl refl, (λ e. cc, (λ _. inl refl, tt)))
      ((x_and_y 3 5, refl), ((x_and_y 2 4, refl), ((x_and_y 1 5, refl), tt)))
      (refl, (refl, (refl, tt))) (refl, (refl, (refl, tt))) (refl, (refl, (refl, tt))) finds_x_and_y
