-- ===== src/Eval/Rule/Returns.antt =====
-- When the evaluation of a rule returns: the assertions of `CreateEvalSubgoal...` and of the call
-- operators.
use fovris.Prelude.{
  ℕ, suc, ◌≡◌, refl, ap, Bool, true, false, not, List, [], ◌∷◌, length, Result, ok, err, eq_refl,
  arith, Bool-cases, inl, inr,
}
use fovris.Truth.{map_bool_to_truth_value}
use fovris.Truth.Set.{test, of_values}
use fovris.Kb.Term.{KbTerm}
use fovris.Kb.Literal.{KbLiteral, is_unsafe, var_set}
use fovris.Kb.Function.{TermType, KbRuleFunction}
use fovris.Kb.Relation.{FactsPool}
use fovris.Kb.Rule.{KbHeadLiteral}
use fovris.Eval.Sort.{Sorter}
use fovris.Eval.Subgoal.{first_subgoal, next_subgoal}
use fovris.Eval.Create.{
  AssertionError, first_unsafe, empty_vector, EvalDestination, result_relation, destination,
  create_first, create_next, create_last, next, first, without_unknown,
}
use fovris.Eval.Variables.{OrderedVarMap, get_var_set, remove_from_rule_vars, make_vars_counter}
use fovris.Eval.Rule.{
  Conjunction, head_destination, make_rest, make_conjunction, run_subgoals, evaluate_conjunction,
}

-- The temporary relations hold true and inconsistent tuples.
first-is_unsafe :
    (l : KbLiteral) (wanted : Bool) (dest : List KbTerm)
    → is_unsafe (first_subgoal l wanted dest).result_relation ≡ false
unfolding first_subgoal is_unsafe of_values test map_bool_to_truth_value
first-is_unsafe l wanted dest = refl

pub next-is_unsafe :
    (l r : KbLiteral) (wanted : Bool) (dest : List KbTerm)
    → is_unsafe (next_subgoal l r wanted dest).result_relation ≡ false
unfolding next_subgoal is_unsafe of_values test map_bool_to_truth_value
next-is_unsafe l r true dest = refl
next-is_unsafe l r false dest = refl

-- A result that is no error and satisfies the predicate.
abbrev pub Returns : {E A : Type 0} → Result E A → (A → Type 0) → Type 0
Returns {A = A} m P = (a : A) × (m ≡ ok a) × P a

-- There is a first literal, and it is not for unknown.
abbrev pub starts_safe : List KbLiteral → Bool
starts_safe [] = false
starts_safe (l ∷ ls) = not (is_unsafe l)

module _ {V : Type 0} where
  create_next-Returns :
      (l r : KbLiteral) (ts : List KbTerm)
      → is_unsafe l ≡ false
      → Returns (create_next {V = V} l r ts) (λ g. is_unsafe (result_relation g) ≡ false)
  unfolding create_next
  create_next-Returns l r ts safe = elim (Bool-cases (is_unsafe r)) [
    | inl e ↦ (next (next_subgoal l r true ts), rw safe (rw e refl), next-is_unsafe l r true ts)
    | inr e ↦ (
      without_unknown (next_subgoal l r true ts),
      rw safe (rw e refl),
      next-is_unsafe l r true ts,
    )
  ]

  create_last-is_unsafe :
      (l r : KbLiteral) (dest : EvalDestination) (functions : List (KbRuleFunction V))
      → is_unsafe (result_relation (create_last l r dest functions)) ≡ false
  unfolding create_last
  create_last-is_unsafe l r dest [] = elim (Bool-cases (is_unsafe r)) [
    | inl e ↦ rw e (next-is_unsafe l r dest.result_is_true dest.project_to)
    | inr e ↦ rw e (next-is_unsafe l r dest.result_is_true dest.project_to)
  ]
  create_last-is_unsafe l r dest (f ∷ functions) = elim (Bool-cases (is_unsafe r)) [
    | inl e ↦ rw e (next-is_unsafe l r dest.result_is_true dest.project_to)
    | inr e ↦ rw e (next-is_unsafe l r dest.result_is_true dest.project_to)
  ]

  abbrev pub HasSubgoals : ℕ → Conjunction V → Type 0
  HasSubgoals n c = (length c.subgoals ≡ n) × (is_unsafe c.relation ≡ false)

  make_rest-Returns :
      (head : KbHeadLiteral) (functions : List (KbRuleFunction V)) (counter : OrderedVarMap)
      (tmp_relation r : KbLiteral) (ls : List KbLiteral)
      → is_unsafe tmp_relation ≡ false
      → Returns (make_rest head functions counter tmp_relation r ls) (HasSubgoals (suc (length ls)))
  unfolding make_rest
  make_rest-Returns head functions counter l r [] safe =
      (_, refl, (refl, create_last-is_unsafe l r (head_destination head) functions))
  make_rest-Returns head functions counter l r (l' ∷ ls) safe =
      let counter' = remove_from_rule_vars counter (var_set r) in
      let (g, made, g_safe) = create_next-Returns l r (get_var_set counter') safe in
      let (c, rest, (len, c_safe)) =
        make_rest-Returns head functions counter' (result_relation g) l' ls g_safe in
      (
        record { subgoals = g ∷ c.subgoals; relation = c.relation },
        rw made (rw rest refl),
        (ap suc len, c_safe),
      )

  create_first-ok :
      (l : KbLiteral) (dest : EvalDestination)
      → is_unsafe l ≡ false
      → create_first {V = V} l dest
        ≡ ok (first (first_subgoal l dest.result_is_true dest.project_to))
  unfolding create_first
  create_first-ok l dest safe = rw safe refl

  create_first-err :
      (l : KbLiteral) (dest : EvalDestination)
      → is_unsafe l ≡ true
      → create_first {V = V} l dest ≡ err first_unsafe
  unfolding create_first
  create_first-err l dest e = rw e refl

  pub make_conjunction-Returns :
      (head : KbHeadLiteral) (ls : List KbLiteral) (functions : List (KbRuleFunction V))
      → starts_safe ls ≡ true
      → Returns
          (make_conjunction head (record { body = ls; functions = functions }))
          (HasSubgoals (length ls))
  unfolding make_conjunction
  make_conjunction-Returns head [] functions h = absurd (ground (arith, h))
  make_conjunction-Returns head (l ∷ []) functions h =
      let dest = head_destination head in
      let g = first_subgoal l dest.result_is_true dest.project_to in
      (
        record { subgoals = first g ∷ []; relation = g.result_relation },
        rw (create_first-ok l dest (ground (arith, h))) refl,
        (refl, first-is_unsafe l dest.result_is_true dest.project_to),
      )
  make_conjunction-Returns head (l ∷ l' ∷ ls) functions h =
      let counter = remove_from_rule_vars (make_vars_counter (l ∷ l' ∷ ls) head) (var_set l) in
      let g = first_subgoal l true (get_var_set counter) in
      let (c, made, (len, safe)) =
        make_rest-Returns head functions counter g.result_relation l' ls
          (first-is_unsafe l true (get_var_set counter)) in
      (
        record { subgoals = first g ∷ c.subgoals; relation = c.relation },
        rw (create_first-ok l (destination (get_var_set counter)) (ground (arith, h)))
            (rw made refl),
        (ap suc len, safe),
      )

  pub make_conjunction-Throws :
      (head : KbHeadLiteral) (ls : List KbLiteral) (functions : List (KbRuleFunction V))
      → starts_safe ls ≡ false
      → (e : AssertionError) × (make_conjunction head (record { body = ls; functions = functions })
          ≡ err e)
  unfolding make_conjunction
  make_conjunction-Throws head [] functions h = (empty_vector, refl)
  make_conjunction-Throws head (l ∷ []) functions h =
      (first_unsafe, rw (create_first-err l (head_destination head) (ground (arith, h))) refl)
  make_conjunction-Throws head (l ∷ l' ∷ ls) functions h =
      let counter = remove_from_rule_vars (make_vars_counter (l ∷ l' ∷ ls) head) (var_set l) in
      (
        first_unsafe,
        rw (create_first-err l (destination (get_var_set counter)) (ground (arith, h))) refl,
      )

  pub evaluate_conjunction-length :
      (sorter : Sorter) (query_term : ℕ → TermType → V) (c : Conjunction V)
      (relations : List FactsPool)
      → length c.subgoals ≡ length relations
      → evaluate_conjunction sorter query_term c relations
        ≡ ok (run_subgoals sorter query_term [] c.subgoals relations)
  unfolding evaluate_conjunction
  evaluate_conjunction-length sorter query_term c relations e =
      rw (e, eq_refl (length relations)) refl
