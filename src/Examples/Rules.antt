-- ===== src/Examples/Rules.antt =====
-- Runs of the theorems on the evaluation of whole rules.
use fovris.Prelude.{
  ◌&&◌, ℕ, ◌≡◌, ◌<◌, refl, true, false, List, [], ◌∷◌, ◌++◌, map, length, ok, is_ok, All, arith,
  if◌then◌else◌, err,
}
use fovris.Truth.Set.{test, of_values}
use fovris.Kb.Tuple.{KbTuple}
use fovris.Kb.Literal.{
  KbLiteral, is_unsafe, make_var_set, var_set, var_indices, have_common_variables,
}
use fovris.Kb.Function.{TermType}
use fovris.Kb.Relation.{FactsPool, u32_mod}
use fovris.Kb.Rule.{KbRule, KbHeadLiteral, head_literal, KbRuleDisjunct}
use fovris.Eval.Sort.Insertion.{insertion_sorter}
use fovris.Eval.Create.{AssertionError}
use fovris.Eval.Rule.{make_conjunction}
use fovris.Eval.LiteralOrder.{SortLiterals, make_disjunct}
use fovris.Eval.LiteralOrder.Unsafe.{SortsTwo, make_disjunct-Throws}
use fovris.Examples.{
  only_unknown, value, variable, true_or_incons, literal_q, literal_q_unknown, head_terms, tuples_p,
  facts_q,
}
use fovris.Eval.Variables.Kept.{rule_vars}
use fovris.Eval.Rule.Table.{Describes, FirstSpec}
use fovris.Eval.Rule.Body.{body_spec}
use fovris.Eval.Rule.Start.{AppearsIn}
use fovris.Eval.Rule.Answers.{IsSafe, evaluate_rule_on_iff}
use fovris.Eval.Disjuncts.{evaluate_rule_on, create_eval_rule}
use fovris.Eval.Disjuncts.Parts.{all_start_safe}
use fovris.Eval.Disjuncts.Returns.{create_eval_rule-is_ok}

-- The literal p(X, Y).
abbrev literal_p : KbLiteral
literal_p = record { rel_id = 0; terms = variable 0 ∷ variable 1 ∷ []; logic_set = true_or_incons }

-- h(X, 9, Y) :- p(X, Y), q(Y, 7).
abbrev head_h : KbHeadLiteral
head_h = head_literal true 2 head_terms

abbrev rest : List (KbLiteral × FactsPool)
rest = (literal_q, facts_q) ∷ []

-- No predicate is called.
abbrev no_term : ℕ → TermType → ℕ
no_term id type = id

few_variables :
    length (make_var_set head_h.terms ++ rule_vars (literal_p ∷ map (λ b. b.0) rest)) < u32_mod
unfolding make_var_set var_set rule_vars
few_variables = omega arith

body-IsSafe : All IsSafe ((literal_p, tuples_p) ∷ rest)
unfolding is_unsafe test of_values
body-IsSafe = (
  (refl, ((refl, refl), ((refl, refl), ((refl, refl), tt)))),
  ((refl, ((refl, refl), ((refl, refl), ((refl, refl), tt)))), tt),
)

head_h-AppearsIn : AppearsIn (literal_p ∷ map (λ b. b.0) rest) head_h.terms
unfolding var_indices
head_h-AppearsIn = (λ _. refl, (λ e. cc, (λ _. refl, tt)))

evaluate_rule_on_iff_example :
    (table : List KbTuple) × (evaluate_rule_on insertion_sorter no_term
        (record {
          head = head_h;
          disjuncts = record { body = literal_p ∷ literal_q ∷ []; functions = [] } ∷ [];
        })
        (tuples_p ∷ facts_q ∷ [])
      ≡ ok table)
    × Describes (body_spec (FirstSpec literal_p tuples_p) rest) head_terms true table
evaluate_rule_on_iff_example =
    evaluate_rule_on_iff insertion_sorter no_term head_h literal_p tuples_p rest few_variables
      body-IsSafe head_h-AppearsIn

-- h(X, 9, Y) :- p(X, Y) | q(Y, 7), p(X, Y).
abbrev disjunct : List KbLiteral → KbRuleDisjunct ℕ
disjunct ls = record { body = ls; functions = [] }

-- A disjunct that begins with a literal for unknown.
abbrev unsafe_rule : KbRule ℕ
unsafe_rule = record {
  head = head_h;
  disjuncts = disjunct (literal_p ∷ []) ∷ disjunct (literal_q_unknown ∷ literal_p ∷ []) ∷ [];
}

create_eval_rule-is_ok_example :
    (is_ok (create_eval_rule unsafe_rule) ≡ false)
    × ((is_ok (
            evaluate_rule_on insertion_sorter no_term unsafe_rule
              (tuples_p ∷ facts_q ∷ tuples_p ∷ []))
          && true)
        ≡ false)
unfolding all_start_safe is_unsafe test of_values
create_eval_rule-is_ok_example =
    create_eval_rule-is_ok insertion_sorter no_term head_h (disjunct (literal_p ∷ []))
      (disjunct (literal_q_unknown ∷ literal_p ∷ []) ∷ []) (tuples_p ∷ facts_q ∷ tuples_p ∷ [])
      (omega arith)

-- A sort of at most two literals.
abbrev sort_two : SortLiterals
sort_two less (a ∷ b ∷ []) = if less b a then b ∷ a ∷ [] else a ∷ b ∷ []
sort_two less ls = ls

sort_two-SortsTwo : SortsTwo sort_two
sort_two-SortsTwo less a b h k = rw h refl

-- The literal q(8, 7) in {unknown}.
abbrev literal_constant : KbLiteral
literal_constant = record { rel_id = 1; terms = value 8 ∷ value 7 ∷ []; logic_set = only_unknown }

make_disjunct-Throws_example :
    (e : AssertionError) × (make_conjunction {V = ℕ} head_h
        (make_disjunct sort_two (literal_p ∷ literal_constant ∷ []) [])
      ≡ err e)
unfolding is_unsafe test of_values have_common_variables var_indices
make_disjunct-Throws_example =
    make_disjunct-Throws sort_two head_h literal_p literal_constant [] sort_two-SortsTwo refl refl
      refl refl
