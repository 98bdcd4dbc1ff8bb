-- ===== src/Eval/Rule/Meaning.antt =====
-- `EvaluateRuleWithoutDisjunction` for literals without unknown and no predicates: what its constructor
-- makes is run to the table that the literals of the body describe.
use mathlib.Core.Path.{subst}
use fovris.Prelude.{
  ℕ, suc, ◌<◌, ◌≡◌, refl, sym, ◌∙◌, ap, true, false, not, List, [], ◌∷◌, map, All, length, Result,
  ok,
}
use fovris.Kb.Term.{KbTerm}
use fovris.Kb.Tuple.{KbTuple}
use fovris.Kb.Literal.{KbLiteral, is_unsafe, var_set}
use fovris.Kb.Function.{TermType}
use fovris.Kb.Relation.{FactsPool, u32_mod}
use fovris.Kb.Rule.{KbHeadLiteral}
use fovris.Eval.Sort.{Sorter}
use fovris.Eval.Subgoal.{next_subgoal, evaluate_without_unknown}
use fovris.Eval.Create.{
  AssertionError, result_relation, create_next, create_last, evaluate_subgoal, without_unknown,
}
use fovris.Eval.Variables.{OrderedVarMap, get_var_set, remove_from_rule_vars}
use fovris.Eval.Variables.Kept.{IsWithin, remove_from_rule_vars-kept}
use fovris.Eval.Rule.{Conjunction, head_destination, make_rest, run_subgoals}
use fovris.Eval.Rule.Table.{Spec, Describes, NextSpec}
use fovris.Eval.Rule.Joined.{without_unknown-Describes}
use fovris.Eval.Rule.Body.{
  body_spec, IsFit, IsTable, next-IsTable, Reaches, Reaches-next, Reaches-CoversJoin,
}

module _ {V : Type 0} where
  -- The subgoal of a literal without unknown.
  create_next-without_unknown :
      (tmp_relation literal : KbLiteral) (project_to : List KbTerm)
      → is_unsafe tmp_relation ≡ false
      → is_unsafe literal ≡ false
      → create_next {V = V} tmp_relation literal project_to
        ≡ ok (without_unknown (next_subgoal tmp_relation literal true project_to))
  unfolding create_next
  create_next-without_unknown l r ts e q = rw e (rw q refl)

  create_last-without_unknown :
      (tmp_relation literal : KbLiteral) (head : KbHeadLiteral)
      → is_unsafe literal ≡ false
      → create_last {V = V} tmp_relation literal (head_destination head) []
        ≡ without_unknown (next_subgoal tmp_relation literal (not head.negated) head.terms)
  unfolding create_last
  create_last-without_unknown l r head q = rw q refl

  module _ (sorter : Sorter) (query_term : ℕ → TermType → V) where
    -- What the constructor makes for the literals that are left, and its run.
    abbrev pub Runs :
        KbHeadLiteral
        → Spec
        → List KbTuple
        → ℕ
        → List FactsPool
        → Result AssertionError (Conjunction V)
        → Type 0
    Runs head S tmp n relations made =
        (c : Conjunction V) × (made ≡ ok c)
        × (length c.subgoals ≡ n)
        × Describes S head.terms (not head.negated)
            (run_subgoals sorter query_term tmp c.subgoals relations)

    last-Runs :
        (head : KbHeadLiteral) (vars : List KbTerm) (S : Spec) (counter : OrderedVarMap)
        (tmp_relation r : KbLiteral) (tmp : List KbTuple) (facts : FactsPool)
        → IsTable vars S tmp_relation tmp
        → IsFit vars (r, facts)
        → Reaches tmp_relation (r ∷ []) head.terms
        → Runs head
            (NextSpec S r facts)
            tmp
            1
            (facts ∷ [])
            (make_rest head [] counter tmp_relation r [])
    unfolding make_rest run_subgoals evaluate_subgoal
    last-Runs head vars S counter l r tmp facts (safe, h, scoped, table) (r_safe, k, proper) reach =
        (
          record {
            subgoals = create_last l r (head_destination head) [] ∷ [];
            relation = result_relation (create_last {V = V} l r (head_destination head) []);
          },
          refl,
          refl,
          subst
              (λ g.
                Describes (NextSpec S r facts) head.terms (not head.negated)
                  (evaluate_subgoal sorter query_term g tmp facts))
              (sym (create_last-without_unknown l r head r_safe))
              (without_unknown-Describes sorter S l r (not head.negated) head.terms tmp facts
                (Reaches-CoversJoin l r head.terms reach) scoped table proper),
        )

    -- One literal more, whose subgoal keeps the variables of the rule.
    step-Runs :
        (head : KbHeadLiteral) (vars : List KbTerm) (S : Spec) (counter : OrderedVarMap)
        (tmp_relation r l : KbLiteral) (ls : List KbLiteral) (tmp : List KbTuple)
        (facts : FactsPool) (n : ℕ) (relations : List FactsPool)
        → get_var_set (remove_from_rule_vars counter (var_set r)) ≡ vars
        → is_unsafe tmp_relation ≡ false
        → is_unsafe r ≡ false
        → Runs head S
            (evaluate_without_unknown sorter (next_subgoal tmp_relation r true vars) tmp facts)
            n
            relations
            (make_rest head []
              (remove_from_rule_vars counter (var_set r))
              (next_subgoal tmp_relation r true vars).result_relation
              l
              ls)
        → Runs head S tmp
            (suc n)
            (facts ∷ relations)
            (make_rest head [] counter tmp_relation r (l ∷ ls))
    unfolding make_rest run_subgoals evaluate_subgoal
    step-Runs head vars S counter tmp_relation r l ls tmp facts n relations kept safe r_safe
          (c, made, len, table) =
        (
          record {
            subgoals = without_unknown (next_subgoal tmp_relation r true vars) ∷ c.subgoals;
            relation = c.relation;
          },
          rw kept (rw (create_next-without_unknown tmp_relation r vars safe r_safe) (rw made refl)),
          ap suc len,
          table,
        )

    pub body-Runs :
        (head : KbHeadLiteral) (vars : List KbTerm) (S : Spec) (n : ℕ) (counter : OrderedVarMap)
        (tmp_relation r : KbLiteral) (tmp : List KbTuple) (facts : FactsPool)
        (body : List (KbLiteral × FactsPool))
        → n < u32_mod
        → IsWithin n counter
        → get_var_set counter ≡ vars
        → All (λ t. t.is_var ≡ true) vars
        → IsTable vars S tmp_relation tmp
        → IsFit vars (r, facts)
        → All (IsFit vars) body
        → Reaches tmp_relation (r ∷ map (λ b. b.0) body) head.terms
        → Runs head
            (body_spec (NextSpec S r facts) body)
            tmp
            (suc (length body))
            (facts ∷ map (λ b. b.1) body)
            (make_rest head [] counter tmp_relation r (map (λ b. b.0) body))
    body-Runs head vars S n counter l r tmp facts [] b w e a table fit fits reach =
        last-Runs head vars S counter l r tmp facts table fit reach
    body-Runs head vars S n counter l r tmp facts ((l', facts') ∷ body) b w e a table fit fits
          reach =
        let (kept, within) = remove_from_rule_vars-kept n counter (var_set r) b w in
        let next = next_subgoal l r true vars in
        step-Runs head vars (body_spec (NextSpec S r facts) ((l', facts') ∷ body)) counter l r l'
          (map (λ b. b.0) body) tmp facts (suc (length body)) (facts' ∷ map (λ b. b.1) body)
          (kept ∙ e) table.0 fit.0
          (body-Runs head vars (NextSpec S r facts) n (remove_from_rule_vars counter (var_set r))
            next.result_relation l' (evaluate_without_unknown sorter next tmp facts) facts' body b
            within (kept ∙ e) a (next-IsTable sorter vars S l r tmp facts a table fit) fits.0 fits.1
            (Reaches-next vars l r (l' ∷ map (λ b. b.0) body) head.terms a table.1 fit.1 reach))
