-- ===== src/Eval/Rule/Answers.antt =====
-- A rule of one disjunct whose literals are all without unknown and that has no predicates: its answers.
use fovris.Prelude.{
  ℕ, suc, ◌<◌, ◌≡◌, refl, sym, ◌∙◌, ap, true, false, not, List, [], ◌∷◌, ◌++◌, map, All, length, ok,
}
use fovris.Kb.Term.{KbTerm}
use fovris.Kb.Tuple.{KbTuple}
use fovris.Kb.Literal.{KbLiteral, is_unsafe, var_set, make_var_set}
use fovris.Kb.Function.{TermType}
use fovris.Kb.Relation.{FactsPool, u32_mod}
use fovris.Kb.Rule.{KbHeadLiteral}
use fovris.Eval.Sort.{Sorter}
use fovris.Eval.Subgoal.{first_subgoal, evaluate_first}
use fovris.Eval.Create.{first, create_first, evaluate_subgoal}
use fovris.Eval.Variables.{get_var_set, remove_from_rule_vars, make_vars_counter}
use fovris.Eval.Variables.Kept.{rule_vars, remove_from_rule_vars-kept, counter-IsWithin}
use fovris.Eval.Variables.Among.{Holds, kept_vars, kept_vars-is_var, kept_vars-Holds}
use fovris.Eval.Rule.{make_rest, make_conjunction, run_subgoals}
use fovris.Eval.Rule.Table.{Spec, Describes, IsProper, FirstSpec, evaluate_first-Describes}
use fovris.Eval.Rule.Body.{body_spec, IsFit}
use fovris.Eval.Rule.Meaning.{Runs, body-Runs}
use fovris.Eval.Rule.Start.{first-IsTable, AppearsIn, Reaches-first, AppearsIn-Covers}
use fovris.Eval.Rule.Returns.{evaluate_conjunction-length}
use fovris.Eval.Disjuncts.{evaluate_rule_on}

-- A literal without unknown and its facts.
abbrev pub IsSafe : KbLiteral × FactsPool → Type 0
IsSafe (l, facts) = (is_unsafe l ≡ false) × IsProper l facts

fits :
    (vars : List KbTerm) (body : List (KbLiteral × FactsPool))
    → All (Holds vars) (map (λ b. b.0) body)
    → All IsSafe body
    → All (IsFit vars) body
fits vars [] h k = tt
fits vars (b ∷ body) h k = ((k.0.0, h.0, k.0.1), fits vars body h.1 k.1)

module _ {V : Type 0} (sorter : Sorter) (query_term : ℕ → TermType → V) where
  one-Runs :
      (head : KbHeadLiteral) (r : KbLiteral) (facts : FactsPool)
      → IsSafe (r, facts)
      → AppearsIn (r ∷ []) head.terms
      → Runs sorter query_term head
          (FirstSpec r facts)
          []
          1
          (facts ∷ [])
          (make_conjunction head (record { body = r ∷ []; functions = [] }))
  unfolding make_conjunction create_first run_subgoals evaluate_subgoal
  one-Runs head r facts (safe, proper) c =
      let g = first_subgoal r (not head.negated) head.terms in
      (
        record { subgoals = first g ∷ []; relation = g.result_relation },
        rw safe refl,
        refl,
        evaluate_first-Describes r (not head.negated) head.terms facts
            (AppearsIn-Covers r head.terms c) proper,
      )

  -- The first literal of several.
  several-Runs :
      (head : KbHeadLiteral) (vars : List KbTerm) (S : Spec) (r l : KbLiteral) (ls : List KbLiteral)
      (facts : FactsPool) (n : ℕ) (relations : List FactsPool)
      → get_var_set (remove_from_rule_vars (make_vars_counter (r ∷ l ∷ ls) head) (var_set r)) ≡ vars
      → is_unsafe r ≡ false
      → Runs sorter query_term head S
          (evaluate_first (first_subgoal r true vars) facts)
          n
          relations
          (make_rest head []
            (remove_from_rule_vars (make_vars_counter (r ∷ l ∷ ls) head) (var_set r))
            (first_subgoal r true vars).result_relation
            l
            ls)
      → Runs sorter query_term head S []
          (suc n)
          (facts ∷ relations)
          (make_conjunction head (record { body = r ∷ l ∷ ls; functions = [] }))
  unfolding make_conjunction create_first run_subgoals evaluate_subgoal
  several-Runs head vars S r l ls facts n relations kept safe (c, made, len, table) = (
    record { subgoals = first (first_subgoal r true vars) ∷ c.subgoals; relation = c.relation },
    rw kept (rw safe (rw made refl)),
    ap suc len,
    table,
  )

  conjunction-Runs :
      (head : KbHeadLiteral) (r : KbLiteral) (facts : FactsPool)
      (body : List (KbLiteral × FactsPool))
      → length (make_var_set head.terms ++ rule_vars (r ∷ map (λ b. b.0) body)) < u32_mod
      → All IsSafe ((r, facts) ∷ body)
      → AppearsIn (r ∷ map (λ b. b.0) body) head.terms
      → Runs sorter query_term head
          (body_spec (FirstSpec r facts) body)
          []
          (suc (length body))
          (facts ∷ map (λ b. b.1) body)
          (make_conjunction head (record { body = r ∷ map (λ b. b.0) body; functions = [] }))
  conjunction-Runs head r facts [] b safe c = one-Runs head r facts safe.0 c
  conjunction-Runs head r facts ((l, fs) ∷ body) b safe c =
      let ls = r ∷ l ∷ map (λ b. b.0) body in
      let vars = kept_vars ls head in
      let a = kept_vars-is_var ls head b in
      let fit = fits vars ((r, facts) ∷ (l, fs) ∷ body) (kept_vars-Holds ls head b) safe in
      let n = length (make_var_set head.terms ++ rule_vars ls) in
      let (kept, within) =
        remove_from_rule_vars-kept n (make_vars_counter ls head) (var_set r) b
          (counter-IsWithin ls head b) in
      several-Runs head vars (body_spec (FirstSpec r facts) ((l, fs) ∷ body)) r l
        (map (λ b. b.0) body) facts (suc (length body)) (fs ∷ map (λ b. b.1) body) kept safe.0.0
        (body-Runs sorter query_term head vars (FirstSpec r facts) n
          (remove_from_rule_vars (make_vars_counter ls head) (var_set r))
          (first_subgoal r true vars).result_relation l
          (evaluate_first (first_subgoal r true vars) facts) fs body b within kept a
          (first-IsTable vars r facts a fit.0) fit.1.0 fit.1.1
          (Reaches-first vars r (l ∷ map (λ b. b.0) body) head.terms a fit.0.1 c))

  length-map : (body : List (KbLiteral × FactsPool)) → length (map (λ b. b.1) body) ≡ length body
  length-map [] = refl
  length-map (b ∷ body) = ap suc (length-map body)

  -- A rule with one disjunct, of literals without unknown and no predicates, is evaluated without an
  -- exception when its literals and its head hold fewer than 2 ^ 32 variables, every variable of the
  -- head stands in a literal, and the facts have the arities of their literals and no null term. The
  -- results are exactly the instances of the head under an assignment for which every literal has a
  -- known fact with a value it asks for. Their value is that of the first fact in conjunction with those
  -- of the others, which are resolved to true or inconsistent before; it is resolved for the head.
  pub evaluate_rule_on_iff :
      (head : KbHeadLiteral) (r : KbLiteral) (facts : FactsPool)
      (body : List (KbLiteral × FactsPool))
      → length (make_var_set head.terms ++ rule_vars (r ∷ map (λ b. b.0) body)) < u32_mod
      → All IsSafe ((r, facts) ∷ body)
      → AppearsIn (r ∷ map (λ b. b.0) body) head.terms
      → (table : List KbTuple) × (evaluate_rule_on sorter query_term
            (record {
              head = head;
              disjuncts = record { body = r ∷ map (λ b. b.0) body; functions = [] } ∷ [];
            })
            (facts ∷ map (λ b. b.1) body)
          ≡ ok table)
        × Describes (body_spec (FirstSpec r facts) body) head.terms (not head.negated) table
  unfolding evaluate_rule_on
  evaluate_rule_on_iff head r facts body b safe c =
      let (k, made, len, table) = conjunction-Runs head r facts body b safe c in
      (
        run_subgoals sorter query_term [] k.subgoals (facts ∷ map (λ b. b.1) body),
        rw made (
            evaluate_conjunction-length sorter query_term k (facts ∷ map (λ b. b.1) body)
              (len ∙ sym (ap suc (length-map body)))),
        table,
      )
