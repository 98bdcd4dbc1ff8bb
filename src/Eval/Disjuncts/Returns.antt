-- ===== src/Eval/Disjuncts/Returns.antt =====
-- When `CreateEvalRule` returns, and what a call of the evaluation that it makes asks for.
use fovris.Prelude.{
  Bool, not, ℕ, zero, suc, ◌+◌, ◌<◌, ◌==◌, ◌≡◌, refl, sym, ◌∙◌, ap, true, false, ◌&&◌, ltb, List,
  [], ◌∷◌, length, ok, is_ok, eq_refl, ==_iff, arith, Bool-cases, inl, inr,
}
use fovris.Kb.Tuple.{KbTuple}
use fovris.Kb.Function.{TermType}
use fovris.Kb.Relation.{FactsPool, u32_mod}
use fovris.Kb.Rule.{KbHeadLiteral, KbRuleDisjunct}
use fovris.Eval.Sort.{Sorter}
use fovris.Eval.Create.{evaluate_subgoal}
use fovris.Eval.Rule.{Conjunction, evaluate_conjunction, run_subgoals}
use fovris.Eval.Rule.Returns.{
  starts_safe, make_conjunction-Returns, make_conjunction-Throws, evaluate_conjunction-length,
}
use fovris.Eval.Disjuncts.Parts.{
  total, PartsOf, none_left, one_more, all_start_safe, make_parts-Returns, make_parts-Throws,
}
use fovris.Eval.Disjuncts.{
  Part, take_relations, drop_relations, literals_num, run_later_parts, evaluate_disjuncts,
  evaluate_rule_on, create_eval_rule,
}

length-take_relations :
    (n m : ℕ) (rs : List FactsPool) → length rs ≡ n + m → length (take_relations n rs) ≡ n
length-take_relations zero m rs e = refl
length-take_relations (suc n) m [] e = absurd (omega (arith, e))
length-take_relations (suc n) m (r ∷ rs) e = ap suc (length-take_relations n m rs (omega arith))

length-drop_relations :
    (n m : ℕ) (rs : List FactsPool) → length rs ≡ n + m → length (drop_relations n rs) ≡ m
length-drop_relations zero m rs e = omega arith
length-drop_relations (suc n) m [] e = absurd (omega (arith, e))
length-drop_relations (suc n) m (r ∷ rs) e = length-drop_relations n m rs (omega arith)

and_not : (b : Bool) → (b && not b) ≡ false
and_not b = ground arith

module _ {V : Type 0} where
  literals_num-total :
      (ds : List (KbRuleDisjunct V)) (ps : List (Part V))
      → PartsOf ds ps
      → total ds < u32_mod
      → literals_num ps ≡ total ds
  unfolding literals_num
  literals_num-total _ _ none_left b = refl
  literals_num-total (d ∷ ds) (p ∷ ps) (one_more h k) b = ground (arith, literals_num-total ds ps k)

  module _ (sorter : Sorter) (query_term : ℕ → TermType → V) where
    run_later_parts-Returns :
        (tmp : List KbTuple) (ds : List (KbRuleDisjunct V)) (ps : List (Part V))
        (relations : List FactsPool)
        → PartsOf ds ps
        → length relations ≡ total ds
        → (table : List KbTuple) × (run_later_parts sorter query_term tmp ps relations ≡ ok table)
    unfolding run_later_parts
    run_later_parts-Returns tmp _ _ relations none_left e = (tmp, refl)
    run_later_parts-Returns tmp (d ∷ ds) (p ∷ ps) relations (one_more h k) e =
        let taken = take_relations p.literals_number relations in
        let left = drop_relations p.literals_number relations in
        let size : length relations ≡ p.literals_number + total ds = omega (arith, e, h.0) in
        let (table, r) =
          run_later_parts-Returns
            (evaluate_subgoal sorter query_term p.result_eval tmp
              (run_subgoals sorter query_term [] p.evaluation.subgoals taken))
            ds ps left k (length-drop_relations p.literals_number (total ds) relations size) in
        (
          table,
          rw
              (evaluate_conjunction-length sorter query_term p.evaluation taken (
                h.1
                ∙ sym (length-take_relations p.literals_number (total ds) relations size ∙ h.0)))
              r,
        )

    -- A conjunction returns when there is one relation for each of its subgoals.
    evaluate_conjunction-is_ok :
        (c : Conjunction V) (relations : List FactsPool) (n : ℕ)
        → length c.subgoals ≡ n
        → is_ok (evaluate_conjunction sorter query_term c relations) ≡ (length relations == n)
    unfolding evaluate_conjunction
    evaluate_conjunction-is_ok c relations n e = ground (arith, e)

    evaluate_disjuncts-Returns :
        (ds : List (KbRuleDisjunct V)) (ps : List (Part V)) (relations : List FactsPool)
        → PartsOf ds ps
        → literals_num ps ≡ total ds
        → length relations ≡ total ds
        → is_ok (evaluate_disjuncts sorter query_term ps relations) ≡ true
    unfolding evaluate_disjuncts
    evaluate_disjuncts-Returns _ _ relations none_left n e = rw n (rw e refl)
    evaluate_disjuncts-Returns (d ∷ ds) (p ∷ ps) relations (one_more h k) n e =
        let taken = take_relations p.literals_number relations in
        let left = drop_relations p.literals_number relations in
        let size : length relations ≡ p.literals_number + total ds = omega (arith, e, h.0) in
        let (table, r) =
          run_later_parts-Returns (run_subgoals sorter query_term [] p.evaluation.subgoals taken) ds
            ps left k (length-drop_relations p.literals_number (total ds) relations size) in
        rw n (
          rw e (
            rw (eq_refl (length d.body + total ds)) (
              rw
                (evaluate_conjunction-length sorter query_term p.evaluation taken (
                  h.1
                  ∙ sym (length-take_relations p.literals_number (total ds) relations size ∙ h.0)))
                (rw r refl))))

    evaluate_disjuncts-Throws :
        (ps : List (Part V)) (relations : List FactsPool)
        → (length relations == literals_num ps) ≡ false
        → is_ok (evaluate_disjuncts sorter query_term ps relations) ≡ false
    unfolding evaluate_disjuncts
    evaluate_disjuncts-Throws ps relations e = rw e refl

    evaluate_disjuncts-is_ok :
        (ds : List (KbRuleDisjunct V)) (ps : List (Part V)) (relations : List FactsPool)
        → PartsOf ds ps
        → total ds < u32_mod
        → is_ok (evaluate_disjuncts sorter query_term ps relations) ≡ (length relations == total ds)
    evaluate_disjuncts-is_ok ds ps relations k b =
        let n = literals_num-total ds ps k b in
        elim (Bool-cases (length relations == total ds)) [
          | inl e ↦
              evaluate_disjuncts-Returns ds ps relations k n
                ((==_iff (length relations) (total ds)).0 e)
              ∙ sym e
          | inr e ↦ evaluate_disjuncts-Throws ps relations (rw n e) ∙ sym e
        ]

    one-is_ok :
        (head : KbHeadLiteral) (d : KbRuleDisjunct V) (relations : List FactsPool)
        → is_ok (
            evaluate_rule_on sorter query_term
              (record { head = head; disjuncts = d ∷ [] })
              relations)
          ≡ (starts_safe d.body && (length relations == length d.body))
    unfolding evaluate_rule_on
    one-is_ok head d relations = elim (Bool-cases (starts_safe d.body)) [
      | inl e ↦
          let (c, made, (len, safe)) = make_conjunction-Returns head d.body d.functions e in
          rw (made, e) (evaluate_conjunction-is_ok c relations (length d.body) len)
      | inr e ↦
          let (x, made) = make_conjunction-Throws head d.body d.functions e in rw (made, e) refl
    ]

    several-is_ok :
        (head : KbHeadLiteral) (d d' : KbRuleDisjunct V) (ds : List (KbRuleDisjunct V))
        (relations : List FactsPool)
        → total (d ∷ d' ∷ ds) < u32_mod
        → is_ok (
            evaluate_rule_on sorter query_term
              (record { head = head; disjuncts = d ∷ d' ∷ ds })
              relations)
          ≡ (all_start_safe (d ∷ d' ∷ ds) && (length relations == total (d ∷ d' ∷ ds)))
    unfolding evaluate_rule_on
    several-is_ok head d d' ds relations b =
        let many : ltb 1 (suc (suc (length ds))) ≡ true = ground arith in
        elim (Bool-cases (all_start_safe (d ∷ d' ∷ ds))) [
          | inl e ↦
              let (ps, made, parts) = make_parts-Returns head d (d' ∷ ds) e in
              rw (many, made, e) (evaluate_disjuncts-is_ok (d ∷ d' ∷ ds) ps relations parts b)
          | inr e ↦ let (x, made) = make_parts-Throws head d (d' ∷ ds) e in rw (many, made, e) refl
        ]

    -- In the model, where predicates are total and return.
    returns_exactly :
        (head : KbHeadLiteral) (d : KbRuleDisjunct V) (ds : List (KbRuleDisjunct V))
        (relations : List FactsPool)
        → total (d ∷ ds) < u32_mod
        → is_ok (
            evaluate_rule_on sorter query_term
              (record { head = head; disjuncts = d ∷ ds })
              relations)
          ≡ (all_start_safe (d ∷ ds) && (length relations == total (d ∷ ds)))
    unfolding all_start_safe
    returns_exactly head d [] relations b = ground (arith, one-is_ok head d relations)
    returns_exactly head d (d' ∷ ds) relations b = several-is_ok head d d' ds relations b

    created :
        (head : KbHeadLiteral) (d : KbRuleDisjunct V) (ds : List (KbRuleDisjunct V))
        → is_ok (create_eval_rule (record { head = head; disjuncts = d ∷ ds }))
          ≡ all_start_safe (d ∷ ds)
    unfolding create_eval_rule all_start_safe
    created head d [] = elim (Bool-cases (starts_safe d.body)) [
      | inl e ↦
          let (c, made, has) = make_conjunction-Returns head d.body d.functions e in
          rw (made, e) refl
      | inr e ↦
          let (x, made) = make_conjunction-Throws head d.body d.functions e in rw (made, e) refl
    ]
    created head d (d' ∷ ds) =
        let many : ltb 1 (suc (suc (length ds))) ≡ true = ground arith in
        elim (Bool-cases (all_start_safe (d ∷ d' ∷ ds))) [
          | inl e ↦
              let (ps, made, parts) = make_parts-Returns head d (d' ∷ ds) e in
              rw (many, made, e) refl
          | inr e ↦ let (x, made) = make_parts-Throws head d (d' ∷ ds) e in rw (many, made, e) refl
        ]

    -- `CreateEvalRule` of a rule with a disjunct at least returns exactly when every disjunct has a first
    -- literal that is not for unknown, and throws otherwise. Where the disjuncts hold fewer than 2 ^ 32
    -- literals in all, a call of the evaluation returns only if in addition there is one relation for each
    -- literal.
    pub create_eval_rule-is_ok :
        (head : KbHeadLiteral) (d : KbRuleDisjunct V) (ds : List (KbRuleDisjunct V))
        (relations : List FactsPool)
        → total (d ∷ ds) < u32_mod
        → (is_ok (create_eval_rule (record { head = head; disjuncts = d ∷ ds }))
            ≡ all_start_safe (d ∷ ds))
          × ((is_ok (
                  evaluate_rule_on sorter query_term
                    (record { head = head; disjuncts = d ∷ ds })
                    relations)
                && not (all_start_safe (d ∷ ds) && (length relations == total (d ∷ ds))))
              ≡ false)
    create_eval_rule-is_ok head d ds relations b =
        (created head d ds, rw (returns_exactly head d ds relations b) (and_not _))
