-- ===== src/Eval/Disjuncts/Parts.antt =====
-- The constructor of `EvalRuleWithDisj`: when it returns, and what it makes.
use fovris.Prelude.{
  ℕ, ◌+◌, ◌≡◌, refl, Bool, true, false, ◌&&◌, List, [], ◌∷◌, length, ok, err, arith, Bool-cases,
  inl, inr,
}
use fovris.Kb.Literal.{KbLiteral, is_unsafe}
use fovris.Kb.Rule.{KbHeadLiteral, head_literal, KbRuleDisjunct}
use fovris.Eval.Subgoal.{next_subgoal}
use fovris.Eval.Create.{
  AssertionError, EvalDestination, destination, next_disjunction, create_next_disjunction,
}
use fovris.Eval.Variables.{
  OrderedVarMap, get_var_set, remove_from_rule_vars, make_disjuncts_vars_counter, make_body_var_set,
}
use fovris.Eval.Rule.Returns.{
  Returns, HasSubgoals, starts_safe, make_conjunction-Returns, make_conjunction-Throws,
  next-is_unsafe,
}
use fovris.Eval.Disjuncts.{Part, later_destination, make_part, make_later_parts, make_parts}

module _ {V : Type 0} where
  -- The number of literals of a rule.
  abbrev pub total : List (KbRuleDisjunct V) → ℕ
  total [] = 0
  total (d ∷ ds) = length d.body + total ds

  -- A part is that of a disjunct.
  abbrev pub IsPartOf : KbRuleDisjunct V → Part V → Type 0
  IsPartOf d p =
      (p.literals_number ≡ length d.body) × (length p.evaluation.subgoals ≡ length d.body)

  pub data PartsOf : List (KbRuleDisjunct V) → List (Part V) → Type 0 where
    none_left : PartsOf [] []
    one_more :
        {d : KbRuleDisjunct V} {p : Part V} {ds : List (KbRuleDisjunct V)} {ps : List (Part V)}
        → IsPartOf d p
        → PartsOf ds ps
        → PartsOf (d ∷ ds) (p ∷ ps)

  create_next_disjunction-ok :
      (l r : KbLiteral) (dest : EvalDestination)
      → is_unsafe l ≡ false
      → create_next_disjunction {V = V} l r dest
        ≡ ok (next_disjunction (next_subgoal l r dest.result_is_true dest.project_to))
  unfolding create_next_disjunction
  create_next_disjunction-ok l r dest e = rw e refl

  make_part-Returns :
      (counter : OrderedVarMap) (d : KbRuleDisjunct V)
      → starts_safe d.body ≡ true
      → Returns (make_part counter d) (HasSubgoals (length d.body))
  unfolding make_part
  make_part-Returns counter d h =
      make_conjunction-Returns (head_literal true 0 (get_var_set counter)) d.body d.functions h

  make_part-Throws :
      (counter : OrderedVarMap) (d : KbRuleDisjunct V)
      → starts_safe d.body ≡ false
      → (e : AssertionError) × (make_part counter d ≡ err e)
  unfolding make_part
  make_part-Throws counter d h =
      make_conjunction-Throws (head_literal true 0 (get_var_set counter)) d.body d.functions h

  unfoldable pub all_start_safe : List (KbRuleDisjunct V) → Bool
  all_start_safe [] = true
  all_start_safe (d ∷ ds) = starts_safe d.body && all_start_safe ds

  make_later_parts-Returns :
      (head : KbHeadLiteral) (counter : OrderedVarMap) (tmp_relation : KbLiteral)
      (ds : List (KbRuleDisjunct V))
      → is_unsafe tmp_relation ≡ false
      → all_start_safe ds ≡ true
      → Returns (make_later_parts head counter tmp_relation ds) (PartsOf ds)
  unfolding make_later_parts all_start_safe
  make_later_parts-Returns head counter l [] safe h = ([], refl, none_left)
  make_later_parts-Returns head counter l (d ∷ ds) safe h =
      let counter' = remove_from_rule_vars counter (make_body_var_set d.body) in
      let (c, made, (len, c_safe)) = make_part-Returns counter' d (ground (arith, h)) in
      let dest = later_destination head counter' ds in
      let g = next_subgoal l c.relation dest.result_is_true dest.project_to in
      let (ps, rest, parts) =
        make_later_parts-Returns head counter' g.result_relation ds
          (next-is_unsafe l c.relation dest.result_is_true dest.project_to) (ground (arith, h)) in
      (
        record { literals_number = length d.body; evaluation = c; result_eval = next_disjunction g }
            ∷ ps,
        rw made (rw (create_next_disjunction-ok l c.relation dest safe) (rw rest refl)),
        one_more (refl, len) parts,
      )

  make_later_parts-Throws :
      (head : KbHeadLiteral) (counter : OrderedVarMap) (tmp_relation : KbLiteral)
      (ds : List (KbRuleDisjunct V))
      → is_unsafe tmp_relation ≡ false
      → all_start_safe ds ≡ false
      → (e : AssertionError) × (make_later_parts head counter tmp_relation ds ≡ err e)
  unfolding make_later_parts all_start_safe
  make_later_parts-Throws head counter l [] safe h = absurd (ground (arith, h))
  make_later_parts-Throws head counter l (d ∷ ds) safe h =
      let counter' = remove_from_rule_vars counter (make_body_var_set d.body) in
      elim (Bool-cases (starts_safe d.body)) [
        | inr e ↦ let (x, made) = make_part-Throws counter' d e in (x, rw made refl)
        | inl e ↦
            let (c, made, (len, c_safe)) = make_part-Returns counter' d e in
            let dest = later_destination head counter' ds in
            let g = next_subgoal l c.relation dest.result_is_true dest.project_to in
            let (x, rest) =
              make_later_parts-Throws head counter' g.result_relation ds
                (next-is_unsafe l c.relation dest.result_is_true dest.project_to)
                (ground (arith, h, e)) in
            (x, rw made (rw (create_next_disjunction-ok l c.relation dest safe) (rw rest refl)))
      ]

  pub make_parts-Returns :
      (head : KbHeadLiteral) (d : KbRuleDisjunct V) (ds : List (KbRuleDisjunct V))
      → all_start_safe (d ∷ ds) ≡ true
      → Returns (make_parts (record { head = head; disjuncts = d ∷ ds })) (PartsOf (d ∷ ds))
  unfolding make_parts all_start_safe
  make_parts-Returns head d ds h =
      let counter =
        remove_from_rule_vars (make_disjuncts_vars_counter head (d ∷ ds))
          (make_body_var_set d.body) in
      let (c, made, (len, safe)) = make_part-Returns counter d (ground (arith, h)) in
      let (ps, rest, parts) =
        make_later_parts-Returns head counter c.relation ds safe (ground (arith, h)) in
      (
        record {
          literals_number = length d.body;
          evaluation = c;
          result_eval =
              next_disjunction (next_subgoal c.relation c.relation true (get_var_set counter));
        }
            ∷ ps,
        rw made (
            rw
              (create_next_disjunction-ok c.relation c.relation (destination (get_var_set counter))
                safe)
              (rw rest refl)),
        one_more (refl, len) parts,
      )

  pub make_parts-Throws :
      (head : KbHeadLiteral) (d : KbRuleDisjunct V) (ds : List (KbRuleDisjunct V))
      → all_start_safe (d ∷ ds) ≡ false
      → (e : AssertionError) × (make_parts (record { head = head; disjuncts = d ∷ ds }) ≡ err e)
  unfolding make_parts all_start_safe
  make_parts-Throws head d ds h =
      let counter =
        remove_from_rule_vars (make_disjuncts_vars_counter head (d ∷ ds))
          (make_body_var_set d.body) in
      elim (Bool-cases (starts_safe d.body)) [
        | inr e ↦ let (x, made) = make_part-Throws counter d e in (x, rw made refl)
        | inl e ↦
            let (c, made, (len, safe)) = make_part-Returns counter d e in
            let (x, rest) =
              make_later_parts-Throws head counter c.relation ds safe (ground (arith, h, e)) in
            (
              x,
              rw made (
                  rw
                    (create_next_disjunction-ok c.relation c.relation
                      (destination (get_var_set counter)) safe)
                    (rw rest refl)),
            )
      ]
