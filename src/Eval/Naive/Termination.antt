-- ===== src/Eval/Naive/Termination.antt =====
-- The generation of a module ends: a pass that changes a number uses up one of the finitely many things
-- that can be told of the facts.
use native.Mathlib.Nat.{mul-suc}
use fovris.Prelude.{
  ℕ, zero, suc, ◌+◌, ◌*◌, ◌<◌, ◌≤◌, ◌==◌, ◌≡◌, ◌⊎◌, refl, ◌∙◌, Bool, false, List, [], ◌∷◌, some,
  All, length, arith, Bool-cases, inl, inr, ==_iff,
}
use fovris.Truth.{TruthValue}
use fovris.Kb.Term.{Terms}
use fovris.Eval.Naive.{
  KnowledgeBase, EvalRule, KbModule, GenInfo, set_relation, evaluate_rule, evaluate_rules,
  facts_number, module_incons_facts_number, info_of, same_info, generate_loop, generate,
}
use fovris.Eval.Naive.Growth.{AllGrow, evaluate_rule-AllGrow, evaluate_rules-AllGrow}
use fovris.Eval.Naive.Measure.{measure, measure-Grows, measure_bound, Moves, add_results-Moves}
use fovris.Eval.Naive.Within.{
  AllWithin, IsClosed, rule_results, rule_results-IsWithin, evaluate_rule-AllWithin,
}

-- What can still be told of the facts of the relations.
unfoldable pub total : List Terms → KnowledgeBase → List ℕ → ℕ
total U kb [] = 0
total U kb (id ∷ ids) = measure U (kb id).facts + total U kb ids

pub total-AllGrow :
    (U : List Terms) (kb kb' : KnowledgeBase) (ids : List ℕ)
    → AllGrow kb kb'
    → total U kb' ids ≤ total U kb ids
unfolding total
total-AllGrow U kb kb' [] g = omega arith
total-AllGrow U kb kb' (id ∷ ids) g =
    let here = measure-Grows U (kb id) (kb' id) (g id) in
    let rest = total-AllGrow U kb kb' ids g in omega (arith, here, rest)

pub total_bound :
    (U : List Terms) (kb : KnowledgeBase) (ids : List ℕ)
    → total U kb ids ≤ 2 * length U * length ids
unfolding total
total_bound U kb [] = omega arith
total_bound U kb (id ∷ ids) =
    let here = measure_bound U (kb id).facts in
    let rest = total_bound U kb ids in
    let product = mul-suc (2 * length U) (length ids) in omega (arith, here, rest, product)

-- Either something was told, or the numbers of the module stay.
abbrev MovesAll : List Terms → List ℕ → KnowledgeBase → KnowledgeBase → Type 0
MovesAll U ids kb kb' =
    (total U kb' ids < total U kb ids)
    ⊎ ((facts_number kb ids ≡ facts_number kb' ids)
        × (module_incons_facts_number kb ids ≡ module_incons_facts_number kb' ids))

-- Each relation moves, so all do.
each-MovesAll :
    (U : List Terms) (kb kb' : KnowledgeBase) (ids : List ℕ)
    → AllGrow kb kb'
    → ((id : ℕ) → Moves U (kb id) (kb' id))
    → MovesAll U ids kb kb'
unfolding total facts_number module_incons_facts_number
each-MovesAll U kb kb' [] g h = inr (refl, refl)
each-MovesAll U kb kb' (id ∷ ids) g h =
    let here = measure-Grows U (kb id) (kb' id) (g id) in
    let rest = total-AllGrow U kb kb' ids g in
    elim (h id) [
      | inl m ↦ inl (omega (arith, m, rest))
      | inr m ↦ elim (each-MovesAll U kb kb' ids g h) [
        | inl n ↦ inl (omega (arith, n, here))
        | inr n ↦ inr (rw (m.0, n.0) refl, rw (m.1, n.1) refl)
      ]
    ]

evaluate_rule-MovesAll :
    (U : List Terms) (ids : List ℕ) (p : TruthValue → Bool) (aggregate : Bool) (kb : KnowledgeBase)
    (rule : EvalRule)
    → IsClosed U rule
    → AllWithin U kb
    → MovesAll U ids kb (evaluate_rule p aggregate kb rule)
unfolding evaluate_rule
evaluate_rule-MovesAll U ids p aggregate kb rule c h =
    each-MovesAll U kb (evaluate_rule p aggregate kb rule) ids
      (evaluate_rule-AllGrow p aggregate kb rule)
      (λ id. elim (Bool-cases (id == rule.head_rel_id)) [
        | inl e ↦
            rw (e, set_relation)
              (rw ((==_iff id rule.head_rel_id).0 e) (
                add_results-Moves U p (kb rule.head_rel_id) (rule_results aggregate kb rule)
                  (rule_results-IsWithin U aggregate kb rule c h)))
        | inr e ↦ rw (e, set_relation) (inr (refl, refl))
      ])

evaluate_rules-MovesAll :
    (U : List Terms) (ids : List ℕ) (p : TruthValue → Bool) (aggregate : Bool) (kb : KnowledgeBase)
    (rules : List EvalRule)
    → All (IsClosed U) rules
    → AllWithin U kb
    → MovesAll U ids kb (evaluate_rules p aggregate kb rules)
      × AllWithin U (evaluate_rules p aggregate kb rules)
unfolding evaluate_rules
evaluate_rules-MovesAll U ids p aggregate kb [] c h = (inr (refl, refl), h)
evaluate_rules-MovesAll U ids p aggregate kb (rule ∷ rules) c h =
    let kb1 = evaluate_rule p aggregate kb rule in
    let kb2 = evaluate_rules p aggregate kb1 rules in
    let first = evaluate_rule-MovesAll U ids p aggregate kb rule c.0 h in
    let (rest, within) =
      evaluate_rules-MovesAll U ids p aggregate kb1 rules c.1
        (evaluate_rule-AllWithin U p aggregate kb rule c.0 h) in
    let g = total-AllGrow U kb kb1 ids (evaluate_rule-AllGrow p aggregate kb rule) in
    let g' = total-AllGrow U kb1 kb2 ids (evaluate_rules-AllGrow p aggregate kb1 rules) in
    (
      elim first [
        | inl m ↦ inl (omega (arith, m, g'))
        | inr m ↦ elim rest [
          | inl n ↦ inl (omega (arith, n, g))
          | inr n ↦ inr (m.0 ∙ n.0, m.1 ∙ n.1)
        ]
      ],
      within,
    )

-- A pass that changes a number tells something.
pass-total :
    (U : List Terms) (m : KbModule) (kb kb' : KnowledgeBase)
    → MovesAll U m.relation_ids kb kb'
    → same_info (info_of kb' m) (info_of kb m) ≡ false
    → total U kb' m.relation_ids < total U kb m.relation_ids
pass-total U m kb kb' (inl h) e = h
pass-total U m kb kb' (inr h) e = absurd (ground (arith, h, e))

generate_loop-Terminates :
    (U : List Terms) (fuel : ℕ) (p : TruthValue → Bool) (aggregate : Bool) (m : KbModule)
    (kb : KnowledgeBase)
    → All (IsClosed U) m.rules
    → AllWithin U kb
    → total U kb m.relation_ids < fuel
    → (kb' : KnowledgeBase) × (info : GenInfo) × (generate_loop fuel p aggregate m kb (info_of kb m)
        ≡ some (kb', info))
unfolding generate_loop
generate_loop-Terminates U zero p aggregate m kb c h b = absurd (omega (arith, b))
generate_loop-Terminates U (suc fuel) p aggregate m kb c h b =
    let kb1 = evaluate_rules p aggregate kb m.rules in
    let (moves, within) = evaluate_rules-MovesAll U m.relation_ids p aggregate kb m.rules c h in
    elim (Bool-cases (same_info (info_of kb1 m) (info_of kb m))) [
      | inl e ↦ (kb1, info_of kb1 m, rw (e, generate_loop) refl)
      | inr e ↦
          let less = pass-total U m kb kb1 moves e in
          let (kb', info, q) =
            generate_loop-Terminates U fuel p aggregate m kb1 c within (omega (arith, b, less)) in
          (kb', info, rw (e, generate_loop) q)
    ]

-- The generation of a module returns when it may make more passes than twice the number of the terms in a
-- list times the number of the module's relations, where the facts of all relations have terms of the
-- list and every rule makes only terms of the list from facts that have terms of the list.
pub generate-Terminates :
    (U : List Terms) (fuel : ℕ) (p : TruthValue → Bool) (aggregate : Bool) (m : KbModule)
    (kb : KnowledgeBase)
    → All (IsClosed U) m.rules
    → AllWithin U kb
    → 2 * length U * length m.relation_ids < fuel
    → (kb' : KnowledgeBase) × (info : GenInfo) × (generate fuel p aggregate m kb ≡ some (kb', info))
unfolding generate
generate-Terminates U fuel p aggregate m kb c h b =
    let bound = total_bound U kb m.relation_ids in
    generate_loop-Terminates U fuel p aggregate m kb c h (omega (arith, b, bound))
