-- ===== src/Eval/SemiNaive/Termination.antt =====
-- The semi-naive generation of a module ends: a pass whose deltas are not empty uses up one of the
-- finitely many things that can be told of the facts.
use fovris.Prelude.{
  ℕ, zero, suc, ◌*◌, ◌<◌, ◌≡◌, refl, Bool, List, [], ◌∷◌, some, All, map, length, arith, Bool-cases,
  inl, inr,
}
use fovris.Truth.{TruthValue}
use fovris.Kb.Term.{Terms}
use fovris.Eval.Naive.{KnowledgeBase, GenInfo}
use fovris.Eval.Naive.Growth.{AllGrow-refl}
use fovris.Eval.Naive.Within.{AllWithin}
use fovris.Eval.Naive.Termination.{total, total-AllGrow, total_bound}
use fovris.Eval.SemiNaive.{
  RuleEvaluation, SemiNaiveModule, RelationDeltas, create_relation_deltas, first_pass,
  are_deltas_empty, generate_rule_idb_info, info_of, with_infos,
}
use fovris.Eval.SemiNaive.LastPass.{IsLastPass, semi_naive_generate-IsLastPass}
use fovris.Eval.SemiNaive.InPass.{
  InPass, DeltasWithin, IsProperRule, create_relation_deltas_empty, first_pass-InPass,
  evaluate_rules_loop-InPass,
}
use fovris.Eval.SemiNaive.Run.{evaluate_rules, generate_loop, generate}

module _ (U : List Terms) (p : TruthValue → Bool) (aggregate naively : Bool) where
  infos-IsProperRule :
      (ids heads : List ℕ) (rules : List RuleEvaluation)
      → All (IsProperRule U ids) rules
      → All (λ r. IsProperRule U ids r.0) (map (λ r. with_infos heads r) rules)
  infos-IsProperRule ids heads [] c = tt
  infos-IsProperRule ids heads (r ∷ rules) c = (c.0, infos-IsProperRule ids heads rules c.1)

  -- A pass begins with empty deltas.
  begin-InPass :
      (ids : List ℕ) (kb : KnowledgeBase)
      → AllWithin U kb
      → InPass U ids kb (kb, create_relation_deltas ids)
  begin-InPass ids kb h =
      let (e, d) = create_relation_deltas_empty U ids in (AllGrow-refl kb, h, d, inr e)

  pass-InPass :
      (m : SemiNaiveModule) (kb : KnowledgeBase) (deltas : RelationDeltas)
      → All (IsProperRule U m.relation_ids) m.rules
      → AllWithin U kb
      → DeltasWithin U deltas
      → InPass U m.relation_ids kb (evaluate_rules p aggregate naively m kb deltas)
  unfolding evaluate_rules generate_rule_idb_info
  pass-InPass m kb deltas c h d =
      evaluate_rules_loop-InPass U m.relation_ids p aggregate naively kb kb deltas
        (create_relation_deltas m.relation_ids) (generate_rule_idb_info m.rules)
        (infos-IsProperRule m.relation_ids (map (λ r. r.eval_rule.head_rel_id) m.rules) m.rules c) d
        (begin-InPass m.relation_ids kb h)

  generate_loop-Terminates :
      (fuel : ℕ) (m : SemiNaiveModule) (kb : KnowledgeBase) (deltas : RelationDeltas)
      → All (IsProperRule U m.relation_ids) m.rules
      → AllWithin U kb
      → DeltasWithin U deltas
      → total U kb m.relation_ids < fuel
      → (kb' : KnowledgeBase) × (info : GenInfo) × (generate_loop p aggregate naively fuel m kb
            deltas
          ≡ some (kb', info))
  unfolding generate_loop
  generate_loop-Terminates zero m kb deltas c h d b = absurd (omega (arith, b))
  generate_loop-Terminates (suc fuel) m kb deltas c h d b =
      let next = evaluate_rules p aggregate naively m kb deltas in
      let (g, within, deltas_within, moves) = pass-InPass m kb deltas c h d in
      elim (Bool-cases (are_deltas_empty next.1)) [
        | inl e ↦ (next.0, info_of next.0 m, rw (e, generate_loop) refl)
        | inr e ↦ elim moves [
          | inr q ↦ absurd (ground (arith, q, e))
          | inl less ↦
              let (kb', info, q) =
                generate_loop-Terminates fuel m next.0 next.1 c within deltas_within
                  (omega (arith, b, less)) in
              (kb', info, rw (e, generate_loop) q)
        ]
      ]

  generate-Terminates_total :
      (fuel : ℕ) (m : SemiNaiveModule) (kb : KnowledgeBase)
      → All (IsProperRule U m.relation_ids) m.rules
      → AllWithin U kb
      → total U kb m.relation_ids < fuel
      → (kb' : KnowledgeBase) × (info : GenInfo) × (generate p aggregate naively fuel m kb
          ≡ some (kb', info))
  unfolding generate
  generate-Terminates_total fuel m kb c h b =
      let next = first_pass p aggregate kb (create_relation_deltas m.relation_ids) m.rules in
      let (g, within, deltas_within, moves) =
        first_pass-InPass U m.relation_ids p aggregate kb kb (create_relation_deltas m.relation_ids)
          m.rules c (begin-InPass m.relation_ids kb h) in
      let less = total-AllGrow U kb next.0 m.relation_ids g in
      elim (Bool-cases (are_deltas_empty next.1)) [
        | inl e ↦ (next.0, info_of next.0 m, rw (e, generate) refl)
        | inr e ↦
            let (kb', info, q) =
              generate_loop-Terminates fuel m next.0 next.1 c within deltas_within
                (omega (arith, b, less)) in
            (kb', info, rw (e, generate) q)
      ]

  -- The semi-naive generation of a module returns when it may make more passes than twice the number of
  -- the terms in a list times the number of the module's relations, where the facts of all relations have
  -- terms of the list, the heads of the rules are relations of the module, and every rule makes only terms
  -- of the list from facts that have terms of the list. It makes a first pass, and one more while the
  -- deltas of the last are not empty; the relations of the first pass whose deltas are empty are returned,
  -- with their numbers. Over relations that know no less than the ones the generation began with, this
  -- pass forgot no fact, made none that was not there and turned none inconsistent.
  pub semi_naive_generate-Terminates :
      (fuel : ℕ) (m : SemiNaiveModule) (kb : KnowledgeBase)
      → All (IsProperRule U m.relation_ids) m.rules
      → AllWithin U kb
      → 2 * length U * length m.relation_ids < fuel
      → (kb' : KnowledgeBase) × (info : GenInfo) × (generate p aggregate naively fuel m kb
          ≡ some (kb', info))
        × IsLastPass p aggregate naively m kb kb' info
  semi_naive_generate-Terminates fuel m kb c h b =
      let bound = total_bound U kb m.relation_ids in
      let (kb', info, q) = generate-Terminates_total fuel m kb c h (omega (arith, b, bound)) in
      (kb', info, q, semi_naive_generate-IsLastPass p aggregate naively m kb fuel kb' info q)
