-- ===== src/Eval/Aggregate/Within.antt =====
-- An aggregation makes no new terms.
use fovris.Prelude.{not, ◌&&◌, List, [], ◌∷◌, All, Bool-cases, inl, inr}
use fovris.Truth.{TruthValue, same}
use fovris.Kb.Term.{Terms, array_eq}
use fovris.Kb.Tuple.{KbTuple}
use fovris.Eval.Aggregate.{aggregate_loop, aggregate_sorted_rule_result}

module _ (P : Terms → Type 0) where
  aggregate_loop-All :
      (current : KbTuple) (best : TruthValue) (result : List KbTuple)
      → P current.terms
      → All (λ t. P t.terms) result
      → All (λ t. P t.terms) (aggregate_loop current best result)
  unfolding aggregate_loop
  aggregate_loop-All current best [] c h = (c, tt)
  aggregate_loop-All current best (t ∷ result) c h =
      elim (Bool-cases (not (array_eq t.terms current.terms))) [
        | inl e ↦ rw (e, aggregate_loop) (c, aggregate_loop-All t best result h.0 h.1)
        | inr e ↦
            elim (Bool-cases (not (same t.value best) && not (same t.value TruthValue.incons))) [
              | inl q ↦
                  rw (e, q, aggregate_loop)
                    (aggregate_loop-All current TruthValue.incons result c h.1)
              | inr q ↦ rw (e, q, aggregate_loop) (aggregate_loop-All current best result c h.1)
            ]
      ]

  pub aggregate_sorted_rule_result-All :
      (result : List KbTuple)
      → All (λ t. P t.terms) result
      → All (λ t. P t.terms) (aggregate_sorted_rule_result result)
  unfolding aggregate_sorted_rule_result
  aggregate_sorted_rule_result-All [] h = tt
  aggregate_sorted_rule_result-All (t ∷ result) h = aggregate_loop-All t t.value result h.0 h.1
