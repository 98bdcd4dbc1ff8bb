-- ===== src/Eval/Aggregate/Runs.antt =====
-- The value of the tuple that stands for a run.
use fovris.Prelude.{
  ◌≡◌, refl, ap, List, [], ◌∷◌, ◌++◌, All, arith, false, not, ◌&&◌, Bool-cases, inl, inr,
}
use fovris.Truth.{TruthValue, same}
use fovris.Kb.Term.{array_eq, array_eq_iff}
use fovris.Kb.Tuple.{KbTuple}
use fovris.Eval.Aggregate.{aggregate_loop, aggregate_sorted_rule_result}

last_run :
    (current : KbTuple) (best : TruthValue) (run : List KbTuple)
    → All (λ t. t.terms ≡ current.terms) run
    → aggregate_loop current best run ≡ current ∷ []
unfolding aggregate_loop
last_run current best [] h = refl
last_run current best (t ∷ run) h = ground (
  arith,
  array_eq_iff t.terms current.terms,
  last_run current best run h.1,
  last_run current TruthValue.incons run h.1,
)

-- With the last run, and with its first tuple alone, the aggregation gives one list that ends in this tuple.
abbrev pub EndsIn : List KbTuple → List KbTuple → KbTuple → Type 0
EndsIn whole short t =
    (front : List KbTuple) × (whole ≡ front ++ (t ∷ [])) × (short ≡ front ++ (t ∷ []))

EndsIn-cons :
    (a t : KbTuple) (whole short : List KbTuple)
    → EndsIn whole short t
    → EndsIn (a ∷ whole) (a ∷ short) t
EndsIn-cons a t whole short (front, w, s) = (a ∷ front, ap (λ l. a ∷ l) w, ap (λ l. a ∷ l) s)

module _ (t : KbTuple) (run : List KbTuple) (same_terms : All (λ u. u.terms ≡ t.terms) run) where
  loop-EndsIn :
      (current : KbTuple) (best : TruthValue) (before : List KbTuple)
      → array_eq t.terms current.terms ≡ false
      → All (λ u. array_eq t.terms u.terms ≡ false) before
      → EndsIn
          (aggregate_loop current best (before ++ (t ∷ run)))
          (aggregate_loop current best (before ++ (t ∷ [])))
          t
  unfolding aggregate_loop
  loop-EndsIn current best [] h hs =
      rw (h, last_run t best run same_terms) (record current { value = best } ∷ [], refl, refl)
  loop-EndsIn current best (u ∷ before) h hs = elim (Bool-cases (array_eq u.terms current.terms)) [
    | inr differ ↦
        rw differ (
          EndsIn-cons (record current { value = best }) t _ _ (loop-EndsIn u best before hs.0 hs.1))
    | inl alike ↦
        elim (Bool-cases (not (same u.value best) && not (same u.value TruthValue.incons))) [
          | inl worse ↦ rw (alike, worse) (loop-EndsIn current TruthValue.incons before h hs.1)
          | inr kept ↦ rw (alike, kept) (loop-EndsIn current best before h hs.1)
        ]
  ]

  -- Of the last run of a table, whose tuples all have the same terms and no tuple before has them, the
  -- aggregation keeps the first tuple with its own value, and what it gives is the same as without the other
  -- tuples of the run, whatever their values are.
  pub aggregate_last_run :
      (before : List KbTuple)
      → All (λ u. array_eq t.terms u.terms ≡ false) before
      → EndsIn
          (aggregate_sorted_rule_result (before ++ (t ∷ run)))
          (aggregate_sorted_rule_result (before ++ (t ∷ [])))
          t
  unfolding aggregate_sorted_rule_result
  aggregate_last_run [] h = ([], last_run t t.value run same_terms, refl)
  aggregate_last_run (u ∷ before) h = loop-EndsIn u u.value before h.0 h.1
