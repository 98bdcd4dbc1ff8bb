-- ===== src/Examples/Passes.antt =====
-- Runs of the theorems on the passes of an evaluation.
use fovris.Prelude.{
  ◌≡◌, refl, ◌==◌, true, false, if◌then◌else◌, List, [], ◌∷◌, some, Bool-cases, inl, inr, arith,
}
use fovris.Kb.Term.{Terms}
use fovris.Kb.Tuple.{KbTuple}
use fovris.Kb.Relation.{FactsPool, KbRelation, find}
use fovris.Eval.Naive.{KnowledgeBase, EvalRule, KbModule, GenInfo, not_equals_incons, generate}
use fovris.Eval.Naive.Within.{AllWithin, IsClosed}
use fovris.Eval.Naive.Termination.{generate-Terminates}
use fovris.Eval.SemiNaive.{SemiNaiveModule, add_new_results}
use fovris.Eval.SemiNaive.LastPass.{IsLastPass}
use fovris.Eval.SemiNaive.Termination.{semi_naive_generate-Terminates}
use fovris.Examples.{relation_q, fact}
use fovris.Eval.SemiNaive.Missed.{add_new_results-missed}
use fovris.Eval.Naive.Measure.{SameNumbers}
use fovris.Truth.{TruthValue}
use fovris.Eval.SemiNaive.Run as Run

-- The rule that copies the facts of the relation 1 to the relation 2.
abbrev first_pool : List FactsPool → List KbTuple
first_pool [] = []
first_pool (facts ∷ pools) = facts

abbrev copy_rule : EvalRule
copy_rule = record { head_rel_id = 2; body_rel_ids = 1 ∷ []; call = first_pool }

abbrev copy_module : KbModule
copy_module = record { rules = copy_rule ∷ []; relation_ids = 2 ∷ []; idb_relation_ids = 2 ∷ [] }

abbrev no_facts : KbRelation
no_facts = record {
  facts = [];
  edb_facts = [];
  incons_facts_number = 0;
  edb_incons_facts_number = 0;
  finalized = true;
}

abbrev knowledge_base : KnowledgeBase
knowledge_base id = if id == 1 then relation_q else no_facts

-- The terms of its facts.
abbrev terms_q : List Terms
terms_q = (5 ∷ 7 ∷ []) ∷ (4 ∷ 8 ∷ []) ∷ (6 ∷ 7 ∷ []) ∷ []

knowledge_base-AllWithin : AllWithin terms_q knowledge_base
knowledge_base-AllWithin id = elim (Bool-cases (id == 1)) [
  | inl e ↦ rw e (refl, (refl, (refl, tt)))
  | inr e ↦ rw e tt
]

copy_rule-IsClosed : IsClosed terms_q copy_rule
copy_rule-IsClosed [] h = tt
copy_rule-IsClosed (facts ∷ pools) h = h.0

generate-Terminates_example :
    (kb : KnowledgeBase) × (info : GenInfo) × (generate 7 not_equals_incons false copy_module
        knowledge_base
      ≡ some (kb, info))
generate-Terminates_example =
    generate-Terminates terms_q 7 not_equals_incons false copy_module knowledge_base
      (copy_rule-IsClosed, tt) knowledge_base-AllWithin (omega arith)

abbrev delta_module : SemiNaiveModule
delta_module = record {
  rules = record { eval_rule = copy_rule; disjuncts_number = 1 } ∷ [];
  relation_ids = 2 ∷ [];
  idb_relation_ids = 2 ∷ [];
}

semi_naive_generate-Terminates_example :
    (kb : KnowledgeBase) × (info : GenInfo) × (Run.generate not_equals_incons false false 7
        delta_module knowledge_base
      ≡ some (kb, info))
    × IsLastPass not_equals_incons false false delta_module knowledge_base kb info
semi_naive_generate-Terminates_example =
    semi_naive_generate-Terminates terms_q not_equals_incons false false 7 delta_module
      knowledge_base ((copy_rule-IsClosed, refl), tt) knowledge_base-AllWithin (omega arith)

-- The fact q(6, 7) is unknown, and becomes true.
add_new_results-missed_example :
    (find
        (add_new_results not_equals_incons relation_q []
          (fact (6 ∷ 7 ∷ []) TruthValue.true ∷ [])).0.facts
        (6 ∷ 7 ∷ [])
      ≡ some TruthValue.true)
    × ((add_new_results not_equals_incons relation_q [] (fact (6 ∷ 7 ∷ []) TruthValue.true ∷ [])).1
        ≡ [])
    × SameNumbers relation_q
        (add_new_results not_equals_incons relation_q [] (fact (6 ∷ 7 ∷ []) TruthValue.true ∷ [])).0
unfolding find
add_new_results-missed_example =
    add_new_results-missed not_equals_incons relation_q [] (fact (6 ∷ 7 ∷ []) TruthValue.true) refl
      refl refl
