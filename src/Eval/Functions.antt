-- ===== src/Eval/Functions.antt =====
-- `AllOfPredicateFunctions` of src/Eval/EvalSubgoal.cc: the predicates of a rule on a pair of facts.
-- Predicates are total: one that throws is not modelled. For a tuple without a fact the source is called with no
-- terms on the right, where a predicate with a variable of the new literal alone fails an assertion; here it
-- reads 0.
use fovris.Prelude.{ℕ, Bool, true, false, if◌then◌else◌, not, List, [], ◌∷◌}
use fovris.Kb.Term.{Terms}
use fovris.Kb.Function.{TermType, KbRuleFunction}
use fovris.Kb.Literal.{KbLiteral}
use fovris.Eval.Projection.{JoinColumnId, join_projection, join_project}

-- `query_term` is `TermMapper::queryTerm`.
module _ {V : Type 0} (query_term : ℕ → TermType → V) where
  -- The loop over `funProjected`; there are as many types as terms.
  pub query_terms : Terms → List TermType → List V
  query_terms (t ∷ ts) (type ∷ types) = query_term t type ∷ query_terms ts types
  query_terms _ _ = []

  unfoldable pub all_of_predicate_functions :
      List (List JoinColumnId) → List (KbRuleFunction V) → Terms → Terms → Bool
  unfolding query_terms
  all_of_predicate_functions (projection ∷ projections) (function ∷ functions) tmp sel =
      let rest = all_of_predicate_functions projections functions tmp sel in
      if not
        (function.predicate (query_terms (join_project projection tmp sel) function.term_types))
      then false
      else rest
  all_of_predicate_functions _ _ tmp sel = true

-- The projections that the constructors of the subgoals prepare.
unfoldable pub function_projections :
    {V : Type 0} → KbLiteral → KbLiteral → List (KbRuleFunction V) → List (List JoinColumnId)
function_projections cur_tmp_rel new_rel [] = []
function_projections cur_tmp_rel new_rel (f ∷ functions) =
    join_projection cur_tmp_rel new_rel f.terms ∷ function_projections cur_tmp_rel new_rel functions
