-- ===== src/Kb/Function.antt =====
-- src/KB/KBRuleFunction.cc: a predicate in the body of a rule, over the terms that interned values
-- stand for. `V` is the type of these terms.
use fovris.Prelude.{Bool, not, if◌then◌else◌, List}
use fovris.Kb.Term.{KbTerm}

-- `TermType` of include/fovris/Term.h.
pub data TermType : Type 0 where
  integer real logic string id date date_time var : TermType

pub record KbRuleFunction (V : Type 0) : Type 0 where
  pub predicate : List V → Bool
  pub terms : List KbTerm
  pub term_types : List TermType

-- The constructor: where the result is to be false the predicate is negated.
unfoldable pub rule_function :
    {V : Type 0} → Bool → (List V → Bool) → List KbTerm → List TermType → KbRuleFunction V
rule_function true_result predicate terms term_types = record {
  predicate = if true_result then predicate else (λ arr. not (predicate arr));
  terms = terms;
  term_types = term_types;
}
