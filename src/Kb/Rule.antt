-- ===== src/Kb/Rule.antt =====
-- src/KB/KBRule.h, src/KB/KBHeadLiteral.h and src/KB/KBRuleDisjunct.h: a rule has a head and disjuncts,
-- and a disjunct has literals and predicates.
use fovris.Prelude.{ℕ, Bool, not, ltb, length, List, [], ◌∷◌, ◌++◌}
use fovris.Kb.Term.{KbTerm}
use fovris.Kb.Literal.{KbLiteral}
use fovris.Kb.Function.{KbRuleFunction}

pub record KbHeadLiteral : Type 0 where
  pub rel_id : ℕ
  pub terms : List KbTerm
  pub negated : Bool

-- The constructor with `isTrue`; that without it makes a literal that is not negated.
abbrev pub head_literal : Bool → ℕ → List KbTerm → KbHeadLiteral
head_literal is_true rel_id terms = record { rel_id = rel_id; terms = terms; negated = not is_true }

pub record KbRuleDisjunct (V : Type 0) : Type 0 where
  pub body : List KbLiteral
  pub functions : List (KbRuleFunction V)

pub record KbRule (V : Type 0) : Type 0 where
  pub head : KbHeadLiteral
  pub disjuncts : List (KbRuleDisjunct V)

abbrev pub has_disjunction : {V : Type 0} → KbRule V → Bool
has_disjunction rule = ltb 1 (length rule.disjuncts)

abbrev pub add_function : {V : Type 0} → KbRuleDisjunct V → KbRuleFunction V → KbRuleDisjunct V
add_function d f = record d { functions = d.functions ++ (f ∷ []) }
