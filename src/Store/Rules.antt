-- ===== src/Store/Rules.antt =====
-- `checkRuleLiteral`, `checkRule` and `validateModule` of src/KnowledgeBase.cc. An exception that is caught
-- and thrown again with a longer message is passed on.
pub mod Safety
pub mod Typing
use fovris.Prelude.{
  ℕ, not, if◌then◌else◌, Bool, true, false, List, [], ◌∷◌, Option, none, some, all, Result, ok, err,
  ◌>>=◌,
}
use fovris.Interning.Pool.{exists, query_id}
use fovris.Interning.Term.{Term, String, string_eq}
use fovris.Api.{
  Exception, Literal, RuleLiteral, RuleDisjunct, Rule, RelationDef, Module, has_constraint,
  is_external, is_function, is_unsafe_literal,
}
use fovris.Store.{StoredRelation, KnowledgeBaseImpl, symbol_eq, or_throw, relation_at}
use fovris.Store.Checks.{
  VarDiff, calc_var_diff, check_domains_terms, check_function, find_def, check_literal,
  check_body_literal, check_fact,
}

-- `allVarsSatisfied`
unfoldable pub all_vars_satisfied : VarDiff → Bool
all_vars_satisfied m = all (λ e. e.1.satisfied) m

-- `relationDefMap`, or the exception for a relation that is defined twice.
unfoldable pub make_rel_def_map :
    List RelationDef → List RelationDef → Result Exception (List RelationDef)
unfolding find_def
make_rel_def_map defs [] = ok defs
make_rel_def_map defs (d ∷ rest) = elim (find_def defs d.predicate_symbol) [
  | some other ↦ err Exception.invalid_input
  | none ↦ make_rel_def_map (d ∷ defs) rest
]

module _ {R : Type 0} where
  -- `checkRuleLiteral` of a literal of the module itself.
  unfoldable pub check_own_literal :
      List RelationDef → RuleLiteral R → VarDiff → Result Exception VarDiff
  unfolding check_body_literal find_def calc_var_diff
  check_own_literal defs l m =
      if has_constraint l
      then err Exception.invalid_input
      else check_body_literal defs l >>= λ checked.
          if is_function l then ok m else elim (find_def defs l.literal.predicate_symbol) [
            | none ↦ err Exception.past_end
            | some d ↦ calc_var_diff l.literal.terms d.types m true
          ]

  -- The name of the module of an external literal.
  abbrev pub module_of : RuleLiteral R → String
  module_of l = elim l.external_module [ none ↦ [] | some name ↦ name ]

  -- The relation that a literal of another module names.
  unfoldable pub external_relation :
      KnowledgeBaseImpl R → RuleLiteral R → Result Exception StoredRelation
  external_relation kb l = do
    mod_id ← or_throw Exception.invalid_input (query_id string_eq kb.module_name_pool (module_of l))
    rel_id ←
        or_throw Exception.invalid_input
          (query_id symbol_eq kb.rel_sym_pool (mod_id, l.literal.predicate_symbol))
    relation_at Exception.past_end kb rel_id

  -- `checkRuleLiteral` of a literal of another module.
  unfoldable pub check_external_literal :
      KnowledgeBaseImpl R → RuleLiteral R → VarDiff → Result Exception VarDiff
  unfolding external_relation check_domains_terms calc_var_diff
  check_external_literal kb l m = do
    r ← external_relation kb l
    fits ← check_domains_terms r.col_domains l.literal.terms
    calc_var_diff l.literal.terms r.col_domains m (not (is_unsafe_literal l))

  unfoldable pub check_rule_literal :
      KnowledgeBaseImpl R → List RelationDef → RuleLiteral R → VarDiff → Result Exception VarDiff
  unfolding check_own_literal check_external_literal
  check_rule_literal kb defs l m =
      if not (is_external l) then check_own_literal defs l m else check_external_literal kb l m

  -- The first loop over a body in `checkRule`.
  unfoldable pub check_literals :
      KnowledgeBaseImpl R
      → List RelationDef
      → List (RuleLiteral R)
      → VarDiff
      → Result Exception VarDiff
  unfolding check_rule_literal
  check_literals kb defs [] m = ok m
  check_literals kb defs (l ∷ body) m =
      check_rule_literal kb defs l m >>= check_literals kb defs body

  -- The second loop.
  unfoldable pub check_functions : List (RuleLiteral R) → VarDiff → Result Exception Unit
  unfolding check_function
  check_functions [] m = ok tt
  check_functions (l ∷ body) m = check_function l m >>= λ checked. check_functions body m

  -- The loop over the disjuncts.
  unfoldable pub check_disjuncts :
      KnowledgeBaseImpl R
      → List RelationDef
      → List (RuleDisjunct R)
      → VarDiff
      → Result Exception Unit
  unfolding check_literals check_functions all_vars_satisfied
  check_disjuncts kb defs [] m = ok tt
  check_disjuncts kb defs (d ∷ disjuncts) m = check_literals kb defs d.body m >>= λ m'.
      check_functions d.body m' >>= λ checked.
      if all_vars_satisfied m'
      then check_disjuncts kb defs disjuncts m'
      else err Exception.invalid_input

  unfoldable pub check_rule :
      KnowledgeBaseImpl R → List RelationDef → Rule R → Result Exception Unit
  unfolding find_def calc_var_diff check_literal check_disjuncts
  check_rule kb defs rule = elim (find_def defs rule.head.predicate_symbol) [
    | none ↦ err Exception.invalid_input
    | some d ↦ calc_var_diff rule.head.terms d.types [] false >>= λ m.
        check_literal defs rule.head >>= λ found. check_disjuncts kb defs rule.disjuncts m
  ]

  check_rules : KnowledgeBaseImpl R → List RelationDef → List (Rule R) → Result Exception Unit
  unfolding check_rule
  check_rules kb defs [] = ok tt
  check_rules kb defs (rule ∷ rules) =
      check_rule kb defs rule >>= λ checked. check_rules kb defs rules

  check_facts : List RelationDef → List (Literal R) → Result Exception Unit
  unfolding check_fact
  check_facts defs [] = ok tt
  check_facts defs (fact ∷ facts) = check_fact defs fact >>= λ checked. check_facts defs facts

  unfoldable pub validate_module : KnowledgeBaseImpl R → Module R → Result Exception Unit
  unfolding make_rel_def_map check_rules check_facts
  validate_module kb m =
      if exists string_eq kb.module_name_pool m.name
      then err Exception.invalid_input
      else make_rel_def_map [] m.relations >>= λ defs.
          check_rules kb defs m.rules >>= λ checked. check_facts defs m.facts
