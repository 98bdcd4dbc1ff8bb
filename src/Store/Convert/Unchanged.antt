-- ===== src/Store/Convert/Unchanged.antt =====
-- The conversions of src/KnowledgeBase.cc change nothing of the knowledge base but the terms.
use fovris.Prelude.{
  ℕ, Bool, not, if◌then◌else◌, List, [], ◌∷◌, ◌++◌, Option, none, some, length, Bool-cases, inl,
  inr,
}
use fovris.Truth.{TruthValue}
use fovris.Kb.Function.{rule_function}
use fovris.Kb.Rule.{head_literal}
use fovris.Interning.Term.{Term}
use fovris.Eval.LiteralOrder.{SortLiterals}
use fovris.Api.{PredicateFunction, is_var, RuleLiteral, RuleDisjunct, Literal, Rule}
use fovris.Store.{query_relation_id}
use fovris.Store.Types.{TypeMap, literal_module, function_term_types, make_type_map}
use fovris.Store.Convert.{
  convert_terms, convert_ground_term, convert_ground_terms, convert_literal, convert_ground_literal,
  convert_rule_literal, convert_rule_function, convert_body_literal, convert_body,
  convert_disjuncts, convert_rule, make_logic_set, value_initialised,
}
use fovris.Store.Invariant.{Preserves, ◌⟫◌, reads_then, returns}

module _ {R : Type 0} (real_eq : R → R → Bool) where
  convert_terms-Preserves : (terms : List (Term R)) → Preserves (convert_terms real_eq terms)
  convert_terms-Preserves terms = record { leads = λ kb h. h }

  convert_ground_term-Preserves : (t : Term R) → Preserves (convert_ground_term real_eq t)
  unfolding convert_ground_term
  convert_ground_term-Preserves t = record {
    leads = λ kb h. elim (Bool-cases (is_var t)) [
      | inl variable ↦ rw variable h
      | inr constant ↦ rw constant h
    ];
  }

  convert_ground_terms-Preserves :
      (terms : List (Term R)) → Preserves (convert_ground_terms real_eq terms)
  unfolding convert_ground_terms
  convert_ground_terms-Preserves [] = returns
  convert_ground_terms-Preserves (t ∷ terms) =
      convert_ground_term-Preserves t ⟫ λ i. convert_ground_terms-Preserves terms ⟫ λ rest. returns

  pub convert_ground_literal-Preserves :
      (mod_id : ℕ) (fact : Literal R) → Preserves (convert_ground_literal real_eq mod_id fact)
  unfolding convert_ground_literal
  convert_ground_literal-Preserves mod_id fact =
      reads_then (λ kb. query_relation_id kb mod_id fact.predicate_symbol)
        λ rel_id. convert_ground_terms-Preserves fact.terms ⟫ λ terms.
          returns
            {a = record {
              rel_id = rel_id;
              tuple = record {
                terms = terms;
                value = if fact.is_true then TruthValue.true else TruthValue.false;
              };
            }}

  convert_rule_literal-Preserves :
      (mod_id : ℕ) (l : RuleLiteral R) → Preserves (convert_rule_literal real_eq mod_id l)
  unfolding convert_rule_literal
  convert_rule_literal-Preserves mod_id l =
      reads_then (λ kb. literal_module kb mod_id l)
        λ id.
          reads_then (λ kb. query_relation_id kb id l.literal.predicate_symbol)
            λ rel_id. convert_terms-Preserves l.literal.terms ⟫ λ terms.
              returns
                {a = record {
                  rel_id = rel_id;
                  terms = terms;
                  logic_set = make_logic_set (not l.literal.is_true) l.logic_constraint;
                }}

  convert_rule_function-Preserves :
      (f : PredicateFunction R) (l : RuleLiteral R) (m : TypeMap)
      → Preserves (convert_rule_function real_eq f l m)
  unfolding convert_rule_function
  convert_rule_function-Preserves f l m = convert_terms-Preserves l.literal.terms ⟫ λ terms.
      reads_then (λ kb. function_term_types m l.literal.terms)
        λ types.
          returns
            {a = rule_function l.literal.is_true f terms
              (value_initialised (length l.literal.terms) ++ types)}

  convert_body_literal-Preserves :
      (mod_id : ℕ) (m : TypeMap) (l : RuleLiteral R) (f : Option (PredicateFunction R))
      → Preserves (convert_body_literal real_eq mod_id m l f)
  unfolding convert_body_literal
  convert_body_literal-Preserves mod_id m l none =
      convert_rule_literal-Preserves mod_id l ⟫ λ converted.
      returns {a = λ rest. record rest { body = converted ∷ rest.body }}
  convert_body_literal-Preserves mod_id m l (some f) =
      convert_rule_function-Preserves f l m ⟫ λ converted.
      returns {a = λ rest. record rest { functions = converted ∷ rest.functions }}

  convert_body-Preserves :
      (mod_id : ℕ) (m : TypeMap) (body : List (RuleLiteral R))
      → Preserves (convert_body real_eq mod_id m body)
  unfolding convert_body
  convert_body-Preserves mod_id m [] = returns
  convert_body-Preserves mod_id m (l ∷ body) =
      convert_body_literal-Preserves mod_id m l l.predicate_function ⟫ λ add.
      convert_body-Preserves mod_id m body ⟫ λ rest. returns

  convert_literal-Preserves :
      (mod_id : ℕ) (l : Literal R) → Preserves (convert_literal real_eq mod_id l)
  unfolding convert_literal
  convert_literal-Preserves mod_id l =
      reads_then (λ kb. query_relation_id kb mod_id l.predicate_symbol)
        λ rel_id. convert_terms-Preserves l.terms ⟫ λ terms.
          returns {a = head_literal l.is_true rel_id terms}

module _ {R : Type 0} (real_eq : R → R → Bool) (sort : SortLiterals) where
  convert_disjuncts-Preserves :
      (mod_id : ℕ) (disjuncts : List (RuleDisjunct R))
      → Preserves (convert_disjuncts real_eq sort mod_id disjuncts)
  unfolding convert_disjuncts
  convert_disjuncts-Preserves mod_id [] = returns
  convert_disjuncts-Preserves mod_id (d ∷ disjuncts) =
      reads_then (λ kb. make_type_map kb mod_id d.body [])
        λ m. convert_body-Preserves real_eq mod_id m d.body ⟫ λ converted.
          convert_disjuncts-Preserves mod_id disjuncts ⟫ λ rest. returns

  pub convert_rule-Preserves :
      (mod_id : ℕ) (rule : Rule R) → Preserves (convert_rule real_eq sort mod_id rule)
  unfolding convert_rule
  convert_rule-Preserves mod_id rule =
      convert_disjuncts-Preserves mod_id rule.disjuncts ⟫ λ disjuncts.
      convert_literal-Preserves real_eq mod_id rule.head ⟫ λ head.
      returns {a = record { head = head; disjuncts = disjuncts }}
