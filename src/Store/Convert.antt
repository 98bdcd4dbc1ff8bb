-- ===== src/Store/Convert.antt =====
-- The conversions of src/KnowledgeBase.cc from the interface to the internal forms: terms are interned, and
-- names of relations become ids. `sort` is `std::sort`, which orders the literals of a disjunct.
pub mod Literals
pub mod Unchanged
use fovris.Prelude.{
  ℕ, zero, suc, ◌==◌, ◌&&◌, not, if◌then◌else◌, Bool, true, false, List, [], ◌∷◌, ◌++◌, Option,
  none, some, length, Result, ok, err,
}
use fovris.Truth.{TruthValue}
use fovris.Truth.Set.{TruthValueSet, of_values, get_negation, is_empty}
use fovris.Kb.Term.{KbTerm, Terms}
use fovris.Kb.Tuple.{KbTuple}
use fovris.Kb.Literal.{KbLiteral}
use fovris.Kb.Function.{TermType, integer, KbRuleFunction, rule_function}
use fovris.Kb.Rule.{KbHeadLiteral, head_literal, KbRuleDisjunct, KbRule}
use fovris.Interning.Pool.{get_elem?}
use fovris.Interning.Term.{Term, var, get_type, String, string_eq}
use fovris.Interning.Mapper.{TermMapper, intern_term}
use fovris.Eval.LiteralOrder.{SortLiterals, make_disjunct}
use fovris.Api.{
  Exception, is_var, PredicateFunction, Literal, RuleLiteral, RuleDisjunct, Rule, is_external,
  is_function,
}
use fovris.Store.{
  KnowledgeBaseImpl, Action, pure, reads, ◌>>=◌, or_throw, relation_at, query_module_id,
  query_relation_id,
}
use fovris.Store.Types.{TypeMap, literal_module, make_type_map, function_term_types}

-- The constraint of an internal literal, from whether the literal is false and its own constraint.
unfoldable pub make_logic_set : Bool → TruthValueSet → TruthValueSet
unfolding of_values is_empty get_negation
make_logic_set is_false logic_set =
    if is_false && is_empty logic_set
    then of_values (TruthValue.false ∷ TruthValue.incons ∷ [])
    else if is_false
    then get_negation logic_set
    else if is_empty logic_set
    then of_values (TruthValue.true ∷ TruthValue.incons ∷ [])
    else logic_set

-- `std::vector<TermType>(n)`, of the first enumerator.
abbrev pub value_initialised : ℕ → List TermType
value_initialised zero = []
value_initialised (suc n) = integer ∷ value_initialised n

pub record KbGroundLiteral : Type 0 where
  pub rel_id : ℕ
  pub tuple : KbTuple

module _ {R : Type 0} (real_eq : R → R → Bool) where
  -- `convertTerm`, of each term in turn.
  unfoldable pub intern_terms : TermMapper R → List (Term R) → TermMapper R × List KbTerm
  unfolding intern_term
  intern_terms m [] = (m, [])
  intern_terms m (t ∷ terms) =
      let (m', i) = intern_term real_eq m t in
      let (m'', rest) = intern_terms m' terms in (m'', record { val = i; is_var = is_var t } ∷ rest)

  abbrev pub convert_terms : List (Term R) → Action R (List KbTerm)
  convert_terms terms kb =
      let (m, converted) = intern_terms kb.term_mapper terms in
      (ok converted, record kb { term_mapper = m })

  -- `convertGroundTerm`
  unfoldable pub convert_ground_term : Term R → Action R ℕ
  unfolding intern_term
  convert_ground_term t kb =
      if is_var t
      then (err Exception.assertion_failed, kb)
      else (let (m, i) = intern_term real_eq kb.term_mapper t in
          (ok i, record kb { term_mapper = m }))

  unfoldable pub convert_ground_terms : List (Term R) → Action R Terms
  unfolding convert_ground_term
  convert_ground_terms [] = pure []
  convert_ground_terms (t ∷ terms) = do
    i ← convert_ground_term t
    rest ← convert_ground_terms terms
    pure (i ∷ rest)

  -- `convertLiteral`
  unfoldable pub convert_literal : ℕ → Literal R → Action R KbHeadLiteral
  unfolding query_relation_id intern_terms
  convert_literal mod_id l = do
    rel_id ← reads (λ kb. query_relation_id kb mod_id l.predicate_symbol)
    terms ← convert_terms l.terms
    pure (head_literal l.is_true rel_id terms)

  unfoldable pub convert_ground_literal : ℕ → Literal R → Action R KbGroundLiteral
  unfolding query_relation_id convert_ground_terms
  convert_ground_literal mod_id l = do
    rel_id ← reads (λ kb. query_relation_id kb mod_id l.predicate_symbol)
    terms ← convert_ground_terms l.terms
    pure (record {
      rel_id = rel_id;
      tuple = record {
        terms = terms;
        value = if l.is_true then TruthValue.true else TruthValue.false;
      };
    })

  -- The terms are interned up to the one whose type is missing; what is interned after it is never used.
  unfoldable pub convert_rule_function :
      PredicateFunction R → RuleLiteral R → TypeMap → Action R (KbRuleFunction (Term R))
  unfolding intern_terms function_term_types rule_function
  convert_rule_function f l type_map = do
    terms ← convert_terms l.literal.terms
    types ← reads (λ kb. function_term_types type_map l.literal.terms)
    pure (
        rule_function l.literal.is_true f terms
          (value_initialised (length l.literal.terms) ++ types))

  unfoldable pub convert_rule_literal : ℕ → RuleLiteral R → Action R KbLiteral
  unfolding literal_module query_relation_id intern_terms make_logic_set
  convert_rule_literal mod_id l = do
    id ← reads (λ kb. literal_module kb mod_id l)
    rel_id ← reads (λ kb. query_relation_id kb id l.literal.predicate_symbol)
    terms ← convert_terms l.literal.terms
    pure (record {
      rel_id = rel_id;
      terms = terms;
      logic_set = make_logic_set (not l.literal.is_true) l.logic_constraint;
    })

  -- The body of the loop of `convertRule` over a body, which appends a literal or a function.
  unfoldable pub convert_body_literal :
      ℕ
      → TypeMap
      → RuleLiteral R
      → Option (PredicateFunction R)
      → Action R (KbRuleDisjunct (Term R) → KbRuleDisjunct (Term R))
  unfolding convert_rule_literal convert_rule_function
  convert_body_literal mod_id m l none = do
    converted ← convert_rule_literal mod_id l
    pure (λ rest. record rest { body = converted ∷ rest.body })
  convert_body_literal mod_id m l (some f) = do
    converted ← convert_rule_function f l m
    pure (λ rest. record rest { functions = converted ∷ rest.functions })

  -- The loop: the literals and the functions of a disjunct.
  unfoldable pub convert_body :
      ℕ → TypeMap → List (RuleLiteral R) → Action R (KbRuleDisjunct (Term R))
  unfolding convert_body_literal
  convert_body mod_id m [] = pure (record { body = []; functions = [] })
  convert_body mod_id m (l ∷ body) = do
    add ← convert_body_literal mod_id m l l.predicate_function
    rest ← convert_body mod_id m body
    pure (add rest)

module _ {R : Type 0} (real_eq : R → R → Bool) (sort : SortLiterals) where
  -- The loop of `convertRule` over the disjuncts.
  unfoldable pub convert_disjuncts :
      ℕ → List (RuleDisjunct R) → Action R (List (KbRuleDisjunct (Term R)))
  unfolding make_type_map convert_body make_disjunct
  convert_disjuncts mod_id [] = pure []
  convert_disjuncts mod_id (d ∷ disjuncts) = do
    m ← reads (λ kb. make_type_map kb mod_id d.body [])
    converted ← convert_body real_eq mod_id m d.body
    rest ← convert_disjuncts mod_id disjuncts
    pure (make_disjunct sort converted.body converted.functions ∷ rest)

  unfoldable pub convert_rule : ℕ → Rule R → Action R (KbRule (Term R))
  unfolding convert_disjuncts convert_literal
  convert_rule mod_id rule = do
    disjuncts ← convert_disjuncts mod_id rule.disjuncts
    head ← convert_literal real_eq mod_id rule.head
    pure (record { head = head; disjuncts = disjuncts })
