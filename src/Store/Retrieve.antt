-- ===== src/Store/Retrieve.antt =====
-- What src/KnowledgeBase.cc gives back: modules, relations, facts and rules in the forms of the interface,
-- and queries with their variables numbered.
pub mod Facts
pub mod Queries
use fovris.Prelude.{
  ℕ, suc, ◌==◌, ◌||◌, not, if◌then◌else◌, any, Bool, true, false, List, [], ◌∷◌, ◌++◌, map, length,
  Option, none, some, Result, ok, err, ◌>>=◌,
}
use fovris.Truth.{TruthValue, same}
use fovris.Truth.Set.{TruthValueSet, test, get_set}
use fovris.Kb.Term.{KbTerm, Terms}
use fovris.Kb.Tuple.{KbTuple}
use fovris.Kb.Literal.{KbLiteral}
use fovris.Kb.Function.{TermType}
use fovris.Kb.Rule.{KbHeadLiteral, KbRuleDisjunct, KbRule}
use fovris.Interning.Pool.{get, get_elem?}
use fovris.Interning.Term.{Term, var, String, string_eq}
use fovris.Interning.Mapper.{TermMapper, query_term, query_term_id}
use fovris.Api.{
  Exception, PredicateFunction, Literal, RuleLiteral, RuleDisjunct, Rule, RelationDef, Module,
  Query, ground_literal, rule_literal, external_literal,
}
use fovris.Store.{
  StoredRelation, StoredModule, KnowledgeBaseImpl, or_throw, relation_at, query_module_id,
  query_relation_id,
}
use fovris.Store.Checks.{check_domains_terms}

-- What each element gives, where none throws.
abbrev pub try_map : {A B : Type 0} → (A → Result Exception B) → List A → Result Exception (List B)
try_map f [] = ok []
try_map f (x ∷ xs) = f x >>= λ y. try_map f xs >>= λ ys. ok (y ∷ ys)

concat : {A : Type 0} → List (List A) → List A
concat [] = []
concat (x ∷ xs) = x ++ concat xs

-- The map from variables to their numbers in a query.
unfoldable pub find_number : List (String × ℕ) → String → Option ℕ
find_number [] x = none
find_number ((y, n) ∷ m) x = if string_eq y x then some n else find_number m x

module _ {R : Type 0} where
  -- The loops over the terms of a fact or a literal: `types[i]`, and `queryTerm`.
  unfoldable pub query_terms :
      TermMapper R → List ℕ → List TermType → Result Exception (List (Term R))
  unfolding query_term
  query_terms m [] types = ok []
  query_terms m (i ∷ terms) [] = err Exception.past_end
  query_terms m (i ∷ terms) (type ∷ types) =
      let rest = query_terms m terms types in
      or_throw Exception.out_of_range (query_term m i type) >>= λ t. rest >>= λ ts. ok (t ∷ ts)

  -- `retrieveGroundLiteral`
  unfoldable pub retrieve_ground_literal :
      TermMapper R → KbTuple → String → List TermType → Result Exception (Literal R)
  unfolding query_terms ground_literal
  retrieve_ground_literal m tuple rel_name types = query_terms m tuple.terms types >>= λ terms.
      ground_literal (not (same tuple.value TruthValue.false)) rel_name terms

  -- `makeResultFact`: the terms and the value of the fact.
  unfoldable pub make_result_fact :
      TermMapper R
      → Terms
      → TruthValue
      → List TermType
      → Result Exception (List (Term R) × TruthValue)
  unfolding query_terms
  make_result_fact m tuple value types = query_terms m tuple types >>= λ terms. ok (terms, value)

  -- `relSymPool_.get(relId).second`
  abbrev pub relation_name : KnowledgeBaseImpl R → ℕ → Result Exception String
  relation_name kb rel_id =
      or_throw Exception.out_of_range (get kb.rel_sym_pool rel_id) >>= λ symbol. ok symbol.1

  -- `retrieveRelation`, of the relation with the id.
  unfoldable pub retrieve_relation_facts :
      KnowledgeBaseImpl R → ℕ → Result Exception (List (Literal R))
  unfolding retrieve_ground_literal
  retrieve_relation_facts kb rel_id = do
    r ← relation_at Exception.out_of_range kb rel_id
    name ← relation_name kb rel_id
    try_map (λ fact. retrieve_ground_literal kb.term_mapper fact name r.col_domains) r.content.facts

  unfoldable pub retrieve_relation :
      KnowledgeBaseImpl R → String → String → Result Exception (List (Literal R))
  unfolding query_module_id query_relation_id retrieve_relation_facts
  retrieve_relation kb module_name relation_name = do
    mod_id ← query_module_id kb module_name
    rel_id ← query_relation_id kb mod_id relation_name
    retrieve_relation_facts kb rel_id

  abbrev pub list_modules : KnowledgeBaseImpl R → List String
  list_modules kb = map (λ m. m.name) kb.modules

  -- `relations_[relId]` as a definition.
  unfoldable pub relation_def_at : KnowledgeBaseImpl R → ℕ → Result Exception RelationDef
  relation_def_at kb rel_id = do
    r ← relation_at Exception.past_end kb rel_id
    name ← relation_name kb rel_id
    ok (record { predicate_symbol = name; types = r.col_domains })

  -- `queryModuleId`, and `modules_[modId]`.
  unfoldable pub find_module : KnowledgeBaseImpl R → String → Result Exception (StoredModule R)
  unfolding query_module_id get_elem?
  find_module kb name = query_module_id kb name >>= λ mod_id.
      or_throw Exception.past_end (get_elem? kb.modules mod_id)

  unfoldable pub list_relations : KnowledgeBaseImpl R → String → Result Exception (List RelationDef)
  unfolding find_module relation_def_at
  list_relations kb name = find_module kb name >>= λ m. try_map (relation_def_at kb) m.relation_ids

  unfoldable pub get_relation_def :
      KnowledgeBaseImpl R → String → String → Result Exception RelationDef
  unfolding query_module_id query_relation_id
  get_relation_def kb name rel = do
    mod_id ← query_module_id kb name
    rel_id ← query_relation_id kb mod_id rel
    r ← relation_at Exception.past_end kb rel_id
    ok (record { predicate_symbol = rel; types = r.col_domains })

  unfoldable pub convert_kb_head_literal :
      KnowledgeBaseImpl R → KbHeadLiteral → Result Exception (Literal R)
  unfolding relation_def_at query_terms
  convert_kb_head_literal kb l = do
    d ← relation_def_at kb l.rel_id
    terms ← query_terms kb.term_mapper (map (λ t. t.val) l.terms) d.types
    ok (record { is_true = not l.negated; predicate_symbol = d.predicate_symbol; terms = terms })

  -- The literal of another module, with the values of its constraint.
  unfoldable pub external_kb_literal :
      String → String → List (Term R) → TruthValueSet → Result Exception (RuleLiteral R)
  unfolding external_literal test get_set
  external_kb_literal name rel_name terms logic_set = elim (get_set logic_set) [
    | [] ↦ err Exception.past_end
    | v ∷ values ↦ ok (
        if length (v ∷ values) == 1 || same v TruthValue.false || same v TruthValue.true
        then external_literal (not (test logic_set TruthValue.false)) name rel_name terms []
        else external_literal true name rel_name terms (v ∷ values))
  ]

module _ {R : Type 0} (builtin : String → Option (PredicateFunction R)) where
  unfoldable pub convert_kb_rule_literal :
      KnowledgeBaseImpl R → KbLiteral → StoredModule R → Result Exception (RuleLiteral R)
  unfolding relation_def_at query_terms rule_literal external_kb_literal test
  convert_kb_rule_literal kb l m = do
    d ← relation_def_at kb l.rel_id
    terms ← query_terms kb.term_mapper (map (λ t. t.val) l.terms) d.types
    let own =
        rule_literal builtin (not (test l.logic_set TruthValue.false)) d.predicate_symbol terms
    let other = external_kb_literal m.name d.predicate_symbol terms l.logic_set
    if any (λ id. id == l.rel_id) m.relation_ids then ok own else other

  unfoldable pub convert_kb_rule :
      KnowledgeBaseImpl R → KbRule (Term R) → StoredModule R → Result Exception (Rule R)
  unfolding convert_kb_rule_literal convert_kb_head_literal
  convert_kb_rule kb rule m = do
    disjuncts ←
        try_map
          (λ d. try_map (λ l. convert_kb_rule_literal kb l m) d.body >>= λ body.
            ok (record { body = body }))
          rule.disjuncts
    head ← convert_kb_head_literal kb rule.head
    ok (record { head = head; disjuncts = disjuncts })

  unfoldable pub retrieve_module : KnowledgeBaseImpl R → String → Result Exception (Module R)
  unfolding find_module relation_def_at retrieve_relation_facts convert_kb_rule concat
  retrieve_module kb name = do
    m ← find_module kb name
    relations ← try_map (relation_def_at kb) m.relation_ids
    facts ← try_map (retrieve_relation_facts kb) m.relation_ids
    rules ← try_map (λ rule. convert_kb_rule kb rule m) m.rules
    ok (record { name = name; relations = relations; rules = rules; facts = concat facts })

module _ {R : Type 0} (real_eq : R → R → Bool) where
  -- The loop of `convertQuery`, with the numbers given to variables and the next number.
  unfoldable pub convert_query_terms :
      TermMapper R → List (Term R) → List (String × ℕ) → ℕ → Result Exception (List KbTerm)
  unfolding find_number query_term_id
  convert_query_terms mapper [] m next = ok []
  convert_query_terms mapper (var x ∷ terms) m next = elim (find_number m x) [
    | some n ↦ convert_query_terms mapper terms m next >>= λ rest.
        ok (record { val = n; is_var = true } ∷ rest)
    | none ↦ convert_query_terms mapper terms ((x, next) ∷ m) (suc next) >>= λ rest.
        ok (record { val = next; is_var = true } ∷ rest)
  ]
  convert_query_terms mapper (t ∷ terms) m next =
      or_throw Exception.invalid_input (query_term_id real_eq mapper t) >>= λ i.
      convert_query_terms mapper terms m next >>= λ rest.
      ok (record { val = i; is_var = false } ∷ rest)

  -- `convertQuery`: the relation, and the terms of the query.
  unfoldable pub convert_query : KnowledgeBaseImpl R → Query R → Result Exception (ℕ × List KbTerm)
  unfolding query_module_id query_relation_id check_domains_terms convert_query_terms
  convert_query kb q = do
    mod_id ← query_module_id kb q.module_symbol
    rel_id ← query_relation_id kb mod_id q.predicate_symbol
    r ← relation_at Exception.past_end kb rel_id
    fits ← check_domains_terms r.col_domains q.terms
    terms ← convert_query_terms kb.term_mapper q.terms [] 0
    ok (rel_id, terms)
