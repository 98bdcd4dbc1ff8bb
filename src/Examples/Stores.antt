-- ===== src/Examples/Stores.antt =====
-- Runs of the theorems on the knowledge base.
use fovris.Prelude.{
  ℕ, ◌==◌, ◌≡◌, refl, Bool, true, false, List, [], ◌∷◌, Option, none, some, get_or, ok, err, arith,
}
use fovris.Truth.{TruthValue, negation}
use fovris.Truth.Set.{test, is_empty, empty}
use fovris.Kb.Term.{KbTerm}
use fovris.Kb.Literal.{KbLiteral}
use fovris.Kb.Function.{TermType, KbRuleFunction}
use fovris.Interning.Pool.{empty_pool, get_elem?, find_id, query_id, insert}
use fovris.Interning.Pool.Laws.{numbered}
use fovris.Interning.Term.{string_eq, Term, string, var, String}
use fovris.Interning.Mapper.{TermMapper}
use fovris.Interning.Mapper.RoundTrip.{IsMapper}
use fovris.Eval.LiteralOrder.{SortLiterals}
use fovris.Api.{
  Exception, Literal, RuleLiteral, Rule, RelationDef, Module, Query, function_literal,
  external_literal, has_no_vars,
}
use fovris.Store.{
  StoredRelation, KnowledgeBaseImpl, new_relation, new_knowledge_base, query_relation_id, symbol_eq,
}
use fovris.Store.Checks.{check_domains_terms, find_def}
use fovris.Store.Checks.Variables.{occurrences, push}
use fovris.Store.Rules.{check_rule, validate_module}
use fovris.Store.Rules.Safety.{AreSafe, check_rule-IsSafe}
use fovris.Store.Rules.Typing.{IsTyped, Fits, check_rule-IsTyped}
use fovris.Store.Invariant.{IsKnowledgeBase}
use fovris.Store.Convert.{
  KbGroundLiteral, convert_rule_literal, convert_rule_function, convert_ground_literal,
}
use fovris.Store.Convert.Literals.{
  convert_rule_literal-negated_external, convert_rule_function-integers,
}
use fovris.Store.Modules.{add_module}
use fovris.Store.Modules.Invariant.{add_module-IsKnowledgeBase, query_relation_id-relation}
use fovris.Store.Retrieve.{retrieve_ground_literal, convert_query}
use fovris.Store.Retrieve.Facts.{AreSame, retrieve_ground_literal-convert_ground_literal}
use fovris.Store.Retrieve.Queries.{IsNumbered, convert_query-IsNumbered}

-- The names of the module `m`, the relations `p` and `q`, and the variable `X`; the string "ab".
abbrev m : String
m = 109 ∷ []

abbrev p : String
p = 112 ∷ []

abbrev q : String
q = 113 ∷ []

abbrev x : Term ℕ
x = var (88 ∷ [])

abbrev ab : Term ℕ
ab = string (97 ∷ 98 ∷ [])

abbrev p_def : RelationDef
p_def = record { predicate_symbol = p; types = TermType.string ∷ [] }

abbrev q_def : RelationDef
q_def = record { predicate_symbol = q; types = TermType.string ∷ [] }

abbrev atom : String → Term ℕ → Literal ℕ
atom name t = record { is_true = true; predicate_symbol = name; terms = t ∷ [] }

-- `p(t)` in a body.
abbrev own : Term ℕ → RuleLiteral ℕ
own t = record {
  literal = atom p t;
  predicate_function = none;
  is_builtin_function = false;
  external_module = none;
  logic_constraint = empty;
}

-- `q(X) :- p(X).`
abbrev copy_rule : Rule ℕ
copy_rule = record { head = atom q x; disjuncts = record { body = own x ∷ [] } ∷ [] }

abbrev copy_module : Module ℕ
copy_module = record {
  name = m;
  relations = p_def ∷ q_def ∷ [];
  rules = copy_rule ∷ [];
  facts = atom p ab ∷ [];
}

abbrev unsorted : SortLiterals
unsorted less l = l

abbrev new_mapper : TermMapper ℕ
new_mapper = record {
  dbl_term_pool = empty_pool;
  date_term_pool = empty_pool;
  date_time_term_pool = empty_pool;
  str_term_pool = empty_pool;
}

-- The module `m` with the relation `p`.
abbrev kb : KnowledgeBaseImpl ℕ
kb = record {
  relations = new_relation (TermType.string ∷ []) ∷ [];
  modules = [];
  module_name_pool = record { storage = m ∷ []; storage_id_map = (m, 0) ∷ []; id_counter = 1 };
  rel_sym_pool = record {
    storage = (0, p) ∷ [];
    storage_id_map = ((0, p), 0) ∷ [];
    id_counter = 1;
  };
  term_mapper = new_mapper;
}

kb-IsKnowledgeBase : IsKnowledgeBase kb
unfolding numbered
kb-IsKnowledgeBase = ((refl, refl), (refl, refl), refl)

abbrev defs : List RelationDef
defs = q_def ∷ p_def ∷ []

copy_rule-accepted : check_rule kb defs copy_rule ≡ ok tt
unfolding check_rule is_empty
copy_rule-accepted = refl

check_rule-IsSafe_example :
    (d : RelationDef) × (find_def defs q ≡ some d)
    × AreSafe kb defs copy_rule.disjuncts (push (occurrences (x ∷ []) d.types false) [])
check_rule-IsSafe_example = check_rule-IsSafe kb defs copy_rule copy_rule-accepted

check_rule-IsTyped_example :
    ((d : RelationDef) × (find_def defs q ≡ some d) × Fits d.types (x ∷ []))
    × ((IsTyped kb defs (own x) × Unit {0}) × Unit {0})
check_rule-IsTyped_example = check_rule-IsTyped kb defs copy_rule copy_rule-accepted

new-IsKnowledgeBase : IsKnowledgeBase {R = ℕ} new_knowledge_base
unfolding numbered
new-IsKnowledgeBase = ((refl, refl), (refl, refl), refl)

add_module-IsKnowledgeBase_example :
    IsKnowledgeBase (add_module ◌==◌ unsorted copy_module new_knowledge_base).1
add_module-IsKnowledgeBase_example =
    add_module-IsKnowledgeBase ◌==◌ unsorted copy_module new_knowledge_base (omega arith)
      (omega arith) new-IsKnowledgeBase

p-found : query_relation_id kb 0 p ≡ ok 0
unfolding query_relation_id find_id
p-found = refl

query_relation_id-relation_example : (r : StoredRelation) × (get_elem? kb.relations 0 ≡ some r)
query_relation_id-relation_example = query_relation_id-relation kb 0 p 0 kb-IsKnowledgeBase p-found

new_mapper-IsMapper : IsMapper new_mapper
unfolding numbered
new_mapper-IsMapper = ((refl, refl), (refl, refl), (refl, refl), (refl, refl))

ab-ground : has_no_vars (ab ∷ []) ≡ true
unfolding has_no_vars
ab-ground = refl

-- The fact p("ab").
retrieve_ground_literal-convert_ground_literal_example :
    let (r, kb') = convert_ground_literal ◌==◌ 0 (atom p ab) kb in
    (g : KbGroundLiteral) × (r ≡ ok g)
    × (g.rel_id ≡ 0)
    × ((us : List (Term ℕ)) × (retrieve_ground_literal kb'.term_mapper g.tuple p
            (TermType.string ∷ [])
          ≡ ok (record { is_true = true; predicate_symbol = p; terms = us }))
        × AreSame ◌==◌ us (ab ∷ []))
retrieve_ground_literal-convert_ground_literal_example =
    retrieve_ground_literal-convert_ground_literal ◌==◌ 0 0 (atom p ab) kb new_mapper-IsMapper
      (omega arith, tt) (tt, tt) ab-ground p-found

-- The query m.p(X).
abbrev query : Query ℕ
query = record { module_symbol = m; predicate_symbol = p; terms = x ∷ [] }

abbrev query_terms : List KbTerm
query_terms = record { val = 0; is_var = true } ∷ []

convert_query-IsNumbered_example :
    ((mod_id : ℕ) × (query_id string_eq kb.module_name_pool m ≡ some mod_id)
      × (query_id symbol_eq kb.rel_sym_pool (mod_id, p) ≡ some 0))
    × ((r : StoredRelation) × (get_elem? kb.relations 0 ≡ some r)
        × (check_domains_terms r.col_domains (x ∷ []) ≡ ok tt))
    × ((number : String → Option ℕ) × ((y z : String) (n : ℕ)
          → number y ≡ some n
          → number z ≡ some n
          → y ≡ z)
        × IsNumbered ◌==◌ new_mapper number (x ∷ []) query_terms)
unfolding convert_query find_id get_elem?
convert_query-IsNumbered_example = convert_query-IsNumbered ◌==◌ kb query 0 query_terms refl

-- The literal !m.p("ab").
abbrev negated : KbLiteral
negated = record {
  rel_id = 0;
  terms = record { val = 0; is_var = false } ∷ [];
  logic_set = record { has_false = true; has_unknown = true; has_incons = true; has_true = true };
}

convert_rule_literal-negated_external_example : test negated.logic_set TruthValue.true ≡ true
unfolding convert_rule_literal external_literal find_id insert negation
convert_rule_literal-negated_external_example =
    convert_rule_literal-negated_external ◌==◌ 0 m p (ab ∷ []) [] kb negated refl refl
      TruthValue.true

-- A function of the string "ab".
abbrev function : List (Term ℕ) → Bool
function ts = true

abbrev of_ab : KbRuleFunction (Term ℕ)
of_ab = record {
  predicate = function;
  terms = record { val = 0; is_var = false } ∷ [];
  term_types = TermType.integer ∷ TermType.string ∷ [];
}

convert_rule_function-integers_example :
    get_or of_ab.term_types 0 TermType.string ≡ TermType.integer
unfolding convert_rule_function insert find_id
convert_rule_function-integers_example =
    convert_rule_function-integers ◌==◌ function (function_literal true q function (ab ∷ [])) [] kb
      of_ab 0 TermType.string refl (omega arith)

-- `q(X) :- p(X), f(Y).` is accepted, and the variable of the function has no type when it is converted.
abbrev unbound_module : Module ℕ
unbound_module = record copy_module {
  rules =
      record {
        head = atom q x;
        disjuncts =
            record {
              body = own x ∷ function_literal true (102 ∷ []) function (var (89 ∷ []) ∷ []) ∷ [];
            }
            ∷ [];
      }
      ∷ [];
}

unbound_module-accepted : validate_module {R = ℕ} new_knowledge_base unbound_module ≡ ok tt
unfolding validate_module is_empty find_id
unbound_module-accepted = refl

unbound_module-fails :
    (add_module ◌==◌ unsorted unbound_module new_knowledge_base).0 ≡ err Exception.assertion_failed
unfolding add_module is_empty find_id insert get_elem?
unbound_module-fails = refl

-- `q(X) :- p(X) | p("ab").` is accepted, although the second disjunct does not bind the head's variable.
unbound_disjunct :
    check_rule kb defs (record copy_rule {
      disjuncts = record { body = own x ∷ [] } ∷ record { body = own ab ∷ [] } ∷ [];
    })
    ≡ ok tt
unfolding check_rule is_empty
unbound_disjunct = refl

-- The module `m` is added.
copy_module-added : (add_module ◌==◌ unsorted copy_module new_knowledge_base).0 ≡ ok tt
unfolding add_module is_empty find_id insert get_elem?
copy_module-added = refl
