-- ===== src/Store/Types.antt =====
-- `makeTypeMap` of src/KnowledgeBase.cc and what `convertRuleFunction` takes from it: the types of the variables
-- of a disjunct, from the columns of the relations that its literals name.
use fovris.Prelude.{ℕ, suc, if◌then◌else◌, List, [], ◌∷◌, Option, none, some, Result, ok, ◌>>=◌}
use fovris.Kb.Function.{TermType}
use fovris.Interning.Pool.{get_elem?}
use fovris.Interning.Term.{Term, var, get_type, String, string_eq}
use fovris.Api.{Exception, RuleLiteral, is_external, is_function}
use fovris.Store.{KnowledgeBaseImpl, or_throw, relation_at, query_module_id, query_relation_id}
use fovris.Store.Rules.{module_of}

abbrev pub TypeMap : Type 0
TypeMap = List (String × TermType)

unfoldable pub find_type : TypeMap → String → Option TermType
find_type [] x = none
find_type ((y, type) ∷ m) x = if string_eq y x then some type else find_type m x

-- `typeMap.insert`, which keeps an entry that is there.
abbrev insert_type : TypeMap → String → TermType → TypeMap
insert_type m x type = elim (find_type m x) [ none ↦ (x, type) ∷ m | some other ↦ m ]

module _ {R : Type 0} where
  -- `queryTermType`
  abbrev pub query_term_type : KnowledgeBaseImpl R → ℕ → ℕ → Result Exception TermType
  query_term_type kb rel_id idx = relation_at Exception.past_end kb rel_id >>= λ r.
      or_throw Exception.past_end (get_elem? r.col_domains idx)

  -- The loop of `makeTypeMap` over the terms of a literal, from position `idx`.
  unfoldable pub add_term_types :
      KnowledgeBaseImpl R → ℕ → String → List (Term R) → ℕ → TypeMap → Result Exception TypeMap
  unfolding query_relation_id find_type
  add_term_types kb mod_id rel [] idx m = ok m
  add_term_types kb mod_id rel (var x ∷ terms) idx m = query_relation_id kb mod_id rel >>= λ rel_id.
      query_term_type kb rel_id idx >>= λ type.
      add_term_types kb mod_id rel terms (suc idx) (insert_type m x type)
  add_term_types kb mod_id rel (_ ∷ terms) idx m = add_term_types kb mod_id rel terms (suc idx) m

  -- The module of a literal of a rule of the module `mod_id`.
  unfoldable pub literal_module : KnowledgeBaseImpl R → ℕ → RuleLiteral R → Result Exception ℕ
  unfolding query_module_id
  literal_module kb mod_id l = if is_external l then query_module_id kb (module_of l) else ok mod_id

  -- `makeTypeMap`, from the literal at hand.
  unfoldable pub make_type_map :
      KnowledgeBaseImpl R → ℕ → List (RuleLiteral R) → TypeMap → Result Exception TypeMap
  unfolding literal_module add_term_types
  make_type_map kb mod_id [] m = ok m
  make_type_map kb mod_id (l ∷ body) m =
      (if is_function l
        then ok m
        else (literal_module kb mod_id l >>= λ id.
            add_term_types kb id l.literal.predicate_symbol l.literal.terms 0 m))
      >>= make_type_map kb mod_id body

  -- The type that `convertRuleFunction` appends for a term.
  unfoldable pub function_term_type : TypeMap → Term R → Result Exception TermType
  unfolding find_type
  function_term_type m (var x) = or_throw Exception.assertion_failed (find_type m x)
  function_term_type m t = ok (get_type t)

  unfoldable pub function_term_types : TypeMap → List (Term R) → Result Exception (List TermType)
  unfolding function_term_type
  function_term_types m [] = ok []
  function_term_types m (t ∷ terms) =
      let rest = function_term_types m terms in
      function_term_type m t >>= λ first. rest >>= λ others. ok (first ∷ others)
