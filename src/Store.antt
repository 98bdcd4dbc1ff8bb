-- ===== src/Store.antt =====
-- `KnowledgeBaseImpl` of src/KnowledgeBase.cc: the relations, the modules, and the pools of the names of
-- modules and relations and of terms. What changes it is an `Action`: what was written before an
-- exception stays written.
pub mod Checks
pub mod Rules
pub mod Types
pub mod Invariant
pub mod Convert
pub mod Modules
pub mod Retrieve
use fovris.Prelude.{
  ℕ, ◌==◌, ◌&&◌, if◌then◌else◌, Bool, List, [], ◌∷◌, Option, none, some, Result, ok, err,
}
use fovris.Kb.Function.{TermType}
use fovris.Kb.Rule.{KbRule}
use fovris.Kb.Relation.{KbRelation}
use fovris.Interning.Pool.{DataPool, empty_pool, get_elem?, query_id}
use fovris.Interning.Term.{Term, String, string_eq}
use fovris.Interning.Mapper.{TermMapper}
use fovris.Api.{Exception}

-- A `KBRelation`: its columns, which never change, and its facts and counters. Its id is its position.
pub record StoredRelation : Type 0 where
  pub col_domains : List TermType
  pub content : KbRelation

-- A `KBModule`. Its references to relations are those of its relation ids, since a `deque` does not move
-- what it holds; its derived relations are the heads of its rules.
pub record StoredModule (R : Type 0) : Type 0 where
  pub name : String
  pub id : ℕ
  pub rules : List (KbRule (Term R))
  pub relation_ids : List ℕ

pub record KnowledgeBaseImpl (R : Type 0) : Type 0 where
  pub relations : List StoredRelation
  pub modules : List (StoredModule R)
  pub module_name_pool : DataPool String
  pub rel_sym_pool : DataPool (ℕ × String)
  pub term_mapper : TermMapper R

abbrev pub new_relation : List TermType → StoredRelation
new_relation types = record {
  col_domains = types;
  content = record {
    facts = [];
    edb_facts = [];
    incons_facts_number = 0;
    edb_incons_facts_number = 0;
    finalized = Bool.false;
  };
}

abbrev pub new_knowledge_base : {R : Type 0} → KnowledgeBaseImpl R
new_knowledge_base = record {
  relations = [];
  modules = [];
  module_name_pool = empty_pool;
  rel_sym_pool = empty_pool;
  term_mapper = record {
    dbl_term_pool = empty_pool;
    date_term_pool = empty_pool;
    date_time_term_pool = empty_pool;
    str_term_pool = empty_pool;
  };
}

-- `==` on pairs.
abbrev pub symbol_eq : ℕ × String → ℕ × String → Bool
symbol_eq a b = a.0 == b.0 && string_eq a.1 b.1

-- The value, or the exception that is thrown in place of none.
abbrev pub or_throw : {A : Type 0} → Exception → Option A → Result Exception A
or_throw e none = err e
or_throw e (some a) = ok a

-- A call that may change the knowledge base and may throw.
abbrev pub Action : Type 0 → Type 0 → Type 0
Action R A = KnowledgeBaseImpl R → Result Exception A × KnowledgeBaseImpl R

abbrev pub pure : {R A : Type 0} → A → Action R A
pure a kb = (ok a, kb)

-- A call of a `const` method.
abbrev pub reads : {R A : Type 0} → (KnowledgeBaseImpl R → Result Exception A) → Action R A
reads f kb = (f kb, kb)

infixl 5 ◌>>=◌
abbrev pub ◌>>=◌ : {R A B : Type 0} → Action R A → (A → Action R B) → Action R B
◌>>=◌ m f kb = let (r, kb') = m kb in elim r [ err e ↦ (err e, kb') | ok a ↦ f a kb' ]

module _ {R : Type 0} where
  -- `relations_[relId]`, and `relations_.at(relId)` with its own exception.
  abbrev pub relation_at : Exception → KnowledgeBaseImpl R → ℕ → Result Exception StoredRelation
  relation_at e kb i = or_throw e (get_elem? kb.relations i)

  -- `queryModuleId`
  unfoldable pub query_module_id : KnowledgeBaseImpl R → String → Result Exception ℕ
  query_module_id kb name =
      or_throw Exception.invalid_input (query_id string_eq kb.module_name_pool name)

  -- `queryRelationId`; the message of the exception has the name of the module.
  unfoldable pub query_relation_id : KnowledgeBaseImpl R → ℕ → String → Result Exception ℕ
  query_relation_id kb mod_id rel = elim (query_id symbol_eq kb.rel_sym_pool (mod_id, rel)) [
    | some rel_id ↦ ok rel_id
    | none ↦ elim (get_elem? kb.module_name_pool.storage mod_id) [
      | some name ↦ err Exception.invalid_input
      | none ↦ err Exception.out_of_range
    ]
  ]
