-- ===== src/Store/Modules.antt =====
-- `addModule`, `addRelation`, `addFact` and `addResultToKB` of src/KnowledgeBase.cc: a module is validated, its
-- relations get ids, its rules and facts are converted, and its relations are finalized.
pub mod Invariant
use fovris.Prelude.{
  ℕ, zero, suc, if◌then◌else◌, Bool, List, [], ◌∷◌, ◌++◌, Option, none, some, Result, ok, err,
}
use fovris.Kb.Tuple.{KbTuple}
use fovris.Kb.Relation.{KbRelation, add_tuple, add_edb_tuple, finalize}
use fovris.Kb.Rule.{KbRule}
use fovris.Interning.Pool.{get_elem?, insert}
use fovris.Interning.Term.{Term, String, string_eq}
use fovris.Eval.LiteralOrder.{SortLiterals}
use fovris.Api.{Exception, Literal, Rule, RelationDef, Module}
use fovris.Store.{
  StoredRelation, new_relation, KnowledgeBaseImpl, symbol_eq, Action, pure, reads, ◌>>=◌,
}
use fovris.Store.Rules.{validate_module}
use fovris.Store.Convert.{convert_ground_literal, convert_rule}

-- A change of the relation at a position.
unfoldable pub update_at : List StoredRelation → ℕ → (KbRelation → KbRelation) → List StoredRelation
update_at [] i f = []
update_at (r ∷ relations) zero f = record r { content = f r.content } ∷ relations
update_at (r ∷ relations) (suc i) f = r ∷ update_at relations i f

unfoldable pub add_tuples : KbRelation → List KbTuple → KbRelation
unfolding add_tuple
add_tuples r [] = r
add_tuples r (tuple ∷ new_facts) = add_tuples (add_tuple r tuple).0 new_facts

unfoldable pub finalize_all : List StoredRelation → List ℕ → List StoredRelation
unfolding update_at finalize
finalize_all relations [] = relations
finalize_all relations (id ∷ ids) = finalize_all (update_at relations id finalize) ids

module _ {R : Type 0} where
  -- A method of the relation `relations_[relId]`.
  unfoldable pub on_relation : ℕ → (KbRelation → KbRelation) → Action R Unit
  unfolding update_at get_elem?
  on_relation rel_id f kb = elim (get_elem? kb.relations rel_id) [
    | none ↦ (err Exception.past_end, kb)
    | some r ↦ (ok tt, record kb { relations = update_at kb.relations rel_id f })
  ]

  unfoldable pub add_result_to_kb : List KbTuple → ℕ → Action R Unit
  unfolding on_relation add_tuples
  add_result_to_kb new_facts rel_id = on_relation rel_id (λ r. add_tuples r new_facts)

  -- `moduleNamePool_.insert`
  unfoldable pub insert_module_name : String → Action R ℕ
  unfolding insert
  insert_module_name name kb =
      let (pool, (mod_id, new)) = insert string_eq kb.module_name_pool name in
      (ok mod_id, record kb { module_name_pool = pool })

  unfoldable pub add_relation : ℕ → RelationDef → Action R ℕ
  unfolding insert
  add_relation mod_id def kb =
      let (pool, (rel_id, new)) = insert symbol_eq kb.rel_sym_pool (mod_id, def.predicate_symbol) in
      if new
      then (
        ok rel_id,
        record kb {
          rel_sym_pool = pool;
          relations = kb.relations ++ (new_relation def.types ∷ []);
        },
      )
      else (err Exception.invalid_input, record kb { rel_sym_pool = pool })

  unfoldable pub add_relations : ℕ → List RelationDef → Action R (List ℕ)
  unfolding add_relation
  add_relations mod_id [] = pure []
  add_relations mod_id (def ∷ defs) = do
    rel_id ← add_relation mod_id def
    rel_ids ← add_relations mod_id defs
    pure (rel_id ∷ rel_ids)

  -- The end of `addModule`: the relations are finalized and the module is appended.
  unfoldable pub finish_module : String → ℕ → List (KbRule (Term R)) → List ℕ → Action R Unit
  unfolding finalize_all
  finish_module name mod_id rules relation_ids kb = (
    ok tt,
    record kb {
      relations = finalize_all kb.relations relation_ids;
      modules =
          kb.modules
          ++ (record { name = name; id = mod_id; rules = rules; relation_ids = relation_ids } ∷ []);
    },
  )

module _ {R : Type 0} (real_eq : R → R → Bool) where
  unfoldable pub add_fact : ℕ → Literal R → Action R Unit
  unfolding convert_ground_literal on_relation add_edb_tuple
  add_fact mod_id fact = do
    literal ← convert_ground_literal real_eq mod_id fact
    on_relation literal.rel_id (λ r. add_edb_tuple r literal.tuple)

  unfoldable pub add_facts : ℕ → List (Literal R) → Action R Unit
  unfolding add_fact
  add_facts mod_id [] = pure tt
  add_facts mod_id (fact ∷ facts) = add_fact mod_id fact >>= λ added. add_facts mod_id facts

module _ {R : Type 0} (real_eq : R → R → Bool) (sort : SortLiterals) where
  unfoldable pub convert_rules : ℕ → List (Rule R) → Action R (List (KbRule (Term R)))
  unfolding convert_rule
  convert_rules mod_id [] = pure []
  convert_rules mod_id (rule ∷ rules) = do
    converted ← convert_rule real_eq sort mod_id rule
    rest ← convert_rules mod_id rules
    pure (converted ∷ rest)

  unfoldable pub add_module : Module R → Action R Unit
  unfolding validate_module insert_module_name add_relations convert_rules add_facts finish_module
  add_module m = do
    valid ← reads (λ kb. validate_module kb m)
    mod_id ← insert_module_name m.name
    relation_ids ← add_relations mod_id m.relations
    rules ← convert_rules mod_id m.rules
    facts ← add_facts real_eq mod_id m.facts
    finish_module m.name mod_id rules relation_ids
