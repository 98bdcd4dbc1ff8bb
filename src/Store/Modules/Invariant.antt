-- ===== src/Store/Modules/Invariant.antt =====
-- Adding a module keeps the invariant of the knowledge base, whether or not it throws.
use mathlib.Core.Path.{subst}
use fovris.Prelude.{
  ℕ, zero, suc, ◌<◌, ◌≡◌, refl, sym, ◌∙◌, ap, arith, Bool, List, [], ◌∷◌, some, length,
  Option-cases, inl, inr, ok, ok_inj, not_ok,
}
use fovris.Kb.Relation.{KbRelation, finalize, add_edb_tuple}
use fovris.Kb.Rule.{KbRule}
use fovris.Interning.Pool.{get_elem?, find_id}
use fovris.Interning.Pool.Laws.{
  IsPool, HasRoom, insert-IsPool, insert-old, insert-new, find_id-numbered, length-append,
}
use fovris.Interning.Term.{Term, String, string_eq}
use fovris.Eval.LiteralOrder.{SortLiterals}
use fovris.Api.{Exception, Literal, Rule, RelationDef, Module}
use fovris.Store.{StoredRelation, new_relation, KnowledgeBaseImpl, symbol_eq, query_relation_id}
use fovris.Store.Invariant.{IsKnowledgeBase, HasIds, Leads, seq, Preserves, ◌⟫◌, returns}
use fovris.Store.Convert.Unchanged.{convert_ground_literal-Preserves, convert_rule-Preserves}
use fovris.Store.Modules.{
  update_at, finalize_all, on_relation, insert_module_name, add_relation, add_relations,
  finish_module, add_fact, add_facts, convert_rules, add_module,
}

length-update_at :
    (relations : List StoredRelation) (i : ℕ) (f : KbRelation → KbRelation)
    → length (update_at relations i f) ≡ length relations
unfolding update_at
length-update_at [] i f = refl
length-update_at (r ∷ relations) zero f = refl
length-update_at (r ∷ relations) (suc i) f = ap suc (length-update_at relations i f)

length-finalize_all :
    (relations : List StoredRelation) (ids : List ℕ)
    → length (finalize_all relations ids) ≡ length relations
unfolding finalize_all
length-finalize_all relations [] = refl
length-finalize_all relations (id ∷ ids) =
    length-finalize_all (update_at relations id finalize) ids
    ∙ length-update_at relations id finalize

get_elem?-defined :
    {A : Type 0} (xs : List A) (i : ℕ) → i < length xs → (x : A) × (get_elem? xs i ≡ some x)
unfolding get_elem?
get_elem?-defined [] i h = absurd (omega (arith, h))
get_elem?-defined (x ∷ xs) zero h = (x, refl)
get_elem?-defined (x ∷ xs) (suc i) h = get_elem?-defined xs i (omega (arith, h))

get_elem?-bounded :
    {A : Type 0} (xs : List A) (i : ℕ) (x : A) → get_elem? xs i ≡ some x → i < length xs
unfolding get_elem?
get_elem?-bounded [] i x h = cc
get_elem?-bounded (y ∷ xs) zero x h = omega arith
get_elem?-bounded (y ∷ xs) (suc i) x h = let ih = get_elem?-bounded xs i x h in omega (arith, ih)

module _ {R : Type 0} where
  -- An id that a name of a relation has is the position of a relation, where the ids of symbols are
  -- positions and there is a relation for each symbol: `relations_[relId]` is not past the end.
  pub query_relation_id-relation :
      (kb : KnowledgeBaseImpl R) (mod_id : ℕ) (name : String) (id : ℕ)
      → IsKnowledgeBase kb
      → query_relation_id kb mod_id name ≡ ok id
      → (r : StoredRelation) × (get_elem? kb.relations id ≡ some r)
  unfolding query_relation_id
  query_relation_id-relation kb mod_id name id (names, (ids, counter), aligned) h =
      elim (Option-cases (find_id symbol_eq kb.rel_sym_pool.storage_id_map (mod_id, name))) [
        | inl unknown ↦ elim (Option-cases (get_elem? kb.module_name_pool.storage mod_id)) [
          | inl missing ↦
              absurd
                (not_ok Exception.out_of_range id (rw (unknown, missing, query_relation_id) at h))
          | inr (m, known) ↦
              absurd
                (not_ok Exception.invalid_input id (rw (unknown, known, query_relation_id) at h))
        ]
        | inr (j, found) ↦
            let same : j ≡ id = ok_inj (rw (found, query_relation_id) at h) in
            let (i, at, (x, here, equal)) =
              find_id-numbered symbol_eq 0 kb.rel_sym_pool.storage (mod_id, name) j
                (rw ids at found) in
            let within = get_elem?-bounded kb.rel_sym_pool.storage i x here in
            get_elem?-defined kb.relations id (omega (arith, same, at, within, aligned))
      ]

  on_relation-Preserves :
      (i : ℕ) (f : KbRelation → KbRelation) → Preserves {R = R} (on_relation i f)
  unfolding on_relation
  on_relation-Preserves i f = record {
    leads = λ kb h. elim (Option-cases (get_elem? kb.relations i)) [
      | inl missing ↦ rw (missing, on_relation) h
      | inr (r, found) ↦ rw (found, on_relation) (h.0, h.1, length-update_at kb.relations i f ∙ h.2)
    ];
  }

  -- A knowledge base with as many ids left.
  abbrev WithIds : ℕ → KnowledgeBaseImpl R → Type 0
  WithIds n kb = IsKnowledgeBase kb × HasIds n kb

  add_relation-Leads :
      (mod_id n : ℕ) (def : RelationDef)
      → Leads (WithIds (suc n)) (WithIds n) (add_relation mod_id def)
  unfolding add_relation
  add_relation-Leads mod_id n def = record {
    leads = λ kb (h, room).
        let symbol : ℕ × String = (mod_id, def.predicate_symbol) in
        elim (Option-cases (find_id symbol_eq kb.rel_sym_pool.storage_id_map symbol)) [
          | inr (id, old) ↦
              rw (insert-old symbol_eq kb.rel_sym_pool symbol id old) (h, omega (arith, room))
          | inl new ↦ rw (insert-new symbol_eq kb.rel_sym_pool symbol new) (
            (
              h.0,
              subst (λ p. IsPool p.0) (insert-new symbol_eq kb.rel_sym_pool symbol new)
                  (insert-IsPool symbol_eq kb.rel_sym_pool symbol (omega (arith, room)) h.1),
              length-append kb.relations (new_relation def.types)
                  ∙ ap suc h.2
                  ∙ sym (length-append kb.rel_sym_pool.storage symbol),
            ),
            rw (length-append kb.rel_sym_pool.storage symbol) (omega (arith, room)),
          )
        ];
  }

  add_relations-Leads :
      (mod_id : ℕ) (defs : List RelationDef)
      → Leads (WithIds (length defs)) IsKnowledgeBase (add_relations mod_id defs)
  unfolding add_relations
  add_relations-Leads mod_id [] = record { leads = λ kb h. h.0 }
  add_relations-Leads mod_id (def ∷ defs) =
      seq (λ kb h. h.0) (add_relation-Leads mod_id (length defs) def)
        λ id. seq (λ kb h. h) (add_relations-Leads mod_id defs) λ ids. returns

  insert_module_name-Leads :
      (name : String) (n : ℕ)
      → Leads
          (λ kb. IsKnowledgeBase kb × HasIds n kb × HasRoom kb.module_name_pool)
          (WithIds n)
          (insert_module_name name)
  unfolding insert_module_name
  insert_module_name-Leads name n = record {
    leads = λ kb (h, ids, room).
        ((insert-IsPool string_eq kb.module_name_pool name room h.0, h.1, h.2), ids);
  }

  finish_module-Preserves :
      (name : String) (mod_id : ℕ) (rules : List (KbRule (Term R))) (ids : List ℕ)
      → Preserves (finish_module name mod_id rules ids)
  unfolding finish_module
  finish_module-Preserves name mod_id rules ids = record {
    leads = λ kb h. (h.0, h.1, length-finalize_all kb.relations ids ∙ h.2);
  }

module _ {R : Type 0} (real_eq : R → R → Bool) where
  add_fact-Preserves : (mod_id : ℕ) (fact : Literal R) → Preserves (add_fact real_eq mod_id fact)
  unfolding add_fact
  add_fact-Preserves mod_id fact = convert_ground_literal-Preserves real_eq mod_id fact ⟫ λ literal.
      on_relation-Preserves literal.rel_id (λ r. add_edb_tuple r literal.tuple)

  add_facts-Preserves :
      (mod_id : ℕ) (facts : List (Literal R)) → Preserves (add_facts real_eq mod_id facts)
  unfolding add_facts
  add_facts-Preserves mod_id [] = returns
  add_facts-Preserves mod_id (fact ∷ facts) =
      add_fact-Preserves mod_id fact ⟫ λ added. add_facts-Preserves mod_id facts

module _ {R : Type 0} (real_eq : R → R → Bool) (sort : SortLiterals) where
  convert_rules-Preserves :
      (mod_id : ℕ) (rules : List (Rule R)) → Preserves (convert_rules real_eq sort mod_id rules)
  unfolding convert_rules
  convert_rules-Preserves mod_id [] = returns
  convert_rules-Preserves mod_id (rule ∷ rules) =
      convert_rule-Preserves real_eq sort mod_id rule ⟫ λ converted.
      convert_rules-Preserves mod_id rules ⟫ λ rest. returns

  -- Where ids are left for the module and its relations, adding it keeps the ids of modules and relations
  -- positions in their pools, and one relation for each symbol, whether it returns or throws.
  pub add_module-IsKnowledgeBase :
      (m : Module R) (kb : KnowledgeBaseImpl R)
      → HasRoom kb.module_name_pool
      → HasIds (length m.relations) kb
      → IsKnowledgeBase kb
      → IsKnowledgeBase (add_module real_eq sort m kb).1
  unfolding add_module
  add_module-IsKnowledgeBase m kb room ids h = steps.leads kb (h, ids, room)
    where
      steps :
          Leads
            (λ kb.
              IsKnowledgeBase kb × HasIds (length m.relations) kb × HasRoom kb.module_name_pool)
            IsKnowledgeBase
            (add_module real_eq sort m)
      steps =
          seq (λ kb h. h.0) (record { leads = λ kb h. h })
            λ valid.
              seq (λ kb h. h.0) (insert_module_name-Leads m.name (length m.relations))
                λ mod_id.
                  seq (λ kb h. h) (add_relations-Leads mod_id m.relations)
                    λ relation_ids. convert_rules-Preserves mod_id m.rules ⟫ λ rules.
                      add_facts-Preserves real_eq mod_id m.facts ⟫ λ facts.
                      finish_module-Preserves m.name mod_id rules relation_ids
