-- ===== src/Store/Retrieve/Facts.antt =====
-- A fact that was converted is given back: `convertGroundLiteral`, then `retrieveGroundLiteral`.
use fovris.Prelude.{
  ℕ, ◌≡◌, refl, ◌∙◌, ap, Bool, true, false, not, if◌then◌else◌, List, [], ◌∷◌, map, some, and_true,
  All, ok, err,
}
use fovris.Truth.{TruthValue, same}
use fovris.Kb.Term.{KbTerm}
use fovris.Kb.Function.{TermType}
use fovris.Interning.Term.{Term, real, get_type}
use fovris.Interning.Mapper.{TermMapper, intern_term, query_term}
use fovris.Interning.Mapper.RoundTrip.{IsMapper, IsValue, Same, query_term-intern_term}
use fovris.Interning.Mapper.Kept.{HasIdFor, intern_term-keeps}
use fovris.Api.{is_var, has_no_vars, ground_literal, Literal}
use fovris.Store.{Action, pure, reads, ◌>>=◌, KnowledgeBaseImpl, query_relation_id}
use fovris.Store.Invariant.{bind_returns}
use fovris.Store.Convert.{
  intern_terms, convert_ground_term, convert_ground_terms, KbGroundLiteral, convert_ground_literal,
}
use fovris.Store.Retrieve.{query_terms, retrieve_ground_literal}

not_true : (b : Bool) → not b ≡ true → b ≡ false
not_true true h = cc
not_true false h = refl

is_true_lem :
    (b : Bool) → not (same (if b then TruthValue.true else TruthValue.false) TruthValue.false) ≡ b
is_true_lem true = refl
is_true_lem false = refl

module _ {R : Type 0} (real_eq : R → R → Bool) where
  -- Each term has an id left in its pool when it is interned.
  abbrev pub HasIdsFor : TermMapper R → List (Term R) → Type 0
  HasIdsFor m [] = Unit
  HasIdsFor m (t ∷ terms) = HasIdFor m t × HasIdsFor (intern_term real_eq m t).0 terms

  -- The same terms, where numbers of type `double` are compared by `==`.
  abbrev pub AreSame : List (Term R) → List (Term R) → Type 0
  AreSame [] [] = Unit
  AreSame (u ∷ us) (t ∷ terms) = Same real_eq u t × AreSame us terms
  AreSame _ _ = ⊥

  -- Every id keeps the term that it stands for.
  abbrev KeepsTerms : TermMapper R → TermMapper R → Type 0
  KeepsTerms m n =
      (i : ℕ) (type : TermType) (u : Term R)
      → query_term m i type ≡ some u
      → query_term n i type ≡ some u

  intern_terms-keeps :
      (m : TermMapper R) (terms : List (Term R))
      → HasIdsFor m terms
      → IsMapper m
      → KeepsTerms m (intern_terms real_eq m terms).0
  unfolding intern_terms
  intern_terms-keeps m [] room h = λ i type u q. q
  intern_terms-keeps m (t ∷ terms) (here, room) h =
      let (h', first) = intern_term-keeps real_eq m t here h in
      let rest = intern_terms-keeps (intern_term real_eq m t).0 terms room h' in
      λ i type u q. rest i type u (first i type u q)

  abbrev vals : List KbTerm → List ℕ
  vals terms = map (λ t. t.val) terms

  query_terms-intern_terms :
      (m : TermMapper R) (terms : List (Term R))
      → HasIdsFor m terms
      → IsMapper m
      → All (IsValue real_eq) terms
      → (us : List (Term R)) × (query_terms
            (intern_terms real_eq m terms).0
            (vals (intern_terms real_eq m terms).1)
            (map get_type terms)
          ≡ ok us)
        × AreSame us terms
  unfolding query_terms intern_terms
  query_terms-intern_terms m [] room h values = ([], refl, tt)
  query_terms-intern_terms m (t ∷ terms) (here, room) h (value, values) =
      let (h', first) = intern_term-keeps real_eq m t here h in
      let m' = (intern_term real_eq m t).0 in
      let (us, found, alike) = query_terms-intern_terms m' terms room h' values in
      let (u, at, equal) = query_term-intern_term real_eq m t h value in
      let kept =
        intern_terms-keeps m' terms room h' (intern_term real_eq m t).1 (get_type t) u at in
      (u ∷ us, rw (kept, found) refl, (equal, alike))

  -- Ground terms are interned in turn.
  convert_ground_terms_lem :
      (terms : List (Term R)) (kb : KnowledgeBaseImpl R)
      → has_no_vars terms ≡ true
      → convert_ground_terms real_eq terms kb ≡ (
        ok (vals (intern_terms real_eq kb.term_mapper terms).1),
        record kb { term_mapper = (intern_terms real_eq kb.term_mapper terms).0 },
      )
  unfolding has_no_vars convert_ground_terms convert_ground_term intern_terms
  convert_ground_terms_lem [] kb h = refl
  convert_ground_terms_lem (t ∷ terms) kb h =
      let (m, i) = intern_term real_eq kb.term_mapper t in
      let (constant, rest) = and_true (not (is_var t)) (has_no_vars terms) h in
      let kb' = record kb { term_mapper = m } in
      let first : convert_ground_term real_eq t kb ≡ (ok i, kb') =
        rw (not_true (is_var t) constant, convert_ground_term) refl in
      let ih = convert_ground_terms_lem terms kb' rest in
      bind_returns (convert_ground_term real_eq t)
        (λ j. convert_ground_terms real_eq terms >>= λ js. pure (j ∷ js)) kb kb' i first
      ∙ bind_returns (convert_ground_terms real_eq terms) (λ js. pure (i ∷ js)) kb' _ _ ih

  is_var-Same : (u t : Term R) → Same real_eq u t → is_var u ≡ is_var t
  is_var-Same (real d) (real e) h = refl
  is_var-Same u t h = ap is_var h

  has_no_vars-AreSame :
      (us terms : List (Term R)) → AreSame us terms → has_no_vars us ≡ has_no_vars terms
  unfolding has_no_vars
  has_no_vars-AreSame [] [] h = refl
  has_no_vars-AreSame [] (t ∷ terms) h = absurd h
  has_no_vars-AreSame (u ∷ us) [] h = absurd h
  has_no_vars-AreSame (u ∷ us) (t ∷ terms) (here, rest) =
      rw (is_var-Same u t here, has_no_vars-AreSame us terms rest) refl

  -- What a fact is converted to, where its relation is known.
  convert_ground_literal_lem :
      (mod_id rel_id : ℕ) (l : Literal R) (kb : KnowledgeBaseImpl R)
      → has_no_vars l.terms ≡ true
      → query_relation_id kb mod_id l.predicate_symbol ≡ ok rel_id
      → convert_ground_literal real_eq mod_id l kb ≡ (
        ok (record {
          rel_id = rel_id;
          tuple = record {
            terms = vals (intern_terms real_eq kb.term_mapper l.terms).1;
            value = if l.is_true then TruthValue.true else TruthValue.false;
          };
        }),
        record kb { term_mapper = (intern_terms real_eq kb.term_mapper l.terms).0 },
      )
  unfolding convert_ground_literal
  convert_ground_literal_lem mod_id rel_id l kb no_vars found =
      let make : ℕ → List ℕ → Action R KbGroundLiteral = λ id terms. pure (record {
        rel_id = id;
        tuple = record {
          terms = terms;
          value = if l.is_true then TruthValue.true else TruthValue.false;
        };
      }) in
      bind_returns (reads (λ kb. query_relation_id kb mod_id l.predicate_symbol))
        (λ id. convert_ground_terms real_eq l.terms >>= make id) kb kb rel_id
        (ap (λ r. (r, kb)) found)
      ∙ bind_returns (convert_ground_terms real_eq l.terms) (make rel_id) kb _ _
          (convert_ground_terms_lem l.terms kb no_vars)

  -- A fact over constants that fit their columns exactly is converted where its relation is known, and the
  -- fact that is retrieved for what it was converted to is that fact: the same relation, whether it is
  -- true, and the same terms, where equal numbers of type `double` are the same. The ids of the pools
  -- are positions, each term has an id left, an `int` is in its range, and a `double` is not NaN.
  pub retrieve_ground_literal-convert_ground_literal :
      (mod_id rel_id : ℕ) (l : Literal R) (kb : KnowledgeBaseImpl R)
      → IsMapper kb.term_mapper
      → HasIdsFor kb.term_mapper l.terms
      → All (IsValue real_eq) l.terms
      → has_no_vars l.terms ≡ true
      → query_relation_id kb mod_id l.predicate_symbol ≡ ok rel_id
      → let (r, kb') = convert_ground_literal real_eq mod_id l kb in
        (g : KbGroundLiteral) × (r ≡ ok g)
        × (g.rel_id ≡ rel_id)
        × ((us : List (Term R)) × (retrieve_ground_literal kb'.term_mapper g.tuple
                l.predicate_symbol
                (map get_type l.terms)
              ≡ ok (record l { terms = us }))
            × AreSame us l.terms)
  unfolding convert_ground_literal retrieve_ground_literal ground_literal
  retrieve_ground_literal-convert_ground_literal mod_id rel_id l kb h room values constants found =
      let (us, queried, alike) = query_terms-intern_terms kb.term_mapper l.terms room h values in
      let no_vars = has_no_vars-AreSame us l.terms alike ∙ constants in
      let retrieved : retrieve_ground_literal (intern_terms real_eq kb.term_mapper l.terms).0
            (record {
              terms = vals (intern_terms real_eq kb.term_mapper l.terms).1;
              value = if l.is_true then TruthValue.true else TruthValue.false;
            })
            l.predicate_symbol (map get_type l.terms)
          ≡ ok (record l { terms = us }) =
        ap
          (λ r. elim r [
            | err e ↦ err e
            | ok terms ↦
                ground_literal
                  (not (
                    same (if l.is_true then TruthValue.true else TruthValue.false)
                      TruthValue.false))
                  l.predicate_symbol terms
          ])
          queried
        ∙ rw (no_vars, is_true_lem l.is_true) refl in
      rw (convert_ground_literal_lem mod_id rel_id l kb constants found)
        (_, refl, refl, (us, retrieved, alike))
