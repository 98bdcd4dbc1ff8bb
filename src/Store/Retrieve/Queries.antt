-- ===== src/Store/Retrieve/Queries.antt =====
-- The numbers that `convertQuery` gives to the variables of a query.
use mathlib.Core.Path.{subst}
use fovris.Prelude.{
  ℕ, suc, ◌<◌, ◌≡◌, refl, ap, ◌∙◌, arith, Bool, true, false, List, [], ◌∷◌, Option, none, some,
  Option-cases, inl, inr, ok, bind_ok, ok_inj, not_ok, ◌>>=◌,
}
use fovris.Kb.Term.{KbTerm}
use fovris.Interning.Term.{Term, var, String, string_eq}
use fovris.Interning.Mapper.{TermMapper, query_term_id}
use fovris.Interning.Mapper.RoundTrip.{string_eq_refl, string_eq_sound}
use fovris.Api.{Exception, Query}
use fovris.Interning.Pool.{get_elem?, query_id}
use fovris.Store.{
  or_throw, StoredRelation, KnowledgeBaseImpl, symbol_eq, query_module_id, query_relation_id,
  relation_at,
}
use fovris.Store.Checks.{check_domains_terms}
use fovris.Store.Retrieve.{find_number, convert_query_terms, convert_query}

-- A map that gives different numbers, below the next one, to different variables.
abbrev IsNumbering : List (String × ℕ) → ℕ → Type 0
IsNumbering m next =
    ((x : String) (n : ℕ) → find_number m x ≡ some n → n < next)
    × ((x y : String) (n : ℕ) → find_number m x ≡ some n → find_number m y ≡ some n → x ≡ y)

abbrev Extends : List (String × ℕ) → List (String × ℕ) → Type 0
Extends m m' = (x : String) (n : ℕ) → find_number m x ≡ some n → find_number m' x ≡ some n

abbrev variable : ℕ → KbTerm
variable n = record { val = n; is_var = true }

abbrev constant : ℕ → KbTerm
constant i = record { val = i; is_var = false }

or_throw_ok : {A : Type 0} (e : Exception) (o : Option A) (a : A) → or_throw e o ≡ ok a → o ≡ some a
or_throw_ok e none a h = absurd (not_ok e a h)
or_throw_ok e (some b) a h = ap some (ok_inj h)

module _ {R : Type 0} (real_eq : R → R → Bool) (mapper : TermMapper R) where
  -- A variable has its number, and a constant the id of its term.
  abbrev pub IsNumbered : (String → Option ℕ) → List (Term R) → List KbTerm → Type 0
  IsNumbered number [] [] = Unit
  IsNumbered number (var x ∷ terms) (k ∷ ks) =
      (k.is_var ≡ true) × (number x ≡ some k.val) × IsNumbered number terms ks
  IsNumbered number (t ∷ terms) (k ∷ ks) =
      (k.is_var ≡ false)
      × (query_term_id real_eq mapper t ≡ some k.val)
      × IsNumbered number terms ks
  IsNumbered number _ _ = ⊥

  new_number-IsNumbering :
      (m : List (String × ℕ)) (next : ℕ) (x : String)
      → find_number m x ≡ none
      → IsNumbering m next
      → IsNumbering ((x, next) ∷ m) (suc next) × Extends m ((x, next) ∷ m)
  unfolding find_number
  new_number-IsNumbering m next x new (below, apart) = (
    (
      λ y n h. ground (arith, below y n),
      λ y z n h k.
          ground
            (arith, below y n, below z n, apart y z n, string_eq_sound x y, string_eq_sound x z),
    ),
    λ y n h. ground (arith, string_eq_sound x y),
  )

  convert_query_terms-IsNumbered :
      (terms : List (Term R)) (m : List (String × ℕ)) (next : ℕ) (ks : List KbTerm)
      → IsNumbering m next
      → convert_query_terms real_eq mapper terms m next ≡ ok ks
      → (m' : List (String × ℕ)) × ((next' : ℕ) × IsNumbering m' next')
        × Extends m m'
        × IsNumbered (find_number m') terms ks
  unfolding convert_query_terms find_number
  convert_query_terms-IsNumbered [] m next ks h e =
      (m, (next, h), (λ x n q. q), subst (λ k. IsNumbered (find_number m) [] k) (ok_inj e) tt)
  convert_query_terms-IsNumbered (var x ∷ terms) m next ks h e =
      elim (Option-cases (find_number m x)) [
        | inr (n, known) ↦
            let (rest, here, last) =
              bind_ok (convert_query_terms real_eq mapper terms m next)
                (λ rest. ok (variable n ∷ rest)) ks (rw (known, convert_query_terms) at e) in
            let (m', num, ext, numbered) =
              convert_query_terms-IsNumbered terms m next rest h here in
            (
              m',
              num,
              ext,
              subst (λ k. IsNumbered (find_number m') (var x ∷ terms) k) (ok_inj last)
                  (refl, ext x n known, numbered),
            )
        | inl new ↦
            let m1 = (x, next) ∷ m in
            let (h1, ext1) = new_number-IsNumbering m next x new h in
            let (rest, here, last) =
              bind_ok (convert_query_terms real_eq mapper terms m1 (suc next))
                (λ rest. ok (variable next ∷ rest)) ks (rw (new, convert_query_terms) at e) in
            let (m', num, ext, numbered) =
              convert_query_terms-IsNumbered terms m1 (suc next) rest h1 here in
            let known : find_number m1 x ≡ some next = rw (string_eq_refl x) refl in
            (
              m',
              num,
              (λ y n q. ext y n (ext1 y n q)),
              subst (λ k. IsNumbered (find_number m') (var x ∷ terms) k) (ok_inj last)
                  (refl, ext x next known, numbered),
            )
      ]
  convert_query_terms-IsNumbered (t ∷ terms) m next ks h e =
      let (i, found, e') =
        bind_ok (or_throw Exception.invalid_input (query_term_id real_eq mapper t))
          (λ i. convert_query_terms real_eq mapper terms m next >>= λ rest. ok (constant i ∷ rest))
          ks e in
      let (rest, here, last) =
        bind_ok (convert_query_terms real_eq mapper terms m next) (λ rest. ok (constant i ∷ rest))
          ks e' in
      let (m', num, ext, numbered) = convert_query_terms-IsNumbered terms m next rest h here in
      (
        m',
        num,
        ext,
        subst (λ k. IsNumbered (find_number m') (t ∷ terms) k) (ok_inj last)
            (
              refl,
              or_throw_ok Exception.invalid_input (query_term_id real_eq mapper t) i found,
              numbered,
            ),
      )

  convert_query_terms_lem :
      (terms : List (Term R)) (ks : List KbTerm)
      → convert_query_terms real_eq mapper terms [] 0 ≡ ok ks
      → (number : String → Option ℕ) × ((x y : String) (n : ℕ)
          → number x ≡ some n
          → number y ≡ some n
          → x ≡ y)
        × IsNumbered number terms ks
  unfolding find_number
  convert_query_terms_lem terms ks e =
      let (m, (next, (below, apart)), ext, numbered) =
        convert_query_terms-IsNumbered terms [] 0 ks ((λ x n h. cc), (λ x y n h k. cc)) e in
      (find_number m, apart, numbered)

-- The id that is found for a name of a relation.
query_relation_id_ok :
    {R : Type 0} (kb : KnowledgeBaseImpl R) (mod_id : ℕ) (name : String) (rel_id : ℕ)
    → query_relation_id kb mod_id name ≡ ok rel_id
    → query_id symbol_eq kb.rel_sym_pool (mod_id, name) ≡ some rel_id
unfolding query_relation_id
query_relation_id_ok kb mod_id name rel_id e =
    elim (Option-cases (query_id symbol_eq kb.rel_sym_pool (mod_id, name))) [
      | inr (i, known) ↦ known ∙ ap some (ok_inj (rw (known, query_relation_id) at e))
      | inl unknown ↦ elim (Option-cases (get_elem? kb.module_name_pool.storage mod_id)) [
        | inr (n, there) ↦
            absurd
              (not_ok Exception.invalid_input rel_id (rw (unknown, there, query_relation_id) at e))
        | inl missing ↦
            absurd
              (not_ok Exception.out_of_range rel_id (rw (unknown, missing, query_relation_id) at e))
      ]
    ]

module _ {R : Type 0} (real_eq : R → R → Bool) where
  -- A query that is converted names a module, and with the id of this module a relation, whose id is the one
  -- that is returned. The terms of the query fit the columns of this relation in number and types, every
  -- constant became the id of its term, and every variable a number, which different variables do not share.
  pub convert_query-IsNumbered :
      (kb : KnowledgeBaseImpl R) (q : Query R) (rel_id : ℕ) (ks : List KbTerm)
      → convert_query real_eq kb q ≡ ok (rel_id, ks)
      → ((mod_id : ℕ) × (query_id string_eq kb.module_name_pool q.module_symbol ≡ some mod_id)
          × (query_id symbol_eq kb.rel_sym_pool (mod_id, q.predicate_symbol) ≡ some rel_id))
        × ((r : StoredRelation) × (get_elem? kb.relations rel_id ≡ some r)
            × (check_domains_terms r.col_domains q.terms ≡ ok tt))
        × ((number : String → Option ℕ) × ((x y : String) (n : ℕ)
              → number x ≡ some n
              → number y ≡ some n
              → x ≡ y)
            × IsNumbered real_eq kb.term_mapper number q.terms ks)
  unfolding convert_query
  convert_query-IsNumbered kb q rel_id ks e =
      let (mod_id, named, e1) = bind_ok (query_module_id kb q.module_symbol) _ (rel_id, ks) e in
      let (id, found, e2) =
        bind_ok (query_relation_id kb mod_id q.predicate_symbol) _ (rel_id, ks) e1 in
      let (r, at, e3) = bind_ok (relation_at Exception.past_end kb id) _ (rel_id, ks) e2 in
      let (u, fits, e4) = bind_ok (check_domains_terms r.col_domains q.terms) _ (rel_id, ks) e3 in
      let (terms, converted, e5) =
        bind_ok (convert_query_terms real_eq kb.term_mapper q.terms [] 0) (λ terms. ok (id, terms))
          (rel_id, ks) e4 in
      let same : (id, terms) ≡ (rel_id, ks) = ok_inj e5 in
      let same_id : id ≡ rel_id = ap (λ p. p.0) same in
      let same_terms : terms ≡ ks = ap (λ p. p.1) same in
      (
        (
          mod_id,
          or_throw_ok Exception.invalid_input
              (query_id string_eq kb.module_name_pool q.module_symbol) mod_id named,
          query_relation_id_ok kb mod_id q.predicate_symbol rel_id (rw same_id at found),
        ),
        (
          r,
          subst (λ i. get_elem? kb.relations i ≡ some r) same_id
              (or_throw_ok Exception.past_end (get_elem? kb.relations id) r at),
          fits,
        ),
        convert_query_terms_lem real_eq kb.term_mapper q.terms ks (rw same_terms at converted),
      )
