-- ===== src/Examples/Interned.antt =====
-- Runs of the theorems on interned terms.
use fovris.Prelude.{ℕ, ◌==◌, ◌≡◌, refl, true, [], ◌∷◌, some, arith}
use fovris.Kb.Term.{is_null}
use fovris.Kb.Function.{TermType}
use fovris.Interning.Integers.{negsuc}
use fovris.Interning.Pool.{empty_pool}
use fovris.Interning.Pool.Laws.{numbered}
use fovris.Interning.Term.{Term, integer, string}
use fovris.Interning.Mapper.{TermMapper, intern_term, query_term}
use fovris.Interning.Mapper.RoundTrip.{IsMapper, Same, query_term-intern_term}
use fovris.Interning.Mapper.Kept.{intern_term-keeps, is_null-intern_term_iff}

-- A mapper before anything is interned, where the numbers stand for those of type `double`.
abbrev new_mapper : TermMapper ℕ
new_mapper = record {
  dbl_term_pool = empty_pool;
  date_term_pool = empty_pool;
  date_time_term_pool = empty_pool;
  str_term_pool = empty_pool;
}

new_mapper-IsMapper : IsMapper new_mapper
unfolding numbered
new_mapper-IsMapper = ((refl, refl), (refl, refl), (refl, refl), (refl, refl))

-- The string "ab".
abbrev text : Term ℕ
text = string (97 ∷ 98 ∷ [])

query_term-intern_term_example :
    (u : Term ℕ) × (query_term
        (intern_term ◌==◌ new_mapper text).0
        (intern_term ◌==◌ new_mapper text).1
        TermType.string
      ≡ some u)
    × Same ◌==◌ u text
query_term-intern_term_example = query_term-intern_term ◌==◌ new_mapper text new_mapper-IsMapper tt

intern_term-keeps_example :
    IsMapper (intern_term ◌==◌ new_mapper text).0
    × ((i : ℕ) (type : TermType) (u : Term ℕ)
        → query_term new_mapper i type ≡ some u
        → query_term (intern_term ◌==◌ new_mapper text).0 i type ≡ some u)
intern_term-keeps_example = intern_term-keeps ◌==◌ new_mapper text (omega arith) new_mapper-IsMapper

is_null-intern_term_iff_example :
    is_null (intern_term ◌==◌ new_mapper (integer (negsuc 0))).1 ≡ true
is_null-intern_term_iff_example =
    (is_null-intern_term_iff ◌==◌ new_mapper (negsuc 0) (omega arith)).1 refl
