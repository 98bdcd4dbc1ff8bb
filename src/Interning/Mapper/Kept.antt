-- ===== src/Interning/Mapper/Kept.antt =====
-- What an interned term leaves as it was: the ids of the pools are positions, and every id keeps its term.
use fovris.Prelude.{ℕ, ◌≡◌, ◌↔◌, refl, ◌∙◌, ap, Bool, true, Option, none, some, arith}
use fovris.Kb.Term.{is_null}
use fovris.Kb.Function.{TermType}
use fovris.Interning.Integers.{ℤ, pos, negsuc, to_unsigned, IsInt}
use fovris.Interning.Pool.{DataPool, get, insert}
use fovris.Interning.Pool.Laws.{HasRoom, insert-IsPool, get-insert_keeps}
use fovris.Interning.Term.{
  Term, integer, real, logic, string, id, var, date, date_time, String, string_eq, date_eq,
  date_time_eq, string_term,
}
use fovris.Interning.Mapper.{TermMapper, intern_term, query_term}
use fovris.Interning.Mapper.RoundTrip.{IsMapper}

-- Every value that is found stays.
abbrev Keeps : {T : Type 0} → DataPool T → DataPool T → Type 0
Keeps {T} p q = (i : ℕ) (x : T) → get p i ≡ some x → get q i ≡ some x

abbrev KeepsAll : {R : Type 0} → TermMapper R → TermMapper R → Type 0
KeepsAll m n =
    Keeps m.dbl_term_pool n.dbl_term_pool
    × Keeps m.date_term_pool n.date_term_pool
    × Keeps m.date_time_term_pool n.date_time_term_pool
    × Keeps m.str_term_pool n.str_term_pool

same_values : {T : Type 0} (p : DataPool T) → Keeps p p
same_values p i x h = h

insert-Keeps :
    {T : Type 0} (equal_to : T → T → Bool) (p : DataPool T) (t : T)
    → Keeps p (insert equal_to p t).0
insert-Keeps equal_to p t i x h = get-insert_keeps equal_to p t x i h

-- A value that is made from one that is found.
map-Keeps :
    {T : Type 0} {B : Type 0} (f : T → Option B) (p q : DataPool T) (i : ℕ) (b : B)
    → Keeps p q
    → (elim (get p i) [ none ↦ none | some x ↦ f x ]) ≡ some b
    → (elim (get q i) [ none ↦ none | some x ↦ f x ]) ≡ some b
map-Keeps {T} {B} f p q i b k h = go (get p i) refl h
  where
    go :
        (o : Option T)
        → get p i ≡ o
        → (elim o [ none ↦ none | some x ↦ f x ]) ≡ some b
        → (elim (get q i) [ none ↦ none | some x ↦ f x ]) ≡ some b
    go none e h = cc
    go (some x) e h = ap (λ o. elim o [ none ↦ none | some x ↦ f x ]) (k i x e) ∙ h

module _ {R : Type 0} where
  -- There is an id for the term in its pool.
  abbrev pub HasIdFor : TermMapper R → Term R → Type 0
  HasIdFor m (real d) = HasRoom m.dbl_term_pool
  HasIdFor m (date d) = HasRoom m.date_term_pool
  HasIdFor m (date_time d) = HasRoom m.date_time_term_pool
  HasIdFor m (string s) = HasRoom m.str_term_pool
  HasIdFor m (id s) = HasRoom m.str_term_pool
  HasIdFor m (var s) = HasRoom m.str_term_pool
  HasIdFor m _ = Unit

  query_term-KeepsAll :
      (m n : TermMapper R) (i : ℕ) (type : TermType) (u : Term R)
      → KeepsAll m n
      → query_term m i type ≡ some u
      → query_term n i type ≡ some u
  unfolding query_term
  query_term-KeepsAll m n i TermType.integer u k h = h
  query_term-KeepsAll m n i TermType.logic u k h = h
  query_term-KeepsAll m n i TermType.real u k h =
      map-Keeps (λ d. some (real d)) m.dbl_term_pool n.dbl_term_pool i u k.0 h
  query_term-KeepsAll m n i TermType.date u k h =
      map-Keeps (λ d. some (date d)) m.date_term_pool n.date_term_pool i u k.1 h
  query_term-KeepsAll m n i TermType.date_time u k h =
      map-Keeps (λ d. some (date_time d)) m.date_time_term_pool n.date_time_term_pool i u k.2 h
  query_term-KeepsAll m n i TermType.string u k h =
      map-Keeps (λ s. string_term s TermType.string) m.str_term_pool n.str_term_pool i u k.3 h
  query_term-KeepsAll m n i TermType.id u k h =
      map-Keeps (λ s. string_term s TermType.id) m.str_term_pool n.str_term_pool i u k.3 h
  query_term-KeepsAll m n i TermType.var u k h =
      map-Keeps (λ s. string_term s TermType.var) m.str_term_pool n.str_term_pool i u k.3 h

module _ {R : Type 0} (real_eq : R → R → Bool) where
  same-KeepsAll : (m : TermMapper R) → KeepsAll m m
  same-KeepsAll m = (
    same_values m.dbl_term_pool,
    same_values m.date_term_pool,
    same_values m.date_time_term_pool,
    same_values m.str_term_pool,
  )

  string-KeepsAll :
      (m : TermMapper R) (s : String)
      → KeepsAll m (record m { str_term_pool = (insert string_eq m.str_term_pool s).0 })
  string-KeepsAll m s = (
    same_values m.dbl_term_pool,
    same_values m.date_term_pool,
    same_values m.date_time_term_pool,
    insert-Keeps string_eq m.str_term_pool s,
  )

  intern_term-KeepsAll : (m : TermMapper R) (t : Term R) → KeepsAll m (intern_term real_eq m t).0
  unfolding intern_term
  intern_term-KeepsAll m (real d) = (
    insert-Keeps real_eq m.dbl_term_pool d,
    same_values m.date_term_pool,
    same_values m.date_time_term_pool,
    same_values m.str_term_pool,
  )
  intern_term-KeepsAll m (date d) = (
    same_values m.dbl_term_pool,
    insert-Keeps date_eq m.date_term_pool d,
    same_values m.date_time_term_pool,
    same_values m.str_term_pool,
  )
  intern_term-KeepsAll m (date_time d) = (
    same_values m.dbl_term_pool,
    same_values m.date_term_pool,
    insert-Keeps date_time_eq m.date_time_term_pool d,
    same_values m.str_term_pool,
  )
  intern_term-KeepsAll m (string s) = string-KeepsAll m s
  intern_term-KeepsAll m (id s) = string-KeepsAll m s
  intern_term-KeepsAll m (var s) = string-KeepsAll m s
  intern_term-KeepsAll m (integer i) = same-KeepsAll m
  intern_term-KeepsAll m (logic t) = same-KeepsAll m

  intern_term-IsMapper :
      (m : TermMapper R) (t : Term R)
      → HasIdFor m t
      → IsMapper m
      → IsMapper (intern_term real_eq m t).0
  unfolding intern_term
  intern_term-IsMapper m (real d) room h =
      (insert-IsPool real_eq m.dbl_term_pool d room h.0, h.1, h.2, h.3)
  intern_term-IsMapper m (date d) room h =
      (h.0, insert-IsPool date_eq m.date_term_pool d room h.1, h.2, h.3)
  intern_term-IsMapper m (date_time d) room h =
      (h.0, h.1, insert-IsPool date_time_eq m.date_time_term_pool d room h.2, h.3)
  intern_term-IsMapper m (string s) room h =
      (h.0, h.1, h.2, insert-IsPool string_eq m.str_term_pool s room h.3)
  intern_term-IsMapper m (id s) room h =
      (h.0, h.1, h.2, insert-IsPool string_eq m.str_term_pool s room h.3)
  intern_term-IsMapper m (var s) room h =
      (h.0, h.1, h.2, insert-IsPool string_eq m.str_term_pool s room h.3)
  intern_term-IsMapper m (integer i) room h = h
  intern_term-IsMapper m (logic t) room h = h

  -- Where the ids of the pools are positions, and the pool of a term has an id left, the ids are positions
  -- after the term is interned, and every id stands for the term that it stood for.
  pub intern_term-keeps :
      (m : TermMapper R) (t : Term R)
      → HasIdFor m t
      → IsMapper m
      → IsMapper (intern_term real_eq m t).0
        × ((i : ℕ) (type : TermType) (u : Term R)
            → query_term m i type ≡ some u
            → query_term (intern_term real_eq m t).0 i type ≡ some u)
  intern_term-keeps m t room h = (
    intern_term-IsMapper m t room h,
    λ i type u.
        query_term-KeepsAll m (intern_term real_eq m t).0 i type u (intern_term-KeepsAll m t),
  )

  -- An integer in the range of `int` is interned to the null term exactly when it is -1.
  pub is_null-intern_term_iff :
      (m : TermMapper R) (i : ℤ)
      → IsInt i
      → (is_null (intern_term real_eq m (integer i)).1 ≡ true) ↔ (i ≡ negsuc 0)
  unfolding intern_term to_unsigned
  is_null-intern_term_iff m (pos n) h = ground arith
  is_null-intern_term_iff m (negsuc n) h = ground arith
