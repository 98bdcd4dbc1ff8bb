-- ===== src/Interning/Pool/Laws.antt =====
-- The ids of a pool are the positions of its values, and an id keeps its value.
use fovris.Prelude.{
  ℕ, zero, suc, ◌+◌, ◌<◌, ◌≡◌, ◌↔◌, refl, sym, ◌∙◌, ap, Bool, true, false, List, [], ◌∷◌, ◌++◌,
  none, some, length, arith, Bool-cases, Option-cases, inl, inr,
}
use fovris.Kb.Relation.{u32_mod, incr}
use fovris.Interning.Pool.{DataPool, get_elem?, get, find_id, query_id, insert}

-- The values from one position on with their positions.
unfoldable pub numbered {ℓ} : {T : Type ℓ} → ℕ → List T → List (T × ℕ)
numbered n [] = []
numbered n (x ∷ xs) = (x, n) ∷ numbered (suc n) xs

-- The map holds the position of each value, and the counter is the next position.
abbrev pub IsPool {ℓ} : {T : Type ℓ} → DataPool T → Type ℓ
IsPool p = (p.storage_id_map ≡ numbered 0 p.storage) × (p.id_counter ≡ length p.storage)

-- There is an id for one more value.
abbrev pub HasRoom {ℓ} : {T : Type ℓ} → DataPool T → Type 0
HasRoom p = suc (length p.storage) < u32_mod

numbered-append {ℓ} :
    {T : Type ℓ} (n m : ℕ) (xs : List T) (t : T)
    → n + length xs ≡ m
    → numbered n (xs ++ (t ∷ [])) ≡ numbered n xs ++ ((t, m) ∷ [])
unfolding numbered
numbered-append n m [] t e = let q : n ≡ m = omega (arith, e) in ap (λ k. (t, k) ∷ []) q
numbered-append n m (x ∷ xs) t e =
    ap (λ ys. (x, n) ∷ ys) (numbered-append (suc n) m xs t (omega (arith, e)))

pub length-append {ℓ} :
    {T : Type ℓ} (xs : List T) (t : T) → length (xs ++ (t ∷ [])) ≡ suc (length xs)
length-append [] t = refl
length-append (x ∷ xs) t = ap suc (length-append xs t)

get_elem?-append {ℓ} :
    {T : Type ℓ} (xs : List T) (t : T) → get_elem? (xs ++ (t ∷ [])) (length xs) ≡ some t
unfolding get_elem?
get_elem?-append [] t = refl
get_elem?-append (x ∷ xs) t = get_elem?-append xs t

get_elem?-keeps {ℓ} :
    {T : Type ℓ} (xs : List T) (t x : T) (i : ℕ)
    → get_elem? xs i ≡ some x
    → get_elem? (xs ++ (t ∷ [])) i ≡ some x
unfolding get_elem?
get_elem?-keeps [] t x i h = cc
get_elem?-keeps (y ∷ xs) t x zero h = h
get_elem?-keeps (y ∷ xs) t x (suc i) h = get_elem?-keeps xs t x i h

module _ {ℓ} {T : Type ℓ} (equal_to : T → T → Bool) where
  pub insert-old :
      (p : DataPool T) (t : T) (id : ℕ)
      → find_id equal_to p.storage_id_map t ≡ some id
      → insert equal_to p t ≡ (p, (id, false))
  unfolding insert
  insert-old p t id e = rw (e, insert) refl

  abbrev pub added : DataPool T → T → DataPool T
  added p t = record {
    storage = p.storage ++ (t ∷ []);
    storage_id_map = p.storage_id_map ++ ((t, p.id_counter) ∷ []);
    id_counter = incr p.id_counter;
  }

  pub insert-new :
      (p : DataPool T) (t : T)
      → find_id equal_to p.storage_id_map t ≡ none
      → insert equal_to p t ≡ (added p t, (p.id_counter, true))
  unfolding insert
  insert-new p t e = rw (e, insert) refl

  -- An insertion keeps the ids the positions of the values.
  pub insert-IsPool :
      (p : DataPool T) (t : T) → HasRoom p → IsPool p → IsPool (insert equal_to p t).0
  insert-IsPool p t room (ids, counter) =
      elim (Option-cases (find_id equal_to p.storage_id_map t)) [
        | inr (id, e) ↦ rw (insert-old p t id e) (ids, counter)
        | inl e ↦
            let next : incr p.id_counter ≡ suc (length p.storage) = omega (arith, counter, room) in
            rw (insert-new p t e) (
              ap (λ ids. ids ++ ((t, p.id_counter) ∷ [])) ids
                  ∙ sym (numbered-append 0 p.id_counter p.storage t (omega (arith, counter))),
              next ∙ sym (length-append p.storage t),
            )
      ]

  -- An id that is found is the position of an equal value.
  pub find_id-numbered :
      (n : ℕ) (xs : List T) (t : T) (id : ℕ)
      → find_id equal_to (numbered n xs) t ≡ some id
      → (i : ℕ) × (n + i ≡ id) × ((x : T) × (get_elem? xs i ≡ some x) × (equal_to x t ≡ true))
  unfolding find_id numbered get_elem?
  find_id-numbered n [] t id h = cc
  find_id-numbered n (x ∷ xs) t id h = elim (Bool-cases (equal_to x t)) [
    | inl e ↦ let q : some n ≡ some id = rw e at h in (0, ground (arith, q), (x, refl, e))
    | inr e ↦
        let (i, q, y) = find_id-numbered (suc n) xs t id (rw e at h) in (suc i, omega (arith, q), y)
  ]

  find_id-append :
      (entries : List (T × ℕ)) (t : T) (n : ℕ)
      → equal_to t t ≡ true
      → find_id equal_to entries t ≡ none
      → find_id equal_to (entries ++ ((t, n) ∷ [])) t ≡ some n
  unfolding find_id
  find_id-append [] t n r h = rw r refl
  find_id-append ((k, m) ∷ entries) t n r h = ground (arith, find_id-append entries t n r)

  find_id-equal :
      (entries : List (T × ℕ)) (s t : T)
      → ((k : T) → equal_to k s ≡ equal_to k t)
      → find_id equal_to entries s ≡ find_id equal_to entries t
  unfolding find_id
  find_id-equal [] s t h = refl
  find_id-equal ((k, m) ∷ entries) s t h = rw (h k, find_id-equal entries s t h) refl

  -- The id of a value holds it, or one that is equal to it.
  pub get-insert :
      (p : DataPool T) (t : T)
      → equal_to t t ≡ true
      → IsPool p
      → (x : T) × (get (insert equal_to p t).0 (insert equal_to p t).1.0 ≡ some x)
        × (equal_to x t ≡ true)
  get-insert p t r (ids, counter) = elim (Option-cases (find_id equal_to p.storage_id_map t)) [
    | inr (id, e) ↦
        let (i, q, y) = find_id-numbered 0 p.storage t id (rw ids at e) in
        let same : i ≡ id = omega (arith, q) in rw (insert-old p t id e) (rw (← same) y)
    | inl e ↦ rw (insert-new p t e) (t, rw counter (get_elem?-append p.storage t), r)
  ]

  pub get-insert_keeps :
      (p : DataPool T) (t x : T) (i : ℕ) → get p i ≡ some x → get (insert equal_to p t).0 i ≡ some x
  get-insert_keeps p t x i h = elim (Option-cases (find_id equal_to p.storage_id_map t)) [
    | inr (id, e) ↦ rw (insert-old p t id e) h
    | inl e ↦ rw (insert-new p t e) (get_elem?-keeps p.storage t x i h)
  ]

  pub query_id-insert :
      (p : DataPool T) (t : T)
      → equal_to t t ≡ true
      → query_id equal_to (insert equal_to p t).0 t ≡ some (insert equal_to p t).1.0
  query_id-insert p t r = elim (Option-cases (find_id equal_to p.storage_id_map t)) [
    | inr (id, e) ↦ rw (insert-old p t id e) e
    | inl e ↦ rw (insert-new p t e) (find_id-append p.storage_id_map t p.id_counter r e)
  ]

  -- Two values that are inserted one after the other have the same id exactly when they are equal,
  -- where equality is an equivalence and the pool has an id left for the first.
  insert-same_id_iff :
      (p : DataPool T) (s t : T)
      → ((a : T) → equal_to a a ≡ true)
      → ((a b c : T) → equal_to a b ≡ true → equal_to c a ≡ equal_to c b)
      → HasRoom p
      → IsPool p
      → ((insert equal_to (insert equal_to p s).0 t).1.0 ≡ (insert equal_to p s).1.0)
        ↔ (equal_to s t ≡ true)
  insert-same_id_iff p s t r trans room pool =
      let q = (insert equal_to p s).0 in
      let id = (insert equal_to p s).1.0 in
      let (x, x_at, x_s) = get-insert p s (r s) pool in
      let (y, y_at, y_t) = get-insert q t (r t) (insert-IsPool p s room pool) in
      (
        λ e.
            let here : some x ≡ some y =
              sym (get-insert_keeps q t x id x_at)
              ∙ ap (get (insert equal_to q t).0) (sym e)
              ∙ y_at in
            let x_t : equal_to x t ≡ true =
              ap (λ o. elim o [ none ↦ false | some z ↦ equal_to z t ]) here ∙ y_t in
            sym (trans x t s x_t) ∙ trans x s s x_s ∙ r s,
        λ e.
            let found : query_id equal_to q t ≡ some id =
              sym (find_id-equal q.storage_id_map s t (λ k. trans s t k e))
              ∙ query_id-insert p s (r s) in
            ap (λ o. o.1.0) (insert-old q t id found),
      )
