-- ===== src/Interning/Pool.antt =====
-- `DataPool` of src/DataPool.h: the values in the order of their ids, and the map from a value to its
-- id, here a list of entries that are found by `EqualTo_`. `none` stands for `std::out_of_range`.
pub mod Laws
use fovris.Prelude.{
  ℕ, zero, suc, ◌≡◌, Bool, true, false, if◌then◌else◌, List, [], ◌∷◌, ◌++◌, Option, none, some,
}
use fovris.Kb.Relation.{incr}

pub record DataPool {ℓ} (T : Type ℓ) : Type ℓ where
  pub storage : List T
  pub storage_id_map : List (T × ℕ)
  pub id_counter : ℕ

abbrev pub empty_pool {ℓ} : {T : Type ℓ} → DataPool T
empty_pool = record { storage = []; storage_id_map = []; id_counter = 0 }

-- `storage_.at(id)`
unfoldable pub get_elem? {ℓ} : {T : Type ℓ} → List T → ℕ → Option T
get_elem? [] i = none
get_elem? (x ∷ xs) zero = some x
get_elem? (x ∷ xs) (suc i) = get_elem? xs i

abbrev pub get {ℓ} : {T : Type ℓ} → DataPool T → ℕ → Option T
get p id = get_elem? p.storage id

module _ {ℓ} {T : Type ℓ} (equal_to : T → T → Bool) where
  unfoldable pub find_id : List (T × ℕ) → T → Option ℕ
  find_id [] t = none
  find_id ((key, id) ∷ entries) t = if equal_to key t then some id else find_id entries t

  abbrev pub exists : DataPool T → T → Bool
  exists p t = elim (find_id p.storage_id_map t) [ none ↦ false | some id ↦ true ]

  abbrev pub query_id : DataPool T → T → Option ℕ
  query_id p t = find_id p.storage_id_map t

  -- The pool after, the id, and whether the value is new.
  unfoldable pub insert : DataPool T → T → DataPool T × (ℕ × Bool)
  insert p t = elim (find_id p.storage_id_map t) [
    | some id ↦ (p, (id, false))
    | none ↦ (
      record {
        storage = p.storage ++ (t ∷ []);
        storage_id_map = p.storage_id_map ++ ((t, p.id_counter) ∷ []);
        id_counter = incr p.id_counter;
      },
      (p.id_counter, true),
    )
  ]
