-- ===== src/Truth.antt =====
-- src/TruthValue.cc and include/fovris/TruthValue.h: the four truth values of 4QL and the
-- connectives, which the code reads from constant tables indexed by the value's code.
pub mod Laws
pub mod Set
use fovris.Prelude.{ℕ, Bool, List, [], ◌∷◌, get_or}

pub data TruthValue : Type 0 where
  false unknown incons true : TruthValue

-- `static_cast<uint8_t>`
abbrev pub code : TruthValue → ℕ
code false = 0
code unknown = 1
code incons = 2
code true = 3

abbrev Table : Type 0
Table = List (List TruthValue)

-- An element of a four by four table; every code is below 4.
abbrev entry : Table → TruthValue → TruthValue → TruthValue
entry t a b = get_or (get_or t (code a) []) (code b) unknown

abbrev or_arr : Table
or_arr =
    (false ∷ unknown ∷ incons ∷ true ∷ [])
    ∷ (unknown ∷ unknown ∷ incons ∷ true ∷ [])
    ∷ (incons ∷ incons ∷ incons ∷ true ∷ [])
    ∷ (true ∷ true ∷ true ∷ true ∷ [])
    ∷ []

abbrev and_arr : Table
and_arr =
    (false ∷ false ∷ false ∷ false ∷ [])
    ∷ (false ∷ unknown ∷ unknown ∷ unknown ∷ [])
    ∷ (false ∷ unknown ∷ incons ∷ incons ∷ [])
    ∷ (false ∷ unknown ∷ incons ∷ true ∷ [])
    ∷ []

abbrev disj_wrt_ord : Table
disj_wrt_ord =
    (false ∷ false ∷ incons ∷ incons ∷ [])
    ∷ (false ∷ unknown ∷ incons ∷ true ∷ [])
    ∷ (incons ∷ incons ∷ incons ∷ incons ∷ [])
    ∷ (incons ∷ true ∷ incons ∷ true ∷ [])
    ∷ []

abbrev negation_arr : List TruthValue
negation_arr = true ∷ unknown ∷ incons ∷ false ∷ []

unfoldable pub negation : TruthValue → TruthValue
negation a = get_or negation_arr (code a) unknown

unfoldable pub disjunction : TruthValue → TruthValue → TruthValue
disjunction a b = entry or_arr a b

unfoldable pub conjunction : TruthValue → TruthValue → TruthValue
conjunction a b = entry and_arr a b

unfoldable pub disjunction_wrt_ordering : TruthValue → TruthValue → TruthValue
disjunction_wrt_ordering a b = entry disj_wrt_ord a b

unfoldable pub resolve_to_true_or_incons : TruthValue → TruthValue
resolve_to_true_or_incons incons = incons
resolve_to_true_or_incons _ = true

unfoldable pub map_bool_to_truth_value : Bool → TruthValue
map_bool_to_truth_value Bool.true = true
map_bool_to_truth_value Bool.false = false

unfoldable pub resolve_truth_value : TruthValue → Bool → TruthValue
resolve_truth_value val Bool.true = val
resolve_truth_value val Bool.false = negation val

-- `==` on the enumeration.
abbrev pub same : TruthValue → TruthValue → Bool
same false false = Bool.true
same unknown unknown = Bool.true
same incons incons = Bool.true
same true true = Bool.true
same _ _ = Bool.false
