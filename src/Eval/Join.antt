-- ===== src/Eval/Join.antt =====
-- src/Eval/Join.h and src/Eval/Join.cc: which positions of two literals hold a common variable, and
-- the comparison of their facts at these positions.
pub mod Keys
pub mod Agreement
pub mod Pairs
use fovris.Prelude.{
  ℕ, zero, suc, ltb, ◌==◌, Bool, true, false, not, ◌&&◌, ◌||◌, if◌then◌else◌, List, [], ◌∷◌, ◌++◌,
  Option, none, some, map, length, any,
}
use fovris.Kb.Term.{KbTerm, Terms, is_null}
use fovris.Kb.Literal.{KbLiteral, VarIndices, lookup, var_indices, get_ordered_unique_var_indices}
use fovris.Eval.Selection.{at}

-- `equalIndices`; `leftIndices` and `rightIndices` are its two columns.
abbrev pub Join : Type 0
Join = List (ℕ × ℕ)

abbrev pub left_indices : Join → List ℕ
left_indices = map (λ p. p.0)

abbrev pub right_indices : Join → List ℕ
right_indices = map (λ p. p.1)

-- `Contains` on a set of positions.
abbrev contains : List ℕ → ℕ → Bool
contains is i = any (λ j. i == j) is

-- `ToIndices`: the positions from `i` on.
to_indices : ℕ → List KbTerm → List ℕ
to_indices i [] = []
to_indices i (t ∷ ts) = i ∷ to_indices (suc i) ts

-- The inner loop of `makeEqualIndices`, at one position of the left literal.
pairs_at : List ℕ → List ℕ → ℕ → List ℕ → Join
pairs_at included_a included_b a [] = []
pairs_at included_a included_b a (b ∷ bs) =
    let rest = pairs_at included_a included_b a bs in
    if contains included_a a && contains included_b b then (a, b) ∷ rest else rest

pairs_of : List ℕ → List ℕ → List ℕ → List ℕ → Join
pairs_of included_a included_b [] bs = []
pairs_of included_a included_b (a ∷ ls) bs =
    pairs_at included_a included_b a bs ++ pairs_of included_a included_b ls bs

pub make_equal_indices : List ℕ → List ℕ → VarIndices → VarIndices → Join
make_equal_indices included_a included_b [] vars_b = []
make_equal_indices included_a included_b ((v, ls) ∷ vars_a) vars_b =
    let rest = make_equal_indices included_a included_b vars_a vars_b in
    elim (lookup v vars_b) [ some bs ↦ pairs_of included_a included_b ls bs ++ rest | none ↦ rest ]

-- The join of a subgoal: all positions of the temporary relation, and the first position of each
-- variable of the new literal.
unfoldable pub make_join : KbLiteral → KbLiteral → Join
unfolding make_equal_indices pairs_of pairs_at to_indices var_indices get_ordered_unique_var_indices
make_join rel_a rel_b =
    make_equal_indices (to_indices 0 rel_a.terms) (get_ordered_unique_var_indices rel_b)
      (var_indices rel_a) (var_indices rel_b)

-- The results -1, 0 and 1 of the comparisons.
pub data Comparison : Type 0 where
  less equal greater : Comparison

unfoldable pub compare_without_null : Join → Terms → Terms → Comparison
compare_without_null [] a b = Comparison.equal
compare_without_null ((i, j) ∷ ps) a b =
    if not (at a i == at b j)
    then if ltb (at a i) (at b j) then Comparison.less else Comparison.greater
    else compare_without_null ps a b

-- `compare`: a null term on either side counts as equal.
unfoldable pub compare_terms : Join → Terms → Terms → Comparison
compare_terms [] a b = Comparison.equal
compare_terms ((i, j) ∷ ps) a b =
    if not (at a i == at b j) && not (is_null (at a i)) && not (is_null (at b j))
    then if ltb (at a i) (at b j) then Comparison.less else Comparison.greater
    else compare_terms ps a b

unfoldable pub joinable_without_null : Join → Terms → Terms → Bool
joinable_without_null [] a b = true
joinable_without_null ((i, j) ∷ ps) a b =
    if not (at a i == at b j) then false else joinable_without_null ps a b

unfoldable pub joinable : Join → Terms → Terms → Bool
joinable [] a b = true
joinable ((i, j) ∷ ps) a b =
    if not (at a i == at b j) && not (is_null (at a i)) && not (is_null (at b j))
    then false
    else joinable ps a b

-- `TupleCompareFunctor` of src/Eval/EvalSubgoal.cc.
unfoldable pub tuple_less : List ℕ → Terms → Terms → Bool
tuple_less [] a b = false
tuple_less (i ∷ is) a b =
    if not (at a i == at b i) then ltb (at a i) (at b i) else tuple_less is a b
