-- ===== src/Eval/Selection.antt =====
-- src/Eval/Selection.h: the facts that a literal of a rule's body can stand for. A fact is read at
-- positions of the literal; that facts and literals of a relation have one arity is checked when a
-- module is added, so the default 0 of `at` is not seen.
pub mod Matching
use fovris.Prelude.{
  ℕ, suc, ◌==◌, leb, Bool, true, false, not, ◌&&◌, if◌then◌else◌, List, [], ◌∷◌, map, length,
  get_or, all, any,
}
use fovris.Truth.{TruthValue, same}
use fovris.Truth.Set.{TruthValueSet, test, get_set, size, is_empty}
use fovris.Kb.Term.{KbTerm, Terms}
use fovris.Kb.Literal.{KbLiteral, VarIndices, var_indices}

abbrev pub at : Terms → ℕ → ℕ
at terms i = get_or terms i 0

pub record Selection : Type 0 where
  pub attr_constraint : List (List ℕ)
  pub val_constraint : List (ℕ × ℕ)
  pub value_set : TruthValueSet

-- The loop of `makeValueConstraint` from position `i`.
unfoldable pub val_constraint_loop : ℕ → List KbTerm → List (ℕ × ℕ)
val_constraint_loop i [] = []
val_constraint_loop i (t ∷ ts) =
    let rest = val_constraint_loop (suc i) ts in if not t.is_var then (i, t.val) ∷ rest else rest

abbrev pub attr_of : VarIndices → List (List ℕ)
attr_of m = map (λ e. e.1) m

-- The constructor.
unfoldable pub selection : KbLiteral → Selection
unfolding val_constraint_loop var_indices
selection kbr = record {
  attr_constraint = attr_of (var_indices kbr);
  val_constraint = val_constraint_loop 0 kbr.terms;
  value_set = kbr.logic_set;
}

-- One round of `checkAttrConstraints`.
abbrev pub check_positions : Terms → List ℕ → Bool
check_positions terms is =
    if leb (length is) 1 then true else all (λ i. at terms i == at terms (get_or is 0 0)) is

abbrev pub check_attr_constraints : List (List ℕ) → Terms → Bool
check_attr_constraints cs terms = all (check_positions terms) cs

abbrev pub check_val_constraints : List (ℕ × ℕ) → Terms → Bool
check_val_constraints cs terms = all (λ c. at terms c.0 == c.1) cs

unfoldable pub selectable : Selection → Terms → Bool
selectable s terms =
    check_attr_constraints s.attr_constraint terms && check_val_constraints s.val_constraint terms

-- `checkTruthValueConstraints`
unfoldable pub matches_truth_value : Selection → TruthValue → Bool
unfolding is_empty size test get_set
matches_truth_value s t =
    if is_empty s.value_set
    then true
    else if size s.value_set == 1 && test s.value_set TruthValue.unknown
    then false
    else any (λ val. same val t) (get_set s.value_set)

unfoldable pub has_unknown : Selection → Bool
unfolding test
has_unknown s = test s.value_set TruthValue.unknown

unfoldable pub has_only_unknown : Selection → Bool
unfolding test size
has_only_unknown s = test s.value_set TruthValue.unknown && size s.value_set == 1
