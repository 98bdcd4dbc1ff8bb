-- ===== src/Eval/Query.antt =====
-- `canBeUnified` and `queryKB` of src/Evaluation.cc: the facts that answer a query. A result fact is
-- the tuple that it is made of.
pub mod Answers
use fovris.Prelude.{
  ℕ, ◌==◌, leb, Bool, true, false, not, ◌&&◌, if◌then◌else◌, List, [], ◌∷◌, length, get_or, all,
}
use fovris.Kb.Term.{KbTerm, Terms}
use fovris.Kb.Tuple.{KbTuple}
use fovris.Kb.Literal.{KbLiteral, VarIndices, var_indices}
use fovris.Kb.Relation.{FactsPool}
use fovris.Eval.Selection.{at}

abbrev term_at : List KbTerm → ℕ → ℕ
term_at terms i = (get_or terms i (record { val = 0; is_var = false })).val

-- The first loop: the value at each position is compared with the number of the variable.
check_same_vars : List KbTerm → Terms → VarIndices → Bool
check_same_vars terms tuple [] = true
check_same_vars terms tuple ((v, is) ∷ m) =
    let rest = check_same_vars terms tuple m in
    if leb (length is) 1
    then rest
    else if not (all (λ i. at tuple i == term_at terms (get_or is 0 0)) is)
    then false
    else rest

-- The second loop.
check_terms : List KbTerm → Terms → Bool
check_terms (t ∷ ts) (x ∷ xs) =
    if not (t.val == x) && not t.is_var then false else check_terms ts xs
check_terms _ _ = true

unfoldable pub can_be_unified : KbLiteral → Terms → Bool
unfolding check_same_vars check_terms var_indices
can_be_unified ql tuple =
    if not (check_same_vars ql.terms tuple (var_indices ql))
    then false
    else check_terms ql.terms tuple

unfoldable pub query_kb : KbLiteral → FactsPool → List KbTuple
unfolding can_be_unified
query_kb query [] = []
query_kb query (tup ∷ facts) =
    if can_be_unified query tup.terms then tup ∷ query_kb query facts else query_kb query facts
