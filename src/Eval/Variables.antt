-- ===== src/Eval/Variables.antt =====
-- The variables of a rule with the number of literals that hold them (`OrderedVarMap` of
-- src/Eval/EvalRule.cc): a list in the order of insertion, with one entry for each variable.
pub mod Kept
pub mod Among
use fovris.Prelude.{ℕ, ltb, Bool, true, false, not, if◌then◌else◌, List, [], ◌∷◌, ◌++◌, get_or}
use fovris.Kb.Term.{KbTerm, term_eq}
use fovris.Kb.Literal.{KbLiteral, make_var_set, var_set, has_term, get_ordered_unique_var_indices}
use fovris.Kb.Relation.{incr, decr}
use fovris.Kb.Rule.{KbHeadLiteral, KbRuleDisjunct}

abbrev pub OrderedVarMap : Type 0
OrderedVarMap = List (KbTerm × ℕ)

unfoldable pub get_var_set : OrderedVarMap → List KbTerm
get_var_set [] = []
get_var_set ((term, count) ∷ m) =
    let rest = get_var_set m in if ltb 0 count then term ∷ rest else rest

-- The body of `AddToRuleVars`.
unfoldable pub add_var : OrderedVarMap → KbTerm → OrderedVarMap
add_var [] var = (var, 1) ∷ []
add_var ((term, count) ∷ m) var =
    if term_eq term var then (term, incr count) ∷ m else (term, count) ∷ add_var m var

unfoldable pub add_to_rule_vars : OrderedVarMap → List KbTerm → OrderedVarMap
add_to_rule_vars rule_vars [] = rule_vars
add_to_rule_vars rule_vars (var ∷ vars) = add_to_rule_vars (add_var rule_vars var) vars

-- The body of `RemoveFromRuleVars`.
unfoldable pub remove_var : OrderedVarMap → KbTerm → OrderedVarMap
remove_var [] var = []
remove_var ((term, count) ∷ m) var =
    let count' = decr count in
    if term_eq term var
    then (if ltb 0 count' then (term, count') ∷ m else (term, count) ∷ m)
    else (term, count) ∷ remove_var m var

unfoldable pub remove_from_rule_vars : OrderedVarMap → List KbTerm → OrderedVarMap
remove_from_rule_vars rule_vars [] = rule_vars
remove_from_rule_vars rule_vars (var ∷ vars) = remove_from_rule_vars (remove_var rule_vars var) vars

-- The loop of `MakeVarsCounter` over literals.
unfoldable pub add_literals : OrderedVarMap → List KbLiteral → OrderedVarMap
add_literals rule_vars [] = rule_vars
add_literals rule_vars (literal ∷ literals) =
    add_literals (add_to_rule_vars rule_vars (var_set literal)) literals

-- `MakeVarsCounter` of the literals of one disjunct.
unfoldable pub make_vars_counter : List KbLiteral → KbHeadLiteral → OrderedVarMap
make_vars_counter literals head =
    add_literals (add_to_rule_vars [] (make_var_set head.terms)) literals

module _ {V : Type 0} where
  add_disjuncts : OrderedVarMap → List (KbRuleDisjunct V) → OrderedVarMap
  add_disjuncts rule_vars [] = rule_vars
  add_disjuncts rule_vars (d ∷ ds) = add_disjuncts (add_literals rule_vars d.body) ds

  -- `MakeVarsCounter` of all disjuncts.
  unfoldable pub make_disjuncts_vars_counter :
      KbHeadLiteral → List (KbRuleDisjunct V) → OrderedVarMap
  unfolding add_disjuncts
  make_disjuncts_vars_counter head ds =
      add_disjuncts (add_to_rule_vars [] (make_var_set head.terms)) ds

-- The inner loop of `MakeVarSet`: the variables to push, and the set, into which a variable is put only
-- where it is there already.
push_vars : List KbTerm → List KbTerm → List ℕ → List KbTerm × List KbTerm
push_vars set terms [] = ([], set)
push_vars set terms (idx ∷ indices) =
    let var = get_or terms idx (record { val = 0xDEADBEEF; is_var = false }) in
    let (vars, set') =
      push_vars (if has_term set var then set ++ (var ∷ []) else set) terms indices in
    (if not (has_term set var) then var ∷ vars else vars, set')

make_var_set_loop : List KbTerm → List KbLiteral → List KbTerm
unfolding push_vars
make_var_set_loop set [] = []
make_var_set_loop set (literal ∷ literals) =
    let (vars, set') = push_vars set literal.terms (get_ordered_unique_var_indices literal) in
    vars ++ make_var_set_loop set' literals

-- `MakeVarSet`
unfoldable pub make_body_var_set : List KbLiteral → List KbTerm
unfolding make_var_set_loop
make_body_var_set literals = make_var_set_loop [] literals
