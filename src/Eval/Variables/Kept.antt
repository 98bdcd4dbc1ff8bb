-- ===== src/Eval/Variables/Kept.antt =====
-- Which variables the subgoals of a rule keep: all that stand in the rule, since no entry of the counter
-- reaches zero.
use fovris.Prelude.{
  ℕ, suc, ◌+◌, ◌<◌, ◌≤◌, ◌≡◌, refl, sym, ◌∙◌, List, [], ◌∷◌, ◌++◌, All, length, arith,
}
use fovris.Kb.Term.{KbTerm}
use fovris.Kb.Literal.{KbLiteral, make_var_set, var_set}
use fovris.Kb.Relation.{u32_mod}
use fovris.Kb.Rule.{KbHeadLiteral}
use fovris.Eval.Variables.{
  OrderedVarMap, get_var_set, add_var, add_to_rule_vars, remove_var, remove_from_rule_vars,
  add_literals, make_vars_counter,
}

-- Every count is at least one and at most `n`.
abbrev pub IsWithin : ℕ → OrderedVarMap → Type 0
IsWithin n m = All (λ e. (0 < e.1) × (e.1 ≤ n)) m

IsWithin-suc : (n : ℕ) (m : OrderedVarMap) → IsWithin n m → IsWithin (suc n) m
IsWithin-suc n [] h = tt
IsWithin-suc n (e ∷ m) h = ((h.0.0, omega arith), IsWithin-suc n m h.1)

add_var-IsWithin :
    (n : ℕ) (m : OrderedVarMap) (var : KbTerm)
    → suc n < u32_mod
    → IsWithin n m
    → IsWithin (suc n) (add_var m var)
unfolding add_var
add_var-IsWithin n [] var b h = ((omega arith, omega arith), tt)
add_var-IsWithin n ((t, c) ∷ m) var b h =
    ground (arith, add_var-IsWithin n m var b, IsWithin-suc n m)

pub add_to_rule_vars-IsWithin :
    (n j : ℕ) (m : OrderedVarMap) (vars : List KbTerm)
    → n + length vars ≡ j
    → j < u32_mod
    → IsWithin n m
    → IsWithin j (add_to_rule_vars m vars)
unfolding add_to_rule_vars
add_to_rule_vars-IsWithin n j m [] e b h = let q : n ≡ j = omega arith in rw (← q) h
add_to_rule_vars-IsWithin n j m (var ∷ vars) e b h =
    add_to_rule_vars-IsWithin (suc n) j (add_var m var) vars (omega arith) b
      (add_var-IsWithin n m var (omega arith) h)

remove_var-IsWithin :
    (n : ℕ) (m : OrderedVarMap) (var : KbTerm)
    → n < u32_mod
    → IsWithin n m
    → IsWithin n (remove_var m var)
unfolding remove_var
remove_var-IsWithin n [] var b h = tt
remove_var-IsWithin n ((t, c) ∷ m) var b h = ground (arith, remove_var-IsWithin n m var b)

get_var_set-remove_var :
    (n : ℕ) (m : OrderedVarMap) (var : KbTerm)
    → n < u32_mod
    → IsWithin n m
    → get_var_set (remove_var m var) ≡ get_var_set m
unfolding remove_var get_var_set
get_var_set-remove_var n [] var b h = refl
get_var_set-remove_var n ((t, c) ∷ m) var b h = ground (arith, get_var_set-remove_var n m var b)

pub remove_from_rule_vars-kept :
    (n : ℕ) (m : OrderedVarMap) (vars : List KbTerm)
    → n < u32_mod
    → IsWithin n m
    → (get_var_set (remove_from_rule_vars m vars) ≡ get_var_set m)
      × IsWithin n (remove_from_rule_vars m vars)
unfolding remove_from_rule_vars
remove_from_rule_vars-kept n m [] b h = (refl, h)
remove_from_rule_vars-kept n m (var ∷ vars) b h =
    let rest =
      remove_from_rule_vars-kept n (remove_var m var) vars b (remove_var-IsWithin n m var b h) in
    (rest.0 ∙ get_var_set-remove_var n m var b h, rest.1)

-- The variables that are counted for a rule, one after the other.
unfoldable pub rule_vars : List KbLiteral → List KbTerm
rule_vars [] = []
rule_vars (l ∷ ls) = var_set l ++ rule_vars ls

add_to_rule_vars-append :
    (m : OrderedVarMap) (xs ys : List KbTerm)
    → add_to_rule_vars m (xs ++ ys) ≡ add_to_rule_vars (add_to_rule_vars m xs) ys
unfolding add_to_rule_vars
add_to_rule_vars-append m [] ys = refl
add_to_rule_vars-append m (x ∷ xs) ys = add_to_rule_vars-append (add_var m x) xs ys

add_literals-rule_vars :
    (m : OrderedVarMap) (ls : List KbLiteral)
    → add_literals m ls ≡ add_to_rule_vars m (rule_vars ls)
unfolding add_literals rule_vars add_to_rule_vars
add_literals-rule_vars m [] = refl
add_literals-rule_vars m (l ∷ ls) =
    add_literals-rule_vars (add_to_rule_vars m (var_set l)) ls
    ∙ sym (add_to_rule_vars-append m (var_set l) (rule_vars ls))

pub make_vars_counter-rule_vars :
    (ls : List KbLiteral) (head : KbHeadLiteral)
    → make_vars_counter ls head ≡ add_to_rule_vars [] (make_var_set head.terms ++ rule_vars ls)
unfolding make_vars_counter
make_vars_counter-rule_vars ls head =
    add_literals-rule_vars (add_to_rule_vars [] (make_var_set head.terms)) ls
    ∙ sym (add_to_rule_vars-append [] (make_var_set head.terms) (rule_vars ls))

-- The counter of a rule, whose literals and head hold fewer than 2 ^ 32 variables.
pub counter-IsWithin :
    (ls : List KbLiteral) (head : KbHeadLiteral)
    → length (make_var_set head.terms ++ rule_vars ls) < u32_mod
    → IsWithin (length (make_var_set head.terms ++ rule_vars ls)) (make_vars_counter ls head)
counter-IsWithin ls head b = rw (make_vars_counter-rule_vars ls head) (
    add_to_rule_vars-IsWithin 0 (length (make_var_set head.terms ++ rule_vars ls)) []
      (make_var_set head.terms ++ rule_vars ls) (omega arith) b tt)

-- Where the literals and the head of a rule hold fewer than 2 ^ 32 variables in all, `GetVarSet` yields
-- the same variables whatever variables were removed from the counter of the rule before.
get_var_set-remove_from_rule_vars :
    (ls : List KbLiteral) (head : KbHeadLiteral) (vars : List KbTerm)
    → length (make_var_set head.terms ++ rule_vars ls) < u32_mod
    → get_var_set (remove_from_rule_vars (make_vars_counter ls head) vars)
      ≡ get_var_set (make_vars_counter ls head)
get_var_set-remove_from_rule_vars ls head vars b =
    (remove_from_rule_vars-kept (length (make_var_set head.terms ++ rule_vars ls))
      (make_vars_counter ls head) vars b (counter-IsWithin ls head b)).0
