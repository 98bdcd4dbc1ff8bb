-- ===== src/Eval/Variables/Among.antt =====
-- The variables that the subgoals of a rule keep are variables, and all of the literals are among them.
use fovris.Prelude.{
  ℕ, ◌<◌, ◌==◌, ◌||◌, ◌≡◌, refl, ◌∙◌, ap, true, List, [], ◌∷◌, ◌++◌, map, All, length, arith,
  Bool-cases, inl, inr,
}
use fovris.Kb.Term.{KbTerm, term_eq}
use fovris.Kb.Literal.{KbLiteral, make_var_set, var_set}
use fovris.Kb.Literal.VarIndices.{EachVar}
use fovris.Kb.Literal.Positions.{is_among, EachVar-mono, variables-among, make_var_set-is_var}
use fovris.Kb.Relation.{u32_mod}
use fovris.Kb.Rule.{KbHeadLiteral}
use fovris.Eval.Variables.{OrderedVarMap, get_var_set, add_var, add_to_rule_vars, make_vars_counter}
use fovris.Eval.Variables.Kept.{IsWithin, rule_vars, counter-IsWithin, make_vars_counter-rule_vars}

abbrev keys : OrderedVarMap → List KbTerm
keys = map (λ e. e.0)

get_var_set-keys : (n : ℕ) (m : OrderedVarMap) → IsWithin n m → get_var_set m ≡ keys m
unfolding get_var_set
get_var_set-keys n [] h = refl
get_var_set-keys n (e ∷ m) h = ground (arith, get_var_set-keys n m h.1)

-- What holds of the keys and the variables that are added holds of the keys after.
add_var-All :
    (P : KbTerm → Type 0) (m : OrderedVarMap) (var : KbTerm)
    → P var
    → All P (keys m)
    → All P (keys (add_var m var))
unfolding add_var
add_var-All P [] var p h = (p, tt)
add_var-All P ((t, c) ∷ m) var p h = elim (Bool-cases (term_eq t var)) [
  | inl e ↦ rw (e, add_var) h
  | inr e ↦ rw (e, add_var) (h.0, add_var-All P m var p h.1)
]

add_to_rule_vars-All :
    (P : KbTerm → Type 0) (m : OrderedVarMap) (vars : List KbTerm)
    → All P vars
    → All P (keys m)
    → All P (keys (add_to_rule_vars m vars))
unfolding add_to_rule_vars
add_to_rule_vars-All P m [] p h = h
add_to_rule_vars-All P m (var ∷ vars) p h =
    add_to_rule_vars-All P (add_var m var) vars p.1 (add_var-All P m var p.0 h)

add_var-among :
    (m : OrderedVarMap) (var : KbTerm) (v : ℕ)
    → (v == var.val || is_among (keys m) v) ≡ true
    → is_among (keys (add_var m var)) v ≡ true
unfolding add_var
add_var-among [] var v h = h
add_var-among ((t, c) ∷ m) var v h = ground (arith, add_var-among m var v)

add_to_rule_vars-among :
    (m : OrderedVarMap) (vars : List KbTerm) (v : ℕ)
    → (is_among vars v || is_among (keys m) v) ≡ true
    → is_among (keys (add_to_rule_vars m vars)) v ≡ true
unfolding add_to_rule_vars
add_to_rule_vars-among m [] v h = h
add_to_rule_vars-among m (var ∷ vars) v h =
    add_to_rule_vars-among (add_var m var) vars v (ground (arith, add_var-among m var v))

is_among-append :
    (xs ys : List KbTerm) (v : ℕ) → is_among (xs ++ ys) v ≡ (is_among xs v || is_among ys v)
is_among-append [] ys v = refl
is_among-append (x ∷ xs) ys v = ground (arith, is_among-append xs ys v)

-- Every variable of the literal is among the terms.
abbrev pub Holds : List KbTerm → KbLiteral → Type 0
Holds vars l = EachVar (λ v _. is_among vars v ≡ true) l.terms 0

Holds-append_right :
    (xs ys : List KbTerm) (ls : List KbLiteral) → All (Holds ys) ls → All (Holds (xs ++ ys)) ls
Holds-append_right xs ys [] h = tt
Holds-append_right xs ys (l ∷ ls) h = (
  EachVar-mono (λ v _. is_among ys v ≡ true) (λ v _. is_among (xs ++ ys) v ≡ true) l.terms 0
      (λ v j e. rw (is_among-append xs ys v) (ground arith)) h.0,
  Holds-append_right xs ys ls h.1,
)

rule_vars-Holds : (ls : List KbLiteral) → All (Holds (rule_vars ls)) ls
unfolding rule_vars
rule_vars-Holds [] = tt
rule_vars-Holds (l ∷ ls) = (
  EachVar-mono (λ v _. is_among (var_set l) v ≡ true)
      (λ v _. is_among (var_set l ++ rule_vars ls) v ≡ true) l.terms 0
      (λ v j e. rw (is_among-append (var_set l) (rule_vars ls) v) (ground arith))
      (variables-among l),
  Holds-append_right (var_set l) (rule_vars ls) ls (rule_vars-Holds ls),
)

All-append : {A : Type 0} (P : A → Type 0) (xs ys : List A) → All P xs → All P ys → All P (xs ++ ys)
All-append P [] ys h k = k
All-append P (x ∷ xs) ys h k = (h.0, All-append P xs ys h.1 k)

rule_vars-is_var : (ls : List KbLiteral) → All (λ t. t.is_var ≡ true) (rule_vars ls)
unfolding rule_vars var_set
rule_vars-is_var [] = tt
rule_vars-is_var (l ∷ ls) =
    All-append (λ t. t.is_var ≡ true) (var_set l) (rule_vars ls) (make_var_set-is_var l.terms)
      (rule_vars-is_var ls)

-- The variables that a rule keeps.
abbrev pub kept_vars : List KbLiteral → KbHeadLiteral → List KbTerm
kept_vars ls head = get_var_set (make_vars_counter ls head)

kept_vars-keys :
    (ls : List KbLiteral) (head : KbHeadLiteral)
    → length (make_var_set head.terms ++ rule_vars ls) < u32_mod
    → kept_vars ls head ≡ keys (add_to_rule_vars [] (make_var_set head.terms ++ rule_vars ls))
kept_vars-keys ls head b =
    get_var_set-keys (length (make_var_set head.terms ++ rule_vars ls)) (make_vars_counter ls head)
      (counter-IsWithin ls head b)
    ∙ ap (λ m. keys m) (make_vars_counter-rule_vars ls head)

pub kept_vars-is_var :
    (ls : List KbLiteral) (head : KbHeadLiteral)
    → length (make_var_set head.terms ++ rule_vars ls) < u32_mod
    → All (λ t. t.is_var ≡ true) (kept_vars ls head)
kept_vars-is_var ls head b = rw (kept_vars-keys ls head b) (
    add_to_rule_vars-All (λ t. t.is_var ≡ true) [] (make_var_set head.terms ++ rule_vars ls)
      (All-append (λ t. t.is_var ≡ true) (make_var_set head.terms) (rule_vars ls)
        (make_var_set-is_var head.terms) (rule_vars-is_var ls))
      tt)

Holds-mono :
    (xs ys : List KbTerm) (ls : List KbLiteral)
    → ((v : ℕ) → is_among xs v ≡ true → is_among ys v ≡ true)
    → All (Holds xs) ls
    → All (Holds ys) ls
Holds-mono xs ys [] f h = tt
Holds-mono xs ys (l ∷ ls) f h = (
  EachVar-mono (λ v _. is_among xs v ≡ true) (λ v _. is_among ys v ≡ true) l.terms 0 (λ v j. f v)
      h.0,
  Holds-mono xs ys ls f h.1,
)

-- All variables of the literals are kept.
pub kept_vars-Holds :
    (ls : List KbLiteral) (head : KbHeadLiteral)
    → length (make_var_set head.terms ++ rule_vars ls) < u32_mod
    → All (Holds (kept_vars ls head)) ls
kept_vars-Holds ls head b =
    Holds-mono (rule_vars ls) (kept_vars ls head) ls
      (λ v e. rw (kept_vars-keys ls head b) (
        add_to_rule_vars-among [] (make_var_set head.terms ++ rule_vars ls) v
          (rw (is_among-append (make_var_set head.terms) (rule_vars ls) v) (ground arith))))
      (rule_vars-Holds ls)
