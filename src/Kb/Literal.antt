-- ===== src/Kb/Literal.antt =====
-- src/KB/KBLiteral.cc and src/KB/KBRuleLiteral.h: literals over interned terms, and the positions of
-- their variables. The `std::map` from variables to positions is a list in the order of its keys.
pub mod VarIndices
pub mod Positions
use fovris.Prelude.{
  ℕ, zero, suc, ltb, ◌==◌, Bool, true, false, if◌then◌else◌, List, [], ◌∷◌, ◌++◌, Option, none,
  some, any, map, get_or,
}
use fovris.Truth.Set.{TruthValueSet, test}
use fovris.Truth.{TruthValue}
use fovris.Kb.Term.{KbTerm, term_eq}

abbrev pub VarIndices : Type 0
VarIndices = List (ℕ × List ℕ)

unfoldable pub lookup : ℕ → VarIndices → Option (List ℕ)
lookup v [] = none
lookup v ((w, is) ∷ m) = if v == w then some is else lookup v m

-- `find`, then `insert` or `push_back`.
unfoldable pub add_index : ℕ → ℕ → VarIndices → VarIndices
add_index v i [] = (v, i ∷ []) ∷ []
add_index v i ((w, is) ∷ m) =
    if v == w
    then (w, is ++ (i ∷ [])) ∷ m
    else if ltb v w
    then (v, i ∷ []) ∷ (w, is) ∷ m
    else (w, is) ∷ add_index v i m

-- The loop of `createSameVarsIndices` from position `i`.
unfoldable pub indices_loop : List KbTerm → ℕ → VarIndices → VarIndices
unfolding add_index
indices_loop [] i m = m
indices_loop (t ∷ ts) i m = indices_loop ts (suc i) (if t.is_var then add_index t.val i m else m)

unfoldable pub create_same_vars_indices : List KbTerm → VarIndices
unfolding indices_loop
create_same_vars_indices terms = indices_loop terms 0 []

-- `Contains(uniqueVars, term)`
abbrev pub has_term : List KbTerm → KbTerm → Bool
has_term set t = any (λ u. term_eq t u) set

-- The loop of `makeVarSet`; `unique_vars` holds the terms pushed before.
var_set_loop : List KbTerm → List KbTerm → List KbTerm
var_set_loop unique_vars [] = []
var_set_loop unique_vars (t ∷ ts) =
    let rest = var_set_loop (t ∷ unique_vars) ts in
    let skipped = var_set_loop unique_vars ts in
    if t.is_var then (if has_term unique_vars t then skipped else t ∷ rest) else skipped

unfoldable pub make_var_set : List KbTerm → List KbTerm
unfolding var_set_loop
make_var_set terms = var_set_loop [] terms

-- A `KBRuleLiteral`. A plain `KBLiteral` is one with no constraint. `varIndices` and `varSet` are
-- set by the constructor and never changed, so they are functions of the terms.
pub record KbLiteral : Type 0 where
  pub rel_id : ℕ
  pub terms : List KbTerm
  pub logic_set : TruthValueSet

unfoldable pub var_indices : KbLiteral → VarIndices
unfolding create_same_vars_indices lookup
var_indices l = create_same_vars_indices l.terms

unfoldable pub var_set : KbLiteral → List KbTerm
unfolding make_var_set
var_set l = make_var_set l.terms

-- `hasUnknown`
unfoldable pub is_unsafe : KbLiteral → Bool
unfolding test
is_unsafe l = test l.logic_set TruthValue.unknown

abbrev pub contains_key : VarIndices → ℕ → Bool
contains_key m v = elim (lookup v m) [ some _ ↦ true | none ↦ false ]

unfoldable pub have_common_variables : KbLiteral → KbLiteral → Bool
unfolding var_indices
have_common_variables a b = any (λ e. contains_key (var_indices b) e.0) (var_indices a)

-- `varIndicesMap[var][0]`, where every variable of the literal has a position.
first_index : VarIndices → ℕ → ℕ
first_index m v = elim (lookup v m) [ some is ↦ get_or is 0 0 | none ↦ 0 ]

unfoldable pub get_ordered_unique_var_indices : KbLiteral → List ℕ
unfolding var_set var_indices first_index
get_ordered_unique_var_indices l = map (λ t. first_index (var_indices l) t.val) (var_set l)
