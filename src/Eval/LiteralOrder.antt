-- ===== src/Eval/LiteralOrder.antt =====
-- src/Eval/RuleProcessing.cc and src/KB/KBRuleDisjunct.cc: the order in which the literals of a disjunct
-- are put when it is made. The parameter `sort` is `std::sort` with the comparison that it is given.
pub mod Unsafe
use fovris.Prelude.{
  ℕ, ltb, Bool, true, false, not, ◌&&◌, if◌then◌else◌, List, [], ◌∷◌, ◌++◌, any, length,
}
use fovris.Kb.Literal.{KbLiteral, is_unsafe, var_set, have_common_variables}
use fovris.Kb.Function.{KbRuleFunction}
use fovris.Kb.Rule.{KbRuleDisjunct}

-- The comparison of `SortRuleLiterals`.
unfoldable pub literal_less : KbLiteral → KbLiteral → Bool
literal_less a b =
    if is_unsafe a && is_unsafe b
    then ltb (length (var_set b)) (length (var_set a))
    else if is_unsafe a
    then (if have_common_variables a b then false else true)
    else if is_unsafe b
    then (if have_common_variables a b then true else false)
    else ltb (length (var_set b)) (length (var_set a))

-- `getRelIdsFromSafeLiterals`
unfoldable pub get_rel_ids_from_safe_literals : List KbLiteral → List ℕ
get_rel_ids_from_safe_literals [] = []
get_rel_ids_from_safe_literals (rl ∷ rule_body) =
    let rest = get_rel_ids_from_safe_literals rule_body in
    if not (is_unsafe rl) then rl.rel_id ∷ rest else rest

-- `std::sort`, of literals.
abbrev pub SortLiterals : Type 0
SortLiterals = (KbLiteral → KbLiteral → Bool) → List KbLiteral → List KbLiteral

-- `SortRuleLiterals`
unfoldable pub sort_rule_literals : SortLiterals → List KbLiteral → List KbLiteral
sort_rule_literals sort eval_order =
    if any is_unsafe eval_order then sort literal_less eval_order else eval_order

module _ {V : Type 0} where
  -- The constructor of `KBRuleDisjunct`.
  unfoldable pub make_disjunct :
      SortLiterals → List KbLiteral → List (KbRuleFunction V) → KbRuleDisjunct V
  make_disjunct sort body functions = record {
    body = sort_rule_literals sort body;
    functions = functions;
  }

  -- `addLiteral`
  unfoldable pub add_literal : SortLiterals → KbRuleDisjunct V → KbLiteral → KbRuleDisjunct V
  add_literal sort d literal = record d {
    body = sort_rule_literals sort (d.body ++ (literal ∷ []));
  }
