-- ===== src/Eval/LiteralOrder/Unsafe.antt =====
-- A literal for unknown that has no variable in common with another literal is put before it.
use fovris.Prelude.{◌≡◌, ◌∙◌, ap, Bool, true, false, not, List, [], ◌∷◌, err, arith}
use fovris.Kb.Literal.{KbLiteral, is_unsafe, have_common_variables}
use fovris.Kb.Function.{KbRuleFunction}
use fovris.Kb.Rule.{KbHeadLiteral}
use fovris.Eval.Create.{AssertionError}
use fovris.Eval.Rule.{make_conjunction}
use fovris.Eval.Rule.Returns.{starts_safe, make_conjunction-Throws}
use fovris.Eval.LiteralOrder.{literal_less, SortLiterals, sort_rule_literals, make_disjunct}

-- Two literals are put in order where one of them alone is less than the other.
abbrev pub SortsTwo : SortLiterals → Type 0
SortsTwo sort =
    (less : KbLiteral → KbLiteral → Bool) (a b : KbLiteral)
    → less b a ≡ true
    → less a b ≡ false
    → sort less (a ∷ b ∷ []) ≡ b ∷ a ∷ []

module _ (p q : KbLiteral) where
  unsafe_less :
      is_unsafe p ≡ false
      → is_unsafe q ≡ true
      → have_common_variables q p ≡ false
      → literal_less q p ≡ true
  unfolding literal_less
  unsafe_less safe unsafe apart = ground arith

  safe_less :
      is_unsafe p ≡ false
      → is_unsafe q ≡ true
      → have_common_variables p q ≡ false
      → literal_less p q ≡ false
  unfolding literal_less
  safe_less safe unsafe apart = ground arith

sort_rule_literals_two :
    (sort : SortLiterals) (p q : KbLiteral)
    → SortsTwo sort
    → is_unsafe p ≡ false
    → is_unsafe q ≡ true
    → have_common_variables p q ≡ false
    → have_common_variables q p ≡ false
    → sort_rule_literals sort (p ∷ q ∷ []) ≡ q ∷ p ∷ []
unfolding sort_rule_literals
sort_rule_literals_two sort p q sorts safe unsafe apart apart' =
    rw (safe, unsafe)
      (sorts literal_less p q (unsafe_less p q safe unsafe apart')
        (safe_less p q safe unsafe apart))

module _ {V : Type 0} where
  -- Where a disjunct is made of a literal without unknown and one for unknown that have no variable in
  -- common, and the sort puts two literals in order, the evaluation of a rule with this disjunct cannot be
  -- made: an exception is thrown.
  pub make_disjunct-Throws :
      (sort : SortLiterals) (head : KbHeadLiteral) (p q : KbLiteral)
      (functions : List (KbRuleFunction V))
      → SortsTwo sort
      → is_unsafe p ≡ false
      → is_unsafe q ≡ true
      → have_common_variables p q ≡ false
      → have_common_variables q p ≡ false
      → (e : AssertionError) × (make_conjunction head (make_disjunct sort (p ∷ q ∷ []) functions)
          ≡ err e)
  unfolding make_disjunct
  make_disjunct-Throws sort head p q functions sorts safe unsafe apart apart' =
      let order = sort_rule_literals_two sort p q sorts safe unsafe apart apart' in
      make_conjunction-Throws head (sort_rule_literals sort (p ∷ q ∷ [])) functions
        (ap starts_safe order ∙ ap not unsafe)
