-- ===== src/Store/Convert/Literals.antt =====
-- What the literals and functions of a converted rule ask for.
use mathlib.Core.Path.{subst}
use fovris.Prelude.{
  ℕ, zero, suc, ◌<◌, ◌≡◌, refl, ◌∙◌, ap, arith, Bool, true, false, not, List, ◌++◌, length, get_or,
  Result, ok, err, ok_inj, not_ok,
}
use fovris.Truth.{TruthValue, negation}
use fovris.Truth.Set.{TruthValueSet, test, of_values, get_complement, is_empty}
use fovris.Truth.Set.Laws.{test-get_negation, test-get_complement}
use fovris.Kb.Literal.{KbLiteral}
use fovris.Kb.Function.{TermType, KbRuleFunction, rule_function}
use fovris.Interning.Term.{Term, String}
use fovris.Api.{Exception, PredicateFunction, RuleLiteral, external_literal}
use fovris.Store.{KnowledgeBaseImpl, Action, pure, reads, ◌>>=◌, query_relation_id}
use fovris.Store.Types.{TypeMap, literal_module, function_term_types}
use fovris.Store.Convert.{
  make_logic_set, value_initialised, convert_terms, convert_rule_literal, convert_rule_function,
}

-- What the call returns has a property, where it returns.
record Ensures {R A : Type 0} (P : A → Type 0) (call : Action R A) : Type 0 where
  ensures : (kb : KnowledgeBaseImpl R) (a : A) → (call kb).0 ≡ ok a → P a

after :
    {R A B : Type 0} {P : B → Type 0} (m : Action R A) {f : A → Action R B}
    → ((a : A) → Ensures P (f a))
    → Ensures P (m >>= f)
after {R} {A} {B} {P} m {f} k = record { ensures = λ kb b h. go (m kb) b h }
  where
    go :
        (p : Result Exception A × KnowledgeBaseImpl R) (b : B)
        → (elim p.0 as (λ x. Result Exception B × KnowledgeBaseImpl R) [
          | err e ↦ (err e, p.1)
          | ok a ↦ f a p.1
        ]).0
          ≡ ok b
        → P b
    go (err e, kb') b h = absurd (not_ok e b h)
    go (ok a, kb') b h = (k a).ensures kb' b h

yields : {R A : Type 0} {P : A → Type 0} (a : A) → P a → Ensures {R = R} P (pure a)
yields {R} {A} {P} a p = record { ensures = λ kb b h. subst P (ok_inj h) p }

-- The constraint of a false literal that has one.
test-make_logic_set_false :
    (s : TruthValueSet) (v : TruthValue)
    → is_empty s ≡ false
    → test (make_logic_set true s) v ≡ test s (negation v)
unfolding make_logic_set
test-make_logic_set_false s v h = rw (h, test-get_negation s v) refl

get_or-value_initialised :
    (n i : ℕ) (types : List TermType) (t : TermType)
    → i < n
    → get_or (value_initialised n ++ types) i t ≡ TermType.integer
get_or-value_initialised zero i types t h = absurd (omega (arith, h))
get_or-value_initialised (suc n) zero types t h = refl
get_or-value_initialised (suc n) (suc i) types t h =
    get_or-value_initialised n i types t (omega (arith, h))

module _ {R : Type 0} (real_eq : R → R → Bool) where
  convert_rule_literal-logic_set :
      (mod_id : ℕ) (l : RuleLiteral R)
      → Ensures
          (λ k. k.logic_set ≡ make_logic_set (not l.literal.is_true) l.logic_constraint)
          (convert_rule_literal real_eq mod_id l)
  unfolding convert_rule_literal
  convert_rule_literal-logic_set mod_id l = after (reads (λ kb. literal_module kb mod_id l)) λ id.
      after (reads (λ kb. query_relation_id kb id l.literal.predicate_symbol)) λ rel_id.
        after (convert_terms real_eq l.literal.terms) λ terms.
          yields
            (record {
              rel_id = rel_id;
              terms = terms;
              logic_set = make_logic_set (not l.literal.is_true) l.logic_constraint;
            })
            refl

  -- A negated literal of another module, `!m.r(...) in {values}`, is converted to one that asks for a fact
  -- whose value is not the negation of one of the values, where the values are not all four. With no
  -- values it asks for nothing.
  pub convert_rule_literal-negated_external :
      (mod_id : ℕ) (name relation : String) (terms : List (Term R)) (c : List TruthValue)
      (kb : KnowledgeBaseImpl R) (converted : KbLiteral)
      → (convert_rule_literal real_eq mod_id (external_literal false name relation terms c) kb).0
        ≡ ok converted
      → is_empty (get_complement (of_values c)) ≡ false
      → (v : TruthValue) → test converted.logic_set v ≡ not (test (of_values c) (negation v))
  unfolding external_literal
  convert_rule_literal-negated_external mod_id name relation terms c kb converted h some_left v =
      let l = external_literal false name relation terms c in
      ap (λ s. test s v) ((convert_rule_literal-logic_set mod_id l).ensures kb converted h)
      ∙ test-make_logic_set_false (get_complement (of_values c)) v some_left
      ∙ test-get_complement (of_values c) (negation v)

  convert_rule_function-Ensures :
      (f : PredicateFunction R) (l : RuleLiteral R) (m : TypeMap)
      → Ensures
          (λ g.
            (i : ℕ) (t : TermType)
            → i < length l.literal.terms
            → get_or g.term_types i t ≡ TermType.integer)
          (convert_rule_function real_eq f l m)
  unfolding convert_rule_function rule_function
  convert_rule_function-Ensures f l m = after (convert_terms real_eq l.literal.terms) λ terms.
      after (reads (λ kb. function_term_types m l.literal.terms)) λ types.
        yields
          (rule_function l.literal.is_true f terms
            (value_initialised (length l.literal.terms) ++ types))
          (λ i t within. get_or-value_initialised (length l.literal.terms) i types t within)

  -- The type by which a converted function reads an argument is the integers', whatever the argument is.
  pub convert_rule_function-integers :
      (f : PredicateFunction R) (l : RuleLiteral R) (m : TypeMap) (kb : KnowledgeBaseImpl R)
      (converted : KbRuleFunction (Term R)) (i : ℕ) (t : TermType)
      → (convert_rule_function real_eq f l m kb).0 ≡ ok converted
      → i < length l.literal.terms
      → get_or converted.term_types i t ≡ TermType.integer
  convert_rule_function-integers f l m kb converted i t h within =
      (convert_rule_function-Ensures f l m).ensures kb converted h i t within
