-- ===== src/Api.antt =====
-- The types of the interface: include/fovris/Literal.h, RuleLiteral.h, RuleDisjunct.h, Rule.h,
-- GroundLiteral.h, RelationDef.h, Module.h and Query.h with their constructors (src/Literal.cc,
-- src/RuleLiteral.cc, src/GroundLiteral.cc). `R` is the type `double`.
pub mod Predicates
pub mod Order
pub mod Dates
pub mod RawQuery
use fovris.Prelude.{
  Bool, true, false, not, ◌&&◌, ◌||◌, if◌then◌else◌, List, [], ◌∷◌, Option, none, some, Result, ok,
  err,
}
use fovris.Truth.{TruthValue}
use fovris.Truth.Set.{TruthValueSet, empty, of_values, get_complement, is_empty}
use fovris.Kb.Function.{TermType}
use fovris.Interning.Term.{Term, var, String}

-- What is thrown (include/fovris/Exceptions.h, without the messages, and `std::out_of_range`), with an
-- assertion that fails, and an access by `operator[]` past the end of a container.
pub data Exception : Type 0 where
  incorrect_value invalid_input invalid_type out_of_range assertion_failed past_end : Exception

abbrev pub is_var : {R : Type 0} → Term R → Bool
is_var (var x) = true
is_var _ = false

-- include/fovris/PredicateFunction.h
abbrev pub PredicateFunction : Type 0 → Type 0
PredicateFunction R = List (Term R) → Bool

pub record Literal (R : Type 0) : Type 0 where
  pub is_true : Bool
  pub predicate_symbol : String
  pub terms : List (Term R)

-- The base class is the field `literal`.
pub record RuleLiteral (R : Type 0) : Type 0 where
  pub literal : Literal R
  pub predicate_function : Option (PredicateFunction R)
  pub is_builtin_function : Bool
  pub external_module : Option String
  pub logic_constraint : TruthValueSet

pub record RuleDisjunct (R : Type 0) : Type 0 where
  pub body : List (RuleLiteral R)

pub record Rule (R : Type 0) : Type 0 where
  pub head : Literal R
  pub disjuncts : List (RuleDisjunct R)

pub record RelationDef : Type 0 where
  pub predicate_symbol : String
  pub types : List TermType

-- The facts are the `GroundLiteral`s, literals that `ground_literal` makes.
pub record Module (R : Type 0) : Type 0 where
  pub name : String
  pub relations : List RelationDef
  pub rules : List (Rule R)
  pub facts : List (Literal R)

pub record Query (R : Type 0) : Type 0 where
  pub module_symbol : String
  pub predicate_symbol : String
  pub terms : List (Term R)

module _ {R : Type 0} where
  -- The loop of `GroundLiteral::validate`.
  unfoldable pub has_no_vars : List (Term R) → Bool
  has_no_vars [] = true
  has_no_vars (t ∷ ts) = not (is_var t) && has_no_vars ts

  -- The constructor of a `GroundLiteral`.
  unfoldable pub ground_literal : Bool → String → List (Term R) → Result Exception (Literal R)
  unfolding has_no_vars
  ground_literal is_true symbol terms =
      if has_no_vars terms
      then ok (record { is_true = is_true; predicate_symbol = symbol; terms = terms })
      else err Exception.invalid_type

  -- The constructor of a literal with a function.
  abbrev pub function_literal : Bool → String → PredicateFunction R → List (Term R) → RuleLiteral R
  function_literal is_true name f terms = record {
    literal = record { is_true = is_true; predicate_symbol = name; terms = terms };
    predicate_function = some f;
    is_builtin_function = false;
    external_module = none;
    logic_constraint = empty;
  }

  -- The constructor of a literal of another module.
  unfoldable pub external_literal :
      Bool → String → String → List (Term R) → List TruthValue → RuleLiteral R
  unfolding of_values get_complement
  external_literal is_true name relation terms c = record {
    literal = record { is_true = is_true; predicate_symbol = relation; terms = terms };
    predicate_function = none;
    is_builtin_function = false;
    external_module = some name;
    logic_constraint = if is_true then of_values c else get_complement (of_values c);
  }

  -- The constructor of a literal of the module itself, or of a built-in predicate: `builtin` is the
  -- lookup in `predicateFunctionMap`.
  unfoldable pub rule_literal :
      (String → Option (PredicateFunction R)) → Bool → String → List (Term R) → RuleLiteral R
  rule_literal builtin is_true name terms = record {
    literal = record { is_true = is_true; predicate_symbol = name; terms = terms };
    predicate_function = builtin name;
    is_builtin_function = elim (builtin name) [ none ↦ false | some f ↦ true ];
    external_module = none;
    logic_constraint = empty;
  }

  -- `hasConstraint`
  abbrev pub has_constraint : RuleLiteral R → Bool
  has_constraint l = not (is_empty l.logic_constraint)

  abbrev pub is_external : RuleLiteral R → Bool
  is_external l = elim l.external_module [ none ↦ false | some [] ↦ false | some (c ∷ s) ↦ true ]

  abbrev pub is_function : RuleLiteral R → Bool
  is_function l = elim l.predicate_function [ none ↦ false | some f ↦ true ]

  -- `RuleLiteral::isUnsafe`
  abbrev pub is_unsafe_literal : RuleLiteral R → Bool
  is_unsafe_literal l = has_constraint l || is_function l
