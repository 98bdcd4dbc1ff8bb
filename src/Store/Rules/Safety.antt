-- ===== src/Store/Rules/Safety.antt =====
-- What `checkRule` guarantees of the variables of a rule that it accepts.
use fovris.Prelude.{
  Bool, All, ◌≡◌, ok_inj, true, false, not, if◌then◌else◌, List, [], ◌∷◌, none, some, inl, inr,
  Bool-cases, Option-cases, ok, err, bind_ok, if_ok, not_ok,
}
use mathlib.Core.Path.{subst}
use fovris.Interning.Term.{Term}
use fovris.Api.{
  Exception, RuleLiteral, RuleDisjunct, Rule, RelationDef, has_constraint, is_external, is_function,
  is_unsafe_literal,
}
use fovris.Store.{KnowledgeBaseImpl}
use fovris.Store.Checks.{
  VarDiff, calc_var_diff, check_domains_terms, find_def, check_literal, check_body_literal,
  argument_type, check_terms_for_builtin_predicate, check_function,
}
use fovris.Store.Checks.Summary.{Occurrence}
use fovris.Store.Checks.Variables.{
  occurrences, push, Knows, HasOneType, IsBound, calc_var_diff-Knows, Knows-HasOneType,
  no_variables, Knows-IsBound, IsBoundArgument, argument_type-IsBoundArgument,
}
use fovris.Store.Rules.{
  all_vars_satisfied, check_own_literal, external_relation, check_external_literal,
  check_rule_literal, check_literals, check_functions, check_disjuncts, check_rule,
}

module _ {R : Type 0} (kb : KnowledgeBaseImpl R) (defs : List RelationDef) where
  -- The occurrences of variables in a literal of a body. A literal of the module itself binds its
  -- variables; a literal of another module does where it has no constraint; a function has none.
  abbrev pub literal_occurrences : RuleLiteral R → List Occurrence
  literal_occurrences l =
      if is_external l
      then elim (external_relation kb l) [
        | ok r ↦ occurrences l.literal.terms r.col_domains (not (is_unsafe_literal l))
        | err e ↦ []
      ]
      else if is_function l
      then []
      else elim (find_def defs l.literal.predicate_symbol) [
        | some d ↦ occurrences l.literal.terms d.types true
        | none ↦ []
      ]

  -- The occurrences in a body, before those that are there.
  unfoldable pub push_body : List (RuleLiteral R) → List Occurrence → List Occurrence
  push_body [] os = os
  push_body (l ∷ body) os = push_body body (push (literal_occurrences l) os)

  check_external_literal-Knows :
      (l : RuleLiteral R) (m m' : VarDiff) (os : List Occurrence)
      → Knows m os
      → check_external_literal kb l m ≡ ok m'
      → is_external l ≡ true
      → Knows m' (push (literal_occurrences l) os)
  unfolding check_external_literal
  check_external_literal-Knows l m m' os h e external =
      let (r, found, e') = bind_ok (external_relation kb l) _ m' e in
      let (u, fits, e'') = bind_ok (check_domains_terms r.col_domains l.literal.terms) _ m' e' in
      rw (external, found)
        (calc_var_diff-Knows l.literal.terms r.col_domains m m' (not (is_unsafe_literal l)) os h
          e'')

  check_own_literal-Knows :
      (l : RuleLiteral R) (m m' : VarDiff) (os : List Occurrence)
      → Knows m os
      → check_own_literal defs l m ≡ ok m'
      → is_external l ≡ false
      → Knows m' (push (literal_occurrences l) os)
  unfolding check_own_literal push
  check_own_literal-Knows l m m' os h e own = elim (Bool-cases (has_constraint l)) [
    | inl refused ↦ absurd (not_ok Exception.invalid_input m' (rw refused at e))
    | inr allowed ↦
        let (u, fits, e') = bind_ok (check_body_literal defs l) _ m' (rw allowed at e) in
        elim (Bool-cases (is_function l)) [
          | inl function ↦
              rw (own, function) (subst (λ k. Knows k os) (ok_inj (rw function at e')) h)
          | inr relation ↦ elim (Option-cases (find_def defs l.literal.predicate_symbol)) [
            | inl unknown ↦ absurd (not_ok Exception.past_end m' (rw (relation, unknown) at e'))
            | inr (d, found) ↦
                rw (own, relation, found)
                  (calc_var_diff-Knows l.literal.terms d.types m m' true os h
                    (rw (relation, found) at e'))
          ]
        ]
  ]

  check_rule_literal-Knows :
      (l : RuleLiteral R) (m m' : VarDiff) (os : List Occurrence)
      → Knows m os
      → check_rule_literal kb defs l m ≡ ok m'
      → Knows m' (push (literal_occurrences l) os)
  unfolding check_rule_literal
  check_rule_literal-Knows l m m' os h e = elim (Bool-cases (is_external l)) [
    | inl external ↦ check_external_literal-Knows l m m' os h (rw external at e) external
    | inr own ↦ check_own_literal-Knows l m m' os h (rw own at e) own
  ]

  check_literals-Knows :
      (body : List (RuleLiteral R)) (m m' : VarDiff) (os : List Occurrence)
      → Knows m os
      → check_literals kb defs body m ≡ ok m'
      → Knows m' (push_body body os)
  unfolding check_literals push_body
  check_literals-Knows [] m m' os h e = subst (λ k. Knows k os) (ok_inj e) h
  check_literals-Knows (l ∷ body) m m' os h e =
      let (n, first, rest) =
        bind_ok (check_rule_literal kb defs l m) (check_literals kb defs body) m' e in
      check_literals-Knows body n m' (push (literal_occurrences l) os)
        (check_rule_literal-Knows l m n os h first) rest

  -- A built-in predicate has two arguments, and those that are variables have occurrences that bind them.
  abbrev pub HasBoundArguments : List Occurrence → Bool → List (Term R) → Type 0
  HasBoundArguments os false terms = Unit
  HasBoundArguments os true (t ∷ u ∷ []) = IsBoundArgument os t × IsBoundArgument os u
  HasBoundArguments os true _ = ⊥

  check_terms-HasBoundArguments :
      (m : VarDiff) (os : List Occurrence) (builtin : Bool) (terms : List (Term R))
      → Knows m os
      → all_vars_satisfied m ≡ true
      → (if not builtin then ok tt else elim terms [
        | t ∷ u ∷ [] ↦ check_terms_for_builtin_predicate t u m
        | _ ↦ err Exception.invalid_input
      ])
        ≡ ok tt
      → HasBoundArguments os builtin terms
  unfolding check_terms_for_builtin_predicate
  check_terms-HasBoundArguments m os false terms knows h e = tt
  check_terms-HasBoundArguments m os true (t ∷ u ∷ []) knows h e =
      let (a, first, e') = bind_ok (argument_type t m) _ tt e in
      let (b, second, e'') = bind_ok (argument_type u m) _ tt e' in
      (
        argument_type-IsBoundArgument t m os a knows h first,
        argument_type-IsBoundArgument u m os b knows h second,
      )
  check_terms-HasBoundArguments m os true [] knows h e =
      absurd (not_ok Exception.invalid_input tt e)
  check_terms-HasBoundArguments m os true (t ∷ []) knows h e =
      absurd (not_ok Exception.invalid_input tt e)
  check_terms-HasBoundArguments m os true (t ∷ u ∷ v ∷ terms) knows h e =
      absurd (not_ok Exception.invalid_input tt e)

  check_function-HasBoundArguments :
      (l : RuleLiteral R) (m : VarDiff) (os : List Occurrence)
      → Knows m os
      → all_vars_satisfied m ≡ true
      → check_function l m ≡ ok tt
      → HasBoundArguments os l.is_builtin_function l.literal.terms
  unfolding check_function
  check_function-HasBoundArguments l m os knows h e =
      check_terms-HasBoundArguments m os l.is_builtin_function l.literal.terms knows h e

  check_functions-HasBoundArguments :
      (body : List (RuleLiteral R)) (m : VarDiff) (os : List Occurrence)
      → Knows m os
      → all_vars_satisfied m ≡ true
      → check_functions body m ≡ ok tt
      → All (λ l. HasBoundArguments os l.is_builtin_function l.literal.terms) body
  unfolding check_functions
  check_functions-HasBoundArguments [] m os knows h e = tt
  check_functions-HasBoundArguments (l ∷ body) m os knows h e =
      let (u, first, rest) = bind_ok (check_function l m) _ tt e in
      (
        check_function-HasBoundArguments l m os knows h first,
        check_functions-HasBoundArguments body m os knows h rest,
      )

  -- After each disjunct every variable of the head and of the literals over relations in the disjuncts so far
  -- has one type, and is in a literal of these disjuncts that binds it, and so is every variable of a built-in
  -- predicate of this disjunct.
  abbrev pub AreSafe : List (RuleDisjunct R) → List Occurrence → Type 0
  AreSafe [] os = Unit
  AreSafe (d ∷ disjuncts) os =
      HasOneType (push_body d.body os)
      × IsBound (push_body d.body os)
      × All (λ l. HasBoundArguments (push_body d.body os) l.is_builtin_function l.literal.terms)
          d.body
      × AreSafe disjuncts (push_body d.body os)

  check_disjuncts-AreSafe :
      (disjuncts : List (RuleDisjunct R)) (m : VarDiff) (os : List Occurrence)
      → Knows m os
      → check_disjuncts kb defs disjuncts m ≡ ok tt
      → AreSafe disjuncts os
  unfolding check_disjuncts
  check_disjuncts-AreSafe [] m os h e = tt
  check_disjuncts-AreSafe (d ∷ disjuncts) m os h e =
      let (n, literals, e') = bind_ok (check_literals kb defs d.body m) _ tt e in
      let (u, functions, e'') = bind_ok (check_functions d.body n) _ tt e' in
      let (satisfied, rest) =
        if_ok (all_vars_satisfied n) (check_disjuncts kb defs disjuncts n) tt
          Exception.invalid_input e'' in
      let knows = check_literals-Knows d.body m n os h literals in
      let os' = push_body d.body os in
      (
        Knows-HasOneType n os' knows,
        Knows-IsBound n os' knows satisfied,
        check_functions-HasBoundArguments d.body n os' knows satisfied functions,
        check_disjuncts-AreSafe disjuncts n os' knows rest,
      )

  -- A rule that is accepted has a head over a relation of its module. After each of its disjuncts, every
  -- variable of the head and of the literals over relations in the disjuncts so far has one type, and occurs,
  -- in a column of that type, in a literal of these disjuncts that binds it: one over a relation of the
  -- module, or one over another module's relation without a constraint. Every variable of a built-in
  -- predicate of the disjunct occurs in such a literal as well. Nothing is said of the variables of other
  -- functions, which are not checked.
  pub check_rule-IsSafe :
      (rule : Rule R)
      → check_rule kb defs rule ≡ ok tt
      → (d : RelationDef) × (find_def defs rule.head.predicate_symbol ≡ some d)
        × AreSafe rule.disjuncts (push (occurrences rule.head.terms d.types false) [])
  unfolding check_rule
  check_rule-IsSafe rule e = elim (Option-cases (find_def defs rule.head.predicate_symbol)) [
    | inl unknown ↦ absurd (not_ok Exception.invalid_input tt (rw (unknown, check_rule) at e))
    | inr (d, found) ↦
        let (m, head, e') =
          bind_ok (calc_var_diff rule.head.terms d.types [] false) _ tt
            (rw (found, check_rule) at e) in
        let (d', fits, e'') = bind_ok (check_literal defs rule.head) _ tt e' in
        (
          d,
          found,
          check_disjuncts-AreSafe rule.disjuncts m _
              (calc_var_diff-Knows rule.head.terms d.types [] m false [] no_variables head) e'',
        )
  ]
