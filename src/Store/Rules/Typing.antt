-- ===== src/Store/Rules/Typing.antt =====
-- What `checkRule` guarantees of the literals of a rule that it accepts: their relations, numbers of terms, and
-- the types of their constants.
use mathlib.Core.Path.{subst}
use fovris.Prelude.{
  ◌==◌, ◌≡◌, ◌∙◌, ap, arith, true, false, ◌||◌, ◌&&◌, List, [], ◌∷◌, length, some, ◌⊎◌, inl, inr,
  All, Bool-cases, Option-cases, ok, and_true, bind_ok, if_ok, not_ok, ok_inj,
}
use fovris.Kb.Function.{TermType}
use fovris.Interning.Term.{Term, get_type}
use fovris.Api.{
  Exception, is_var, Literal, RuleLiteral, RuleDisjunct, Rule, RelationDef, has_constraint,
  is_external, is_function,
}
use fovris.Store.{KnowledgeBaseImpl, StoredRelation}
use fovris.Store.Checks.{
  VarDiff, type_eq, calc_var_diff, fits_columns, check_domains_terms, find_def, check_literal,
  check_body_literal,
}
use fovris.Store.Checks.Summary.{type_eq_sound}
use fovris.Store.Rules.{
  all_vars_satisfied, external_relation, check_own_literal, check_external_literal,
  check_rule_literal, check_literals, check_functions, check_disjuncts, check_rule,
}

module _ {R : Type 0} where
  -- As many terms as columns, each a variable or a constant of the type of its column.
  abbrev pub Fits : List TermType → List (Term R) → Type 0
  Fits [] [] = Unit
  Fits (type ∷ types) (t ∷ terms) = ((is_var t ≡ true) ⊎ (type ≡ get_type t)) × Fits types terms
  Fits _ _ = ⊥

  fits_columns-Fits :
      (types : List TermType) (terms : List (Term R))
      → (length types == length terms) ≡ true
      → fits_columns types terms ≡ true
      → Fits types terms
  unfolding fits_columns
  fits_columns-Fits [] [] e h = tt
  fits_columns-Fits [] (t ∷ terms) e h = absurd (ground (arith, e))
  fits_columns-Fits (type ∷ types) [] e h = absurd (ground (arith, e))
  fits_columns-Fits (type ∷ types) (t ∷ terms) e h =
      let (first, rest) =
        and_true (is_var t || type_eq type (get_type t)) (fits_columns types terms) h in
      let here : (is_var t ≡ true) ⊎ (type ≡ get_type t) = elim (Bool-cases (is_var t)) [
        | inl variable ↦ inl variable
        | inr constant ↦ inr (type_eq_sound type (get_type t) (rw constant at first))
      ] in
      (here, fits_columns-Fits types terms (ground (arith, e)) rest)

  check_domains_terms-Fits :
      (types : List TermType) (terms : List (Term R)) (u : Unit)
      → check_domains_terms types terms ≡ ok u
      → Fits types terms
  unfolding check_domains_terms
  check_domains_terms-Fits types terms u h =
      let (both, returned) =
        if_ok (length types == length terms && fits_columns types terms) (ok tt) u
          Exception.invalid_input h in
      let (sizes, columns) =
        and_true (length types == length terms) (fits_columns types terms) both in
      fits_columns-Fits types terms sizes columns

  check_literal-Fits :
      (defs : List RelationDef) (l : Literal R) (d : RelationDef)
      → check_literal defs l ≡ ok d
      → (find_def defs l.predicate_symbol ≡ some d) × Fits d.types l.terms
  unfolding check_literal
  check_literal-Fits defs l d h = elim (Option-cases (find_def defs l.predicate_symbol)) [
    | inl unknown ↦ absurd (not_ok Exception.invalid_input d (rw (unknown, check_literal) at h))
    | inr (d', found) ↦
        let (u, fits, same) =
          bind_ok (check_domains_terms d'.types l.terms) (λ u. ok d') d
            (rw (found, check_literal) at h) in
        let e = ok_inj same in
        (
          found ∙ ap some e,
          subst (λ k. Fits k.types l.terms) e (check_domains_terms-Fits d'.types l.terms u fits),
        )
  ]

module _ {R : Type 0} (kb : KnowledgeBaseImpl R) (defs : List RelationDef) where
  -- A literal of another module fits a relation that is there; one of the module itself is a function or fits
  -- a relation of the module, and has no constraint.
  abbrev pub IsTyped : RuleLiteral R → Type 0
  IsTyped l =
      ((is_external l ≡ true)
        × ((r : StoredRelation) × (external_relation kb l ≡ ok r)
            × Fits r.col_domains l.literal.terms))
      ⊎ ((is_external l ≡ false)
          × (has_constraint l ≡ false)
          × ((is_function l ≡ true)
              ⊎ ((d : RelationDef) × (find_def defs l.literal.predicate_symbol ≡ some d)
                  × Fits d.types l.literal.terms)))

  check_external_literal-IsTyped :
      (l : RuleLiteral R) (m m' : VarDiff)
      → check_external_literal kb l m ≡ ok m'
      → (r : StoredRelation) × (external_relation kb l ≡ ok r) × Fits r.col_domains l.literal.terms
  unfolding check_external_literal
  check_external_literal-IsTyped l m m' e =
      let (r, found, e') = bind_ok (external_relation kb l) _ m' e in
      let (u, fits, e'') = bind_ok (check_domains_terms r.col_domains l.literal.terms) _ m' e' in
      (r, found, check_domains_terms-Fits r.col_domains l.literal.terms u fits)

  check_own_literal-IsTyped :
      (l : RuleLiteral R) (m m' : VarDiff)
      → check_own_literal defs l m ≡ ok m'
      → (has_constraint l ≡ false)
        × ((is_function l ≡ true)
            ⊎ ((d : RelationDef) × (find_def defs l.literal.predicate_symbol ≡ some d)
                × Fits d.types l.literal.terms))
  unfolding check_own_literal check_body_literal
  check_own_literal-IsTyped l m m' e = elim (Bool-cases (has_constraint l)) [
    | inl refused ↦ absurd (not_ok Exception.invalid_input m' (rw refused at e))
    | inr allowed ↦
        let (u, checked, e') = bind_ok (check_body_literal defs l) _ m' (rw allowed at e) in
        (allowed, body_literal (Bool-cases (is_function l)) u checked)
  ]
    where
      body_literal :
          ((is_function l ≡ true) ⊎ (is_function l ≡ false))
          → (u : Unit) → check_body_literal defs l ≡ ok u
          → (is_function l ≡ true)
            ⊎ ((d : RelationDef) × (find_def defs l.literal.predicate_symbol ≡ some d)
                × Fits d.types l.literal.terms)
      body_literal (inl function) u checked = inl function
      body_literal (inr relation) u checked =
          elim (Option-cases (find_def defs l.literal.predicate_symbol)) [
            | inl unknown ↦ absurd (
                not_ok Exception.invalid_input u
                  (rw (unknown, relation, check_body_literal) at checked))
            | inr (d', found) ↦
                let (d, fits, e) =
                  bind_ok (check_literal defs l.literal) (λ d. ok tt) u
                    (rw (found, check_body_literal) at checked) in
                let (known, columns) = check_literal-Fits defs l.literal d fits in
                inr (d, known, columns)
          ]

  check_rule_literal-IsTyped :
      (l : RuleLiteral R) (m m' : VarDiff) → check_rule_literal kb defs l m ≡ ok m' → IsTyped l
  unfolding check_rule_literal
  check_rule_literal-IsTyped l m m' e = elim (Bool-cases (is_external l)) [
    | inl external ↦
        let (r, found, fits) = check_external_literal-IsTyped l m m' (rw external at e) in
        inl (external, (r, found, fits))
    | inr own ↦
        let (allowed, typed) = check_own_literal-IsTyped l m m' (rw own at e) in
        inr (own, allowed, typed)
  ]

  check_literals-IsTyped :
      (body : List (RuleLiteral R)) (m m' : VarDiff)
      → check_literals kb defs body m ≡ ok m'
      → All IsTyped body
  unfolding check_literals
  check_literals-IsTyped [] m m' e = tt
  check_literals-IsTyped (l ∷ body) m m' e =
      let (n, first, rest) =
        bind_ok (check_rule_literal kb defs l m) (check_literals kb defs body) m' e in
      (check_rule_literal-IsTyped l m n first, check_literals-IsTyped body n m' rest)

  check_disjuncts-IsTyped :
      (disjuncts : List (RuleDisjunct R)) (m : VarDiff)
      → check_disjuncts kb defs disjuncts m ≡ ok tt
      → All (λ d. All IsTyped d.body) disjuncts
  unfolding check_disjuncts
  check_disjuncts-IsTyped [] m e = tt
  check_disjuncts-IsTyped (d ∷ disjuncts) m e =
      let (n, literals, e') = bind_ok (check_literals kb defs d.body m) _ tt e in
      let (u, functions, e'') = bind_ok (check_functions d.body n) _ tt e' in
      let (satisfied, rest) =
        if_ok (all_vars_satisfied n) (check_disjuncts kb defs disjuncts n) tt
          Exception.invalid_input e'' in
      (check_literals-IsTyped d.body m n literals, check_disjuncts-IsTyped disjuncts n rest)

  -- The head of a rule that is accepted is over a relation of its module. Each literal of its disjuncts is
  -- over a relation of the knowledge base, where it names another module, or is a function or over a
  -- relation of the module itself, and then has no constraint. The terms of the head and of the literals
  -- over relations are as many as the columns, and each is a variable or has the type of its column.
  pub check_rule-IsTyped :
      (rule : Rule R)
      → check_rule kb defs rule ≡ ok tt
      → ((d : RelationDef) × (find_def defs rule.head.predicate_symbol ≡ some d)
          × Fits d.types rule.head.terms)
        × All (λ d. All IsTyped d.body) rule.disjuncts
  unfolding check_rule
  check_rule-IsTyped rule e = elim (Option-cases (find_def defs rule.head.predicate_symbol)) [
    | inl unknown ↦ absurd (not_ok Exception.invalid_input tt (rw (unknown, check_rule) at e))
    | inr (d', found) ↦
        let (m, head, e') =
          bind_ok (calc_var_diff rule.head.terms d'.types [] false) _ tt
            (rw (found, check_rule) at e) in
        let (d, fits, e'') = bind_ok (check_literal defs rule.head) _ tt e' in
        let (known, columns) = check_literal-Fits defs rule.head d fits in
        ((d, known, columns), check_disjuncts-IsTyped rule.disjuncts m e'')
  ]
