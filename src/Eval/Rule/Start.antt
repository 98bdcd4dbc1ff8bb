-- ===== src/Eval/Rule/Start.antt =====
-- The subgoal of the first literal, with the variables of the rule for its terms.
use mathlib.Core.Path.{subst}
use fovris.Prelude.{
  ℕ, ◌≡◌, refl, sym, ◌∙◌, ap, Bool, true, false, List, [], ◌∷◌, All, arith, Bool-cases, inl, inr,
  any,
}
use fovris.Truth.Set.{test, of_values}
use fovris.Truth.{map_bool_to_truth_value}
use fovris.Kb.Term.{KbTerm}
use fovris.Kb.Literal.{KbLiteral, var_indices, contains_key, is_unsafe}
use fovris.Kb.Literal.Positions.{is_among}
use fovris.Kb.Relation.{FactsPool}
use fovris.Eval.Projection.Instance.{Covers}
use fovris.Eval.Projection.Result.{project_terms-projection}
use fovris.Eval.Projection.Present.{filter, filter-All, present, projection-present, Covers-present}
use fovris.Eval.Subgoal.{first_subgoal, evaluate_first}
use fovris.Eval.Variables.Among.{Holds}
use fovris.Eval.Rule.Scope.{EachVar-at, Holds-filter, filter-among}
use fovris.Eval.Rule.Table.{Describes, FirstSpec, evaluate_first-Describes}
use fovris.Eval.Rule.Joined.{IsScoped}
use fovris.Eval.Rule.Scoped.{FirstSpec-IsScoped}
use fovris.Eval.Rule.Body.{IsFit, IsTable, among-contains_key, is_reached, Reaches}

first_subgoal-present :
    (l : KbLiteral) (wanted : Bool) (dest : List KbTerm)
    → first_subgoal l wanted dest ≡ first_subgoal l wanted (filter (present l) dest)
unfolding first_subgoal
first_subgoal-present l wanted dest = rw (← projection-present l dest) refl

terms-Covers :
    (l : KbLiteral) (wanted : Bool) (ts : List KbTerm)
    → Covers l ts
    → (first_subgoal l wanted ts).result_relation.terms ≡ ts
unfolding first_subgoal
terms-Covers l wanted ts c = project_terms-projection l ts c

first-terms :
    (l : KbLiteral) (wanted : Bool) (dest : List KbTerm)
    → (first_subgoal l wanted dest).result_relation.terms ≡ filter (present l) dest
first-terms l wanted dest =
    ap (λ g. g.result_relation.terms) (first_subgoal-present l wanted dest)
    ∙ terms-Covers l wanted (filter (present l) dest) (Covers-present l dest)

first-is_unsafe :
    (l : KbLiteral) (dest : List KbTerm)
    → is_unsafe (first_subgoal l true dest).result_relation ≡ false
unfolding first_subgoal is_unsafe of_values test map_bool_to_truth_value
first-is_unsafe l dest = refl

pub first-IsTable :
    (vars : List KbTerm) (l : KbLiteral) (facts : FactsPool)
    → All (λ t. t.is_var ≡ true) vars
    → IsFit vars (l, facts)
    → IsTable vars
        (FirstSpec l facts)
        (first_subgoal l true vars).result_relation
        (evaluate_first (first_subgoal l true vars) facts)
first-IsTable vars l facts a (safe, h, proper) =
    let terms = sym (first-terms l true vars) in
    (
      first-is_unsafe l vars,
      Holds-filter (present l) vars (first_subgoal l true vars).result_relation (sym terms),
      subst (IsScoped (FirstSpec l facts)) terms (FirstSpec-IsScoped l facts vars a h proper),
      subst
          (λ ts.
            Describes (FirstSpec l facts) ts true
              (evaluate_first (first_subgoal l true vars) facts))
          terms
          (subst
            (λ g.
              Describes (FirstSpec l facts) (filter (present l) vars) true (evaluate_first g facts))
            (sym (first_subgoal-present l true vars))
            (evaluate_first-Describes l true (filter (present l) vars) facts (Covers-present l vars)
              proper)),
    )

first-contains_key :
    (vars : List KbTerm) (l : KbLiteral) (v : ℕ)
    → All (λ t. t.is_var ≡ true) vars
    → Holds vars l
    → contains_key (var_indices l) v ≡ true
    → contains_key (var_indices (first_subgoal l true vars).result_relation) v ≡ true
first-contains_key vars l v a h c =
    let terms = first-terms l true vars in
    among-contains_key (first_subgoal l true vars).result_relation v
      (rw terms (filter-All (λ t. t.is_var ≡ true) (present l) vars a))
      (rw terms (
        filter-among (present l) vars v a (λ t e q. rw (e, q) c)
          (EachVar-at (λ v. is_among vars v ≡ true) l v h c)))

-- Every variable of the terms stands in a literal.
abbrev pub AppearsIn : List KbLiteral → List KbTerm → Type 0
AppearsIn ls = All (λ t. t.is_var ≡ true → any (λ l. contains_key (var_indices l) t.val) ls ≡ true)

pub Reaches-first :
    (vars : List KbTerm) (l : KbLiteral) (ls : List KbLiteral) (ts : List KbTerm)
    → All (λ t. t.is_var ≡ true) vars
    → Holds vars l
    → AppearsIn (l ∷ ls) ts
    → Reaches (first_subgoal l true vars).result_relation ls ts
Reaches-first vars l ls [] a h c = tt
Reaches-first vars l ls (t ∷ ts) a h c =
    (λ e. step t.val (c.0 e), Reaches-first vars l ls ts a h c.1)
  where
    step :
        (v : ℕ)
        → any (λ l. contains_key (var_indices l) v) (l ∷ ls) ≡ true
        → is_reached (first_subgoal l true vars).result_relation ls v ≡ true
    step v q = elim (Bool-cases (contains_key (var_indices l) v)) [
      | inl e ↦ rw (first-contains_key vars l v a h e) refl
      | inr e ↦ ground arith
    ]

pub AppearsIn-Covers : (l : KbLiteral) (ts : List KbTerm) → AppearsIn (l ∷ []) ts → Covers l ts
AppearsIn-Covers l [] h = tt
AppearsIn-Covers l (t ∷ ts) h = (λ e. ground (arith, h.0), AppearsIn-Covers l ts h.1)
