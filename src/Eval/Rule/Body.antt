-- ===== src/Eval/Rule/Body.antt =====
-- The loop of the constructor of `EvaluateRuleWithoutDisjunction` and the run of what it makes, for
-- literals without unknown and a rule without predicates: the last table is described by the literals
-- of the whole body.
use mathlib.Core.Path.{subst}
use fovris.Prelude.{
  ℕ, suc, ◌==◌, ◌||◌, ◌≡◌, refl, sym, ◌∙◌, ap, Bool, true, false, List, [], ◌∷◌, All, arith,
  Bool-cases, inl, inr, any, ==_iff,
}
use fovris.Truth.{map_bool_to_truth_value}
use fovris.Truth.Set.{test, of_values}
use fovris.Kb.Term.{KbTerm}
use fovris.Kb.Tuple.{KbTuple}
use fovris.Kb.Literal.{KbLiteral, var_indices, contains_key, is_unsafe}
use fovris.Kb.Literal.VarIndices.{EachVar}
use fovris.Kb.Literal.Positions.{is_among, EachVar-contains_key}
use fovris.Kb.Relation.{FactsPool}
use fovris.Eval.Sort.{Sorter}
use fovris.Eval.Projection.Instance.{CoversJoin}
use fovris.Eval.Projection.Result.{join_project_terms-join_projection}
use fovris.Eval.Projection.Present.{
  filter, filter-All, present_join, join_projection-present, CoversJoin-present,
}
use fovris.Eval.Subgoal.{next_subgoal, evaluate_without_unknown}
use fovris.Eval.Variables.Among.{Holds}
use fovris.Eval.Rule.Scope.{EachVar-at, Holds-filter, filter-among}
use fovris.Eval.Rule.Table.{Spec, Describes, IsProper, NextSpec}
use fovris.Eval.Rule.Joined.{IsScoped, without_unknown-Describes}
use fovris.Eval.Rule.Scoped.{NextSpec-IsScoped}

-- What all literals of a body ask for, one after the other.
abbrev pub body_spec : Spec → List (KbLiteral × FactsPool) → Spec
body_spec S [] = S
body_spec S ((r, facts) ∷ body) = body_spec (NextSpec S r facts) body

next_subgoal-present :
    (l r : KbLiteral) (wanted : Bool) (dest : List KbTerm)
    → next_subgoal l r wanted dest ≡ next_subgoal l r wanted (filter (present_join l r) dest)
unfolding next_subgoal
next_subgoal-present l r wanted dest = rw (← join_projection-present l r dest) refl

terms-CoversJoin :
    (l r : KbLiteral) (wanted : Bool) (ts : List KbTerm)
    → CoversJoin l r ts
    → (next_subgoal l r wanted ts).result_relation.terms ≡ ts
unfolding next_subgoal
terms-CoversJoin l r wanted ts c = join_project_terms-join_projection l r ts c

-- The terms of the result relation are the variables that are present.
next-terms :
    (l r : KbLiteral) (wanted : Bool) (dest : List KbTerm)
    → (next_subgoal l r wanted dest).result_relation.terms ≡ filter (present_join l r) dest
next-terms l r wanted dest =
    ap (λ g. g.result_relation.terms) (next_subgoal-present l r wanted dest)
    ∙ terms-CoversJoin l r wanted (filter (present_join l r) dest) (CoversJoin-present l r dest)

next-is_unsafe :
    (l r : KbLiteral) (dest : List KbTerm)
    → is_unsafe (next_subgoal l r true dest).result_relation ≡ false
unfolding next_subgoal is_unsafe of_values test map_bool_to_truth_value
next-is_unsafe l r dest = refl

-- A literal and its facts are fit to be joined.
abbrev pub IsFit : List KbTerm → KbLiteral × FactsPool → Type 0
IsFit vars (r, facts) = (is_unsafe r ≡ false) × Holds vars r × IsProper r facts

-- The temporary relation and its table, where the tables of the rule keep the variables `vars`.
abbrev pub IsTable : List KbTerm → Spec → KbLiteral → List KbTuple → Type 0
IsTable vars S tmp_relation tmp =
    (is_unsafe tmp_relation ≡ false)
    × Holds vars tmp_relation
    × IsScoped S tmp_relation.terms
    × Describes S tmp_relation.terms true tmp

-- A variable of a list of variables is one of a relation with these terms.
pub among-contains_key :
    (l : KbLiteral) (v : ℕ)
    → All (λ t. t.is_var ≡ true) l.terms
    → is_among l.terms v ≡ true
    → contains_key (var_indices l) v ≡ true
among-contains_key l v a h = go l.terms 0 a (EachVar-contains_key l) h
  where
    go :
        (ts : List KbTerm) (i : ℕ)
        → All (λ t. t.is_var ≡ true) ts
        → EachVar (λ v _. contains_key (var_indices l) v ≡ true) ts i
        → is_among ts v ≡ true
        → contains_key (var_indices l) v ≡ true
    go [] i a c h = cc
    go (t ∷ ts) i a c h = elim (Bool-cases (v == t.val)) [
      | inl e ↦ rw ((==_iff v t.val).0 e) (c.0 a.0)
      | inr e ↦ go ts (suc i) a.1 c.1 (rw e at h)
    ]

-- One more table, whatever it is projected to.
described-CoversJoin :
    (sorter : Sorter) (S : Spec) (l r : KbLiteral) (wanted : Bool) (dest : List KbTerm)
    (tmp : List KbTuple) (facts : FactsPool)
    → IsScoped S l.terms
    → Describes S l.terms true tmp
    → IsProper r facts
    → Describes
        (NextSpec S r facts)
        (filter (present_join l r) dest)
        wanted
        (evaluate_without_unknown sorter (next_subgoal l r wanted dest) tmp facts)
described-CoversJoin sorter S l r wanted dest tmp facts scoped table proper =
    subst
      (λ g.
        Describes (NextSpec S r facts) (filter (present_join l r) dest) wanted
          (evaluate_without_unknown sorter g tmp facts))
      (sym (next_subgoal-present l r wanted dest))
      (without_unknown-Describes sorter S l r wanted (filter (present_join l r) dest) tmp facts
        (CoversJoin-present l r dest) scoped table proper)

-- One more table of the body.
pub next-IsTable :
    (sorter : Sorter) (vars : List KbTerm) (S : Spec) (tmp_relation r : KbLiteral)
    (tmp : List KbTuple) (facts : FactsPool)
    → All (λ t. t.is_var ≡ true) vars
    → IsTable vars S tmp_relation tmp
    → IsFit vars (r, facts)
    → IsTable vars
        (NextSpec S r facts)
        (next_subgoal tmp_relation r true vars).result_relation
        (evaluate_without_unknown sorter (next_subgoal tmp_relation r true vars) tmp facts)
next-IsTable sorter vars S l r tmp facts a (safe, h, scoped, table) (r_safe, k, proper) =
    let terms = sym (next-terms l r true vars) in
    (
      next-is_unsafe l r vars,
      Holds-filter (present_join l r) vars (next_subgoal l r true vars).result_relation (sym terms),
      subst (IsScoped (NextSpec S r facts)) terms
          (NextSpec-IsScoped S l r facts vars a h k scoped proper),
      subst
          (λ ts.
            Describes (NextSpec S r facts) ts true
              (evaluate_without_unknown sorter (next_subgoal l r true vars) tmp facts))
          terms (described-CoversJoin sorter S l r true vars tmp facts scoped table proper),
    )

-- Every variable of the terms stands in the temporary relation or in a literal that is left.
abbrev pub is_reached : KbLiteral → List KbLiteral → ℕ → Bool
is_reached tmp_relation ls v =
    contains_key (var_indices tmp_relation) v || any (λ l. contains_key (var_indices l) v) ls

abbrev pub Reaches : KbLiteral → List KbLiteral → List KbTerm → Type 0
Reaches tmp_relation ls = All (λ t. t.is_var ≡ true → is_reached tmp_relation ls t.val ≡ true)

next-contains_key :
    (vars : List KbTerm) (l r : KbLiteral) (v : ℕ)
    → All (λ t. t.is_var ≡ true) vars
    → Holds vars l
    → Holds vars r
    → (contains_key (var_indices l) v || contains_key (var_indices r) v) ≡ true
    → contains_key (var_indices (next_subgoal l r true vars).result_relation) v ≡ true
next-contains_key vars l r v a h k c =
    let terms = next-terms l r true vars in
    let kept : is_among vars v ≡ true = elim (Bool-cases (contains_key (var_indices l) v)) [
      | inl e ↦ EachVar-at (λ v. is_among vars v ≡ true) l v h e
      | inr e ↦ EachVar-at (λ v. is_among vars v ≡ true) r v k (rw e at c)
    ] in
    among-contains_key (next_subgoal l r true vars).result_relation v
      (rw terms (filter-All (λ t. t.is_var ≡ true) (present_join l r) vars a))
      (rw terms (filter-among (present_join l r) vars v a (λ t e q. rw (e, q) c) kept))

pub Reaches-next :
    (vars : List KbTerm) (l r : KbLiteral) (ls : List KbLiteral) (ts : List KbTerm)
    → All (λ t. t.is_var ≡ true) vars
    → Holds vars l
    → Holds vars r
    → Reaches l (r ∷ ls) ts
    → Reaches (next_subgoal l r true vars).result_relation ls ts
Reaches-next vars l r ls [] a h k c = tt
Reaches-next vars l r ls (t ∷ ts) a h k c =
    (λ e. step t.val (c.0 e), Reaches-next vars l r ls ts a h k c.1)
  where
    step :
        (v : ℕ)
        → is_reached l (r ∷ ls) v ≡ true
        → is_reached (next_subgoal l r true vars).result_relation ls v ≡ true
    step v q =
        elim (Bool-cases (contains_key (var_indices l) v || contains_key (var_indices r) v)) [
          | inl e ↦ rw (next-contains_key vars l r v a h k e) refl
          | inr e ↦ ground arith
        ]

pub Reaches-CoversJoin :
    (l r : KbLiteral) (ts : List KbTerm) → Reaches l (r ∷ []) ts → CoversJoin l r ts
Reaches-CoversJoin l r [] h = tt
Reaches-CoversJoin l r (t ∷ ts) h = (
  λ e. elim (Bool-cases (contains_key (var_indices l) t.val)) [
    | inl c ↦ inl c
    | inr c ↦ inr (ground (arith, h.0))
  ],
  Reaches-CoversJoin l r ts h.1,
)
