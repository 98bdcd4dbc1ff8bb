-- ===== src/Eval/Rule/Scoped.antt =====
-- The tables of a rule stay scoped: the terms of the next table hold all variables of the literals
-- joined, and no null.
use fovris.Prelude.{
  ℕ, ◌||◌, ◌≡◌, ◌⊎◌, refl, ◌∙◌, Bool, true, false, List, [], ◌∷◌, map, All, Some, Some-map,
  Some-All, inl, inr, length,
}
use fovris.Truth.{conjunction, resolve_to_true_or_incons}
use fovris.Kb.Term.{KbTerm, is_null}
use fovris.Kb.Tuple.{KbTuple}
use fovris.Kb.Literal.{KbLiteral, var_indices, contains_key}
use fovris.Kb.Relation.{FactsPool}
use fovris.Eval.Selection.Matching.{value_of}
use fovris.Eval.Subgoal.Selected.{HasValue}
use fovris.Eval.Projection.Present.{filter, filter-All, filter-holds, present, present_join}
use fovris.Eval.Variables.Among.{Holds}
use fovris.Eval.Rule.Scope.{
  non_null, non_null-EachVar, non_null-map, EachVar-at, Holds-determines, filter-Holds,
}
use fovris.Eval.Rule.Table.{Spec, IsProper, FirstSpec, NextSpec}
use fovris.Eval.Rule.Joined.{IsScoped}

abbrev IsNonNull : (ℕ → ℕ) → KbTerm → Type 0
IsNonNull ρ t = is_null (ρ t.val) ≡ false

-- An instance without null gives values that are not null to the variables of its literal.
instance-non_null :
    (ρ : ℕ → ℕ) (l : KbLiteral) (v : ℕ)
    → non_null (map (value_of ρ) l.terms) ≡ true
    → contains_key (var_indices l) v ≡ true
    → is_null (ρ v) ≡ false
instance-non_null ρ l v h c =
    EachVar-at (λ v. is_null (ρ v) ≡ false) l v (non_null-EachVar ρ l.terms 0 h) c

or_cases : (a b : Bool) → (a || b) ≡ true → (a ≡ true) ⊎ (b ≡ true)
or_cases true b h = inl refl
or_cases false b h = inr h

present-IsNonNull :
    (ρ : ℕ → ℕ) (l : KbLiteral) (ts : List KbTerm)
    → non_null (map (value_of ρ) l.terms) ≡ true
    → All (λ t. t.is_var ≡ true) ts
    → All (λ t. present l t ≡ true) ts
    → All (IsNonNull ρ) ts
present-IsNonNull ρ l [] n a h = tt
present-IsNonNull ρ l (t ∷ ts) n a h =
    (instance-non_null ρ l t.val n (rw a.0 at h.0), present-IsNonNull ρ l ts n a.1 h.1)

present_join-IsNonNull :
    (ρ : ℕ → ℕ) (l r : KbLiteral) (ts : List KbTerm)
    → non_null (map (value_of ρ) l.terms) ≡ true
    → non_null (map (value_of ρ) r.terms) ≡ true
    → All (λ t. t.is_var ≡ true) ts
    → All (λ t. present_join l r t ≡ true) ts
    → All (IsNonNull ρ) ts
present_join-IsNonNull ρ l r [] n m a h = tt
present_join-IsNonNull ρ l r (t ∷ ts) n m a h = (
  elim (or_cases (contains_key (var_indices l) t.val) (contains_key (var_indices r) t.val)
      (rw a.0 at h.0)) [
        | inl c ↦ instance-non_null ρ l t.val n c
        | inr c ↦ instance-non_null ρ r t.val m c
      ],
  present_join-IsNonNull ρ l r ts n m a.1 h.1,
)

abbrev At : KbLiteral → (ℕ → ℕ) → (KbTuple → Type 0) → KbTuple → Type 0
At l ρ Q b = HasValue l b × (map (value_of ρ) l.terms ≡ b.terms) × Q b

-- A literal of which a proper fact is an instance has an instance without null.
found-non_null :
    (ρ : ℕ → ℕ) (l : KbLiteral) (facts : FactsPool) (Q : KbTuple → Type 0)
    → IsProper l facts
    → Some (At l ρ Q) facts
    → non_null (map (value_of ρ) l.terms) ≡ true
found-non_null ρ l facts Q proper s =
    let (b, h, (val, x, q)) =
      Some-All (At l ρ Q) (λ b. (length l.terms ≡ length b.terms) × (non_null b.terms ≡ true)) facts
        proper s in
    rw x h.1

found-agree :
    (ρ σ : ℕ → ℕ) (l : KbLiteral) (facts : FactsPool) (Q : KbTuple → Type 0)
    → map (value_of ρ) l.terms ≡ map (value_of σ) l.terms
    → Some (At l σ Q) facts
    → Some (At l ρ Q) facts
found-agree ρ σ l facts Q e s =
    Some-map (At l σ Q) (At l ρ Q) facts (λ b (val, x, q). (val, e ∙ x, q)) s

pub FirstSpec-IsScoped :
    (l : KbLiteral) (facts : FactsPool) (vars : List KbTerm)
    → All (λ t. t.is_var ≡ true) vars
    → Holds vars l
    → IsProper l facts
    → IsScoped (FirstSpec l facts) (filter (present l) vars)
FirstSpec-IsScoped l facts vars a h proper =
    let a' = filter-All (λ t. t.is_var ≡ true) (present l) vars a in
    let h' : Holds (filter (present l) vars) l =
      filter-Holds (present l) vars l a (λ t e c. rw e c) h in
    (
      λ ρ σ v e s.
          found-agree ρ σ l facts (λ b. v ≡ b.value)
            (Holds-determines (filter (present l) vars) l ρ σ a' h' e) s,
      λ ρ v s. non_null-map ρ (filter (present l) vars) a' (
          present-IsNonNull ρ l (filter (present l) vars)
            (found-non_null ρ l facts (λ b. v ≡ b.value) proper s) a'
            (filter-holds (present l) vars)),
    )

pub NextSpec-IsScoped :
    (S : Spec) (l r : KbLiteral) (facts : FactsPool) (vars : List KbTerm)
    → All (λ t. t.is_var ≡ true) vars
    → Holds vars l
    → Holds vars r
    → IsScoped S l.terms
    → IsProper r facts
    → IsScoped (NextSpec S r facts) (filter (present_join l r) vars)
NextSpec-IsScoped S l r facts vars a h k scoped proper =
    let vars' = filter (present_join l r) vars in
    let a' = filter-All (λ t. t.is_var ≡ true) (present_join l r) vars a in
    let h' : Holds vars' l = filter-Holds (present_join l r) vars l a (λ t e c. rw (e, c) refl) h in
    let k' : Holds vars' r =
      filter-Holds (present_join l r) vars r a
        (λ t e c.
          rw e
            (or_right (contains_key (var_indices l) t.val) (contains_key (var_indices r) t.val) c))
        k in
    (
      λ ρ σ w e (v, s, f). (
        v,
        scoped.0 ρ σ v (Holds-determines vars' l ρ σ a' h' e) s,
        found-agree ρ σ r facts (λ b. w ≡ conjunction v (resolve_to_true_or_incons b.value))
            (Holds-determines vars' r ρ σ a' k' e) f,
      ),
      λ ρ w (v, s, f). non_null-map ρ vars' a' (
          present_join-IsNonNull ρ l r vars' (scoped.1 ρ v s)
            (found-non_null ρ r facts (λ b. w ≡ conjunction v (resolve_to_true_or_incons b.value))
              proper f)
            a' (filter-holds (present_join l r) vars)),
    )
  where
    or_right : (b c : Bool) → c ≡ true → (b || c) ≡ true
    or_right true c h = refl
    or_right false c h = h
