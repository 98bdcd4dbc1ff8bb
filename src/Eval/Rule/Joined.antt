-- ===== src/Eval/Rule/Joined.antt =====
-- The table of one more literal without unknown, from that of the literals before it.
use mathlib.Core.Logic.{∥∥₁_map, ∥∥₁_elim, ∥∥₁_prop}
use mathlib.Core.Bool.{So-prop}
use fovris.Prelude.{
  ℕ, ◌==◌, ◌≡◌, refl, sym, ◌∙◌, ap, Bool, true, List, map, Some, Some-map, Some-collect,
  Some-member, member-Some, member-All, length, ==_iff,
}
use fovris.Truth.{TruthValue, conjunction, resolve_truth_value, resolve_to_true_or_incons}
use fovris.Kb.Term.{KbTerm}
use fovris.Kb.Tuple.{KbTuple}
use fovris.Kb.Literal.{KbLiteral}
use fovris.Kb.Relation.{FactsPool}
use fovris.Eval.Selection.{selection, selectable}
use fovris.Eval.Selection.Matching.{value_of, selectable_iff, length-map}
use fovris.Eval.Projection.Instance.{CoversJoin}
use fovris.Eval.Join.{make_join, left_indices, right_indices}
use fovris.Eval.Sort.{Sorter}
use fovris.Eval.Subgoal.{next_subgoal, evaluate_without_unknown}
use fovris.Eval.Subgoal.Selected.{HasValue, IsInstance}
use fovris.Eval.Subgoal.Answers.{Derives, without_unknown_iff}
use fovris.Eval.Join.Keys.{no_null}
use fovris.Eval.Rule.Scope.{non_null, no_null-non_null}
use fovris.Eval.Rule.Table.{
  answer, Spec, Describes, IsProper, NextSpec, IsProper-length, IsProper-NoNull,
}

-- The description of a table says the same of assignments that agree on its terms, and none of its
-- terms is null.
abbrev pub IsScoped : Spec → List KbTerm → Type 0
IsScoped S ts =
    ((ρ σ : ℕ → ℕ) (v : TruthValue) → map (value_of ρ) ts ≡ map (value_of σ) ts → S σ v → S ρ v)
    × ((ρ : ℕ → ℕ) (v : TruthValue) → S ρ v → non_null (map (value_of ρ) ts) ≡ true)

-- A tuple of the table, by what it comes from.
abbrev From : Spec → List KbTerm → KbTuple → Type 0
From S ts a = (ρ : ℕ → ℕ) × (v : TruthValue) × S ρ v × (a ≡ answer (map (value_of ρ) ts) v)

From-IsInstance : (S : Spec) (l : KbLiteral) (a : KbTuple) → ∥ From S l.terms a ∥₁ → IsInstance l a
From-IsInstance S l a t =
    let same_length : (length l.terms == length a.terms) ≡ true =
      ∥∥₁_elim t (So-prop _) (λ (ρ, v, s, e).
        (==_iff (length l.terms) (length a.terms)).1
          (length-map ρ l.terms ∙ sym (ap (λ z. length z.terms) e))) in
    let len = (==_iff (length l.terms) (length a.terms)).0 same_length in
    let select = selectable_iff l a.terms len in
    let sel : selectable (selection l) a.terms ≡ true =
      ∥∥₁_elim t (So-prop _) (λ (ρ, v, s, e). select.1 (ρ, sym (ap (λ z. z.terms) e))) in
    select.0 sel

From-non_null :
    (S : Spec) (ts : List KbTerm) (a : KbTuple)
    → IsScoped S ts
    → ∥ From S ts a ∥₁
    → non_null a.terms ≡ true
From-non_null S ts a scoped t =
    ∥∥₁_elim t (So-prop _) (λ (ρ, v, s, e). rw (ap (λ z. z.terms) e) (scoped.1 ρ v s))

abbrev NextAt : KbLiteral → TruthValue → (ℕ → ℕ) → TruthValue → KbTuple → Type 0
NextAt r v ρ w b =
    HasValue r b
    × (map (value_of ρ) r.terms ≡ b.terms)
    × (w ≡ conjunction v (resolve_to_true_or_incons b.value))

abbrev Found : Spec → List KbTerm → Bool → TruthValue → KbTuple → Type 0
Found S dest wanted v u =
    (ρ : ℕ → ℕ) × (w : TruthValue) × S ρ v
    × (u ≡ answer (map (value_of ρ) dest) (resolve_truth_value w wanted))

-- The answers that come from one tuple of the table.
From-tuple :
    (S : Spec) (l r : KbLiteral) (wanted : Bool) (dest : List KbTerm) (facts : FactsPool)
    (a u : KbTuple)
    → IsScoped S l.terms
    → From S l.terms a
    → Some (λ b. HasValue r b × Derives l r wanted dest a b u) facts
    → (ρ : ℕ → ℕ) × (w : TruthValue) × NextSpec S r facts ρ w
      × (u ≡ answer (map (value_of ρ) dest) (resolve_truth_value w wanted))
From-tuple S l r wanted dest facts a u scoped (σ, v, s, ea) k =
    let collect =
      Some-collect {X = Found S dest wanted v u} (λ b. HasValue r b × Derives l r wanted dest a b u)
        (λ x b. NextAt r v x.0 x.1 b) facts
        (λ b (val, (ρ, x, y, e)).
          let w = conjunction v (resolve_to_true_or_incons b.value) in
          (
            (
              ρ,
              w,
              scoped.0 ρ σ v (x ∙ ap (λ z. z.terms) ea) s,
              e
                  ∙ ap
                      (λ z. answer (map (value_of ρ) dest) (
                        resolve_truth_value
                          (conjunction z.value (resolve_to_true_or_incons b.value)) wanted))
                      ea,
            ),
            (val, y, refl),
          )) in
    let ((ρ, w, s', e), found) = collect k in (ρ, w, (v, s', found), e)

-- The table of the literals before is described by `S`, and that of the next by `NextSpec S`.
pub without_unknown-Describes :
    (sorter : Sorter) (S : Spec) (l r : KbLiteral) (wanted : Bool) (dest : List KbTerm)
    (tmp : List KbTuple) (facts : FactsPool)
    → CoversJoin l r dest
    → IsScoped S l.terms
    → Describes S l.terms true tmp
    → IsProper r facts
    → Describes
        (NextSpec S r facts)
        dest
        wanted
        (evaluate_without_unknown sorter (next_subgoal l r wanted dest) tmp facts)
unfolding resolve_truth_value
without_unknown-Describes sorter S l r wanted dest tmp facts c scoped table proper u =
    let answers =
      without_unknown_iff sorter l r wanted dest tmp facts u c
        (member-All (IsInstance l) tmp (λ a m. From-IsInstance S l a ((table a).0 m)))
        (IsProper-length r facts proper)
        (member-All (λ t. no_null (left_indices (make_join l r)) t.terms ≡ true) tmp
          (λ a m.
            no_null-non_null (left_indices (make_join l r)) a.terms
              (From-non_null S l.terms a scoped ((table a).0 m))))
        (IsProper-NoNull r (right_indices (make_join l r)) facts proper) in
    (
      λ h. ∥∥₁_elim (answers.0 h) ∥∥₁_prop (λ s.
          let (a, m, k) =
            Some-member (λ a. Some (λ b. HasValue r b × Derives l r wanted dest a b u) facts) tmp
              s in
          ∥∥₁_map ((table a).0 m) (λ f. From-tuple S l r wanted dest facts a u scoped f k)),
      λ h. answers.1 (
          ∥∥₁_elim h ∥∥₁_prop (λ (ρ, w, (v, s, k), e).
            let a = answer (map (value_of ρ) l.terms) v in
            member-Some (λ a. Some (λ b. HasValue r b × Derives l r wanted dest a b u) facts) tmp a
              ((table a).1 ∣ (ρ, v, s, refl) ∣₁)
              (Some-map (NextAt r v ρ w) (λ b. HasValue r b × Derives l r wanted dest a b u) facts
                (λ b (val, y, q). (
                  val,
                  (
                    ρ,
                    refl,
                    y,
                    e ∙ ap (λ z. answer (map (value_of ρ) dest) (resolve_truth_value z wanted)) q,
                  ),
                ))
                k))),
    )
