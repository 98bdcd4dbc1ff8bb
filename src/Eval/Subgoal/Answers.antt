-- ===== src/Eval/Subgoal/Answers.antt =====
-- What the subgoal of a literal without unknown answers: the instances of its destination under the
-- assignments that satisfy the literals before it and the literal itself.
use mathlib.Core.List.{Mem}
use mathlib.Core.List.Perm
use mathlib.Core.Logic.{∥∥₁_map}
use fovris.Prelude.{
  ℕ, ◌≡◌, ◌↔◌, refl, sym, ◌∙◌, ap, Bool, true, List, map, All, Some, Some-cong, Mem-Some, length,
}
use fovris.Truth.{TruthValue, conjunction, resolve_truth_value, resolve_to_true_or_incons}
use fovris.Kb.Term.{KbTerm, Terms}
use fovris.Kb.Tuple.{KbTuple}
use fovris.Kb.Literal.{KbLiteral}
use fovris.Kb.Relation.{FactsPool}
use fovris.Eval.Selection.{selection}
use fovris.Eval.Selection.Matching.{value_of}
use fovris.Eval.Projection.{join_projection, join_project}
use fovris.Eval.Projection.Instance.{CoversJoin, join_project_instance}
use fovris.Eval.Join.{make_join, left_indices, right_indices, joinable_without_null}
use fovris.Eval.Join.Agreement.{joinable_iff}
use fovris.Eval.Merge.Nested.{nested}
use fovris.Eval.Sort.{Sorter}
use fovris.Eval.Subgoal.{
  next_subgoal, reference, select_with_value_match, select_kb_tuple_ref, joined, emit_pair,
  evaluate_without_unknown,
}
use fovris.Eval.Subgoal.Selected.{HasValue, IsInstance, select-Some, select_with_value_match_iff}
use fovris.Eval.Merge.Members.{nested-Some}
use fovris.Eval.Subgoal.Meaning.{NoNull, without_unknown-nested}

-- One assignment turns the two literals into the tuple and the fact, and the destination into the
-- terms of the answer, whose value is the conjunction of theirs.
abbrev pub Derives :
    KbLiteral → KbLiteral → Bool → List KbTerm → KbTuple → KbTuple → KbTuple → Type 0
Derives l r wanted dest a b u =
    (ρ : ℕ → ℕ) × (map (value_of ρ) l.terms ≡ a.terms)
    × (map (value_of ρ) r.terms ≡ b.terms)
    × (u ≡ record {
      terms = map (value_of ρ) dest;
      value = resolve_truth_value (conjunction a.value (resolve_to_true_or_incons b.value)) wanted;
    })

abbrev answer : Terms → TruthValue → KbTuple
answer ts v = record { terms = ts; value = v }

projected :
    (ρ : ℕ → ℕ) (l r : KbLiteral) (dest : List KbTerm) (a b : KbTuple)
    → CoversJoin l r dest
    → map (value_of ρ) l.terms ≡ a.terms
    → map (value_of ρ) r.terms ≡ b.terms
    → join_project (join_projection l r dest) a.terms b.terms ≡ map (value_of ρ) dest
projected ρ l r dest a b c x y = rw (← x) (rw (← y) (join_project_instance ρ l r dest c))

-- The tuple and the selected fact join, and the answer is their projection.
abbrev Joined : KbLiteral → KbLiteral → Bool → List KbTerm → KbTuple → KbTuple → KbTuple → Type 0
Joined l r wanted dest u a b =
    (joinable_without_null (make_join l r) a.terms b.terms ≡ true)
    × (u ≡ joined conjunction (next_subgoal l r wanted dest) a b)

-- At one tuple and one fact.
pair_iff :
    (l r : KbLiteral) (wanted : Bool) (dest : List KbTerm) (a b u : KbTuple)
    → CoversJoin l r dest
    → IsInstance l a
    → IsInstance r b
    → Joined l r wanted dest u a (reference b) ↔ Derives l r wanted dest a b u
unfolding next_subgoal
pair_iff l r wanted dest a b u c (σ, p) (τ, q) =
    let v = resolve_truth_value (conjunction a.value (resolve_to_true_or_incons b.value)) wanted in
    (
      λ (j, e).
          let (ρ, x, y) = (joinable_iff σ τ l r).0 (rw p (rw q j)) in
          (
            ρ,
            x ∙ p,
            y ∙ q,
            e ∙ ap (λ ts. answer ts v) (projected ρ l r dest a b c (x ∙ p) (y ∙ q)),
          ),
      λ (ρ, x, y, e). (
        rw (← x) (rw (← y) ((joinable_iff ρ ρ l r).1 (ρ, refl, refl))),
        e ∙ sym (ap (λ ts. answer ts v) (projected ρ l r dest a b c x y)),
      ),
    )

-- At one tuple of the temporary table and one fact of the relation.
fact_iff :
    (l r : KbLiteral) (wanted : Bool) (dest : List KbTerm) (a u : KbTuple) (b : KbTuple)
    → CoversJoin l r dest
    → IsInstance l a
    → length r.terms ≡ length b.terms
    → ((select_with_value_match (selection r) b ≡ true) × Joined l r wanted dest u a (reference b))
      ↔ (HasValue r b × Derives l r wanted dest a b u)
fact_iff l r wanted dest a u b c i h =
    let sel = select_with_value_match_iff r b h in
    (
      λ (s, j). let (v, k) = sel.0 s in (v, (pair_iff l r wanted dest a b u c i k).0 j),
      λ (v, (ρ, x, y, e)).
          (sel.1 (v, (ρ, y)), (pair_iff l r wanted dest a b u c i (ρ, y)).1 (ρ, x, y, e)),
    )

facts_iff :
    (l r : KbLiteral) (wanted : Bool) (dest : List KbTerm) (facts : FactsPool) (a u : KbTuple)
    → CoversJoin l r dest
    → All (λ b. length r.terms ≡ length b.terms) facts
    → IsInstance l a
    → Some (Joined l r wanted dest u a) (select_kb_tuple_ref (selection r) facts)
      ↔ Some (λ b. HasValue r b × Derives l r wanted dest a b u) facts
facts_iff l r wanted dest facts a u c arity i =
    let select = select-Some (Joined l r wanted dest u a) r facts in
    let cong =
      Some-cong (λ b. length r.terms ≡ length b.terms) _ _ facts
        (λ b h. fact_iff l r wanted dest a u b c i h) arity in
    (λ h. cong.0 (select.0 h), λ h. select.1 (cong.1 h))

-- Where the literals have the variables of the destination, the temporary table holds instances of its
-- literal, the facts have the arity of theirs and no null term stands at a position of the join, a tuple
-- is in the result of the subgoal of a literal without unknown exactly when it is derived from a tuple
-- of the table and a known fact with a value that the literal asks for: one assignment turns both
-- literals into these two and the destination into the tuple's terms, and the tuple has the resolved
-- conjunction of the values.
pub without_unknown_iff :
    (sorter : Sorter) (l r : KbLiteral) (wanted : Bool) (dest : List KbTerm) (tmp : List KbTuple)
    (facts : FactsPool) (u : KbTuple)
    → CoversJoin l r dest
    → All (IsInstance l) tmp
    → All (λ b. length r.terms ≡ length b.terms) facts
    → NoNull (left_indices (make_join l r)) tmp
    → NoNull (right_indices (make_join l r)) facts
    → Mem u (evaluate_without_unknown sorter (next_subgoal l r wanted dest) tmp facts)
      ↔ ∥ Some (λ a. Some (λ b. HasValue r b × Derives l r wanted dest a b u) facts) tmp ∥₁
unfolding next_subgoal
without_unknown_iff sorter l r wanted dest tmp facts u c inst arity p q =
    let g = next_subgoal l r wanted dest in
    let cur = select_kb_tuple_ref (selection r) facts in
    let joins : KbTuple → KbTuple → Bool =
      λ a b. joinable_without_null (make_join l r) a.terms b.terms in
    let perm = (without_unknown-nested sorter g (λ _ _. true) tmp facts p q).0 in
    let in_nested = Mem-Some u (nested joins (emit_pair g) tmp cur) in
    let rows = nested-Some joins (joined conjunction g) (λ x. u ≡ x) tmp cur in
    let cong =
      Some-cong (IsInstance l) _ _ tmp (λ a i. facts_iff l r wanted dest facts a u c arity i)
        inst in
    (
      λ h. ∥∥₁_map (in_nested.0 ((Perm.mem_iff perm).0 h)) (λ s. cong.0 (rows.0 s)),
      λ h. (Perm.mem_iff perm).1 (in_nested.1 (∥∥₁_map h (λ s. rows.1 (cong.1 s)))),
    )
