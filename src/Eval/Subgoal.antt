-- ===== src/Eval/Subgoal.antt =====
-- src/Eval/EvalSubgoal.cc: one literal of a rule's body against the temporary table of the literals
-- before it. A `KBTupleRef` is the tuple that it refers to. The branches for OpenMP fill the same
-- tables in the same order and are not written out.
pub mod Meaning
pub mod Answers
pub mod Selected
pub mod First
pub mod Chain
use fovris.Prelude.{ℕ, Bool, not, ◌&&◌, if◌then◌else◌, List, [], ◌∷◌, none}
use fovris.Truth.{
  TruthValue, same, resolve_truth_value, resolve_to_true_or_incons, conjunction, disjunction,
  map_bool_to_truth_value,
}
use fovris.Truth.Set.{of_values}
use fovris.Kb.Term.{KbTerm, Terms}
use fovris.Kb.Tuple.{KbTuple}
use fovris.Kb.Literal.{KbLiteral, is_unsafe}
use fovris.Kb.Relation.{FactsPool}
use fovris.Eval.Selection.{
  Selection, selection, selectable, matches_truth_value, has_unknown, has_only_unknown,
}
use fovris.Eval.Projection.{
  ColumnId, JoinColumnId, projection, join_projection, project, join_project, left_complement,
  righ_complement, project_terms, join_project_terms,
}
use fovris.Eval.Join.{
  Join, make_join, left_indices, right_indices, compare_terms, compare_without_null, joinable,
  joinable_without_null,
}
use fovris.Eval.Merge.{merge_join}
use fovris.Eval.Unknown.{unknown_join}
use fovris.Eval.Disjunction.{disjunction_join}
use fovris.Eval.Sort.{Sorter}
use fovris.Eval.Sort.Order.{less_by}

-- The guard `value != Unknown` of all selections.
abbrev known : KbTuple → Bool
known fact = not (same fact.value TruthValue.unknown)

-- `KBTupleRef{fact.getTerms(), ResolveToTrueOrIncons(fact.getValue())}`
abbrev pub reference : KbTuple → KbTuple
reference fact = record fact { value = resolve_to_true_or_incons fact.value }

-- `SelectPredicateWithValueMatch`
abbrev pub select_with_value_match : Selection → KbTuple → Bool
select_with_value_match s fact =
    known fact && selectable s fact.terms && matches_truth_value s fact.value

-- `SelectPredicate`
abbrev select_predicate : Selection → KbTuple → Bool
select_predicate s fact = known fact && selectable s fact.terms

unfoldable pub select_kb_tuple_ref : Selection → FactsPool → List KbTuple
select_kb_tuple_ref s [] = []
select_kb_tuple_ref s (fact ∷ facts) =
    let rest = select_kb_tuple_ref s facts in
    if select_with_value_match s fact then reference fact ∷ rest else rest

-- A reference, and whether the fact matches the truth value constraint.
unfoldable pub select_kb_tuple_ref_and_match : Selection → FactsPool → List (KbTuple × Bool)
select_kb_tuple_ref_and_match s [] = []
select_kb_tuple_ref_and_match s (fact ∷ facts) =
    let rest = select_kb_tuple_ref_and_match s facts in
    if select_predicate s fact
    then (reference fact, matches_truth_value s fact.value) ∷ rest
    else rest

-- `EvalSubgoalFirst`
pub record FirstSubgoal : Type 0 where
  pub selection_ : Selection
  pub columns : List ColumnId
  pub result_relation : KbLiteral
  pub result_is_true : Bool

-- The relation id of literals that stand for a temporary table.
abbrev no_relation : ℕ
no_relation = 0xDEADBEEF

unfoldable pub first_subgoal : KbLiteral → Bool → List KbTerm → FirstSubgoal
first_subgoal kbr result_is_true project_to = record {
  selection_ = selection kbr;
  columns = projection kbr project_to;
  result_relation = record {
    rel_id = no_relation;
    terms = project_terms (projection kbr project_to) kbr.terms;
    logic_set = of_values (TruthValue.true ∷ TruthValue.incons ∷ []);
  };
  result_is_true = result_is_true;
}

unfoldable pub evaluate_first : FirstSubgoal → FactsPool → List KbTuple
evaluate_first g [] = []
evaluate_first g (fact ∷ facts) =
    let rest = evaluate_first g facts in
    if selectable g.selection_ fact.terms
      && matches_truth_value g.selection_ fact.value
      && known fact
    then record {
      terms = project g.columns fact.terms;
      value = resolve_truth_value fact.value g.result_is_true;
    }
      ∷ rest
    else rest

-- The fields that the other subgoals share.
pub record NextSubgoal : Type 0 where
  pub selection_ : Selection
  pub join : Join
  pub columns : List JoinColumnId
  pub result_is_true : Bool
  pub result_relation : KbLiteral

unfoldable pub next_subgoal : KbLiteral → KbLiteral → Bool → List KbTerm → NextSubgoal
next_subgoal cur_tmp_rel new_rel result_is_true project_to = record {
  selection_ = selection new_rel;
  join = make_join cur_tmp_rel new_rel;
  columns = join_projection cur_tmp_rel new_rel project_to;
  result_is_true = result_is_true;
  result_relation = record {
    rel_id = no_relation;
    terms =
        join_project_terms (join_projection cur_tmp_rel new_rel project_to) cur_tmp_rel.terms
          new_rel.terms;
    logic_set = of_values (map_bool_to_truth_value result_is_true ∷ TruthValue.incons ∷ []);
  };
}

-- A joined tuple under one of the connectives.
abbrev pub joined :
    (TruthValue → TruthValue → TruthValue) → NextSubgoal → KbTuple → KbTuple → KbTuple
joined op g a b = record {
  terms = join_project g.columns a.terms b.terms;
  value = resolve_truth_value (op a.value b.value) g.result_is_true;
}

-- `newTmpTable.emplace_back` for a pair.
abbrev pub emit_pair : NextSubgoal → KbTuple → KbTuple → List KbTuple
emit_pair g a b = joined conjunction g a b ∷ []

-- The same behind `allFunctionsMatch`, here `matches`.
abbrev pub emit_matching : (Terms → Terms → Bool) → NextSubgoal → KbTuple → KbTuple → List KbTuple
emit_matching matches g a b = if matches a.terms b.terms then emit_pair g a b else []

-- The projection for a tuple that joins with no fact.
abbrev pub emit_left : NextSubgoal → KbTuple → List KbTuple
emit_left g a =
    record {
      terms = left_complement g.columns a.terms;
      value = resolve_truth_value a.value g.result_is_true;
    }
    ∷ []

-- A test of terms, over the references with their marks.
abbrev pub on_marked {ℓ} :
    {R : Type ℓ} → (Join → Terms → Terms → R) → Join → KbTuple → KbTuple × Bool → R
on_marked test j a b = test j a.terms b.0.terms

module _ (sorter : Sorter) where
  abbrev pub sort_left : NextSubgoal → List KbTuple → List KbTuple
  sort_left g tmp = sorter.sort KbTuple (less_by (λ t. t.terms) (left_indices g.join)) tmp

  abbrev pub sort_right : NextSubgoal → List KbTuple → List KbTuple
  sort_right g cur = sorter.sort KbTuple (less_by (λ t. t.terms) (right_indices g.join)) cur

  abbrev pub sort_marked : NextSubgoal → List (KbTuple × Bool) → List (KbTuple × Bool)
  sort_marked g cur =
      sorter.sort (KbTuple × Bool) (less_by (λ p. p.0.terms) (right_indices g.join)) cur

  -- The merge of the two subgoals for literals without unknown.
  abbrev pub join_sorted :
      (KbTuple → KbTuple → List KbTuple) → NextSubgoal → List KbTuple → FactsPool → List KbTuple
  join_sorted emit g tmp relation =
      merge_join (λ a b. compare_terms g.join a.terms b.terms)
        (λ a b. joinable_without_null g.join a.terms b.terms) emit (sort_left g tmp)
        (sort_right g (select_kb_tuple_ref g.selection_ relation))

  -- `EvalSubgoalNextWithoutUnknown`
  unfoldable pub evaluate_without_unknown : NextSubgoal → List KbTuple → FactsPool → List KbTuple
  evaluate_without_unknown g tmp relation = join_sorted (emit_pair g) g tmp relation

  -- `EvalSubgoalNextWithoutUnknownWithFunctions`
  unfoldable pub evaluate_without_unknown_with_functions :
      (Terms → Terms → Bool) → NextSubgoal → List KbTuple → FactsPool → List KbTuple
  evaluate_without_unknown_with_functions matches g tmp relation =
      join_sorted (emit_matching matches g) g tmp relation

  -- The merge of the two subgoals for literals with unknown.
  abbrev pub join_unknown :
      (KbTuple → KbTuple → List KbTuple)
      → (KbTuple → List KbTuple)
      → NextSubgoal
      → List KbTuple
      → FactsPool
      → List KbTuple
  join_unknown emit complement g tmp relation =
      unknown_join (on_marked compare_without_null g.join) (on_marked joinable g.join)
        (on_marked joinable_without_null g.join) (λ a b. if b.1 then emit a b.0 else []) complement
        (has_unknown g.selection_) (has_only_unknown g.selection_) (sort_left g tmp) none
        (sort_marked g (select_kb_tuple_ref_and_match g.selection_ relation))

  -- `EvalSubgoalNext`
  unfoldable pub evaluate_next : NextSubgoal → List KbTuple → FactsPool → List KbTuple
  evaluate_next g tmp relation = join_unknown (emit_pair g) (emit_left g) g tmp relation

  -- `EvalSubgoalNextWithFunctions`: a tuple that joins with no fact is tested with no terms of one.
  unfoldable pub evaluate_next_with_functions :
      (Terms → Terms → Bool) → NextSubgoal → List KbTuple → FactsPool → List KbTuple
  evaluate_next_with_functions matches g tmp relation =
      join_unknown (emit_matching matches g) (λ a. if matches a.terms [] then emit_left g a else [])
        g tmp relation

  -- `EvalSubgoalNextDisjunction`
  unfoldable pub evaluate_disjunction : NextSubgoal → List KbTuple → FactsPool → List KbTuple
  evaluate_disjunction g tmp relation =
      disjunction_join (λ a b. compare_terms g.join a.terms b.terms)
        (λ a b. joinable g.join a.terms b.terms) (joined disjunction g)
        (λ a. record { terms = left_complement g.columns a.terms; value = a.value })
        (λ b. record {
          terms = righ_complement g.columns b.terms;
          value = resolve_truth_value b.value g.result_is_true;
        })
        (sort_left g tmp) (sort_right g (select_kb_tuple_ref g.selection_ relation))
