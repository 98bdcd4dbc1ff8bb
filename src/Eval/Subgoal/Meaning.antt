-- ===== src/Eval/Subgoal/Meaning.antt =====
-- What the subgoals compute: the nested-loop join of the temporary table with the selected facts.
use mathlib.Core.List.{Perm}
use mathlib.Core.List.Perm
use fovris.Prelude.{◌≡◌, Bool, true, if◌then◌else◌, List, [], ◌∷◌, All, arith, ℕ}
use fovris.Kb.Term.{Terms}
use fovris.Kb.Tuple.{KbTuple}
use fovris.Kb.Relation.{FactsPool}
use fovris.Eval.Selection.{Selection, has_unknown, has_only_unknown}
use fovris.Eval.Join.{
  left_indices, right_indices, joinable, compare_terms, compare_without_null, joinable_without_null,
}
use fovris.Eval.Join.Keys.{
  key, compare_without_null-key, joinable_without_null-key, compare_terms-no_null, no_null,
}
use fovris.Eval.Merge.Nested.{nested, merge_join-nested, SortedBy}
use fovris.Eval.Merge.Invariance.{All-perm, nested-perm, merge_join_cong}
use fovris.Eval.Unknown.Antijoin.{unmatched, drop_below, unknown_join-unmatched}
use fovris.Eval.Sort.{Sorter}
use fovris.Eval.Sort.Order.{less_by, less_by-IsStrictWeak, IsOrdered-SortedBy}
use fovris.Eval.Subgoal.{
  NextSubgoal, emit_pair, emit_matching, emit_left, on_marked, select_kb_tuple_ref,
  select_kb_tuple_ref_and_match, sort_left, sort_right, sort_marked, join_sorted,
  evaluate_without_unknown, evaluate_without_unknown_with_functions, evaluate_next,
}

-- The tuples have no null term at the positions.
abbrev pub NoNull : List ℕ → List KbTuple → Type 0
NoNull is = All (λ t. no_null is t.terms ≡ true)

select-NoNull :
    (s : Selection) (is : List ℕ) (facts : FactsPool)
    → NoNull is facts
    → NoNull is (select_kb_tuple_ref s facts)
unfolding select_kb_tuple_ref
select-NoNull s is [] h = tt
select-NoNull s is (fact ∷ facts) h = ground (arith, select-NoNull s is facts h.1)

module _ (sorter : Sorter) (g : NextSubgoal) where
  -- Whether a tuple joins with a selected fact.
  abbrev pub joins : KbTuple → KbTuple → Bool
  joins a b = joinable_without_null g.join a.terms b.terms

  sort_left-SortedBy :
      (tmp : List KbTuple)
      → SortedBy (λ t. key (left_indices g.join) t.terms) (sort_left sorter g tmp)
  sort_left-SortedBy tmp =
      IsOrdered-SortedBy (λ t. t.terms) (left_indices g.join) (sort_left sorter g tmp)
        (sorter.sort-IsOrdered KbTuple (less_by (λ t. t.terms) (left_indices g.join)) tmp
          (less_by-IsStrictWeak (λ t. t.terms) (left_indices g.join)))

  sort_right-SortedBy :
      (cur : List KbTuple)
      → SortedBy (λ t. key (right_indices g.join) t.terms) (sort_right sorter g cur)
  sort_right-SortedBy cur =
      IsOrdered-SortedBy (λ t. t.terms) (right_indices g.join) (sort_right sorter g cur)
        (sorter.sort-IsOrdered KbTuple (less_by (λ t. t.terms) (right_indices g.join)) cur
          (less_by-IsStrictWeak (λ t. t.terms) (right_indices g.join)))

  sort_left-perm : (tmp : List KbTuple) → Perm (sort_left sorter g tmp) tmp
  sort_left-perm tmp = sorter.sort-perm KbTuple (less_by (λ t. t.terms) (left_indices g.join)) tmp

  sort_right-perm : (cur : List KbTuple) → Perm (sort_right sorter g cur) cur
  sort_right-perm cur = sorter.sort-perm KbTuple (less_by (λ t. t.terms) (right_indices g.join)) cur

  join_sorted-nested :
      (emit : KbTuple → KbTuple → List KbTuple) (tmp : List KbTuple) (relation : FactsPool)
      → NoNull (left_indices g.join) tmp
      → NoNull (right_indices g.join) relation
      → Perm
          (join_sorted sorter emit g tmp relation)
          (nested joins emit tmp (select_kb_tuple_ref g.selection_ relation))
  join_sorted-nested emit tmp relation h k =
      let cur = select_kb_tuple_ref g.selection_ relation in
      let l = sort_left sorter g tmp in
      let bs = sort_right sorter g cur in
      let no_nulls =
        merge_join_cong (λ a b. compare_terms g.join a.terms b.terms)
          (λ a b. compare_without_null g.join a.terms b.terms) joins emit
          (λ a. no_null (left_indices g.join) a.terms) (λ b. no_null (right_indices g.join) b.terms)
          (λ a b p q. (compare_terms-no_null g.join a.terms b.terms p q).0) l bs
          (All-perm _ l tmp (sort_left-perm tmp) h)
          (All-perm _ bs cur (sort_right-perm cur) (select-NoNull g.selection_ _ relation k)) in
      rw no_nulls (
        Perm.trans
          (merge_join-nested (λ t. key (left_indices g.join) t.terms)
            (λ t. key (right_indices g.join) t.terms)
            (λ a b. compare_without_null g.join a.terms b.terms) joins emit
            (λ a b. compare_without_null-key g.join a.terms b.terms)
            (λ a b. joinable_without_null-key g.join a.terms b.terms) l bs (sort_left-SortedBy tmp)
            (sort_right-SortedBy cur))
          (nested-perm joins emit l tmp bs cur (sort_left-perm tmp) (sort_right-perm cur)))

  -- Without null terms at the positions of the join, the subgoal of a literal without unknown yields,
  -- in some order, what nested loops over the temporary table and the selected facts yield: the
  -- projection of every pair that joins, under the conjunction of its values, and with functions only
  -- of the pairs on which they hold.
  pub without_unknown-nested :
      (matches : Terms → Terms → Bool) (tmp : List KbTuple) (relation : FactsPool)
      → NoNull (left_indices g.join) tmp
      → NoNull (right_indices g.join) relation
      → Perm
          (evaluate_without_unknown sorter g tmp relation)
          (nested joins (emit_pair g) tmp (select_kb_tuple_ref g.selection_ relation))
        × Perm
            (evaluate_without_unknown_with_functions sorter matches g tmp relation)
            (nested joins (emit_matching matches g) tmp (select_kb_tuple_ref g.selection_ relation))
  unfolding evaluate_without_unknown evaluate_without_unknown_with_functions
  without_unknown-nested matches tmp relation h k = (
    join_sorted-nested (emit_pair g) tmp relation h k,
    join_sorted-nested (emit_matching matches g) tmp relation h k,
  )

  sort_marked-SortedBy :
      (cur : List (KbTuple × Bool))
      → SortedBy (λ p. key (right_indices g.join) p.0.terms) (sort_marked sorter g cur)
  sort_marked-SortedBy cur =
      IsOrdered-SortedBy (λ p. p.0.terms) (right_indices g.join) (sort_marked sorter g cur)
        (sorter.sort-IsOrdered (KbTuple × Bool) (less_by (λ p. p.0.terms) (right_indices g.join))
          cur (less_by-IsStrictWeak (λ p. p.0.terms) (right_indices g.join)))

  -- The subgoal of a literal in {unknown} yields, in the order of the sorted temporary table, the left
  -- complements of the tuples that join with no fact that the literal can stand for; but of these it
  -- drops the ones before the first tuple that is not less than the first such fact.
  pub evaluate_next-unmatched :
      (tmp : List KbTuple) (relation : FactsPool)
      → has_unknown g.selection_ ≡ true
      → has_only_unknown g.selection_ ≡ true
      → evaluate_next sorter g tmp relation ≡ (
          let cur = sort_marked sorter g (select_kb_tuple_ref_and_match g.selection_ relation) in
          unmatched
            (on_marked joinable_without_null g.join)
            (emit_left g)
            (drop_below (on_marked compare_without_null g.join) cur (sort_left sorter g tmp))
            cur)
  unfolding evaluate_next
  evaluate_next-unmatched tmp relation u o =
      let cur = sort_marked sorter g (select_kb_tuple_ref_and_match g.selection_ relation) in
      rw (u, o)
        (unknown_join-unmatched (λ t. key (left_indices g.join) t.terms)
          (λ p. key (right_indices g.join) p.0.terms) (on_marked compare_without_null g.join)
          (on_marked joinable g.join) (on_marked joinable_without_null g.join)
          (λ a b. if b.1 then emit_pair g a b.0 else []) (emit_left g)
          (λ a b. compare_without_null-key g.join a.terms b.0.terms)
          (λ a b. joinable_without_null-key g.join a.terms b.0.terms) (sort_left sorter g tmp) cur
          (sort_left-SortedBy tmp)
          (sort_marked-SortedBy (select_kb_tuple_ref_and_match g.selection_ relation)))
