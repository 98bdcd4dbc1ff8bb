-- ===== src/Eval/Sort/Order.antt =====
-- The comparison that the subgoals sort by is one that the sort accepts, and tables that are sorted
-- by it are sorted by the keys of the join.
use fovris.Prelude.{ℕ, ◌≡◌, refl, sym, ◌∙◌, Bool, true, false, List, [], ◌∷◌, All, arith}
use fovris.Kb.Term.{Terms}
use fovris.Eval.Join.{tuple_less}
use fovris.Eval.Join.Keys.{key, key_order, is_less, tuple_less-key}
use fovris.Eval.Merge.Nested.{SortedBy}
use fovris.Eval.Sort.{IsStrictWeak, IsOrdered}

tuple_less_irreflexive : (is : List ℕ) (a : Terms) → tuple_less is a a ≡ false
unfolding tuple_less
tuple_less_irreflexive [] a = refl
tuple_less_irreflexive (i ∷ is) a = ground (arith, tuple_less_irreflexive is a)

tuple_less_trans :
    (is : List ℕ) (a b c : Terms)
    → tuple_less is a b ≡ true
    → tuple_less is b c ≡ true
    → tuple_less is a c ≡ true
unfolding tuple_less
tuple_less_trans [] a b c h k = h
tuple_less_trans (i ∷ is) a b c h k = ground (arith, tuple_less_trans is a b c)

tuple_less_incomparable :
    (is : List ℕ) (a b c : Terms)
    → tuple_less is a b ≡ false
    → tuple_less is b c ≡ false
    → tuple_less is a c ≡ false
unfolding tuple_less
tuple_less_incomparable [] a b c h k = h
tuple_less_incomparable (i ∷ is) a b c h k = ground (arith, tuple_less_incomparable is a b c)

-- `TupleCompareFunctor` over the terms of the elements.
abbrev pub less_by : {A : Type 0} → (A → Terms) → List ℕ → A → A → Bool
less_by terms is a b = tuple_less is (terms a) (terms b)

pub less_by-IsStrictWeak :
    {A : Type 0} (terms : A → Terms) (is : List ℕ) → IsStrictWeak (less_by terms is)
less_by-IsStrictWeak terms is = record {
  irreflexive = λ a. tuple_less_irreflexive is (terms a);
  transitive = λ a b c. tuple_less_trans is (terms a) (terms b) (terms c);
  incomparable = λ a b c. tuple_less_incomparable is (terms a) (terms b) (terms c);
}

Above-by_key :
    {A : Type 0} (terms : A → Terms) (is : List ℕ) (a : A) (l : List A)
    → All (λ b. less_by terms is b a ≡ false) l
    → All (λ b. is_less (key_order (key is (terms b)) (key is (terms a))) ≡ false) l
Above-by_key terms is a [] h = tt
Above-by_key terms is a (b ∷ l) h =
    (sym (tuple_less-key is (terms b) (terms a)) ∙ h.0, Above-by_key terms is a l h.1)

pub IsOrdered-SortedBy :
    {A : Type 0} (terms : A → Terms) (is : List ℕ) (l : List A)
    → IsOrdered (less_by terms is) l
    → SortedBy (λ a. key is (terms a)) l
IsOrdered-SortedBy terms is [] h = tt
IsOrdered-SortedBy terms is (a ∷ l) h =
    (Above-by_key terms is a l h.0, IsOrdered-SortedBy terms is l h.1)
