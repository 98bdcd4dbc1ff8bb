-- ===== src/Eval/Naive/Fixpoint.antt =====
-- Where the generation of a module stops: after a pass that changed no number of facts.
use fovris.Prelude.{ℕ, zero, suc, ◌≡◌, ◌∙◌, sym, ap, Bool, true, some, Bool-cases, inl, inr}
use fovris.Truth.{TruthValue}
use fovris.Eval.Naive.{
  KnowledgeBase, KbModule, GenInfo, evaluate_rules, generate_loop, generate, info_of, same_info,
}
use fovris.Eval.Naive.Growth.{AllGrow, AllGrow-refl, AllGrow-trans, evaluate_rules-AllGrow}

-- The relations are those of a pass over relations that know no less than the first, with the same
-- numbers.
abbrev pub IsLastPass :
    (TruthValue → Bool) → Bool → KbModule → KnowledgeBase → KnowledgeBase → GenInfo → Type 0
IsLastPass p aggregate m kb kb' info =
    (prev : KnowledgeBase) × AllGrow kb prev
    × (evaluate_rules p aggregate prev m.rules ≡ kb')
    × (info ≡ info_of kb' m)
    × (same_info (info_of kb' m) (info_of prev m) ≡ true)

generate_loop-IsLastPass :
    (fuel : ℕ) (p : TruthValue → Bool) (aggregate : Bool) (m : KbModule) (kb kb' : KnowledgeBase)
    (info : GenInfo)
    → generate_loop fuel p aggregate m kb (info_of kb m) ≡ some (kb', info)
    → IsLastPass p aggregate m kb kb' info
unfolding generate_loop
generate_loop-IsLastPass zero p aggregate m kb kb' info h = cc
generate_loop-IsLastPass (suc fuel) p aggregate m kb kb' info h =
    let kb1 = evaluate_rules p aggregate kb m.rules in
    elim (Bool-cases (same_info (info_of kb1 m) (info_of kb m))) [
      | inl e ↦
          let k : some (kb1, info_of kb1 m) ≡ some (kb', info) = rw (e, generate_loop) at h in
          let q : kb1 ≡ kb' = cc in
          let i : info_of kb1 m ≡ info = cc in
          (kb, AllGrow-refl kb, q, sym i ∙ ap (λ z. info_of z m) q, rw (← q) e)
      | inr e ↦
          let (prev, g, last, numbers, same_numbers) =
            generate_loop-IsLastPass fuel p aggregate m kb1 kb' info (rw (e, generate_loop) at h) in
          (
            prev,
            AllGrow-trans kb kb1 prev (evaluate_rules-AllGrow p aggregate kb m.rules) g,
            last,
            numbers,
            same_numbers,
          )
    ]

-- A generation that returns has made a last pass that changed no number of facts, from relations that
-- know no less than the ones it began with, and returns the relations of that pass and their numbers.
generate-IsLastPass :
    (fuel : ℕ) (p : TruthValue → Bool) (aggregate : Bool) (m : KbModule) (kb kb' : KnowledgeBase)
    (info : GenInfo)
    → generate fuel p aggregate m kb ≡ some (kb', info)
    → IsLastPass p aggregate m kb kb' info
unfolding generate
generate-IsLastPass fuel p aggregate m kb kb' info h =
    generate_loop-IsLastPass fuel p aggregate m kb kb' info h
