-- ===== src/Store/Invariant.antt =====
-- The invariant of the knowledge base: ids of modules and relations are positions, and there is a relation for
-- each symbol. What a call leads to, where its parts lead there.
use fovris.Prelude.{ℕ, ◌+◌, ◌<◌, ◌≡◌, ap, length, Result, ok, err}
use fovris.Kb.Relation.{u32_mod}
use fovris.Interning.Pool.Laws.{IsPool}
use fovris.Api.{Exception}
use fovris.Store.{KnowledgeBaseImpl, Action, pure, reads, ◌>>=◌}

module _ {R : Type 0} where
  abbrev pub IsKnowledgeBase : KnowledgeBaseImpl R → Type 0
  IsKnowledgeBase kb =
      IsPool kb.module_name_pool
      × IsPool kb.rel_sym_pool
      × (length kb.relations ≡ length kb.rel_sym_pool.storage)

  -- There are ids for as many more relations.
  abbrev pub HasIds : ℕ → KnowledgeBaseImpl R → Type 0
  HasIds n kb = length kb.rel_sym_pool.storage + n < u32_mod

-- From a knowledge base with one property the call leads to one with another, also where it throws.
pub record Leads {R : Type 0} (I J : KnowledgeBaseImpl R → Type 0) {A : Type 0} (call : Action R A)
    : Type 0 where
  pub leads : (kb : KnowledgeBaseImpl R) → I kb → J (call kb).1

-- A call that returns goes on with what it returned.
pub bind_returns :
    {R A B : Type 0} (m : Action R A) (f : A → Action R B) (kb kb' : KnowledgeBaseImpl R) (a : A)
    → m kb ≡ (ok a, kb')
    → (m >>= f) kb ≡ f a kb'
bind_returns {R} {A} {B} m f kb kb' a e =
    ap
      (λ p. elim p.0 as (λ x. Result Exception B × KnowledgeBaseImpl R) [
        | err e ↦ (err e, p.1)
        | ok b ↦ f b p.1
      ])
      e

-- One call after another.
pub seq :
    {R A B : Type 0} {I M J : KnowledgeBaseImpl R → Type 0} {m : Action R A} {f : A → Action R B}
    → ((kb : KnowledgeBaseImpl R) → M kb → J kb)
    → Leads I M m
    → ((a : A) → Leads M J (f a))
    → Leads I J (m >>= f)
seq {R} {A} {B} {I} {M} {J} {m} {f} w h k = record { leads = λ kb i. go (m kb) (h.leads kb i) }
  where
    go :
        (p : Result Exception A × KnowledgeBaseImpl R)
        → M p.1
        → J
            (elim p.0 as (λ x. Result Exception B × KnowledgeBaseImpl R) [
              | err e ↦ (err e, p.1)
              | ok a ↦ f a p.1
            ]).1
    go (err e, kb') j = w kb' j
    go (ok a, kb') j = (k a).leads kb' j

module _ {R : Type 0} where
  abbrev pub Preserves : {A : Type 0} → Action R A → Type 0
  Preserves call = Leads IsKnowledgeBase IsKnowledgeBase call

  infixl 5 ◌⟫◌
  pub ◌⟫◌ :
      {A B : Type 0} {m : Action R A} {f : A → Action R B}
      → Preserves m
      → ((a : A) → Preserves (f a))
      → Preserves (m >>= f)
  h ⟫ k = seq (λ kb i. i) h k

  -- A `const` call, and what follows it.
  pub reads_then :
      {A B : Type 0} (f : KnowledgeBaseImpl R → Result Exception A) {k : A → Action R B}
      → ((a : A) → Preserves (k a))
      → Preserves (reads f >>= k)
  reads_then f {k} h = seq (λ kb i. i) (record { leads = λ kb i. i }) h

  pub returns : {A : Type 0} {a : A} → Preserves (pure a)
  returns = record { leads = λ kb h. h }
