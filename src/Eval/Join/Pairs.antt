-- ===== src/Eval/Join/Pairs.antt =====
-- The pairs of positions that a join compares: what holds of all pairs of positions of a common variable
-- holds of them, and the first positions of a common variable are among them.
use fovris.Prelude.{
  ℕ, ◌==◌, ◌≡◌, ◌↔◌, refl, true, ◌&&◌, List, [], ◌∷◌, ◌++◌, some, All, ◌<◌, length, arith,
  Bool-cases, Option-cases, inl, inr, get_or, ==_iff,
}
use fovris.Kb.Term.{Terms}
use fovris.Kb.Literal.{VarIndices, lookup}
use fovris.Kb.Literal.VarIndices.{Each}
use fovris.Eval.Selection.{at}
use fovris.Eval.Join.{Join, contains, pairs_at, pairs_of, make_equal_indices, joinable_without_null}

pub All-append :
    {A : Type 0} (P : A → Type 0) (xs ys : List A) → All P (xs ++ ys) ↔ (All P xs × All P ys)
All-append P [] ys = (λ h. (tt, h), λ h. h.1)
All-append P (x ∷ xs) ys = ground (arith, All-append P xs ys)

pub joinable_without_null-All :
    (j : Join) (a b : Terms)
    → (joinable_without_null j a b ≡ true) ↔ All (λ p. at a p.0 ≡ at b p.1) j
unfolding joinable_without_null
joinable_without_null-All [] a b = (λ _. tt, λ _. refl)
joinable_without_null-All (p ∷ j) a b =
    ground (arith, joinable_without_null-All j a b, ==_iff (at a p.0) (at b p.1))

-- What holds of all pairs of positions of a variable holds of the pairs of the join.
module _ (P R : ℕ → ℕ → Type 0) (Q : ℕ × ℕ → Type 0) (A B : List ℕ)
    (pair : (v i j : ℕ) → P v i → R v j → Q (i, j)) where
  pairs_at-All : (v i : ℕ) (js : List ℕ) → P v i → All (R v) js → All Q (pairs_at A B i js)
  unfolding pairs_at
  pairs_at-All v i [] p h = tt
  pairs_at-All v i (j ∷ js) p h = elim (Bool-cases (contains A i && contains B j)) [
    | inl e ↦ rw (e, pairs_at) (pair v i j p h.0, pairs_at-All v i js p h.1)
    | inr e ↦ rw (e, pairs_at) (pairs_at-All v i js p h.1)
  ]

  pairs_of-All : (v : ℕ) (is js : List ℕ) → All (P v) is → All (R v) js → All Q (pairs_of A B is js)
  unfolding pairs_of
  pairs_of-All v [] js p h = tt
  pairs_of-All v (i ∷ is) js p h =
      (All-append Q (pairs_at A B i js) (pairs_of A B is js)).1
        (pairs_at-All v i js p.0 h, pairs_of-All v is js p.1 h)

  lookup-All :
      (n : VarIndices) (v : ℕ) (js : List ℕ) → Each R n → lookup v n ≡ some js → All (R v) js
  unfolding lookup
  lookup-All [] v js h e = cc
  lookup-All ((w, ks) ∷ n) v js h e = elim (Bool-cases (v == w)) [
    | inl k ↦
        let q : some ks ≡ some js = rw (k, lookup) at e in
        let r : ks ≡ js = cc in rw ((==_iff v w).0 k) (rw (← r) h.0)
    | inr k ↦ lookup-All n v js h.1 (rw (k, lookup) at e)
  ]

  pub make_equal_indices-All :
      (m n : VarIndices) → Each P m → Each R n → All Q (make_equal_indices A B m n)
  unfolding make_equal_indices
  make_equal_indices-All [] n h k = tt
  make_equal_indices-All ((v, is) ∷ m) n h k = elim (Option-cases (lookup v n)) [
    | inl e ↦ rw (e, make_equal_indices) (make_equal_indices-All m n h.1 k)
    | inr (js, e) ↦
        rw (e, make_equal_indices)
          ((All-append Q (pairs_of A B is js) (make_equal_indices A B m n)).1
            (pairs_of-All v is js h.0 (lookup-All n v js k e), make_equal_indices-All m n h.1 k))
  ]

module _ (Q : ℕ × ℕ → Type 0) (A B : List ℕ) where
  pairs_of-first :
      (is js : List ℕ)
      → 0 < length is
      → 0 < length js
      → contains A (get_or is 0 0) ≡ true
      → contains B (get_or js 0 0) ≡ true
      → All Q (pairs_of A B is js)
      → Q (get_or is 0 0, get_or js 0 0)
  unfolding pairs_of pairs_at
  pairs_of-first [] js p q a b h = absurd (omega arith)
  pairs_of-first (i ∷ is) [] p q a b h = absurd (omega arith)
  pairs_of-first (i ∷ is) (j ∷ js) p q a b h =
      (rw (a, b) at ((All-append Q (pairs_at A B i (j ∷ js)) (pairs_of A B is (j ∷ js))).0 h).0).0

  pub make_equal_indices-first :
      (m n : VarIndices) (v : ℕ) (is js : List ℕ)
      → lookup v m ≡ some is
      → lookup v n ≡ some js
      → 0 < length is
      → 0 < length js
      → contains A (get_or is 0 0) ≡ true
      → contains B (get_or js 0 0) ≡ true
      → All Q (make_equal_indices A B m n)
      → Q (get_or is 0 0, get_or js 0 0)
  unfolding make_equal_indices lookup
  make_equal_indices-first [] n v is js e f p q a b h = cc
  make_equal_indices-first ((w, ks) ∷ m) n v is js e f p q a b h = elim (Bool-cases (v == w)) [
    | inl k ↦
        let s : some ks ≡ some is = rw (k, lookup) at e in
        let r : ks ≡ is = cc in
        let g : lookup w n ≡ some js = rw (← (==_iff v w).0 k) f in
        pairs_of-first is js p q a b (
          rw (← r)
            ((All-append Q (pairs_of A B ks js) (make_equal_indices A B m n)).0
              (rw (g, make_equal_indices) at h)).0)
    | inr k ↦
        make_equal_indices-first m n v is js (rw (k, lookup) at e) f p q a b
          (elim (Option-cases (lookup w n)) [
            | inl g ↦ rw (g, make_equal_indices) at h
            | inr (ls, g) ↦
                ((All-append Q (pairs_of A B ks ls) (make_equal_indices A B m n)).0
                  (rw (g, make_equal_indices) at h)).1
          ])
  ]
