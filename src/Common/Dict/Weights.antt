-- ===== src/Common/Dict/Weights.antt =====
-- A number summed over the values of a map, and what `put` does to the sum.
use spawn_backend.Prelude.{ℕ, ◌+◌, ◌≡◌, ◌==◌, [], ◌∷◌, none, some, inl, inr, Bool-cases, arith}
use spawn_backend.Common.Dict.{Dict, find, put}

unfoldable pub weigh {ℓ} : {A : Type ℓ} → (A → ℕ) → Dict A → ℕ
weigh weight [] = 0
weigh weight ((k, v) ∷ rest) = weight v + weigh weight rest

pub weigh-put_new {ℓ} :
    {A : Type ℓ} (weight : A → ℕ) (d : Dict A) (key : ℕ) (value : A)
    → find d key ≡ none
    → weigh weight (put d key value) ≡ weigh weight d + weight value
unfolding weigh put find
weigh-put_new weight [] key value missing = omega arith
weigh-put_new weight ((k, v) ∷ rest) key value missing = elim (Bool-cases (k == key)) [
  | inl same ↦ (let h = rw same at missing in cc)
  | inr other ↦ rw other (omega (arith, weigh-put_new weight rest key value (rw other at missing)))
]

pub weigh-put_old {ℓ} :
    {A : Type ℓ} (weight : A → ℕ) (d : Dict A) (key : ℕ) (old value : A)
    → find d key ≡ some old
    → weigh weight (put d key value) + weight old ≡ weigh weight d + weight value
unfolding weigh put find
weigh-put_old weight [] key old value there = cc
weigh-put_old weight ((k, v) ∷ rest) key old value there = elim (Bool-cases (k == key)) [
  | inl same ↦
      let h : some v ≡ some old = rw same at there in
      let e : weight v ≡ weight old = cc in rw same (omega (arith, e))
  | inr other ↦
      rw other (omega (arith, weigh-put_old weight rest key old value (rw other at there)))
]
