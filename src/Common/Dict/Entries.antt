-- ===== src/Common/Dict/Entries.antt =====
-- What holds of every entry of a map with number keys, as its operations change it.
use spawn_backend.Prelude.{
  ℕ, ◌==◌, ◌≡◌, refl, sym, ap, ◌∙◌, false, [], ◌∷◌, none, some, inl, inr, Bool-cases, arith,
}
use spawn_backend.Common.Dict.{Dict, find, put, remove, find-put, find-put_other}

-- Each entry satisfies what is asked of its key and value.
abbrev pub Everywhere {ℓ} : {A : Type ℓ} → (ℕ → A → Type 0) → Dict A → Type ℓ
Everywhere {A = A} P d = (key : ℕ) (value : A) → find d key ≡ some value → P key value

module _ {ℓ} {A : Type ℓ} where
  pub find-remove : (d : Dict A) (key : ℕ) → find (remove d key) key ≡ none
  unfolding find remove
  find-remove [] key = refl
  find-remove ((k, v) ∷ rest) key = elim (Bool-cases (k == key)) [
    | inl same ↦ rw same (find-remove rest key)
    | inr other ↦ rw (other, other) (find-remove rest key)
  ]

  find-remove_other :
      (d : Dict A) (key other : ℕ)
      → (key == other) ≡ false
      → find (remove d key) other ≡ find d other
  unfolding find remove
  find-remove_other [] key other ne = refl
  find-remove_other ((k, v) ∷ rest) key other ne = elim (Bool-cases (k == key)) [
    | inl same ↦
        let k_other : (k == other) ≡ false = ground arith in
        rw (same, k_other) (find-remove_other rest key other ne)
    | inr differs ↦ rw (differs, find-remove_other rest key other ne) refl
  ]

  module _ (P : ℕ → A → Type 0) where
    pub Everywhere-put :
        (d : Dict A) (key : ℕ) (value : A)
        → P key value
        → Everywhere P d
        → Everywhere P (put d key value)
    Everywhere-put d key value new old k v found = elim (Bool-cases (key == k)) [
      | inl same ↦
          let e : key ≡ k = ground arith in
          let f : some value ≡ some v =
            sym (find-put d key value) ∙ (ap (find (put d key value)) e ∙ found) in
          let w : value ≡ v = cc in rw (← e, ← w) new
      | inr other ↦ old k v (sym (find-put_other d key k value other) ∙ found)
    ]

    pub Everywhere-remove : (d : Dict A) (key : ℕ) → Everywhere P d → Everywhere P (remove d key)
    Everywhere-remove d key old k v found = elim (Bool-cases (key == k)) [
      | inl same ↦
          let e : key ≡ k = ground arith in
          let f : none ≡ some v = sym (find-remove d key) ∙ (ap (find (remove d key)) e ∙ found) in
          cc
      | inr other ↦ old k v (sym (find-remove_other d key k other) ∙ found)
    ]
