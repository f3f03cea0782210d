-- ===== src/Common/TextDict.antt =====
-- A map with text keys, in the order of insertion: `Map<string, …>` of the code's runtime.
use spawn_backend.Prelude.{
  ◌≡◌, refl, false, if◌then◌else◌, List, [], ◌∷◌, Option, none, some, inl, inr, Bool-cases,
}
use spawn_backend.Common.Decimal.{Text}
use spawn_backend.Common.Texts.{same_text, same_text-eq, same_text_self}

abbrev pub TextDict {ℓ} : Type ℓ → Type ℓ
TextDict A = List (Text × A)

-- `map.get(key)`
unfoldable pub find_text {ℓ} : {A : Type ℓ} → TextDict A → Text → Option A
find_text [] key = none
find_text ((k, v) ∷ rest) key =
    let later = find_text rest key in if same_text k key then some v else later

-- `map.set(key, value)`
unfoldable pub put_text {ℓ} : {A : Type ℓ} → TextDict A → Text → A → TextDict A
put_text [] key value = (key, value) ∷ []
put_text ((k, v) ∷ rest) key value =
    let later = put_text rest key value in
    if same_text k key then (key, value) ∷ rest else (k, v) ∷ later

-- `map.delete(key)`
unfoldable pub remove_text {ℓ} : {A : Type ℓ} → TextDict A → Text → TextDict A
remove_text [] key = []
remove_text ((k, v) ∷ rest) key =
    let later = remove_text rest key in if same_text k key then later else (k, v) ∷ later

-- A list of entries of which each satisfies it.
abbrev pub AllText {ℓ κ} : {A : Type ℓ} → (Text → A → Type κ) → TextDict A → Type κ
AllText P [] = Unit
AllText P ((k, v) ∷ rest) = P k v × AllText P rest

module _ {ℓ κ} {A : Type ℓ} (P : Text → A → Type κ) where
  pub AllText-put_text :
      (d : TextDict A) (key : Text) (value : A)
      → P key value
      → AllText P d
      → AllText P (put_text d key value)
  unfolding put_text
  AllText-put_text [] key value new old = (new, tt)
  AllText-put_text ((k, v) ∷ rest) key value new (p, old) = elim (Bool-cases (same_text k key)) [
    | inl same ↦ rw same (new, old)
    | inr other ↦ rw other (p, AllText-put_text rest key value new old)
  ]

  pub AllText-remove_text :
      (d : TextDict A) (key : Text) → AllText P d → AllText P (remove_text d key)
  unfolding remove_text
  AllText-remove_text [] key old = tt
  AllText-remove_text ((k, v) ∷ rest) key (p, old) = elim (Bool-cases (same_text k key)) [
    | inl same ↦ rw same (AllText-remove_text rest key old)
    | inr other ↦ rw other (p, AllText-remove_text rest key old)
  ]

  pub AllText-find_text :
      (d : TextDict A) (key : Text) (value : A)
      → AllText P d
      → find_text d key ≡ some value
      → P key value
  unfolding find_text
  AllText-find_text [] key value all h = cc
  AllText-find_text ((k, v) ∷ rest) key value (p, all) h = elim (Bool-cases (same_text k key)) [
    | inl same ↦
        let w : v ≡ value = (let h' = rw same at h in cc) in rw (← same_text-eq k key same, ← w) p
    | inr other ↦ AllText-find_text rest key value all (rw other at h)
  ]

module _ {ℓ} {A : Type ℓ} where
  pub find_text-remove_text :
      (d : TextDict A) (key : Text) → find_text (remove_text d key) key ≡ none
  unfolding find_text remove_text
  find_text-remove_text [] key = refl
  find_text-remove_text ((k, v) ∷ rest) key = elim (Bool-cases (same_text k key)) [
    | inl same ↦ rw same (find_text-remove_text rest key)
    | inr other ↦ rw (other, other) (find_text-remove_text rest key)
  ]

  pub find_text-put_text :
      (d : TextDict A) (key : Text) (value : A) → find_text (put_text d key value) key ≡ some value
  unfolding find_text put_text
  find_text-put_text [] key value = rw (same_text_self key) refl
  find_text-put_text ((k, v) ∷ rest) key value = elim (Bool-cases (same_text k key)) [
    | inl same ↦ rw (same, same_text_self key) refl
    | inr other ↦ rw (other, other) (find_text-put_text rest key value)
  ]

  pub find_text-put_text_other :
      (d : TextDict A) (key other : Text) (value : A)
      → same_text key other ≡ false
      → find_text (put_text d key value) other ≡ find_text d other
  unfolding find_text put_text
  find_text-put_text_other [] key other value ne = rw ne refl
  find_text-put_text_other ((k, v) ∷ rest) key other value ne =
      elim (Bool-cases (same_text k key)) [
        | inl same ↦
            let k_other : same_text k other ≡ false = rw (same_text-eq k key same) ne in
            rw (same, ne, k_other) refl
        | inr differs ↦ rw (differs, find_text-put_text_other rest key other value ne) refl
      ]
