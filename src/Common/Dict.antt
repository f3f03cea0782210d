-- ===== src/Common/Dict.antt =====
-- A map with number keys, in the order of insertion: `Map` of the code's runtime.
pub mod Weights
pub mod Entries
use spawn_backend.Prelude.{
  ℕ, ◌==◌, ◌≡◌, refl, true, false, if◌then◌else◌, List, [], ◌∷◌, Option, none, some, inl, inr,
  Bool-cases, arith,
}

abbrev pub Dict {ℓ} : Type ℓ → Type ℓ
Dict A = List (ℕ × A)

-- `map.get(key)`
unfoldable pub find {ℓ} : {A : Type ℓ} → Dict A → ℕ → Option A
find [] key = none
find ((k, v) ∷ rest) key = let later = find rest key in if k == key then some v else later

-- `map.set(key, value)`
unfoldable pub put {ℓ} : {A : Type ℓ} → Dict A → ℕ → A → Dict A
put [] key value = (key, value) ∷ []
put ((k, v) ∷ rest) key value =
    let later = put rest key value in if k == key then (key, value) ∷ rest else (k, v) ∷ later

-- `map.delete(key)`
unfoldable pub remove {ℓ} : {A : Type ℓ} → Dict A → ℕ → Dict A
remove [] key = []
remove ((k, v) ∷ rest) key =
    let later = remove rest key in if k == key then later else (k, v) ∷ later

same_key : (n : ℕ) → (n == n) ≡ true
same_key n = ground arith

pub find-put {ℓ} :
    {A : Type ℓ} (d : Dict A) (key : ℕ) (value : A) → find (put d key value) key ≡ some value
unfolding find put
find-put [] key value = rw (same_key key) refl
find-put ((k, v) ∷ rest) key value = elim (Bool-cases (k == key)) [
  | inl same ↦ rw (same, same_key key) refl
  | inr other ↦ rw (other, other) (find-put rest key value)
]

pub find-put_other {ℓ} :
    {A : Type ℓ} (d : Dict A) (key other : ℕ) (value : A)
    → (key == other) ≡ false
    → find (put d key value) other ≡ find d other
unfolding find put
find-put_other [] key other value ne = rw ne refl
find-put_other ((k, v) ∷ rest) key other value ne = elim (Bool-cases (k == key)) [
  | inl same ↦ let k_other : (k == other) ≡ false = ground arith in rw (same, ne, k_other) refl
  | inr differs ↦ rw (differs, find-put_other rest key other value ne) refl
]
