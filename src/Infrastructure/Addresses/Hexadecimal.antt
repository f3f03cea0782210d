-- ===== src/Infrastructure/Addresses/Hexadecimal.antt =====
-- What the patterns of the addresses accept: `addressSchema` and `bytes32Schema` of
-- src/infrastructure/blockchain/address-book.ts.
use spawn_backend.Prelude.{
  ℕ, ◌+◌, ◌≡◌, refl, ◌∙◌, length, drop, ◌==◌, ◌&&◌, Bool, true, false, [], ◌∷◌, some, inl, inr,
  Bool-cases, arith,
}
use spawn_backend.Common.Decimal.{Text}
use spawn_backend.Common.Texts.{codes, every, starts_with, to_lower_case, lower_char, is_hex_digit}
use spawn_backend.Infrastructure.Addresses.Manifest.{is_any_hex_digit, hex_text}

-- 0x and a number of lower-case hexadecimal digits.
abbrev pub IsHex : ℕ → Text → Type 0
IsHex digits text =
    (starts_with (codes "0x") text ≡ true)
    × (length text ≡ digits + 2)
    × (every is_hex_digit (drop 2 text) ≡ true)

&&-eq-true : (a b : Bool) → (a && b) ≡ true → (a ≡ true) × (b ≡ true)
&&-eq-true true b h = (refl, h)
&&-eq-true false b h = cc

lower_char-is_hex_digit : (c : ℕ) → is_any_hex_digit c ≡ true → is_hex_digit (lower_char c) ≡ true
unfolding is_any_hex_digit is_hex_digit lower_char
lower_char-is_hex_digit c h = ground arith

every-to_lower_case :
    (text : Text)
    → every is_any_hex_digit text ≡ true
    → every is_hex_digit (to_lower_case text) ≡ true
unfolding every to_lower_case
every-to_lower_case [] h = refl
every-to_lower_case (c ∷ cs) h = elim (Bool-cases (is_any_hex_digit c)) [
  | inl digit ↦ rw (lower_char-is_hex_digit c digit) (every-to_lower_case cs (rw digit at h))
  | inr other ↦ (let h' = rw other at h in cc)
]

length-to_lower_case : (text : Text) → length (to_lower_case text) ≡ length text
unfolding to_lower_case
length-to_lower_case [] = refl
length-to_lower_case (c ∷ cs) = omega (arith, length-to_lower_case cs)

lower_char_low : (c : ℕ) → (b'0' == c) ≡ true → (b'0' == lower_char c) ≡ true
unfolding lower_char
lower_char_low c h = ground arith

lower_char_x : (c : ℕ) → (b'x' == c) ≡ true → (b'x' == lower_char c) ≡ true
unfolding lower_char
lower_char_x c h = ground arith

starts_with-to_lower_case :
    (text : Text)
    → starts_with (codes "0x") text ≡ true
    → starts_with (codes "0x") (to_lower_case text) ≡ true
unfolding starts_with to_lower_case
starts_with-to_lower_case [] h = cc
starts_with-to_lower_case (c ∷ []) h = elim (Bool-cases (b'0' == c)) [
  | inl zero_digit ↦ (let h' = rw zero_digit at h in cc)
  | inr other ↦ (let h' = rw other at h in cc)
]
starts_with-to_lower_case (c ∷ d ∷ cs) h = elim (Bool-cases (b'0' == c)) [
  | inl zero_digit ↦ elim (Bool-cases (b'x' == d)) [
    | inl x ↦ rw (lower_char_low c zero_digit, lower_char_x d x) refl
    | inr other ↦ (let h' = rw (zero_digit, other) at h in cc)
  ]
  | inr other ↦ (let h' = rw other at h in cc)
]

drop-to_lower_case : (text : Text) → drop 2 (to_lower_case text) ≡ to_lower_case (drop 2 text)
unfolding to_lower_case
drop-to_lower_case [] = refl
drop-to_lower_case (c ∷ []) = refl
drop-to_lower_case (c ∷ d ∷ cs) = refl

abbrev matches : ℕ → Text → Bool
matches digits text =
    starts_with (codes "0x") text
    && length text == digits + 2
    && every is_any_hex_digit (drop 2 text)

-- What is accepted matches the pattern, and the value is its lower case.
pub hex_text-some :
    (digits : ℕ) (text : Text) {value : Text}
    → hex_text digits text ≡ some value
    → (matches digits text ≡ true) × (to_lower_case text ≡ value)
unfolding hex_text
hex_text-some digits text {value = value} h = elim (Bool-cases (matches digits text)) [
  | inl good ↦ (good, (let h' = rw good at h in cc))
  | inr bad ↦ (let h' = rw bad at h in cc)
]

-- What the pattern accepts becomes lower case, with its prefix and its length.
pub hex_text-IsHex :
    (digits : ℕ) (text : Text) {value : Text}
    → hex_text digits text ≡ some value
    → IsHex digits value
hex_text-IsHex digits text h =
    let (good, e) = hex_text-some digits text h in
    let (head, body) =
      &&-eq-true (starts_with (codes "0x") text && length text == digits + 2) _ good in
    let (start, long) = &&-eq-true (starts_with (codes "0x") text) _ head in
    let n : length text ≡ digits + 2 = ground arith in
    rw (← e) (
      starts_with-to_lower_case text start,
      length-to_lower_case text ∙ n,
      rw (drop-to_lower_case text) (every-to_lower_case (drop 2 text) body),
    )
