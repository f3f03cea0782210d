-- ===== src/Common/Decimal/Laws.antt =====
-- The digits of a number stand for it, and padding keeps the value and gives the width.
use native.Mathlib.Nat.{pow-suc}
use spawn_backend.Prelude.{
  ℕ, zero, suc, ◌+◌, ◌-◌, ◌*◌, ◌/◌, ◌%◌, ◌^◌, ◌≤◌, ◌<◌, ◌≡◌, refl, arith, [], ◌∷◌, ◌++◌, length,
  length-append, ltb, lt→ltb, inl, inr, Bool-cases,
}
use spawn_backend.Common.Decimal.{Text, digits_from, to_text, zeros, pad_start, value_from}

value_from-append :
    (acc : ℕ) (xs : Text) (c : ℕ)
    → value_from acc (xs ++ c ∷ []) ≡ value_from acc xs * 10 + (c - b'0')
unfolding value_from
value_from-append acc [] c = refl
value_from-append acc (x ∷ xs) c = value_from-append (acc * 10 + (x - b'0')) xs c

value_one : (n : ℕ) → value_from 0 ((b'0' + n) ∷ []) ≡ n
unfolding value_from
value_one n = omega arith

value_from-digits_from : (fuel n : ℕ) → n ≤ fuel → value_from 0 (digits_from fuel n) ≡ n
unfolding digits_from
value_from-digits_from zero n h = value_one n
value_from-digits_from (suc fuel) n h = elim (Bool-cases (ltb n 10)) [
  | inl one ↦ rw one (value_one n)
  | inr more ↦
      rw
        (
          more,
          value_from-append 0 (digits_from fuel (n / 10)) (b'0' + n % 10),
          value_from-digits_from fuel (n / 10) (ground arith),
        )
        (omega arith)
]

-- The text of a number stands for the number.
pub value-to_text : (n : ℕ) → value_from 0 (to_text n) ≡ n
unfolding to_text
value-to_text n = value_from-digits_from n n (omega arith)

value_from-zeros : (n : ℕ) (xs : Text) → value_from 0 (zeros n ++ xs) ≡ value_from 0 xs
unfolding zeros value_from
value_from-zeros zero xs = refl
value_from-zeros (suc n) xs = value_from-zeros n xs

pub value-pad_start : (width : ℕ) (xs : Text) → value_from 0 (pad_start width xs) ≡ value_from 0 xs
unfolding pad_start
value-pad_start width xs = value_from-zeros (width - length xs) xs

length-zeros : (n : ℕ) → length (zeros n) ≡ n
unfolding zeros
length-zeros zero = refl
length-zeros (suc n) = omega (arith, length-zeros n)

length-digits_from :
    (fuel n width : ℕ) → n ≤ fuel → 0 < width → n < 10 ^ width → length (digits_from fuel n) ≤ width
unfolding digits_from
length-digits_from fuel n zero h p lt = absurd (omega arith)
length-digits_from zero n (suc width) h p lt = omega arith
length-digits_from (suc fuel) n (suc zero) h p lt = rw (lt→ltb n 10 (omega arith)) (omega arith)
length-digits_from (suc fuel) n (suc (suc width)) h p lt = elim (Bool-cases (ltb n 10)) [
  | inl one ↦ rw one (omega arith)
  | inr more ↦
      rw (more, length-append)
        (omega (
          arith,
          length-digits_from fuel (n / 10) (suc width) (ground arith) (omega arith)
              (omega (arith, pow-suc 10 (suc width))),
        ))
]

-- A number below 10^width is padded to exactly that width.
pub length-pad_start :
    (n width : ℕ) → 0 < width → n < 10 ^ width → length (pad_start width (to_text n)) ≡ width
unfolding pad_start to_text
length-pad_start n width p lt =
    rw (length-append (zeros (width - length (digits_from n n))) (digits_from n n), length-zeros)
      (omega (arith, length-digits_from n n width (omega arith) p lt))

-- A number has more digits than any width in which it does not fit.
pub length-to_text : (n width : ℕ) → 0 < width → n < 10 ^ width → length (to_text n) ≤ width
unfolding to_text
length-to_text n width p lt = length-digits_from n n width (omega arith) p lt
