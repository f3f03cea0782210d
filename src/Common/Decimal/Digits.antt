-- ===== src/Common/Decimal/Digits.antt =====
-- The characters of a number's text, padded or not, are digits.
use spawn_backend.Prelude.{
  ℕ, zero, suc, ◌-◌, ◌/◌, ◌≤◌, arith, length, length-append, ltb, inl, inr, Bool-cases, All,
  All-append,
}
use spawn_backend.Common.Decimal.{Text, digits_from, to_text, zeros, pad_start}

abbrev pub IsDigit : ℕ → Type 0
IsDigit c = (b'0' ≤ c) × (c ≤ b'9')

abbrev pub AreDigits : Text → Type 0
AreDigits text = All IsDigit text

digits_from-AreDigits : (fuel n : ℕ) → n ≤ fuel → AreDigits (digits_from fuel n)
unfolding digits_from
digits_from-AreDigits zero n h = ((omega arith, omega arith), tt)
digits_from-AreDigits (suc fuel) n h = elim (Bool-cases (ltb n 10)) [
  | inl one ↦ rw one ((omega arith, ground arith), tt)
  | inr more ↦ rw more (
      All-append IsDigit (digits_from fuel (n / 10)) _
        (digits_from-AreDigits fuel (n / 10) (ground arith)) ((omega arith, omega arith), tt))
]

pub to_text-AreDigits : (n : ℕ) → AreDigits (to_text n)
unfolding to_text
to_text-AreDigits n = digits_from-AreDigits n n (omega arith)

zeros-AreDigits : (n : ℕ) → AreDigits (zeros n)
unfolding zeros
zeros-AreDigits zero = tt
zeros-AreDigits (suc n) = ((omega arith, omega arith), zeros-AreDigits n)

-- Padding keeps a text of digits one.
pub pad_start-AreDigits : (width : ℕ) (xs : Text) → AreDigits xs → AreDigits (pad_start width xs)
unfolding pad_start
pad_start-AreDigits width xs h =
    All-append IsDigit (zeros (width - length xs)) xs (zeros-AreDigits (width - length xs)) h

digits_from_nonempty : (fuel n : ℕ) → 1 ≤ length (digits_from fuel n)
unfolding digits_from
digits_from_nonempty zero n = omega arith
digits_from_nonempty (suc fuel) n = elim (Bool-cases (ltb n 10)) [
  | inl one ↦ rw one (omega arith)
  | inr more ↦ rw (more, length-append (digits_from fuel (n / 10))) (omega arith)
]

-- The text of a number has a first digit.
pub to_text_nonempty : (n : ℕ) → 1 ≤ length (to_text n)
unfolding to_text
to_text_nonempty n = digits_from_nonempty n n
