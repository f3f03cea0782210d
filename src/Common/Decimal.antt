-- ===== src/Common/Decimal.antt =====
-- `toString` and `padStart(n, '0')` of a number that is not negative, as character codes, and the
-- value that a string of digits stands for.
pub mod Digits
pub mod Laws
use spawn_backend.Prelude.{
  ℕ, zero, suc, ◌+◌, ◌-◌, ◌*◌, ◌/◌, ◌%◌, List, [], ◌∷◌, ◌++◌, length, ltb, if◌then◌else◌,
}

abbrev pub Text : Type 0
Text = List ℕ

-- The digits of a number; it has no more than its value, so the value is fuel enough.
unfoldable pub digits_from : ℕ → ℕ → Text
digits_from zero n = (b'0' + n) ∷ []
digits_from (suc fuel) n =
    let rest = digits_from fuel (n / 10) ++ (b'0' + n % 10) ∷ [] in
    if ltb n 10 then (b'0' + n) ∷ [] else rest

unfoldable pub to_text : ℕ → Text
to_text n = digits_from n n

unfoldable pub zeros : ℕ → Text
zeros zero = []
zeros (suc n) = b'0' ∷ zeros n

-- `padStart(width, '0')`
unfoldable pub pad_start : ℕ → Text → Text
pad_start width text = zeros (width - length text) ++ text

-- The number that digits stand for, behind the digits already read.
unfoldable pub value_from : ℕ → Text → ℕ
value_from acc [] = acc
value_from acc (c ∷ cs) = value_from (acc * 10 + (c - b'0')) cs
