-- ===== src/Protocol/PriceText/Digits.antt =====
-- What the decimal strings stand for.
use native.Mathlib.Nat.{div-add-mod', mod-lt}
use spawn_backend.Prelude.{
  ℕ, ◌+◌, ◌*◌, ◌/◌, ◌%◌, ◌^◌, ◌≤◌, ◌<◌, ◌≡◌, refl, arith, ◌∷◌, ◌++◌, length,
}
use spawn_backend.Prelude.Powers.{ten_pow-pos}
use spawn_backend.Prelude.Int.{pos}
use spawn_backend.Prelude.Outcome.{ok}
use spawn_backend.Common.Decimal.{Text, to_text, pad_start, value_from}
use spawn_backend.Common.Decimal.Digits.{
  AreDigits, to_text-AreDigits, pad_start-AreDigits, to_text_nonempty,
}
use spawn_backend.Common.Decimal.Laws.{value-to_text, value-pad_start, length-pad_start}
use spawn_backend.Protocol.PriceText.{decimal_text, div_to_decimal_string}

-- The text is `whole.fraction`, where both are digits '0' to '9', at least one in front of the point
-- and exactly `decimals` behind it, and stands for a number scaled by 10^decimals.
pub record IsDecimal (text : Text) (scaled decimals : ℕ) : Type 0 where
  pub whole : Text
  pub fraction : Text
  pub split : text ≡ whole ++ b'.' ∷ fraction
  pub whole_digits : AreDigits whole
  pub fraction_digits : AreDigits fraction
  pub whole_nonempty : 1 ≤ length whole
  pub digits : length fraction ≡ decimals
  pub value : value_from 0 whole * 10 ^ decimals + value_from 0 fraction ≡ scaled

pub decimal_text-IsDecimal :
    (scaled decimals : ℕ) → 0 < decimals → IsDecimal (decimal_text scaled decimals) scaled decimals
unfolding decimal_text
decimal_text-IsDecimal scaled decimals h =
    let scale = 10 ^ decimals in
    let p : 0 < scale = ten_pow-pos decimals in
    let small : scaled % scale < scale = mod-lt scaled p in
    record {
      whole = to_text (scaled / scale);
      fraction = pad_start decimals (to_text (scaled % scale));
      split = refl;
      whole_digits = to_text-AreDigits (scaled / scale);
      fraction_digits =
          pad_start-AreDigits decimals (to_text (scaled % scale))
            (to_text-AreDigits (scaled % scale));
      whole_nonempty = to_text_nonempty (scaled / scale);
      digits = length-pad_start (scaled % scale) decimals h small;
      value =
          rw
            (
              value-pad_start decimals (to_text (scaled % scale)),
              value-to_text (scaled % scale),
              value-to_text (scaled / scale),
            )
            (div-add-mod' scaled scale);
    }

-- For a positive denominator and at least one decimal, the call returns the floor of the scaled
-- quotient in decimal notation: digits '0' to '9' on both sides of one point, at least one in front of
-- it and exactly that many behind it.
pub div_to_decimal_string-IsDecimal :
    (numerator denominator decimals : ℕ)
    → 0 < denominator
    → 0 < decimals
    → (text : Text) × (div_to_decimal_string numerator denominator (pos decimals) ≡ ok text)
      × IsDecimal text (numerator * 10 ^ decimals / denominator) decimals
unfolding div_to_decimal_string
div_to_decimal_string-IsDecimal numerator denominator decimals pd h = (
  decimal_text (numerator * 10 ^ decimals / denominator) decimals,
  ground arith,
  decimal_text-IsDecimal (numerator * 10 ^ decimals / denominator) decimals h,
)
