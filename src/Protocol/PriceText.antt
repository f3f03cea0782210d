-- ===== src/Protocol/PriceText.antt =====
-- Prices as decimal strings: `divToDecimalString` and `tokenPriceEthString` of
-- src/protocol/protocol-math.ts, and the conversions of src/modules/trading/price.ts.
pub mod Digits
use spawn_backend.Prelude.{
  ℕ, ◌*◌, ◌/◌, ◌%◌, ◌^◌, ◌==◌, if◌then◌else◌, [], ◌∷◌, ◌++◌, Option, none, some,
}
use spawn_backend.Prelude.Int.{ℤ, pos, negsuc}
use spawn_backend.Prelude.Outcome.{Outcome, ok, err, ◌>>=◌}
use spawn_backend.Common.Decimal.{Text, to_text, pad_start}
use spawn_backend.Protocol.Fault.{Fault, Partial, div}
use spawn_backend.Protocol.Orientation.{Q192, sqrt_price_at_level, level_at_sqrt_price}

-- `${whole}.${fraction}` of a value scaled by 10^decimals.
unfoldable pub decimal_text : ℕ → ℕ → Text
decimal_text scaled decimals =
    let scale = 10 ^ decimals in
    to_text (scaled / scale) ++ b'.' ∷ pad_start decimals (to_text (scaled % scale))

-- The quotient of bigints that are not negative.
unfoldable pub div_to_decimal_string : ℕ → ℕ → ℤ → Partial Text
div_to_decimal_string numerator denominator (negsuc n) = err Fault.negative_decimals
div_to_decimal_string numerator denominator (pos decimals) =
    div (numerator * 10 ^ decimals) denominator >>= λ scaled. ok (decimal_text scaled decimals)

unfoldable pub token_price_eth_string : ℤ → ℕ → Partial Text
token_price_eth_string level decimals = do
  sqrt_price ← sqrt_price_at_level level
  div_to_decimal_string (10 ^ decimals * Q192 * 10 ^ 18) (sqrt_price * sqrt_price * 10 ^ 18)
      (pos 18)

-- `{ numerator, denominator }`
unfoldable pub eth_per_token_wei : ℕ → ℕ × ℕ
eth_per_token_wei sqrt_price = (Q192, sqrt_price * sqrt_price)

-- `sqrtToEthString`: null at a price of 0.
unfoldable pub sqrt_to_eth_string : ℕ → Option Text
sqrt_to_eth_string sqrt =
    if sqrt == 0 then none else some (decimal_text (Q192 * 10 ^ 18 / (sqrt * sqrt)) 18)

unfoldable pub fdv_eth_wei : ℕ → ℕ → Partial ℕ
fdv_eth_wei sqrt_price total_supply = div (total_supply * Q192) (sqrt_price * sqrt_price)

unfoldable pub level_from_sqrt_price : ℕ → Partial ℤ
level_from_sqrt_price sqrt_price = level_at_sqrt_price sqrt_price
