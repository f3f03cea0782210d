-- ===== src/Protocol/SwapMath.antt =====
-- The swap mathematics of src/protocol/protocol-math.ts (the SqrtPriceMath ports that quotes use).
pub mod Deltas
use spawn_backend.Prelude.{
  ℕ, ◌+◌, ◌-◌, ◌*◌, ◌/◌, ◌%◌, ◌^◌, Bool, ltb, leb, ◌==◌, ◌&&◌, not, if◌then◌else◌,
}
use spawn_backend.Prelude.Outcome.{Outcome, ok, ◌>>=◌, ◌>>◌, throw_if}
use spawn_backend.Protocol.Fault.{Fault, Partial, div}
use spawn_backend.Protocol.Arithmetic.{mul_div, div_rounding_up, mul_div_rounding_up}
use spawn_backend.Protocol.Orientation.{Q96}

-- The delta for prices in ascending order.
unfoldable pub amount0_ordered : ℕ → ℕ → ℕ → Bool → Partial ℕ
amount0_ordered sqrt_a sqrt_b liquidity round_up = do
  throw_if (sqrt_a == 0) Fault.invalid_price
  let numerator1 = liquidity * 2 ^ 96
  let numerator2 = sqrt_b - sqrt_a
  if round_up
      then (mul_div_rounding_up numerator1 numerator2 sqrt_b >>= λ quotient.
          div_rounding_up quotient sqrt_a)
      else (mul_div numerator1 numerator2 sqrt_b >>= λ quotient. div quotient sqrt_a)

unfoldable pub amount0_delta : ℕ → ℕ → ℕ → Bool → Partial ℕ
amount0_delta sqrt_a sqrt_b liquidity round_up =
    if ltb sqrt_b sqrt_a
    then amount0_ordered sqrt_b sqrt_a liquidity round_up
    else amount0_ordered sqrt_a sqrt_b liquidity round_up

-- The difference of two prices, whichever is the higher.
unfoldable pub distance : ℕ → ℕ → ℕ
distance a b = if ltb b a then a - b else b - a

unfoldable pub amount1_delta : ℕ → ℕ → ℕ → Bool → Partial ℕ
amount1_delta sqrt_a sqrt_b liquidity round_up = do
  let numerator = distance sqrt_a sqrt_b
  quotient ← mul_div liquidity numerator Q96
  ok (if round_up && not (liquidity * numerator % Q96 == 0) then quotient + 1 else quotient)

unfoldable pub next_sqrt_from_amount1_out : ℕ → ℕ → ℕ → Partial ℕ
next_sqrt_from_amount1_out sqrt_price liquidity amount1_out = do
  quotient ← div_rounding_up (amount1_out * 2 ^ 96) liquidity
  throw_if (leb sqrt_price quotient) Fault.not_enough_liquidity
  ok (sqrt_price - quotient)
