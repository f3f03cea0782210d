-- ===== src/Protocol/Orientation.antt =====
-- Levels and ticks (`level = -tick`), and the prices at a level: the first part of
-- src/protocol/protocol-math.ts.
pub mod Laws
use spawn_backend.Prelude.{ℕ, ◌*◌, ◌^◌, Bool, ◌&&◌}
use spawn_backend.Prelude.Int.{ℤ, neg, leb_ℤ}
use spawn_backend.Prelude.Outcome.{Outcome, ok, ◌>>=◌, ◌>>◌, throw_if}
use spawn_backend.Protocol.Constants.{min_level, max_level}
use spawn_backend.Protocol.Fault.{Fault, Partial, div}
use spawn_backend.Protocol.TickMath.{sqrt_price_at_tick, tick_at_sqrt_price}

abbrev pub Q96 : ℕ
Q96 = 2 ^ 96

abbrev pub Q192 : ℕ
Q192 = 2 ^ 192

unfoldable pub to_level : ℤ → ℤ
to_level tick = neg tick

unfoldable pub to_tick : ℤ → ℤ
to_tick level = neg level

unfoldable pub is_valid_level : ℤ → Bool
is_valid_level level = leb_ℤ min_level level && leb_ℤ level max_level

-- MIN_TICK and MAX_TICK are the numbers MIN_LEVEL and MAX_LEVEL.
unfoldable pub is_valid_tick : ℤ → Bool
is_valid_tick tick = leb_ℤ min_level tick && leb_ℤ tick max_level

-- `{ tickLower, tickUpper }`
unfoldable pub level_range_to_ticks : ℤ → ℤ → Partial (ℤ × ℤ)
level_range_to_ticks level_lower level_upper = do
  throw_if (leb_ℤ level_upper level_lower) Fault.levels_not_ascending
  ok (to_tick level_upper, to_tick level_lower)

-- `{ levelLower, levelUpper }`
unfoldable pub tick_range_to_levels : ℤ → ℤ → Partial (ℤ × ℤ)
tick_range_to_levels tick_lower tick_upper = do
  throw_if (leb_ℤ tick_upper tick_lower) Fault.ticks_not_ascending
  ok (to_level tick_upper, to_level tick_lower)

unfoldable pub sqrt_price_at_level : ℤ → Partial ℕ
sqrt_price_at_level level = sqrt_price_at_tick (to_tick level)

unfoldable pub level_at_sqrt_price : ℕ → Partial ℤ
level_at_sqrt_price sqrt_price = do ok (to_level (← tick_at_sqrt_price sqrt_price))

-- `{ numerator, denominator }`
unfoldable pub eth_per_token_rational : ℤ → Partial (ℕ × ℕ)
eth_per_token_rational level = do
  sqrt_price ← sqrt_price_at_level level
  ok (Q192, sqrt_price * sqrt_price)

unfoldable pub fdv_eth_wei_at_sqrt_price : ℕ → ℕ → Partial ℕ
fdv_eth_wei_at_sqrt_price total_supply sqrt_price =
    div (total_supply * Q192) (sqrt_price * sqrt_price)

unfoldable pub fdv_eth_wei_at_level : ℕ → ℤ → Partial ℕ
fdv_eth_wei_at_level total_supply level = do
  sqrt_price ← sqrt_price_at_level level
  div (total_supply * Q192) (sqrt_price * sqrt_price)

unfoldable pub raw_price_at_level : ℤ → Partial ℕ
raw_price_at_level level = do
  sqrt_price ← sqrt_price_at_level level
  div (sqrt_price * sqrt_price) Q192
