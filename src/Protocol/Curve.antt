-- ===== src/Protocol/Curve.antt =====
-- Curve geometry (the CurveLib port of src/protocol/protocol-math.ts). The curve's tokens are split
-- over nested positions: position i covers the levels from its start to the far level.
pub mod Opening
pub mod Positions
use spawn_backend.Prelude.{
  ℕ, ◌+◌, ◌-◌, ◌*◌, ◌/◌, ◌^◌, leb, ltb, ◌==◌, ◌&&◌, ◌||◌, not, if◌then◌else◌,
}
use spawn_backend.Prelude.Int.{ℤ, pos, ◌+ℤ◌, ◌-ℤ◌, ◌*ℤ◌, div_trunc, leb_ℤ, ltb_ℤ}
use spawn_backend.Prelude.Outcome.{Outcome, ok, ◌>>=◌, ◌>>◌, throw_if}
use spawn_backend.Protocol.Constants.{min_sqrt_price, max_sqrt_price, max_level}
use spawn_backend.Protocol.Fault.{Fault, Partial, div}
use spawn_backend.Protocol.Arithmetic.{isqrt, mul_div}
use spawn_backend.Protocol.TickMath.{sqrt_price_at_tick, tick_at_sqrt_price}
use spawn_backend.Protocol.Orientation.{Q96, Q192, to_level, is_valid_level, level_range_to_ticks}

abbrev pub uint128_max : ℕ
uint128_max = 2 ^ 128 - 1

-- The last part of `openingLevel`, from the square root on.
unfoldable pub opening_level_at : ℕ → Partial ℤ
opening_level_at sqrt_price = do
  throw_if (ltb sqrt_price min_sqrt_price || leb max_sqrt_price sqrt_price)
      Fault.opening_level_out_of_range
  tick ← tick_at_sqrt_price sqrt_price
  throw_if (not (is_valid_level (to_level tick))) Fault.opening_level_invalid
  ok (to_level tick)

unfoldable pub opening_level : ℕ → ℕ → Partial ℤ
opening_level total_supply opening_fdv = do
  price ← mul_div total_supply Q192 opening_fdv
  sqrt_price ← isqrt (pos price)
  opening_level_at sqrt_price

unfoldable pub far_level : ℤ → ℤ → Partial ℤ
far_level opening span_levels = do
  throw_if (ltb_ℤ max_level (opening +ℤ span_levels)) Fault.far_level_out_of_range
  ok (opening +ℤ span_levels)

-- With no position the source divides numbers by 0 and gives NaN or an infinity, which is no integer:
-- a fault here. The callers ask only for indexes below the number of positions, or for index 0.
unfoldable pub curve_position_start : ℤ → ℤ → ℕ → ℕ → Partial ℤ
curve_position_start opening far positions index = do
  throw_if (positions == 0) Fault.not_a_number
  ok (opening +ℤ div_trunc ((far -ℤ opening) *ℤ pos index) positions)

unfoldable pub curve_position_amount : ℕ → ℕ → ℕ → Partial ℕ
curve_position_amount curve_supply positions index = do
  each ← div curve_supply positions
  ok (if index + 1 == positions then curve_supply - each * (positions - 1) else each)

-- The liquidity of an amount over a difference of square root prices, clamped to 128 bits.
unfoldable pub liquidity_of : ℕ → ℕ → Partial ℕ
liquidity_of amount denominator = do
  liquidity ← mul_div amount Q96 denominator
  ok (if ltb uint128_max liquidity then uint128_max else liquidity)

-- A denominator of 0 gives no liquidity.
unfoldable pub liquidity_over : ℕ → ℕ → ℕ → ℕ → Partial ℕ
liquidity_over positions curve_supply index denominator =
    if denominator == 0
    then ok 0
    else (curve_position_amount curve_supply positions index >>= λ amount.
        liquidity_of amount denominator)

-- The price at the upper tick is the higher one, so the difference does not go below zero.
unfoldable pub liquidity_between : ℤ → ℤ → ℕ → ℕ → ℕ → Partial ℕ
liquidity_between start far positions curve_supply index = do
  ticks ← level_range_to_ticks start far
  at_upper ← sqrt_price_at_tick ticks.1
  at_lower ← sqrt_price_at_tick ticks.0
  liquidity_over positions curve_supply index (at_upper - at_lower)

-- With no position, the start at an index above 0 of a positive span is the positive infinity, which
-- lies above the far level; elsewhere it is one that no price takes.
unfoldable pub curve_position_liquidity : ℤ → ℤ → ℕ → ℕ → ℕ → Partial ℕ
curve_position_liquidity opening far positions curve_supply index =
    if positions == 0 && ltb 0 index && ltb_ℤ opening far
    then ok 0
    else (curve_position_start opening far positions index >>= λ start.
        if leb_ℤ far start then ok 0 else liquidity_between start far positions curve_supply index)
