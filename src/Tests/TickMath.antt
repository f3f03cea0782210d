-- ===== src/Tests/TickMath.antt =====
-- The tick mathematics and the arithmetic at concrete inputs.
use spawn_backend.Prelude.{ℕ, ◌+◌, ◌-◌, ◌/◌, ◌^◌, ◌≤◌, ◌<◌, ◌≡◌, refl, true, leb, arith}
use spawn_backend.Prelude.Int.{ℤ, pos, negsuc, ◌≤ℤ◌, ◌+ℤ◌, ◌-ℤ◌, ◌*ℤ◌, div_floor}
use spawn_backend.Prelude.Outcome.{ok}
use spawn_backend.Protocol.Constants.{min_sqrt_price, max_sqrt_price}
use spawn_backend.Protocol.TickMath.{
  sqrt_price_at_tick, tick_at_sqrt_price, multiply_factors, ratio, most_significant_bit, msb_step,
  normalize, log_round, log_rounds, log2_fixed, tick_low, tick_high, choose_tick,
}
use spawn_backend.Protocol.TickMath.Bounds.{sqrt_price_at_tick_bounds}
use spawn_backend.Protocol.TickMath.Monotone.{sqrt_price_at_tick_mono}
use spawn_backend.Protocol.TickMath.Total.{tick_at_sqrt_price_total, tick_at_sqrt_price_mono}
use spawn_backend.Protocol.Arithmetic.{isqrt, newton, first_guess, bit_length, bit_length_from}
use spawn_backend.Protocol.Arithmetic.Isqrt.{IsRoot, isqrt_ends}

price_at_minus_one : sqrt_price_at_tick (negsuc 0) ≡ ok 79_224_201_403_219_477_170_569_942_574
unfolding sqrt_price_at_tick ratio multiply_factors
price_at_minus_one = refl

price_at_zero : sqrt_price_at_tick (pos 0) ≡ ok (2 ^ 96)
unfolding sqrt_price_at_tick ratio multiply_factors
price_at_zero = refl

tick_at_one : tick_at_sqrt_price (2 ^ 96) ≡ ok (pos 0)
unfolding tick_at_sqrt_price most_significant_bit msb_step normalize log_round log_rounds log2_fixed
    tick_low tick_high choose_tick ◌+ℤ◌ ◌-ℤ◌ ◌*ℤ◌ div_floor sqrt_price_at_tick ratio
    multiply_factors
tick_at_one = refl

tick_below_one : tick_at_sqrt_price (2 ^ 96 - 1) ≡ ok (negsuc 0)
unfolding tick_at_sqrt_price most_significant_bit msb_step normalize log_round log_rounds log2_fixed
    tick_low tick_high choose_tick ◌+ℤ◌ ◌-ℤ◌ ◌*ℤ◌ div_floor sqrt_price_at_tick ratio
    multiply_factors
tick_below_one = refl

root_runs : isqrt (pos 1_000_001) ≡ ok 1_000
unfolding isqrt newton first_guess bit_length bit_length_from
root_runs = refl

sqrt_price_at_tick_mono_example : 79_224_201_403_219_477_170_569_942_574 < 2 ^ 96
sqrt_price_at_tick_mono_example =
    sqrt_price_at_tick_mono (negsuc 0) (pos 0) (omega arith) price_at_minus_one price_at_zero

sqrt_price_at_tick_bounds_example :
    (price : ℕ) × (sqrt_price_at_tick (negsuc 887_271) ≡ ok price)
    × (min_sqrt_price ≤ price)
    × (price ≤ max_sqrt_price)
sqrt_price_at_tick_bounds_example = sqrt_price_at_tick_bounds (negsuc 887_271) (omega arith)

tick_at_sqrt_price_total_example :
    (tick : ℤ) × (tick_at_sqrt_price min_sqrt_price ≡ ok tick)
    × (negsuc 887_271 ≤ℤ tick)
    × (tick ≤ℤ pos 887_271)
tick_at_sqrt_price_total_example =
    tick_at_sqrt_price_total min_sqrt_price (omega arith) (omega arith)

tick_at_sqrt_price_mono_example : negsuc 0 ≤ℤ pos 0
tick_at_sqrt_price_mono_example =
    tick_at_sqrt_price_mono (2 ^ 96 - 1) (2 ^ 96) (omega arith) (omega arith) (omega arith)
      tick_below_one tick_at_one

isqrt_ends_example :
    (r : ℕ) × (isqrt (pos 1_000_001) ≡ ok r)
    × IsRoot 1_000_001 r
    × (newton 5_000 1_000_001 (first_guess 1_000_001) ≡ r)
    × (leb r ((r + 1_000_001 / r) / 2) ≡ true)
unfolding first_guess bit_length bit_length_from
isqrt_ends_example = isqrt_ends 1_000_001 5_000 (omega arith) (omega arith)
