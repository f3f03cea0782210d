-- ===== src/Protocol/TickMath/Bounds.antt =====
-- The range of `getSqrtPriceAtTick`: it throws exactly off the tick range, and on it the price stays
-- between MIN_SQRT_PRICE and MAX_SQRT_PRICE.
use native.Mathlib.Nat.{div-one}
use spawn_backend.Prelude.{
  zero, suc, refl, ℕ, ◌+◌, ◌/◌, ◌^◌, ◌≤◌, ◌<◌, ◌≡◌, refl, true, List, ◌∷◌, arith, map,
  if◌then◌else◌,
}
use spawn_backend.Prelude.Division.{div_antitone}
use spawn_backend.Prelude.Int.{ℤ, pos, negsuc, abs}
use spawn_backend.Prelude.Outcome.{ok, err}
use spawn_backend.Protocol.Fault.{Fault}
use spawn_backend.Protocol.Constants.{max_tick, min_sqrt_price, max_sqrt_price}
use spawn_backend.Protocol.TickMath.{
  Q128, first_factor, factors, ratio, has_bit, max_uint256, sqrt_price_at_tick,
}
use spawn_backend.Protocol.TickMath.Fold.{
  scale, bit_fold, bit_fold-cons, pick, factor_of, multiply_factors-eq-bit_fold, bit_fold-le,
  leaves_ge, leaves_ge_sound, Factors, gaps_ge, gaps_ge_sound,
}

abbrev all_factors : List ℕ
all_factors = first_factor ∷ map factor_of factors

first_pick : (t : ℕ) → (if has_bit t 1 then first_factor else Q128) ≡ pick t first_factor Q128
unfolding scale
first_pick t = rw div-one

pub ratio-eq-bit_fold : (t : ℕ) → ratio t ≡ bit_fold all_factors t Q128
unfolding ratio
ratio-eq-bit_fold t = rw (
  multiply_factors-eq-bit_fold factors 2 t (if has_bit t 1 then first_factor else Q128)
      (omega arith),
  first_pick t,
  bit_fold-cons first_factor (map factor_of factors) t Q128,
)

-- The ratio at the largest tick, which is the least one.
abbrev pub least_ratio : ℕ
least_ratio = 18_447_437_462_383_981_825

all_factors-Factors : Factors all_factors
all_factors-Factors = omega arith

leaves_run : leaves_ge all_factors max_tick Q128 least_ratio ≡ true
unfolding leaves_ge scale
leaves_run = refl

pub ratio_bounds : (t : ℕ) → t ≤ max_tick → (least_ratio ≤ ratio t) × (ratio t ≤ Q128)
ratio_bounds t h = rw (ratio-eq-bit_fold t) (
  leaves_ge_sound all_factors max_tick t Q128 least_ratio all_factors-Factors leaves_run h,
  bit_fold-le all_factors t Q128 all_factors-Factors,
)

abbrev pub gap : ℕ
gap = 2 ^ 40

gaps_run : gaps_ge all_factors max_tick Q128 Q128 gap ≡ true
unfolding gaps_ge leaves_ge scale
gaps_run = refl

-- The ratio falls by at least the gap at every tick.
pub ratio_step : (t : ℕ) → t + 1 ≤ max_tick → ratio (t + 1) + gap ≤ ratio t
ratio_step t h =
    rw (ratio-eq-bit_fold (t + 1), ratio-eq-bit_fold t)
      (gaps_ge_sound all_factors max_tick t Q128 Q128 gap all_factors-Factors gaps_run h)

-- `price` as Q64.96, rounded up.
abbrev pub to_q96 : ℕ → ℕ
to_q96 price = (price + 0xffffffff) / 2 ^ 32

-- The Q128.128 price at a tick on the two sides of 0.
abbrev pub price_at : ℤ → ℕ
price_at (pos zero) = ratio 0
price_at (pos (suc n)) = max_uint256 / ratio (suc n)
price_at (negsuc n) = ratio (suc n)

pub sqrt_price_at_tick_lem :
    (tick : ℤ) → abs tick ≤ max_tick → sqrt_price_at_tick tick ≡ ok (to_q96 (price_at tick))
unfolding sqrt_price_at_tick
sqrt_price_at_tick_lem (pos zero) h = refl
sqrt_price_at_tick_lem (pos (suc n)) h = ground (arith, ratio_bounds (suc n) h)
sqrt_price_at_tick_lem (negsuc n) h = ground arith

inverse_bounds :
    (r : ℕ)
    → least_ratio ≤ r
    → r ≤ Q128
    → (least_ratio ≤ max_uint256 / r) × (max_uint256 / r ≤ max_uint256 / least_ratio)
inverse_bounds r low high = omega (
  arith,
  div_antitone max_uint256 least_ratio r (omega arith) low,
  div_antitone max_uint256 r Q128 (omega arith) high,
)

price_at_bounds :
    (tick : ℤ)
    → abs tick ≤ max_tick
    → (least_ratio ≤ price_at tick) × (price_at tick ≤ max_uint256 / least_ratio)
price_at_bounds (pos zero) h = omega (arith, ratio_bounds 0 h)
price_at_bounds (pos (suc n)) h =
    let (low, high) = ratio_bounds (suc n) h in inverse_bounds (ratio (suc n)) low high
price_at_bounds (negsuc n) h = omega (arith, ratio_bounds (suc n) h)

-- For a tick t with |t| ≤ MAX_TICK the call returns, and the price that it returns lies between
-- MIN_SQRT_PRICE and MAX_SQRT_PRICE.
pub sqrt_price_at_tick_bounds :
    (tick : ℤ)
    → abs tick ≤ max_tick
    → (price : ℕ) × (sqrt_price_at_tick tick ≡ ok price)
      × (min_sqrt_price ≤ price)
      × (price ≤ max_sqrt_price)
sqrt_price_at_tick_bounds tick h = (
  to_q96 (price_at tick),
  sqrt_price_at_tick_lem tick h,
  omega (arith, price_at_bounds tick h),
  omega (arith, price_at_bounds tick h),
)

pub sqrt_price_at_tick_throws :
    (tick : ℤ) → max_tick < abs tick → sqrt_price_at_tick tick ≡ err Fault.tick_out_of_range
unfolding sqrt_price_at_tick
sqrt_price_at_tick_throws tick h = ground arith

-- A call that returned had a tick in range.
pub abs-le_of_sqrt_price_at_tick :
    (tick : ℤ) {price : ℕ} → sqrt_price_at_tick tick ≡ ok price → abs tick ≤ max_tick
unfolding sqrt_price_at_tick
abs-le_of_sqrt_price_at_tick tick h = ground arith
