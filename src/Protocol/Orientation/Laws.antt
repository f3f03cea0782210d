-- ===== src/Protocol/Orientation/Laws.antt =====
-- The conversion of a range to ticks is undone by the one back, a higher level has a lower square root
-- price and no lower valuation, and the prices exist at every valid level.
use native.Mathlib.Nat.{mul-le-mul}
use spawn_backend.Prelude.{ℕ, ◌*◌, ◌/◌, ◌≤◌, ◌<◌, ◌≡◌, true, arith}
use spawn_backend.Prelude.Division.{div_antitone, square_pos}
use spawn_backend.Prelude.Int.{ℤ, pos, negsuc, neg, neg_parts, ◌<ℤ◌, int_laws, abs}
use spawn_backend.Prelude.Outcome.{ok}
use spawn_backend.Protocol.Constants.{max_tick, min_sqrt_price, max_sqrt_price}
use spawn_backend.Protocol.TickMath.Bounds.{sqrt_price_at_tick_bounds}
use spawn_backend.Protocol.TickMath.Monotone.{sqrt_price_at_tick_mono}
use spawn_backend.Protocol.Arithmetic.Rounding.{div_lem}
use spawn_backend.Protocol.Orientation.{
  Q192, to_level, to_tick, is_valid_level, level_range_to_ticks, tick_range_to_levels,
  sqrt_price_at_level, fdv_eth_wei_at_level,
}

neg-neg : (a : ℤ) → neg (neg a) ≡ a
neg-neg a = omega int_laws

-- For an ascending range of levels the conversion to ticks returns an ascending range, from which
-- the conversion back returns the range of levels.
pub level_ranges_roundtrip :
    (a b : ℤ)
    → a <ℤ b
    → (lower : ℤ) × (upper : ℤ) × (level_range_to_ticks a b ≡ ok (lower, upper))
      × (lower <ℤ upper)
      × (tick_range_to_levels lower upper ≡ ok (a, b))
unfolding level_range_to_ticks tick_range_to_levels to_level to_tick
level_ranges_roundtrip a b h = (
  neg b,
  neg a,
  ground arith,
  omega int_laws,
  rw (neg-neg a, neg-neg b) (ground (arith, neg_parts a, neg_parts b)),
)

-- Where the prices at two levels exist, the higher level has the strictly lower square root price.
pub sqrt_price_at_level_antitone :
    (a b : ℤ) {p q : ℕ}
    → a <ℤ b
    → sqrt_price_at_level a ≡ ok p
    → sqrt_price_at_level b ≡ ok q
    → q < p
unfolding sqrt_price_at_level to_tick
sqrt_price_at_level_antitone a b h ea eb =
    sqrt_price_at_tick_mono (neg b) (neg a) (omega int_laws) eb ea

abs-neg : (a : ℤ) → abs (neg a) ≡ abs a
unfolding neg
abs-neg a = ground arith

-- A valid level has a price.
pub sqrt_price_at_level_total :
    (level : ℤ)
    → is_valid_level level ≡ true
    → (p : ℕ) × (sqrt_price_at_level level ≡ ok p) × (min_sqrt_price ≤ p) × (p ≤ max_sqrt_price)
unfolding is_valid_level sqrt_price_at_level to_tick
sqrt_price_at_level_total level v =
    sqrt_price_at_tick_bounds (neg level) (rw (abs-neg level) (valid level v))
  where
    valid : (l : ℤ) → is_valid_level l ≡ true → abs l ≤ max_tick
    valid (pos n) h = ground arith
    valid (negsuc n) h = ground arith

-- For two valid levels the valuation at the higher level is at least the one at the lower level.
pub fdv_eth_wei_at_level_mono :
    (supply : ℕ) (a b : ℤ)
    → is_valid_level a ≡ true
    → is_valid_level b ≡ true
    → a <ℤ b
    → (x : ℕ) × (y : ℕ) × (fdv_eth_wei_at_level supply a ≡ ok x)
      × (fdv_eth_wei_at_level supply b ≡ ok y)
      × (x ≤ y)
unfolding fdv_eth_wei_at_level
fdv_eth_wei_at_level_mono supply a b va vb h =
    let (p, ep, lowp, _) = sqrt_price_at_level_total a va in
    let (q, eq, lowq, _) = sqrt_price_at_level_total b vb in
    let fall = sqrt_price_at_level_antitone a b h ep eq in
    let le : q ≤ p = omega arith in
    let apart : q * q ≤ p * p = mul-le-mul le le in
    (
      supply * Q192 / (p * p),
      supply * Q192 / (q * q),
      rw ep (div_lem (supply * Q192) (p * p) (square_pos p (omega arith))),
      rw eq (div_lem (supply * Q192) (q * q) (square_pos q (omega arith))),
      div_antitone (supply * Q192) (q * q) (p * p) (square_pos q (omega arith)) apart,
    )
