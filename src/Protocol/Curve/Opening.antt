-- ===== src/Protocol/Curve/Opening.antt =====
-- The opening level exists if the square root of the opening price is in range.
use spawn_backend.Prelude.{ℕ, ◌*◌, ◌/◌, ◌≤◌, ◌<◌, ◌≡◌, refl, true, arith, ◌⊎◌}
use spawn_backend.Prelude.Int.{ℤ, pos, negsuc, neg, ◌≤ℤ◌, ◌+ℤ◌}
use spawn_backend.Prelude.Outcome.{ok, err}
use spawn_backend.Protocol.Constants.{min_sqrt_price, max_sqrt_price, max_level}
use spawn_backend.Protocol.Fault.{Fault}
use spawn_backend.Protocol.Arithmetic.Isqrt.{IsRoot, IsRoot-unique, isqrt-IsRoot}
use spawn_backend.Protocol.Arithmetic.Rounding.{mul_div_lem}
use spawn_backend.Protocol.TickMath.Total.{tick_at_sqrt_price_total}
use spawn_backend.Protocol.Orientation.{Q192, to_level, is_valid_level}
use spawn_backend.Protocol.Curve.{opening_level, opening_level_at, far_level}

valid_of_range :
    (tick : ℤ)
    → negsuc 887_271 ≤ℤ tick
    → tick ≤ℤ pos 887_271
    → is_valid_level (to_level tick) ≡ true
unfolding is_valid_level to_level neg
valid_of_range (pos n) lo hi = ground arith
valid_of_range (negsuc n) lo hi = ground arith

opening_level_at_valid :
    (r : ℕ)
    → min_sqrt_price ≤ r
    → r < max_sqrt_price
    → (level : ℤ) × (opening_level_at r ≡ ok level) × (is_valid_level level ≡ true)
unfolding opening_level_at
opening_level_at_valid r low high =
    let (tick, e, lo, hi) = tick_at_sqrt_price_total r low high in
    let v = valid_of_range tick lo hi in (to_level tick, ground (arith, e, v), v)

-- For a positive opening valuation, let r be the floor square root of supply · 2^192 / valuation. If
-- r is a square root price in range, the call returns a valid level.
pub opening_level_valid :
    (supply fdv r : ℕ)
    → 0 < fdv
    → IsRoot (supply * Q192 / fdv) r
    → min_sqrt_price ≤ r
    → r < max_sqrt_price
    → (level : ℤ) × (opening_level supply fdv ≡ ok level) × (is_valid_level level ≡ true)
unfolding opening_level
opening_level_valid supply fdv r pf root low high =
    let (r', er, root') = isqrt-IsRoot (supply * Q192 / fdv) in
    let same : r' ≡ r = IsRoot-unique (supply * Q192 / fdv) r' r root' root in
    let (level, e, v) = opening_level_at_valid r low high in
    (level, rw (mul_div_lem supply Q192 fdv pf, er, same, e) refl, v)

-- A far level that the call returns is the sum of the opening level and the span, and is at most
-- MAX_LEVEL; a larger sum is refused.
pub far_level_lem :
    (opening span : ℤ)
    → (far_level opening span ≡ ok (opening +ℤ span)) × (opening +ℤ span ≤ℤ max_level)
      ⊎ (far_level opening span ≡ err Fault.far_level_out_of_range)
unfolding far_level
far_level_lem opening span = ground arith
