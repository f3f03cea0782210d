-- ===== src/Protocol/Curve/Positions.antt =====
-- The nested positions of the curve: where they start, what they hold, and that each has a liquidity.
use native.Mathlib.Nat.{
  mul-le-mul_left, div-mul-le_self, div-lt_iff_lt-mul, mul-le-mul_right, div-add-mod',
}
use spawn_backend.Prelude.{
  ℕ, zero, suc, ◌+◌, ◌-◌, ◌*◌, ◌/◌, ◌≤◌, ◌<◌, ◌≡◌, refl, arith, inl, inr, ltb, ltb→lt, tests, false,
  if◌then◌else◌, ◌==◌, Bool-cases,
}
use spawn_backend.Prelude.Division.{div_mono, product-lt}
use spawn_backend.Prelude.Int.{
  ℤ, pos, negsuc, neg, ◌≤ℤ◌, ◌<ℤ◌, ◌+ℤ◌, ◌-ℤ◌, int_laws, leb_ℤ, *ℤ-pos, div_trunc-pos, abs,
}
use spawn_backend.Prelude.Outcome.{ok, ◌>>=◌}
use spawn_backend.Protocol.Constants.{max_tick, min_level, max_level}
use spawn_backend.Protocol.Fault.{Partial}
use spawn_backend.Protocol.Arithmetic.Rounding.{div_lem, mul_div_lem}
use spawn_backend.Protocol.TickMath.Bounds.{sqrt_price_at_tick_bounds}
use spawn_backend.Protocol.TickMath.Monotone.{sqrt_price_at_tick_mono}
use spawn_backend.Protocol.Orientation.{Q96, level_range_to_ticks, to_tick}
use spawn_backend.Protocol.TickMath.{sqrt_price_at_tick}
use spawn_backend.Protocol.Curve.{
  uint128_max, curve_position_start, curve_position_amount, curve_position_liquidity,
  liquidity_between, liquidity_over, liquidity_of,
}

-- The amounts of the positions below `count`, added up.
pub amounts_below : ℕ → ℕ → ℕ → Partial ℕ
amounts_below supply positions zero = ok 0
amounts_below supply positions (suc count) = do
  rest ← amounts_below supply positions count
  amount ← curve_position_amount supply positions count
  ok (rest + amount)

amounts_below_lem :
    (supply positions count : ℕ)
    → count < positions
    → amounts_below supply positions count ≡ ok (supply / positions * count)
unfolding amounts_below curve_position_amount
amounts_below_lem supply positions zero h = ground arith
amounts_below_lem supply positions (suc count) h =
    rw (amounts_below_lem supply positions count (omega arith)) (ground arith)

-- For at least one position, the amounts of all positions add up to exactly the curve's supply.
pub amounts_conserve_supply :
    (supply positions : ℕ) → 0 < positions → amounts_below supply positions positions ≡ ok supply
unfolding amounts_below curve_position_amount
amounts_conserve_supply supply zero h = absurd (omega arith)
amounts_conserve_supply supply (suc last) h =
    rw (amounts_below_lem supply (suc last) last (omega arith))
      (ground (arith, div-add-mod' supply (suc last)))

start_lem :
    (opening : ℤ) (span positions index : ℕ)
    → 0 < positions
    → curve_position_start opening (opening +ℤ pos span) positions index
      ≡ ok (opening +ℤ pos (span * index / positions))
unfolding curve_position_start
start_lem opening span positions index h =
    let e : opening +ℤ pos span -ℤ opening ≡ pos span = omega int_laws in
    rw (e, *ℤ-pos, div_trunc-pos) (ground arith)

-- On a curve of a positive span the starts of two positions i ≤ j both exist, lie at or above the
-- opening level and below the far level, and do not fall from i to j.
pub position_starts :
    (opening : ℤ) (span positions i j : ℕ)
    → 0 < span
    → i ≤ j
    → j < positions
    → (s : ℤ) × (t : ℤ) × (curve_position_start opening (opening +ℤ pos span) positions i ≡ ok s)
      × (curve_position_start opening (opening +ℤ pos span) positions j ≡ ok t)
      × (opening ≤ℤ s)
      × (s ≤ℤ t)
      × (t <ℤ opening +ℤ pos span)
position_starts opening span positions i j ps le lt =
    let pp : 0 < positions = omega arith in
    let m = span * i / positions in
    let n = span * j / positions in
    let rise : m ≤ n = div_mono (span * i) (span * j) positions pp (mul-le-mul_left span le) in
    let short : n < span = (div-lt_iff_lt-mul pp).1 (product-lt span j positions ps lt) in
    (
      opening +ℤ pos m,
      opening +ℤ pos n,
      start_lem opening span positions i pp,
      start_lem opening span positions j pp,
      omega int_laws,
      omega int_laws,
      omega int_laws,
    )

liquidity_of_lem :
    (amount d : ℕ)
    → 0 < d
    → (l : ℕ) × (liquidity_of amount d ≡ ok l) × (l ≤ uint128_max) × (l * d ≤ amount * Q96)
unfolding liquidity_of
liquidity_of_lem amount d pd = elim (Bool-cases (ltb uint128_max (amount * Q96 / d))) [
  | inl large ↦ (
    uint128_max,
    rw (mul_div_lem amount Q96 d pd, large) refl,
    omega arith,
    omega (tests, mul-le-mul_right d (ltb→lt _ _ large), div-mul-le_self (amount * Q96) d),
  )
  | inr fits ↦ (
    amount * Q96 / d,
    rw (mul_div_lem amount Q96 d pd, fits) refl,
    ground arith,
    div-mul-le_self (amount * Q96) d,
  )
]

abs-le_of_range : (l : ℤ) → min_level ≤ℤ l → l ≤ℤ max_level → abs (neg l) ≤ max_tick
unfolding neg
abs-le_of_range (pos n) lo hi = ground arith
abs-le_of_range (negsuc n) lo hi = ground arith

-- The difference of the prices over a range of levels is positive.
price_difference :
    (a b : ℤ)
    → min_level ≤ℤ a
    → a <ℤ b
    → b ≤ℤ max_level
    → (p : ℕ) × (q : ℕ) × (sqrt_price_at_tick (neg a) ≡ ok p)
      × (sqrt_price_at_tick (neg b) ≡ ok q)
      × (q < p)
price_difference a b lo lt hi =
    let (p, ep, _, _) = sqrt_price_at_tick_bounds (neg a) (abs-le_of_range a lo (omega arith)) in
    let (q, eq, _, _) = sqrt_price_at_tick_bounds (neg b) (abs-le_of_range b (omega arith) hi) in
    (p, q, ep, eq, sqrt_price_at_tick_mono (neg b) (neg a) (omega int_laws) eq ep)

liquidity_over_total :
    (positions supply index d : ℕ)
    → 0 < positions
    → 0 < d
    → (l : ℕ) × (liquidity_over positions supply index d ≡ ok l) × (l ≤ uint128_max)
unfolding liquidity_over curve_position_amount
liquidity_over_total positions supply index d pp pd =
    let each = supply / positions in
    let amount = if index + 1 == positions then supply - each * (positions - 1) else each in
    let (l, e, fits, _) = liquidity_of_lem amount d pd in
    (l, ground (arith, e, div_lem supply positions pp), fits)

-- At valid opening and far levels every position of a curve with a positive span has a liquidity of
-- at most 2^128 - 1, and the call throws nothing.
pub curve_position_liquidity_total :
    (opening : ℤ) (span positions supply index : ℕ)
    → min_level ≤ℤ opening
    → opening +ℤ pos span ≤ℤ max_level
    → 0 < span
    → index < positions
    → (l : ℕ) × (curve_position_liquidity opening (opening +ℤ pos span) positions supply index
        ≡ ok l)
      × (l ≤ uint128_max)
unfolding curve_position_liquidity liquidity_between level_range_to_ticks to_tick
curve_position_liquidity_total opening span positions supply index low high ps lt =
    let (s0, s, _, es, above, rise, below) =
      position_starts opening span positions index index ps (omega arith) lt in
    let far = opening +ℤ pos span in
    let (p, q, ep, eq, fall) = price_difference s far (omega arith) below high in
    let (l, el, fits) =
      liquidity_over_total positions supply index (p - q) (omega arith) (omega arith) in
    let ascending : leb_ℤ far s ≡ false = ground arith in
    let some_position : (positions == 0) ≡ false = ground arith in
    (l, rw (some_position, es, ascending, ep, eq, el) refl, fits)
