-- ===== src/Protocol/TickMath/Monotone.antt =====
-- `getSqrtPriceAtTick` is strictly increasing on the whole tick range, although each of its 20
-- multiplications rounds down and the inversion and the final shift round again.
use native.Mathlib.Nat.{le-div_iff_mul-le, mul-le-mul, div-mul-le_self, le_refl}
use spawn_backend.Prelude.{ℕ, zero, suc, ◌+◌, ◌-◌, ◌*◌, ◌/◌, ◌^◌, ◌≤◌, ◌<◌, ◌≡◌, arith}
use spawn_backend.Prelude.Division.{div_antitone}
use spawn_backend.Prelude.Int.{ℤ, pos, negsuc, abs, ◌<ℤ◌, eq_of_parts}
use spawn_backend.Prelude.Outcome.{ok}
use spawn_backend.Protocol.Constants.{max_tick}
use spawn_backend.Protocol.TickMath.{Q128, max_uint256, ratio, sqrt_price_at_tick}
use spawn_backend.Protocol.TickMath.Bounds.{
  gap, ratio_bounds, ratio_step, to_q96, price_at, sqrt_price_at_tick_lem,
  abs-le_of_sqrt_price_at_tick,
}

ratio_falls_by : (d t : ℕ) → t + suc d ≤ max_tick → ratio (t + suc d) + gap ≤ ratio t
ratio_falls_by zero t h =
    let e : t + 1 ≡ t + suc zero = omega arith in rw e at (ratio_step t (omega arith))
ratio_falls_by (suc d) t h =
    let e : t + 1 + suc d ≡ t + suc (suc d) = omega arith in
    let far : ratio (t + suc (suc d)) + gap ≤ ratio (t + 1) =
      rw e at (ratio_falls_by d (t + 1) (omega arith)) in
    omega (arith, ratio_step t (omega arith))

-- A larger absolute tick has a ratio that is smaller by at least the gap.
ratio_falls : (t u : ℕ) → t < u → u ≤ max_tick → ratio u + gap ≤ ratio t
ratio_falls t u lt le =
    let e : t + suc (u - t - 1) ≡ u = omega arith in
    rw e at (ratio_falls_by (u - t - 1) t (omega arith))

-- The inverse of a ratio grows by at least 2^32 when the ratio falls by the gap.
inverse_grows :
    (r s : ℕ) → 0 < r → r + gap ≤ s → s ≤ Q128 → max_uint256 / s + 2 ^ 32 ≤ max_uint256 / r
inverse_grows r s pr apart le =
    let q = max_uint256 / s in
    let large : Q128 - 1 ≤ q = div_antitone max_uint256 s Q128 (omega arith) le in
    let fits : q * s ≤ max_uint256 = div-mul-le_self max_uint256 s in
    let room : q * (r + gap) ≤ q * s = mul-le-mul (le_refl q) apart in
    (le-div_iff_mul-le pr).1 (omega arith)

ratio_below_one : (t : ℕ) → 0 < t → t ≤ max_tick → ratio t + gap ≤ Q128
ratio_below_one t pt le = omega (arith, ratio_falls 0 t pt le, ratio_bounds 0 (omega arith))

-- Both ticks positive: the inverses of the ratios.
positive_rises :
    (a b : ℕ)
    → 0 < a
    → a < b
    → b ≤ max_tick
    → to_q96 (max_uint256 / ratio a) < to_q96 (max_uint256 / ratio b)
positive_rises a b pa lt le =
    let low = ratio_bounds b le in
    let top = ratio_bounds a (omega arith) in
    omega (arith, inverse_grows (ratio b) (ratio a) (omega arith) (ratio_falls a b lt le) top.1)

-- The lower tick not positive, the higher one positive.
crossing_rises :
    (a b : ℕ)
    → 0 < b
    → a ≤ max_tick
    → b ≤ max_tick
    → to_q96 (ratio a) < to_q96 (max_uint256 / ratio b)
crossing_rises a b pb ha hb =
    let low = ratio_bounds b hb in
    let top = ratio_bounds a ha in
    omega
      (arith, inverse_grows (ratio b) Q128 (omega arith) (ratio_below_one b pb hb) (le_refl Q128))

-- Neither tick positive: the ratios themselves.
negative_rises : (a b : ℕ) → b < a → a ≤ max_tick → to_q96 (ratio a) < to_q96 (ratio b)
negative_rises a b lt le = omega (arith, ratio_falls b a lt le)

price_at_rises :
    (a b : ℤ)
    → abs a ≤ max_tick
    → abs b ≤ max_tick
    → a <ℤ b
    → to_q96 (price_at a) < to_q96 (price_at b)
price_at_rises (pos zero) (pos zero) ha hb h = absurd (omega arith)
price_at_rises (pos zero) (pos (suc b)) ha hb h = crossing_rises 0 (suc b) (omega arith) ha hb
price_at_rises (pos (suc a)) (pos zero) ha hb h = absurd (omega arith)
price_at_rises (pos (suc a)) (pos (suc b)) ha hb h =
    positive_rises (suc a) (suc b) (omega arith) (omega arith) (omega arith)
price_at_rises (pos a) (negsuc b) ha hb h = absurd (omega arith)
price_at_rises (negsuc a) (pos zero) ha hb h = negative_rises (suc a) 0 (omega arith) (omega arith)
price_at_rises (negsuc a) (pos (suc b)) ha hb h =
    crossing_rises (suc a) (suc b) (omega arith) (omega arith) (omega arith)
price_at_rises (negsuc a) (negsuc b) ha hb h =
    negative_rises (suc a) (suc b) (omega arith) (omega arith)

-- Where the calls at two ticks return, the higher tick has the strictly higher price.
pub sqrt_price_at_tick_mono :
    (a b : ℤ) {p q : ℕ} → a <ℤ b → sqrt_price_at_tick a ≡ ok p → sqrt_price_at_tick b ≡ ok q → p < q
sqrt_price_at_tick_mono a b h ea eb =
    let ha = abs-le_of_sqrt_price_at_tick a ea in
    let hb = abs-le_of_sqrt_price_at_tick b eb in
    grind
      (arith, price_at_rises a b ha hb h, sqrt_price_at_tick_lem a ha, sqrt_price_at_tick_lem b hb)

-- No two ticks have the same price.
pub sqrt_price_at_tick_injective :
    (a b : ℤ) {p : ℕ} → sqrt_price_at_tick a ≡ ok p → sqrt_price_at_tick b ≡ ok p → a ≡ b
sqrt_price_at_tick_injective a b ea eb = grind (
  arith,
  eq_of_parts a b,
  λ (h : a <ℤ b). sqrt_price_at_tick_mono a b h ea eb,
  λ (h : b <ℤ a). sqrt_price_at_tick_mono b a h eb ea,
)
