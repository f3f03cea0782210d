-- ===== src/Protocol/SwapMath/Deltas.antt =====
-- The two roundings of the amounts, and that the price found for an amount pays it out.
use native.Mathlib.Nat.{le_trans, mul-le-mul_right, div-mul-le_self}
use spawn_backend.Prelude.{
  ℕ, ◌+◌, ◌-◌, ◌*◌, ◌/◌, ◌^◌, ◌≤◌, ◌<◌, ◌≡◌, true, false, arith, ◌∙◌, Bool, inl, inr, ltb, leb,
  Bool-cases,
}
use spawn_backend.Prelude.Outcome.{ok, ◌>>◌, throw_if}
use spawn_backend.Protocol.Fault.{Fault}
use spawn_backend.Protocol.Arithmetic.Rounding.{
  ceiling, ceiling_bounds, div_lem, mul_div_lem, mul_div_rounding_up_lem, div_rounding_up_lem,
}
use spawn_backend.Protocol.Orientation.{Q96}
use spawn_backend.Protocol.SwapMath.{
  amount0_ordered, amount0_delta, distance, amount1_delta, next_sqrt_from_amount1_out,
}

distance_comm : (a b : ℕ) → distance a b ≡ distance b a
unfolding distance
distance_comm a b = ground arith

distance_below : (p d : ℕ) → d ≤ p → distance (p - d) p ≡ d
unfolding distance
distance_below p d h = ground arith

settled :
    (p quotient : ℕ) {q : ℕ}
    → (throw_if (leb p quotient) Fault.not_enough_liquidity >> ok (p - quotient)) ≡ ok q
    → (quotient < p) × (q ≡ p - quotient)
settled p quotient r = ground arith

pub next_sqrt_lem :
    (p liquidity out : ℕ) {q : ℕ}
    → 0 < liquidity
    → next_sqrt_from_amount1_out p liquidity out ≡ ok q
    → (ceiling (out * 2 ^ 96) liquidity < p) × (q ≡ p - ceiling (out * 2 ^ 96) liquidity)
unfolding next_sqrt_from_amount1_out
next_sqrt_lem p liquidity out pl r =
    let e = div_rounding_up_lem (out * 2 ^ 96) liquidity pl in
    settled p (ceiling (out * 2 ^ 96) liquidity) (rw e at r)

-- The amount of token1 over a price range rounds the exact amount L·|a - b| / 2^96 down or up by
-- less than one.
pub amount1_delta_roundings :
    (a b liquidity : ℕ)
    → (down : ℕ) × (up : ℕ) × (amount1_delta a b liquidity false ≡ ok down)
      × (amount1_delta a b liquidity true ≡ ok up)
      × (down * Q96 ≤ liquidity * distance a b)
      × (liquidity * distance a b < (down + 1) * Q96)
      × (liquidity * distance a b ≤ up * Q96)
      × (up * Q96 < liquidity * distance a b + Q96)
unfolding amount1_delta
amount1_delta_roundings a b liquidity =
    let n = liquidity * distance a b in
    let e = mul_div_lem liquidity (distance a b) Q96 (omega arith) in
    (
      n / Q96,
      ceiling n Q96,
      ground (arith, e),
      ground (arith, e),
      omega arith,
      omega arith,
      (ceiling_bounds n Q96 (omega arith)).0,
      (ceiling_bounds n Q96 (omega arith)).1,
    )

ordered_lem :
    (a b : ℕ) (liquidity : ℕ) (up : Bool)
    → a ≤ b
    → (amount0_delta a b liquidity up ≡ amount0_ordered a b liquidity up)
      × (amount0_delta b a liquidity up ≡ amount0_ordered a b liquidity up)
unfolding amount0_delta
ordered_lem a b liquidity up le = elim (Bool-cases (ltb a b)) [
  | inl lt ↦ (ground arith, ground arith)
  | inr ge ↦ let e : a ≡ b = ground arith in rw e (ground arith)
]

-- The two roundings of a quotient by b and then by a.
nested_floor : (n a b : ℕ) → 0 < a → 0 < b → n / b / a * a * b ≤ n
nested_floor n a b pa pb =
    le_trans (mul-le-mul_right b (div-mul-le_self (n / b) a)) (div-mul-le_self n b)

nested_ceiling : (n a b : ℕ) → 0 < a → 0 < b → n ≤ ceiling (ceiling n b) a * a * b
nested_ceiling n a b pa pb =
    le_trans (ceiling_bounds n b pb).0 (mul-le-mul_right b (ceiling_bounds (ceiling n b) a pa).0)

ordered_down :
    (a b liquidity : ℕ)
    → 0 < a
    → 0 < b
    → amount0_ordered a b liquidity false ≡ ok (liquidity * 2 ^ 96 * (b - a) / b / a)
unfolding amount0_ordered
ordered_down a b liquidity pa pb =
    rw
      (
        mul_div_lem (liquidity * 2 ^ 96) (b - a) b pb,
        div_lem (liquidity * 2 ^ 96 * (b - a) / b) a pa,
      )
      (ground arith)

ordered_up :
    (a b liquidity : ℕ)
    → 0 < a
    → 0 < b
    → amount0_ordered a b liquidity true ≡ ok (ceiling (ceiling (liquidity * 2 ^ 96 * (b - a)) b) a)
unfolding amount0_ordered
ordered_up a b liquidity pa pb =
    rw
      (
        mul_div_rounding_up_lem (liquidity * 2 ^ 96) (b - a) b pb,
        div_rounding_up_lem (ceiling (liquidity * 2 ^ 96 * (b - a)) b) a pa,
      )
      (ground arith)

-- For positive prices a ≤ b the amount of token0 does not depend on the order of the prices, and its
-- two roundings enclose the exact amount L·2^96·(b - a) / (a·b).
pub amount0_delta_roundings :
    (a b liquidity : ℕ)
    → 0 < a
    → a ≤ b
    → (down : ℕ) × (up : ℕ) × (amount0_delta a b liquidity false ≡ ok down)
      × (amount0_delta b a liquidity false ≡ ok down)
      × (amount0_delta a b liquidity true ≡ ok up)
      × (amount0_delta b a liquidity true ≡ ok up)
      × (down * a * b ≤ liquidity * 2 ^ 96 * (b - a))
      × (liquidity * 2 ^ 96 * (b - a) ≤ up * a * b)
amount0_delta_roundings a b liquidity pa le =
    let pb : 0 < b = omega arith in
    let n = liquidity * 2 ^ 96 * (b - a) in
    let (d1, d2) = ordered_lem a b liquidity false le in
    let (u1, u2) = ordered_lem a b liquidity true le in
    let down = ordered_down a b liquidity pa pb in
    let up = ordered_up a b liquidity pa pb in
    (
      n / b / a,
      ceiling (ceiling n b) a,
      d1 ∙ down,
      d2 ∙ down,
      u1 ∙ up,
      u2 ∙ up,
      nested_floor n a b pa pb,
      nested_ceiling n a b pa pb,
    )

-- If the call returns the price q from p for an amount out, at a positive liquidity, then 0 < q ≤ p
-- and the range from q to p pays at least that amount, rounded down.
pub next_sqrt_pays_out :
    (p liquidity out : ℕ) {q : ℕ}
    → 0 < liquidity
    → next_sqrt_from_amount1_out p liquidity out ≡ ok q
    → (paid : ℕ) × (0 < q) × (q ≤ p) × (amount1_delta q p liquidity false ≡ ok paid) × (out ≤ paid)
next_sqrt_pays_out p liquidity out {q} pl r =
    let quotient = ceiling (out * 2 ^ 96) liquidity in
    let (short, e) = next_sqrt_lem p liquidity out pl r in
    let apart : distance q p ≡ quotient = rw e (distance_below p quotient (omega arith)) in
    let covered : out * 2 ^ 96 ≤ liquidity * distance q p =
      rw apart (omega (arith, (ceiling_bounds (out * 2 ^ 96) liquidity pl).0)) in
    let (down, _, ed, _, _, above, _, _) = amount1_delta_roundings q p liquidity in
    (down, omega arith, omega arith, ed, omega arith)
