-- ===== src/Protocol/Arithmetic/Rounding.antt =====
-- The two roundings of a quotient.
use native.Mathlib.Nat.{div-add-mod', mod-lt}
use spawn_backend.Prelude.{
  ℕ, ◌+◌, ◌*◌, ◌/◌, ◌%◌, ◌≤◌, ◌<◌, ◌≡◌, arith, inl, inr, Bool-cases, ◌==◌, if◌then◌else◌,
}
use spawn_backend.Prelude.Outcome.{ok}
use spawn_backend.Protocol.Fault.{div}
use spawn_backend.Protocol.Arithmetic.{mul_div, div_rounding_up, mul_div_rounding_up}

abbrev pub ceiling : ℕ → ℕ → ℕ
ceiling a d = if a % d == 0 then a / d else a / d + 1

pub ceiling_bounds : (a d : ℕ) → 0 < d → (a ≤ ceiling a d * d) × (ceiling a d * d < a + d)
ceiling_bounds a d pd = elim (Bool-cases (a % d == 0)) [
  | inl exact ↦
      let none_left : a % d ≡ 0 = ground arith in rw exact (omega (arith, div-add-mod' a d))
  | inr inexact ↦
      let some_left : 0 < a % d = ground arith in
      rw inexact (omega (arith, div-add-mod' a d, mod-lt a pd))
]

pub floor_bounds : (a d : ℕ) → 0 < d → (a / d * d ≤ a) × (a < (a / d + 1) * d)
floor_bounds a d pd = omega (arith, div-add-mod' a d, mod-lt a pd)

pub div_lem : (a d : ℕ) → 0 < d → div a d ≡ ok (a / d)
div_lem a d pd = ground arith

pub mul_div_lem : (a b d : ℕ) → 0 < d → mul_div a b d ≡ ok (a * b / d)
unfolding mul_div
mul_div_lem a b d pd = ground arith

pub mul_div_rounding_up_lem :
    (a b d : ℕ) → 0 < d → mul_div_rounding_up a b d ≡ ok (ceiling (a * b) d)
unfolding mul_div_rounding_up
mul_div_rounding_up_lem a b d pd = ground arith

pub div_rounding_up_lem : (a d : ℕ) → 0 < d → div_rounding_up a d ≡ ok (ceiling a d)
unfolding div_rounding_up
div_rounding_up_lem a d pd = ground arith

-- For d > 0 `mulDiv` returns the q with q·d ≤ a·b < (q + 1)·d, and `mulDivRoundingUp` the r with
-- a·b ≤ r·d < a·b + d.
pub mul_div_roundings :
    (a b d : ℕ)
    → 0 < d
    → (q : ℕ) × (r : ℕ) × (mul_div a b d ≡ ok q)
      × (q * d ≤ a * b)
      × (a * b < (q + 1) * d)
      × (mul_div_rounding_up a b d ≡ ok r)
      × (a * b ≤ r * d)
      × (r * d < a * b + d)
mul_div_roundings a b d pd =
    let (below, above) = floor_bounds (a * b) d pd in
    let (covers, near) = ceiling_bounds (a * b) d pd in
    (
      a * b / d,
      ceiling (a * b) d,
      mul_div_lem a b d pd,
      below,
      above,
      mul_div_rounding_up_lem a b d pd,
      covers,
      near,
    )
