-- ===== src/Protocol/Fault.antt =====
-- What the functions of src/protocol throw: a constructor for each `throw new Error(…)`, and for
-- the `RangeError` of a bigint division by zero.
use spawn_backend.Prelude.{ℕ, ◌/◌, ◌%◌, ◌==◌}
use spawn_backend.Prelude.Outcome.{Outcome, ok, ◌>>◌, throw_if}

pub data Fault : Type 0 where
  division_by_zero not_a_number : Fault
  msb_of_zero tick_out_of_range sqrt_price_out_of_range : Fault
  levels_not_ascending ticks_not_ascending : Fault
  isqrt_of_negative negative_decimals : Fault
  opening_level_out_of_range opening_level_invalid far_level_out_of_range : Fault
  invalid_price not_enough_liquidity : Fault
  zero_position_liquidity liquidity_exhausted exceeds_curve_supply : Fault

abbrev pub Partial {ℓ} : Type ℓ → Type ℓ
Partial A = Outcome Fault A

-- `a / b` on bigints that are not negative.
abbrev pub div : ℕ → ℕ → Partial ℕ
div a b = throw_if (b == 0) Fault.division_by_zero >> ok (a / b)

-- `a % b` on bigints that are not negative.
abbrev pub rem : ℕ → ℕ → Partial ℕ
rem a b = throw_if (b == 0) Fault.division_by_zero >> ok (a % b)
