-- ===== src/Tests/Geometry.antt =====
-- The curve and the ladder at concrete inputs.
use spawn_backend.Prelude.{ℕ, ◌+◌, ◌^◌, ◌≤◌, ◌≡◌, true, refl, arith}
use spawn_backend.Prelude.Int.{ℤ, pos, negsuc, ◌≤ℤ◌, ◌+ℤ◌, ◌-ℤ◌, ◌*ℤ◌, div_trunc}
use spawn_backend.Prelude.Outcome.{ok}
use spawn_backend.Protocol.Template
use spawn_backend.Protocol.Constants.{fixed_total_supply}
use spawn_backend.Protocol.Orientation.{is_valid_level}
use spawn_backend.Protocol.Curve.{uint128_max, opening_level, curve_position_liquidity}
use spawn_backend.Protocol.Curve.Opening.{opening_level_valid}
use spawn_backend.Protocol.Curve.Positions.{
  amounts_below, amounts_conserve_supply, curve_position_liquidity_total,
}
use spawn_backend.Protocol.Ladder.{BandBounds, bounds_at, band_offset, band_levels}
use spawn_backend.Protocol.Ladder.Schedule.{schedule, band_levels-eq-schedule, bands_disjoint}

amounts_conserve_supply_example : amounts_below 1_000 32 32 ≡ ok 1_000
amounts_conserve_supply_example = amounts_conserve_supply 1_000 32 (omega arith)

curve_position_liquidity_total_example :
    (l : ℕ) × (curve_position_liquidity
        (negsuc 199_999)
        (negsuc 199_999 +ℤ pos 13_862)
        32
        (10 ^ 27)
        5
      ≡ ok l)
    × (l ≤ uint128_max)
unfolding ◌+ℤ◌
curve_position_liquidity_total_example =
    curve_position_liquidity_total (negsuc 199_999) 13_862 32 (10 ^ 27) 5 (omega arith)
      (omega arith) (omega arith) (omega arith)

-- The floor square root of the opening price of the template.
opening_root : ℕ
opening_root = 1_771_595_571_142_957_102_961_017_161_607_260

opening_level_example :
    (level : ℤ) × (opening_level fixed_total_supply Template.opening_fdv_wei ≡ ok level)
    × (is_valid_level level ≡ true)
unfolding opening_root
opening_level_example =
    opening_level_valid fixed_total_supply Template.opening_fdv_wei opening_root (omega arith)
      (omega arith) (omega arith) (omega arith)

first_bands : schedule 6_932 391 2_235 3 ≡ 6_932 + 6_541 + 6_150
unfolding schedule
first_bands = refl

band_levels-eq-schedule_example :
    band_levels (negsuc 186_137) 6_932 391 2_235 447 21
    ≡ ok (bounds_at (negsuc 186_137 +ℤ pos (schedule 6_932 391 2_235 22)) 447)
band_levels-eq-schedule_example =
    band_levels-eq-schedule (negsuc 186_137) 6_932 391 2_235 447 21 (omega arith) (omega arith)

band_0 : BandBounds
band_0 = record { level_lower = pos 6_932; level_upper = pos 7_379; exists = true }

band_1 : BandBounds
band_1 = record { level_lower = pos 13_473; level_upper = pos 13_920; exists = true }

bands_disjoint_example : (band_0.exists ≡ true) × (band_0.level_upper ≤ℤ band_1.level_lower)
unfolding band_0 band_1 band_levels bounds_at band_offset ◌+ℤ◌ ◌-ℤ◌ ◌*ℤ◌ div_trunc
bands_disjoint_example =
    bands_disjoint (pos 0) 6_932 391 2_235 447 0 {low = band_0} {high = band_1} (omega arith)
      (omega arith) (omega arith) refl refl refl
