-- ===== src/Protocol/Ladder/Inventory.antt =====
-- What a band takes, and that nothing is lost.
use native.Mathlib.Nat.{mul-div_right}
use spawn_backend.Prelude.{
  ℕ, ◌+◌, ◌*◌, ◌/◌, ◌≤◌, ◌<◌, ◌≡◌, false, arith, min, inl, inr, Bool-cases, ◌==◌,
}
use spawn_backend.Prelude.Outcome.{ok}
use spawn_backend.Protocol.Constants.{wad}
use spawn_backend.Protocol.Arithmetic.Rounding.{div_lem, mul_div_lem, floor_bounds}
use spawn_backend.Protocol.Ladder.{
  saturating_mul, size_inventory, per_band_inventory, ladder_supply,
}

-- The product never saturates.
pub saturating_mul_lem : (a b : ℕ) → saturating_mul a b ≡ a * b
unfolding saturating_mul
saturating_mul_lem a b = elim (Bool-cases (a == 0)) [
  | inl nought ↦ ground arith
  | inr nought ↦ ground (arith, mul-div_right b (positive a nought))
]
  where
    positive : (x : ℕ) → (x == 0) ≡ false → 0 < x
    positive x h = ground arith

-- The amount that a band takes and the amount that it carries on add up to what is available, and
-- the amount taken is the smaller of what is available and the cap, whatever the size of the product.
pub size_inventory_conserves :
    (available per_band multiple : ℕ)
    → ((size_inventory available per_band multiple).0
          + (size_inventory available per_band multiple).1
        ≡ available)
      × ((size_inventory available per_band multiple).0 ≡ min available (per_band * multiple))
unfolding size_inventory
size_inventory_conserves available per_band multiple =
    ground (arith, saturating_mul_lem per_band multiple)

-- For at least one band the bands together hold no more than the ladder's supply, and the rest is
-- less than one unit for each band.
pub per_band_inventory_bounds :
    (total share bands : ℕ)
    → 0 < bands
    → (each : ℕ) × (supply : ℕ) × (per_band_inventory total share bands ≡ ok each)
      × (ladder_supply total share ≡ ok supply)
      × (each * bands ≤ supply)
      × (supply < each * bands + bands)
unfolding per_band_inventory ladder_supply
per_band_inventory_bounds total share bands pb =
    let supply = total * share / wad in
    let e = mul_div_lem total share wad (omega arith) in
    let (low, high) = floor_bounds supply bands pb in
    (supply / bands, supply, ground (arith, e, div_lem supply bands pb), e, low, omega arith)
