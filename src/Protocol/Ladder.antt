-- ===== src/Protocol/Ladder.antt =====
-- Ladder geometry (the LadderLib port of src/protocol/protocol-math.ts): where the bands lie above
-- graduation, and what each one holds.
pub mod Schedule
pub mod Inventory
use spawn_backend.Prelude.{
  ℕ, suc, ◌+◌, ◌-◌, ◌*◌, ◌/◌, ◌^◌, Bool, true, false, ltb, ◌==◌, ◌||◌, not, if◌then◌else◌,
}
use spawn_backend.Prelude.Int.{ℤ, pos, ◌+ℤ◌, ◌-ℤ◌, ◌*ℤ◌, div_trunc, leb_ℤ, ltb_ℤ}
use spawn_backend.Prelude.Outcome.{Outcome, ok, ◌>>=◌, ◌>>◌, throw_if}
use spawn_backend.Protocol.Constants.{max_level, wad}
use spawn_backend.Protocol.Fault.{Fault, Partial, div}
use spawn_backend.Protocol.Arithmetic.{mul_div}
use spawn_backend.Protocol.TickMath.{max_uint256}

pub record BandBounds : Type 0 where
  pub level_lower : ℤ
  pub level_upper : ℤ
  pub exists : Bool

-- The offset of band `m - 1` from graduation, where the steps decay for `k + 1` bands.
unfoldable pub band_offset : ℕ → ℕ → ℕ → ℤ → ℤ → ℤ
band_offset first decay spacing k m =
    if leb_ℤ m (k +ℤ pos 1)
    then pos first *ℤ m -ℤ div_trunc (pos decay *ℤ m *ℤ (m -ℤ pos 1)) 2
    else (pos first *ℤ (k +ℤ pos 1)
        -ℤ div_trunc (pos decay *ℤ k *ℤ (k +ℤ pos 1)) 2
        +ℤ (m -ℤ k -ℤ pos 1) *ℤ pos spacing)

unfoldable pub bounds_at : ℤ → ℕ → BandBounds
bounds_at lower width =
    if ltb_ℤ max_level (lower +ℤ pos width)
    then record { level_lower = pos 0; level_upper = pos 0; exists = false }
    else record { level_lower = lower; level_upper = lower +ℤ pos width; exists = true }

-- `bandLevels`, for steps, widths and indices that are not negative.
unfoldable pub band_levels : ℤ → ℕ → ℕ → ℕ → ℕ → ℕ → Partial BandBounds
band_levels graduation first decay spacing width index = do
  throw_if (decay == 0) Fault.division_by_zero
  let k = div_trunc (pos first -ℤ pos spacing) decay
  ok (bounds_at (graduation +ℤ band_offset first decay spacing k (pos (index + 1))) width)

unfoldable pub ladder_supply : ℕ → ℕ → Partial ℕ
ladder_supply total_supply share = mul_div total_supply share wad

unfoldable pub per_band_inventory : ℕ → ℕ → ℕ → Partial ℕ
per_band_inventory total_supply share band_count =
    if band_count == 0
    then ok 0
    else (ladder_supply total_supply share >>= λ supply. div supply band_count)

-- A bigint product does not overflow, so its quotient by `a` is always `b`.
unfoldable pub saturating_mul : ℕ → ℕ → ℕ
saturating_mul a b =
    if a == 0 || b == 0 then 0 else if not (a * b / a == b) then max_uint256 else a * b

-- `{ amount, carried }`
unfoldable pub size_inventory : ℕ → ℕ → ℕ → ℕ × ℕ
size_inventory available per_band cap_multiple =
    let cap = saturating_mul per_band cap_multiple in
    if ltb cap available then (cap, available - cap) else (available, 0)
