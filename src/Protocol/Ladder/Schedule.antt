-- ===== src/Protocol/Ladder/Schedule.antt =====
-- The closed form of `bandLevels` is the decaying schedule, for decay > 0 and spacing ≤ firstStep: band
-- 0 starts firstStep levels above graduation, and band i + 1 starts
-- max(spacing, firstStep - decay * (i + 1)) levels above band i.
use native.Mathlib.Nat.{mul-le-mul_left}
use spawn_backend.Prelude.{
  ℕ, zero, suc, ◌+◌, ◌-◌, ◌*◌, ◌/◌, ◌≤◌, ◌<◌, ◌≡◌, true, arith, max, inl, inr, false, tests, leb,
  Bool-cases,
}
use spawn_backend.Prelude.Int.{
  ℤ, pos, ◌+ℤ◌, ◌-ℤ◌, ◌≤ℤ◌, leb_ℤ, div_trunc, div_trunc-pos, *ℤ-pos, int_laws, +ℤ_parts,
}
use spawn_backend.Prelude.Outcome.{ok}
use spawn_backend.Protocol.Arithmetic.Rounding.{floor_bounds}
use spawn_backend.Protocol.Ladder.{BandBounds, band_offset, bounds_at, band_levels}

-- The offset of the band `m - 1` above graduation, step by step.
unfoldable pub schedule : ℕ → ℕ → ℕ → ℕ → ℕ
schedule first decay spacing zero = 0
schedule first decay spacing (suc i) =
    schedule first decay spacing i + max spacing (first - decay * i)

decaying :
    (first decay spacing k i : ℕ)
    → decay * k + spacing ≤ first
    → i ≤ k + 1
    → 2 * schedule first decay spacing i + decay * i * i ≡ 2 * first * i + decay * i
unfolding schedule
decaying first decay spacing k zero h le = omega arith
decaying first decay spacing k (suc i) h le =
    let small : decay * i ≤ decay * k = mul-le-mul_left decay (omega arith) in
    omega (arith, decaying first decay spacing k i h (omega arith))

flat :
    (first decay spacing k j : ℕ)
    → first < decay * (k + 1) + spacing
    → schedule first decay spacing (k + 1 + j) ≡ schedule first decay spacing (k + 1) + j * spacing
unfolding schedule
flat first decay spacing k zero h = let e : k + 1 + 0 ≡ k + 1 = omega arith in rw e (omega arith)
flat first decay spacing k (suc j) h =
    let e : k + 1 + suc j ≡ suc (k + 1 + j) = omega arith in
    let large : decay * (k + 1) ≤ decay * (k + 1 + j) = mul-le-mul_left decay (omega arith) in
    rw e (omega (arith, flat first decay spacing k j h))

early_offset :
    (first decay spacing k i : ℕ)
    → decay * k + spacing ≤ first
    → i ≤ k
    → band_offset first decay spacing (pos k) (pos (i + 1))
      ≡ pos (schedule first decay spacing (i + 1))
unfolding band_offset
early_offset first decay spacing k i h le =
    let sum : pos k +ℤ pos 1 ≡ pos (k + 1) = omega int_laws in
    let back : pos (i + 1) -ℤ pos 1 ≡ pos i = omega int_laws in
    let within : leb_ℤ (pos (i + 1)) (pos (k + 1)) ≡ true = ground arith in
    let closed = decaying first decay spacing k (i + 1) h (omega arith) in
    rw (sum, back, within) (simp (*ℤ-pos, div_trunc-pos) (omega int_laws))

late_offset :
    (first decay spacing k j : ℕ)
    → decay * k + spacing ≤ first
    → first < decay * (k + 1) + spacing
    → band_offset first decay spacing (pos k) (pos (k + 1 + suc j))
      ≡ pos (schedule first decay spacing (k + 1 + suc j))
unfolding band_offset
late_offset first decay spacing k j h over =
    let m = k + 1 + suc j in
    let sum : pos k +ℤ pos 1 ≡ pos (k + 1) = omega int_laws in
    let extra : pos m -ℤ pos k -ℤ pos 1 ≡ pos (suc j) = omega int_laws in
    let beyond : leb_ℤ (pos m) (pos (k + 1)) ≡ false = ground arith in
    let closed = decaying first decay spacing k (k + 1) h (omega arith) in
    let rest = flat first decay spacing k (suc j) over in
    rw (sum, extra, beyond) (simp (*ℤ-pos, div_trunc-pos) (omega int_laws))

offset_lem :
    (first decay spacing i : ℕ)
    → spacing ≤ first
    → 0 < decay
    → band_offset first decay spacing (div_trunc (pos first -ℤ pos spacing) decay) (pos (i + 1))
      ≡ pos (schedule first decay spacing (i + 1))
offset_lem first decay spacing i le pd =
    let room : pos first -ℤ pos spacing ≡ pos (first - spacing) = omega int_laws in
    let k = (first - spacing) / decay in
    let (below, above) = floor_bounds (first - spacing) decay pd in
    let h : decay * k + spacing ≤ first = omega arith in
    let over : first < decay * (k + 1) + spacing = omega arith in
    rw (room, div_trunc-pos)
      (elim (Bool-cases (leb i k)) [
        | inl early ↦ early_offset first decay spacing k i h (omega tests)
        | inr late ↦
            let e : k + 1 + suc (i - k - 1) ≡ i + 1 = ground arith in
            rw e at (late_offset first decay spacing k (i - k - 1) h over)
      ])

-- For spacing ≤ firstStep and decay > 0 the call returns the bounds of a band of the given width at
-- the graduation level plus the first i + 1 steps of the schedule max(spacing, firstStep - decay * j).
pub band_levels-eq-schedule :
    (graduation : ℤ) (first decay spacing width i : ℕ)
    → spacing ≤ first
    → 0 < decay
    → band_levels graduation first decay spacing width i
      ≡ ok (bounds_at (graduation +ℤ pos (schedule first decay spacing (i + 1))) width)
unfolding band_levels
band_levels-eq-schedule graduation first decay spacing width i le pd =
    rw (offset_lem first decay spacing i le pd) (ground arith)

schedule_rises :
    (first decay spacing i : ℕ)
    → schedule first decay spacing i + spacing ≤ schedule first decay spacing (i + 1)
unfolding schedule
schedule_rises first decay spacing i = let e : i + 1 ≡ suc i = omega arith in rw e (omega arith)

bounds_at_apart :
    (a b : ℤ) (width : ℕ)
    → a +ℤ pos width ≤ℤ b
    → (bounds_at b width).exists ≡ true
    → ((bounds_at a width).exists ≡ true)
      × ((bounds_at a width).level_upper ≤ℤ (bounds_at b width).level_lower)
unfolding bounds_at
bounds_at_apart a b width h there = ground (arith, +ℤ_parts b (pos width), +ℤ_parts a (pos width))

-- For width ≤ spacing ≤ firstStep and decay > 0: if band i + 1 exists, so does band i, and it ends at
-- or below the start of band i + 1.
pub bands_disjoint :
    (graduation : ℤ) (first decay spacing width i : ℕ) {low high : BandBounds}
    → spacing ≤ first
    → 0 < decay
    → width ≤ spacing
    → band_levels graduation first decay spacing width i ≡ ok low
    → band_levels graduation first decay spacing width (i + 1) ≡ ok high
    → high.exists ≡ true
    → (low.exists ≡ true) × (low.level_upper ≤ℤ high.level_lower)
bands_disjoint graduation first decay spacing width i {low} {high} le pd narrow el eh there =
    let a = graduation +ℤ pos (schedule first decay spacing (i + 1)) in
    let b = graduation +ℤ pos (schedule first decay spacing (i + 1 + 1)) in
    let is_low : low ≡ bounds_at a width =
      cc (el, band_levels-eq-schedule graduation first decay spacing width i le pd) in
    let is_high : high ≡ bounds_at b width =
      cc (eh, band_levels-eq-schedule graduation first decay spacing width (i + 1) le pd) in
    let rises = schedule_rises first decay spacing (i + 1) in
    rw is_low (rw is_high (bounds_at_apart a b width (omega int_laws) (rw is_high at there)))
