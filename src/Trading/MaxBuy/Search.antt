-- ===== src/Trading/MaxBuy/Search.antt =====
-- How near the search comes.
use spawn_backend.Prelude.{
  ℕ, zero, suc, ◌+◌, ◌-◌, ◌*◌, ◌/◌, ◌^◌, ◌≤◌, ◌<◌, ◌≡◌, refl, Bool, true, false, ltb, some, ◌⊎◌,
  inl, inr, Bool-cases, arith,
}
use spawn_backend.Prelude.Powers.{two_pow-suc}
use spawn_backend.Trading.MaxBuy.{raise, halve, highest_tried, max_buy}

module _ (quotable : ℕ → Bool) where
  -- `lo` is 0 or can be filled, and at most `gap` above it lies an amount that cannot.
  pub record IsNear (lo gap : ℕ) : Type 0 where
    pub fills : (lo ≡ 0) ⊎ (quotable lo ≡ true)
    pub refused : ℕ
    pub refuses : quotable refused ≡ false
    pub near : (lo < refused) × (refused ≤ lo + gap)

  twice : (a b : ℕ) → a * (2 * b) ≡ a * b + a * b
  twice a b = grind arith

  raise-pos : (n hi : ℕ) → 0 < hi → 0 < raise quotable n hi
  unfolding raise
  raise-pos zero hi p = p
  raise-pos (suc n) hi p = ground (arith, raise-pos n (hi * 4) (omega arith))

  highest_pos : 0 < highest_tried quotable
  unfolding highest_tried
  highest_pos = ground (arith, raise-pos 6 (10 ^ 18) (omega arith))

  halve-IsNear :
      (n lo hi gap : ℕ)
      → (lo ≡ 0) ⊎ (quotable lo ≡ true)
      → quotable hi ≡ false
      → lo < hi
      → 10 ^ 14 ≤ gap
      → hi - lo ≤ gap * 2 ^ n
      → IsNear (halve quotable n lo hi) gap
  unfolding halve
  halve-IsNear zero lo hi gap fills refusal lt least h = record {
    fills = fills;
    refused = hi;
    refuses = refusal;
    near = (lt, omega arith);
  }
  halve-IsNear (suc n) lo hi gap fills refusal lt least h =
      let mid = (lo + hi) / 2 in
      let part = gap * 2 ^ n in
      let wide : hi - lo ≤ part + part =
        omega (arith, twice gap (2 ^ n), rw (two_pow-suc n) at h) in
      elim (Bool-cases (ltb (10 ^ 14) (hi - lo))) [
        | inr close ↦
            rw close
              (record { fills = fills; refused = hi; refuses = refusal; near = (lt, ground arith) })
        | inl apart ↦ elim (Bool-cases (quotable mid)) [
          | inl filled ↦
              rw (apart, filled)
                (halve-IsNear n mid hi gap (inr filled) refusal (ground arith) least (ground arith))
          | inr short ↦
              rw (apart, short)
                (halve-IsNear n lo mid gap fills short (ground arith) least (ground arith))
        ]
      ]

  -- Let `gap` be at least 10^14 wei and at least the 4096th part of the highest amount tried. If the
  -- quoter refuses that highest amount, the result for a bonding market is 0 or an amount that the
  -- quoter fills, and at most `gap` above it lies an amount that the quoter refuses.
  pub max_buy-IsNear :
      (gap : ℕ)
      → quotable (highest_tried quotable) ≡ false
      → 10 ^ 14 ≤ gap
      → highest_tried quotable ≤ gap * 4_096
      → (lo : ℕ) × (max_buy quotable true ≡ some lo) × IsNear lo gap
  unfolding max_buy
  max_buy-IsNear gap refusal least h = (
    halve quotable 12 0 (highest_tried quotable),
    refl,
    halve-IsNear 12 0 (highest_tried quotable) gap (inl refl) refusal highest_pos least
        (omega arith),
  )
