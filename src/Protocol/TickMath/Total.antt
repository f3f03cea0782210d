-- ===== src/Protocol/TickMath/Total.antt =====
-- `getTickAtSqrtPrice` returns for every square root price in range, with a tick in range, and a
-- higher price never has a lower tick.
use spawn_backend.Prelude.{
  ℕ, ◌-◌, ◌*◌, ◌^◌, ◌≤◌, ◌<◌, ◌≡◌, refl, arith, tests, inl, inr, sym, ◌∙◌, leb, Bool-cases, ◌&&◌,
}
use spawn_backend.Prelude.Int.{
  ℤ, pos, negsuc, abs, ◌+ℤ◌, ◌-ℤ◌, ◌*ℤ◌, ◌≤ℤ◌, leb_ℤ, eq_of_parts, div_floor, +ℤ_parts,
}
use spawn_backend.Prelude.Outcome.{ok}
use spawn_backend.Protocol.Constants.{max_tick, min_sqrt_price, max_sqrt_price}
use spawn_backend.Protocol.TickMath.{
  log2_fixed, tick_low, tick_high, choose_tick, tick_at_sqrt_price, sqrt_price_at_tick, normalize,
  log_rounds, log_round,
}
use spawn_backend.Protocol.TickMath.Bounds.{sqrt_price_at_tick_bounds}
use spawn_backend.Protocol.TickMath.Bits.{most_significant_bit_lem}
use spawn_backend.Protocol.TickMath.Table.{price_at_lowest_tick, price_at_highest_tick}
use spawn_backend.Protocol.TickMath.Inverse.{
  IsTop, log2_fixed_mono, tick_low_mono, tick_high_mono, candidates_near,
}

-- The call on a price in range, with the highest bit of the shifted price.
tick_at_sqrt_price_steps :
    (s : ℕ)
    → min_sqrt_price ≤ s
    → s < max_sqrt_price
    → (m : ℕ) × IsTop (s * 2 ^ 32) m
      × (tick_at_sqrt_price s
          ≡ choose_tick s
              (tick_low (log2_fixed (s * 2 ^ 32) m))
              (tick_high (log2_fixed (s * 2 ^ 32) m)))
unfolding tick_at_sqrt_price
tick_at_sqrt_price_steps s low high =
    let (m, e, low', high') = most_significant_bit_lem (s * 2 ^ 32) (omega arith) (omega arith) in
    (m, (low', high'), ground (arith, e))

-- The logarithms at the two ends of the range.
log_of_least : ℤ
log_of_least = log2_fixed (min_sqrt_price * 2 ^ 32) 64

log_of_greatest : ℤ
log_of_greatest = log2_fixed ((max_sqrt_price - 1) * 2 ^ 32) 191

log_of_least-le :
    (s m : ℕ)
    → min_sqrt_price ≤ s
    → IsTop (s * 2 ^ 32) m
    → log_of_least ≤ℤ log2_fixed (s * 2 ^ 32) m
unfolding log_of_least
log_of_least-le s m low top =
    log2_fixed_mono (min_sqrt_price * 2 ^ 32) (s * 2 ^ 32) 64 m (omega arith) top (omega arith)

le-log_of_greatest :
    (s m : ℕ)
    → s < max_sqrt_price
    → IsTop (s * 2 ^ 32) m
    → log2_fixed (s * 2 ^ 32) m ≤ℤ log_of_greatest
unfolding log_of_greatest
le-log_of_greatest s m high top =
    log2_fixed_mono (s * 2 ^ 32) ((max_sqrt_price - 1) * 2 ^ 32) m 191 top (omega arith)
      (omega arith)

log_lowest : tick_high log_of_least ≡ negsuc 887_271
unfolding log_of_least log_of_greatest log2_fixed tick_high normalize log_rounds log_round ◌+ℤ◌ ◌-ℤ◌
    ◌*ℤ◌ div_floor
log_lowest = refl

log_highest : tick_high log_of_greatest ≡ pos 887_272
unfolding log_of_least log_of_greatest log2_fixed tick_high normalize log_rounds log_round ◌+ℤ◌ ◌-ℤ◌
    ◌*ℤ◌ div_floor
log_highest = refl

log_highest_low : tick_low log_of_greatest ≡ pos 887_271
unfolding log_of_least log_of_greatest log2_fixed tick_low normalize log_rounds log_round ◌+ℤ◌ ◌-ℤ◌
    ◌*ℤ◌ div_floor
log_highest_low = refl

tick_low_range :
    (s m : ℕ)
    → s < max_sqrt_price
    → IsTop (s * 2 ^ 32) m
    → tick_low (log2_fixed (s * 2 ^ 32) m) ≤ℤ pos 887_271
tick_low_range s m high top =
    rw log_highest_low at
      (tick_low_mono (log2_fixed (s * 2 ^ 32) m) log_of_greatest (le-log_of_greatest s m high top))

-- The higher candidate is a tick for which a price exists.
tick_high_range :
    (s m : ℕ)
    → min_sqrt_price ≤ s
    → s < max_sqrt_price
    → IsTop (s * 2 ^ 32) m
    → let high = tick_high (log2_fixed (s * 2 ^ 32) m) in
      (negsuc 887_271 ≤ℤ high) × (high ≤ℤ pos 887_272)
tick_high_range s m low high top = (
  rw log_lowest at
      (tick_high_mono log_of_least (log2_fixed (s * 2 ^ 32) m) (log_of_least-le s m low top)),
  rw log_highest at (
      tick_high_mono (log2_fixed (s * 2 ^ 32) m) log_of_greatest (le-log_of_greatest s m high top)),
)

abs-le : (a : ℤ) → negsuc 887_271 ≤ℤ a → a ≤ℤ pos 887_272 → abs a ≤ max_tick
abs-le (pos n) lo hi = omega arith
abs-le (negsuc n) lo hi = omega arith

-- How the result comes from the two candidates.
data Chosen (s : ℕ) (low high tick : ℤ) : Type 0 where
  agreed : tick ≡ low → low ≡ high → Chosen s low high tick
  lower : (p : ℕ) → tick ≡ low → sqrt_price_at_tick high ≡ ok p → s < p → Chosen s low high tick
  upper : (p : ℕ) → tick ≡ high → sqrt_price_at_tick high ≡ ok p → p ≤ s → Chosen s low high tick

choose_tick-Chosen :
    (s : ℕ) (low high : ℤ)
    → abs high ≤ max_tick
    → (tick : ℤ) × (choose_tick s low high ≡ ok tick) × Chosen s low high tick
unfolding choose_tick
choose_tick-Chosen s low high h = elim (Bool-cases (leb_ℤ low high && leb_ℤ high low)) [
  | inl same ↦ (low, rw same, agreed refl (ground (arith, eq_of_parts low high)))
  | inr apart ↦
      let (p, e, _, _) = sqrt_price_at_tick_bounds high h in
      elim (Bool-cases (leb p s)) [
        | inl le ↦ (high, rw (apart, e, le), upper p refl e (omega tests))
        | inr gt ↦ (low, rw (apart, e, gt), lower p refl e (ground arith))
      ]
]

-- The prices at the ends of the tick range rule out the candidates beyond it.
Chosen_range :
    (s : ℕ) (low high : ℤ) {tick : ℤ}
    → Chosen s low high tick
    → min_sqrt_price ≤ s
    → s < max_sqrt_price
    → high ≤ℤ low +ℤ pos 1
    → low ≤ℤ pos 887_271
    → negsuc 887_271 ≤ℤ high
    → high ≤ℤ pos 887_272
    → (negsuc 887_271 ≤ℤ tick) × (tick ≤ℤ pos 887_271)
Chosen_range s low high (agreed e same) hs hs' near top lo hi = grind arith
Chosen_range s low high (lower p e ep gt) hs hs' near top lo hi =
    let outside : high ≡ negsuc 887_271 → ⊥ = λ edge.
      let q : ok p ≡ ok min_sqrt_price = sym (rw edge at ep) ∙ price_at_lowest_tick in
      ground arith in
    elim (Bool-cases (leb_ℤ high (negsuc 887_271))) [
      | inl edge ↦ absurd (outside (eq_of_parts high (negsuc 887_271) (ground arith)))
      | inr inside ↦ rw e (ground (arith, +ℤ_parts low (pos 1)))
    ]
Chosen_range s low high (upper p e ep le') hs hs' near top lo hi =
    let outside : high ≡ pos 887_272 → ⊥ = λ edge.
      let q : ok p ≡ ok max_sqrt_price = sym (rw edge at ep) ∙ price_at_highest_tick in
      ground arith in
    elim (Bool-cases (leb_ℤ (pos 887_272) high)) [
      | inl edge ↦ absurd (outside (eq_of_parts high (pos 887_272) (ground arith)))
      | inr inside ↦ rw e (ground arith)
    ]

-- For every square root price from MIN_SQRT_PRICE up to but not including MAX_SQRT_PRICE the call
-- returns, and the tick that it returns lies from MIN_TICK to MAX_TICK - 1.
pub tick_at_sqrt_price_total :
    (s : ℕ)
    → min_sqrt_price ≤ s
    → s < max_sqrt_price
    → (tick : ℤ) × (tick_at_sqrt_price s ≡ ok tick)
      × (negsuc 887_271 ≤ℤ tick)
      × (tick ≤ℤ pos 887_271)
tick_at_sqrt_price_total s low high =
    let (m, top, e) = tick_at_sqrt_price_steps s low high in
    let log = log2_fixed (s * 2 ^ 32) m in
    let (lo, hi) = tick_high_range s m low high top in
    let (tick, e', chosen) =
      choose_tick-Chosen s (tick_low log) (tick_high log) (abs-le (tick_high log) lo hi) in
    let (least, greatest) =
      Chosen_range s (tick_low log) (tick_high log) chosen low high (candidates_near log).1
        (tick_low_range s m high top) lo hi in
    (tick, e ∙ e', least, greatest)

-- Of two prices in range the higher one has no lower tick, whichever candidate each call chooses.
Chosen_mono :
    (s s' : ℕ) (low high low' high' : ℤ) {t t' : ℤ}
    → Chosen s low high t
    → Chosen s' low' high' t'
    → s ≤ s'
    → low ≤ℤ low'
    → high ≤ℤ high'
    → low' ≤ℤ high'
    → low ≤ℤ high
    → high' ≤ℤ low' +ℤ pos 1
    → t ≤ℤ t'
Chosen_mono s s' low high low' high' (agreed e _) (agreed e' _) h lo hi le le0 near = rw (e, e') lo
Chosen_mono s s' low high low' high' (agreed e _) (lower p' e' _ _) h lo hi le le0 near =
    rw (e, e') lo
Chosen_mono s s' low high low' high' (agreed e _) (upper p' e' _ _) h lo hi le le0 near =
    rw (e, e') (omega arith)
Chosen_mono s s' low high low' high' (lower p e _ _) (agreed e' _) h lo hi le le0 near =
    rw (e, e') lo
Chosen_mono s s' low high low' high' (lower p e _ _) (lower p' e' _ _) h lo hi le le0 near =
    rw (e, e') lo
Chosen_mono s s' low high low' high' (lower p e _ _) (upper p' e' _ _) h lo hi le le0 near =
    rw (e, e') (omega arith)
Chosen_mono s s' low high low' high' (upper p e _ _) (agreed e' same) h lo hi le le0 near =
    rw (e, e', same) hi
Chosen_mono s s' low high low' high' (upper p e _ _) (upper p' e' _ _) h lo hi le le0 near =
    rw (e, e') hi
Chosen_mono s s' low high low' high' (upper p e ep le1) (lower p' e' ep' gt) h lo hi le le0 near =
    elim (Bool-cases (leb_ℤ high low')) [
      | inl fine ↦ rw (e, e') (ground arith)
      | inr crossed ↦
          let same : high ≡ high' =
            eq_of_parts high high' (ground (arith, +ℤ_parts low' (pos 1))) in
          let q : ok p' ≡ ok p = sym ep' ∙ rw same at ep in absurd (ground arith)
    ]

-- The chosen tick of a call that returned.
tick_at_sqrt_price-Chosen :
    (s m : ℕ) {t : ℤ}
    → min_sqrt_price ≤ s
    → s < max_sqrt_price
    → IsTop (s * 2 ^ 32) m
    → choose_tick s (tick_low (log2_fixed (s * 2 ^ 32) m)) (tick_high (log2_fixed (s * 2 ^ 32) m))
      ≡ ok t
    → Chosen s (tick_low (log2_fixed (s * 2 ^ 32) m)) (tick_high (log2_fixed (s * 2 ^ 32) m)) t
tick_at_sqrt_price-Chosen s m {t} low high top r =
    let log = log2_fixed (s * 2 ^ 32) m in
    let (lo, hi) = tick_high_range s m low high top in
    let (tick, e, chosen) =
      choose_tick-Chosen s (tick_low log) (tick_high log) (abs-le (tick_high log) lo hi) in
    let same : tick ≡ t = cc in rw same at chosen

-- If s ≤ s' are prices from MIN_SQRT_PRICE up to but not including MAX_SQRT_PRICE, the tick returned
-- for s is at most the one returned for s'.
pub tick_at_sqrt_price_mono :
    (s s' : ℕ) {t t' : ℤ}
    → min_sqrt_price ≤ s
    → s ≤ s'
    → s' < max_sqrt_price
    → tick_at_sqrt_price s ≡ ok t
    → tick_at_sqrt_price s' ≡ ok t'
    → t ≤ℤ t'
tick_at_sqrt_price_mono s s' low h high r r' =
    let (m, top, e) = tick_at_sqrt_price_steps s low (omega arith) in
    let (m', top', e') = tick_at_sqrt_price_steps s' (omega arith) high in
    let log = log2_fixed (s * 2 ^ 32) m in
    let log' = log2_fixed (s' * 2 ^ 32) m' in
    let rises : log ≤ℤ log' =
      log2_fixed_mono (s * 2 ^ 32) (s' * 2 ^ 32) m m' top top' (omega arith) in
    Chosen_mono s s' (tick_low log) (tick_high log) (tick_low log') (tick_high log')
      (tick_at_sqrt_price-Chosen s m low (omega arith) top (sym e ∙ r))
      (tick_at_sqrt_price-Chosen s' m' (omega arith) high top' (sym e' ∙ r')) h
      (tick_low_mono log log' rises) (tick_high_mono log log' rises) (candidates_near log').0
      (candidates_near log).0 (candidates_near log').1
