-- ===== src/Protocol/DevBuy/Range.antt =====
-- Where the walk of the quote ends.
use native.Mathlib.Nat.{mul-le-mul_right}
use spawn_backend.Prelude.{
  ℕ, ◌+◌, ◌-◌, ◌*◌, ◌^◌, ◌≤◌, ◌<◌, ◌≡◌, refl, sym, false, ltb, leb, ◌==◌, List, [], ◌∷◌, inl, inr,
  Bool-cases, arith, leb→le, ltb→lt, All,
}
use spawn_backend.Prelude.Outcome.{ok, >>=-eq-ok}
use spawn_backend.Protocol.Fault.{Partial}
use spawn_backend.Protocol.Orientation.{Q96, level_at_sqrt_price}
use spawn_backend.Protocol.Arithmetic.Rounding.{ceiling, ceiling_bounds}
use spawn_backend.Protocol.SwapMath.{distance, next_sqrt_from_amount1_out}
use spawn_backend.Protocol.SwapMath.Deltas.{next_sqrt_lem, amount1_delta_roundings}
use spawn_backend.Protocol.DevBuy.{
  DevBuyQuote, Boundary, Leg, Progress, cost_with_fee, quote_at, finish_inside, consume, segment,
  add_liquidity, after_last, after_boundary, walk,
}

-- A quote of that many tokens, at a price between the two.
pub record EndsWithin (tokens_out low high : ℕ) (q : DevBuyQuote) : Type 0 where
  pub tokens : q.tokens_out ≡ tokens_out
  pub above : low ≤ q.end_sqrt_price
  pub below : q.end_sqrt_price ≤ high

ok_inj : {x y : Progress} → Path (Partial Progress) (ok x) (ok y) → x ≡ y
ok_inj e = cc

-- A segment ends the quote inside it, or reaches its target.
Advanced : ℕ → ℕ → ℕ → Progress → Type 0
Advanced t target high (Progress.finished q) = EndsWithin t target high q
Advanced t target high (Progress.reached leg) = leg.current_sqrt ≡ target

quote_at_end :
    (t c s : ℕ) (x : Progress)
    → quote_at t c s ≡ ok x
    → (q : DevBuyQuote) × (Progress.finished q ≡ x) × (q.tokens_out ≡ t) × (q.end_sqrt_price ≡ s)
unfolding quote_at
quote_at_end t c s x e =
    let (level, found, h) = >>=-eq-ok (level_at_sqrt_price s) _ e in
    (
      record { tokens_out = t; eth_cost = c; end_level = level; end_sqrt_price = s },
      ok_inj h,
      refl,
      refl,
    )

ends_at :
    (t c s low high : ℕ) (x : Progress)
    → low ≤ s
    → s ≤ high
    → quote_at t c s ≡ ok x
    → Advanced t low high x
unfolding Advanced
ends_at t c s low high x l h e =
    let (q, same, tokens, at) = quote_at_end t c s x e in
    rw (sym same) (record { tokens = tokens; above = omega (arith, at); below = omega (arith, at) })

above_of : (a b : ℕ) → leb a b ≡ false → b + 1 ≤ a
above_of a b h = ground arith

-- The price at which a buy of less than a segment holds lies inside the segment.
inside :
    (p target liquidity out remaining : ℕ)
    → 0 < liquidity
    → target ≤ p
    → out * Q96 ≤ liquidity * (p - target)
    → remaining < out
    → ceiling (remaining * 2 ^ 96) liquidity ≤ p - target
inside p target liquidity out remaining pl le pays less =
    let (covers, tight) = ceiling_bounds (remaining * 2 ^ 96) liquidity pl in
    elim (Bool-cases (leb (ceiling (remaining * 2 ^ 96) liquidity) (p - target))) [
      | inl fits ↦ leb→le _ _ fits
      | inr beyond ↦
          let more : p - target + 1 ≤ ceiling (remaining * 2 ^ 96) liquidity =
            above_of _ _ beyond in
          absurd (omega (arith, mul-le-mul_right liquidity more))
    ]

finish_inside_range :
    (t f target out : ℕ) (leg : Leg) (x : Progress)
    → 0 < leg.active_liquidity
    → target ≤ leg.current_sqrt
    → out * Q96 ≤ leg.active_liquidity * (leg.current_sqrt - target)
    → leg.remaining < out
    → finish_inside t f leg ≡ ok x
    → Advanced t target leg.current_sqrt x
unfolding finish_inside
finish_inside_range t f target out leg x pl le pays less e =
    let (end_sqrt, found, h) =
      >>=-eq-ok (next_sqrt_from_amount1_out leg.current_sqrt leg.active_liquidity leg.remaining) _
        e in
    let (cost, _, h') =
      >>=-eq-ok (cost_with_fee f end_sqrt leg.current_sqrt leg.active_liquidity) _ h in
    let (short, at) = next_sqrt_lem leg.current_sqrt leg.active_liquidity leg.remaining pl found in
    let deep =
      inside leg.current_sqrt target leg.active_liquidity out leg.remaining pl le pays less in
    ends_at t (leg.eth_cost + cost) end_sqrt target leg.current_sqrt x (omega (arith, at, deep))
      (omega (arith, at)) h'

consume_range :
    (t f target out : ℕ) (leg : Leg) (x : Progress)
    → target ≤ leg.current_sqrt
    → consume t f target out leg ≡ ok x
    → Advanced t target leg.current_sqrt x
unfolding consume Advanced
consume_range t f target out leg x le e =
    let (cost, _, h) =
      >>=-eq-ok (cost_with_fee f target leg.current_sqrt leg.active_liquidity) _ e in
    elim (Bool-cases (leg.remaining - out == 0)) [
      | inl all ↦
          ends_at t (leg.eth_cost + cost) target target leg.current_sqrt x (omega arith) le
            (rw all at h)
      | inr more ↦ rw (sym (ok_inj (rw more at h))) refl
    ]

distance_below : (p target : ℕ) → target ≤ p → distance p target ≡ p - target
unfolding distance
distance_below p target le = ground arith

segment_range :
    (t f target : ℕ) (leg : Leg) (x : Progress)
    → target ≤ leg.current_sqrt
    → segment t f target leg ≡ ok x
    → Advanced t target leg.current_sqrt x
unfolding segment
segment_range t f target leg x le e = elim (Bool-cases (leg.active_liquidity == 0)) [
  | inl nought ↦ (let h = rw nought at e in cc)
  | inr some_left ↦
      let (down, up, ed, eu, pays, a, b, c) =
        amount1_delta_roundings leg.current_sqrt target leg.active_liquidity in
      let h = rw (some_left, ed) at e in
      elim (Bool-cases (ltb leg.remaining down)) [
        | inl less ↦
            finish_inside_range t f target down leg x (ground arith) le
              (rw (sym (distance_below leg.current_sqrt target le)) pays)
              (ltb→lt leg.remaining down less) (rw less at h)
        | inr whole ↦ consume_range t f target down leg x le (rw whole at h)
      ]
]

pub walk_range :
    (t f far : ℕ) (bs : List Boundary) (leg : Leg) (q : DevBuyQuote)
    → All (λ b. far ≤ b.sqrt_price) bs
    → far ≤ leg.current_sqrt
    → walk t f far bs leg ≡ ok q
    → EndsWithin t far leg.current_sqrt q
unfolding walk after_last after_boundary Advanced
walk_range t f far [] leg q all le e =
    let (x, sx, h) = >>=-eq-ok (segment t f far leg) _ e in
    last x (segment_range t f far leg x le sx) h
  where
    last :
        (x : Progress)
        → Advanced t far leg.current_sqrt x
        → after_last x ≡ ok q
        → EndsWithin t far leg.current_sqrt q
    last (Progress.finished q') w h = let same : q' ≡ q = cc in rw (sym same) w
    last (Progress.reached l) w h = cc
walk_range t f far (b ∷ bs) leg q (low, all) le e =
    elim (Bool-cases (leb leg.current_sqrt b.sqrt_price)) [
      | inl skip ↦ walk_range t f far bs leg q all le (rw skip at e)
      | inr next ↦
          let (x, sx, h) = >>=-eq-ok (segment t f b.sqrt_price leg) _ (rw next at e) in
          let down : b.sqrt_price ≤ leg.current_sqrt = ground arith in
          boundary (λ l. walk_range t f far bs l q all) x down
            (segment_range t f b.sqrt_price leg x down sx) h
    ]
  where
    boundary :
        ((l : Leg)
          → far ≤ l.current_sqrt
          → walk t f far bs l ≡ ok q
          → EndsWithin t far l.current_sqrt q)
        → (x : Progress) → b.sqrt_price ≤ leg.current_sqrt
        → Advanced t b.sqrt_price leg.current_sqrt x
        → after_boundary b.liquidity (walk t f far bs) x ≡ ok q
        → EndsWithin t far leg.current_sqrt q
    boundary rest (Progress.finished q') down w h =
        let same : q' ≡ q = cc in
        rw (sym same)
          (record { tokens = w.tokens; above = omega (arith, low, w.above); below = w.below })
    boundary rest (Progress.reached l) down w h =
        let le' : far ≤ l.current_sqrt = omega (arith, low, w) in
        let v = rest (add_liquidity b.liquidity l) le' h in
        record { tokens = v.tokens; above = v.above; below = omega (arith, v.below, w, down) }
