-- ===== src/Protocol/DevBuy/Quote.antt =====
-- What the quote as a whole promises.
use spawn_backend.Prelude.{
  ℕ, zero, suc, ◌+◌, ◌-◌, ◌*◌, ◌/◌, ◌^◌, ◌≤◌, ◌≡◌, sym, ◌∙◌, ◌==◌, List, [], ◌∷◌, inl, inr,
  Bool-cases, arith, All,
}
use spawn_backend.Prelude.Int.{ℤ, ◌<ℤ◌, leb_ℤ}
use spawn_backend.Prelude.Outcome.{ok, >>=-eq-ok}
use spawn_backend.Protocol.Arithmetic.{mul_div}
use spawn_backend.Protocol.Orientation.{sqrt_price_at_level}
use spawn_backend.Protocol.Orientation.Laws.{sqrt_price_at_level_antitone}
use spawn_backend.Protocol.Curve.{curve_position_start, curve_position_liquidity}
use spawn_backend.Protocol.DevBuy.{
  DevBuy, DevBuyQuote, Boundary, boundary_at, boundaries_from, walk_curve, dev_buy_quote,
}
use spawn_backend.Protocol.DevBuy.Range.{EndsWithin, walk_range}

-- A boundary lies above the price at the far level.
boundary_above :
    (p : DevBuy) (start : ℤ) (index far : ℕ) (b : Boundary)
    → start <ℤ p.far_level
    → sqrt_price_at_level p.far_level ≡ ok far
    → boundary_at p start index ≡ ok b
    → far ≤ b.sqrt_price
unfolding boundary_at
boundary_above p start index far b h ef e =
    let (s, es, e1) = >>=-eq-ok (sqrt_price_at_level start) _ e in
    let (l, el, e2) =
      >>=-eq-ok
        (curve_position_liquidity p.opening_level p.far_level p.curve_positions p.curve_supply
          index)
        _ e1 in
    let lower = sqrt_price_at_level_antitone start p.far_level h es ef in
    let at : s ≡ b.sqrt_price = cc in omega arith

boundaries_above :
    (p : DevBuy) (far count index : ℕ) (bs : List Boundary)
    → sqrt_price_at_level p.far_level ≡ ok far
    → boundaries_from p count index ≡ ok bs
    → All (λ b. far ≤ b.sqrt_price) bs
unfolding boundaries_from
boundaries_above p far zero index bs ef e = let none_left : [] ≡ bs = cc in rw (sym none_left) tt
boundaries_above p far (suc count) index bs ef e =
    let (start, es, e1) =
      >>=-eq-ok (curve_position_start p.opening_level p.far_level p.curve_positions index) _ e in
    elim (Bool-cases (leb_ℤ p.far_level start)) [
      | inl past ↦ (let h = rw past at e1 in let none_left : [] ≡ bs = cc in rw (sym none_left) tt)
      | inr before ↦
          let h = rw before at e1 in
          let (b, eb, h1) = >>=-eq-ok (boundary_at p start index) _ h in
          let (rest, er, h2) = >>=-eq-ok (boundaries_from p count (index + 1)) _ h1 in
          let made : b ∷ rest ≡ bs = cc in
          rw (sym made) (
            boundary_above p start index far b (ground arith) ef eb,
            boundaries_above p far count (index + 1) rest ef er,
          )
    ]

-- If the call returns a quote, for an opening level below the far level that both have a price: the
-- quote is for exactly floor(supply * share / 10^18) tokens, and the price at which it ends lies
-- between the price at the far level and the price at the opening level.
pub dev_buy_quote_range :
    (p : DevBuy) (q : DevBuyQuote) (start far : ℕ)
    → p.opening_level <ℤ p.far_level
    → sqrt_price_at_level p.opening_level ≡ ok start
    → sqrt_price_at_level p.far_level ≡ ok far
    → dev_buy_quote p ≡ ok q
    → EndsWithin (p.total_supply_wei * p.dev_buy_share_wad / 10 ^ 18) far start q
unfolding dev_buy_quote walk_curve mul_div
dev_buy_quote_range p q start far h es ef e =
    let tokens = p.total_supply_wei * p.dev_buy_share_wad / 10 ^ 18 in
    let below = sqrt_price_at_level_antitone p.opening_level p.far_level h es ef in
    elim (Bool-cases (tokens == 0)) [
      | inl nothing ↦
          let h' = rw (es, nothing) at e in
          let none_out : q.tokens_out ≡ 0 = cc in
          let stays : start ≡ q.end_sqrt_price = cc in
          let zero_out : tokens ≡ 0 = ground arith in
          record { tokens = none_out ∙ sym zero_out; above = omega arith; below = omega arith }
      | inr something ↦
          let h0 = rw (es, something) at e in
          let (bs, ebs, h1) = >>=-eq-ok (boundaries_from p (p.curve_positions - 1) 1) _ h0 in
          let h2 = rw ef at h1 in
          let (l, el, h3) =
            >>=-eq-ok
              (curve_position_liquidity p.opening_level p.far_level p.curve_positions p.curve_supply
                0)
              _ h2 in
          elim (Bool-cases (l == 0)) [
            | inl nought ↦ (let h4 = rw nought at h3 in cc)
            | inr some_left ↦
                let h4 = rw some_left at h3 in
                walk_range tokens p.trading_fee_hundredths_bip far bs _ q
                  (boundaries_above p far (p.curve_positions - 1) 1 bs ef ebs)
                  (omega (arith, below)) h4
          ]
    ]
