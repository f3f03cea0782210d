-- ===== src/Protocol/DevBuy.antt =====
-- The quote of the creator's buy before a launch: `devBuyQuote` of src/protocol/protocol-math.ts. It
-- walks the curve down in price, over the starts of the nested positions, until the tokens are
-- bought. The fee is at most 100%.
pub mod Range
pub mod Quote
use spawn_backend.Prelude.{
  ℕ, zero, suc, ◌+◌, ◌-◌, ◌*◌, ◌^◌, Bool, false, true, ltb, leb, ◌==◌, if◌then◌else◌, List, [], ◌∷◌,
}
use spawn_backend.Prelude.Int.{ℤ, leb_ℤ}
use spawn_backend.Prelude.Outcome.{Outcome, ok, err, ◌>>=◌, ◌>>◌, throw_if}
use spawn_backend.Protocol.Fault.{Fault, Partial}
use spawn_backend.Protocol.Arithmetic.{mul_div, mul_div_rounding_up}
use spawn_backend.Protocol.Orientation.{sqrt_price_at_level, level_at_sqrt_price}
use spawn_backend.Protocol.Curve.{curve_position_start, curve_position_liquidity}
use spawn_backend.Protocol.SwapMath.{amount0_delta, amount1_delta, next_sqrt_from_amount1_out}

pub record DevBuy : Type 0 where
  pub total_supply_wei : ℕ
  pub dev_buy_share_wad : ℕ
  pub opening_level : ℤ
  pub far_level : ℤ
  pub curve_positions : ℕ
  pub curve_supply : ℕ
  pub trading_fee_hundredths_bip : ℕ

pub record DevBuyQuote : Type 0 where
  pub tokens_out : ℕ
  pub eth_cost : ℕ
  pub end_level : ℤ
  pub end_sqrt_price : ℕ

-- The start of a position: its price, and the liquidity that becomes active there.
pub record Boundary : Type 0 where
  pub sqrt_price : ℕ
  pub liquidity : ℕ

-- The state of the walk.
pub record Leg : Type 0 where
  pub current_sqrt : ℕ
  pub active_liquidity : ℕ
  pub remaining : ℕ
  pub eth_cost : ℕ

unfoldable pub boundary_at : DevBuy → ℤ → ℕ → Partial Boundary
boundary_at p start index = do
  sqrt_price ← sqrt_price_at_level start
  liquidity ←
      curve_position_liquidity p.opening_level p.far_level p.curve_positions p.curve_supply index
  ok (record { sqrt_price = sqrt_price; liquidity = liquidity })

-- The boundaries from position `index` on, of which `count` are left.
unfoldable pub boundaries_from : DevBuy → ℕ → ℕ → Partial (List Boundary)
boundaries_from p zero index = ok []
boundaries_from p (suc count) index =
    let later = boundaries_from p count (index + 1) in
    curve_position_start p.opening_level p.far_level p.curve_positions index >>= λ start.
    if leb_ℤ p.far_level start
    then ok []
    else (boundary_at p start index >>= λ b. later >>= λ bs. ok (b ∷ bs))

-- The ETH that a range takes, with the fee on top.
unfoldable pub cost_with_fee : ℕ → ℕ → ℕ → ℕ → Partial ℕ
cost_with_fee fee_pips target current liquidity = do
  amount_in ← amount0_delta target current liquidity true
  fee ← mul_div_rounding_up amount_in fee_pips (1_000_000 - fee_pips)
  ok (amount_in + fee)

-- A round of the loop returns a quote, or reaches its target.
pub data Progress : Type 0 where
  finished : DevBuyQuote → Progress
  reached : Leg → Progress

unfoldable pub quote_at : ℕ → ℕ → ℕ → Partial Progress
quote_at tokens_out eth_cost end_sqrt = do
  level ← level_at_sqrt_price end_sqrt
  ok (
      Progress.finished (record {
        tokens_out = tokens_out;
        eth_cost = eth_cost;
        end_level = level;
        end_sqrt_price = end_sqrt;
      }))

-- The buy ends inside the segment.
unfoldable pub finish_inside : ℕ → ℕ → Leg → Partial Progress
finish_inside tokens_out fee_pips leg = do
  end_sqrt ← next_sqrt_from_amount1_out leg.current_sqrt leg.active_liquidity leg.remaining
  cost ← cost_with_fee fee_pips end_sqrt leg.current_sqrt leg.active_liquidity
  quote_at tokens_out (leg.eth_cost + cost) end_sqrt

-- The buy takes the whole segment.
unfoldable pub consume : ℕ → ℕ → ℕ → ℕ → Leg → Partial Progress
consume tokens_out fee_pips target out leg = do
  cost ← cost_with_fee fee_pips target leg.current_sqrt leg.active_liquidity
  if leg.remaining - out == 0
      then quote_at tokens_out (leg.eth_cost + cost) target
      else ok (
          Progress.reached (record {
            current_sqrt = target;
            active_liquidity = leg.active_liquidity;
            remaining = leg.remaining - out;
            eth_cost = leg.eth_cost + cost;
          }))

unfoldable pub segment : ℕ → ℕ → ℕ → Leg → Partial Progress
segment tokens_out fee_pips target leg = do
  throw_if (leg.active_liquidity == 0) Fault.liquidity_exhausted
  out ← amount1_delta leg.current_sqrt target leg.active_liquidity false
  if ltb leg.remaining out
      then finish_inside tokens_out fee_pips leg
      else consume tokens_out fee_pips target out leg

abbrev pub add_liquidity : ℕ → Leg → Leg
add_liquidity l leg = record {
  current_sqrt = leg.current_sqrt;
  active_liquidity = leg.active_liquidity + l;
  remaining = leg.remaining;
  eth_cost = leg.eth_cost;
}

unfoldable pub after_last : Progress → Partial DevBuyQuote
after_last (Progress.finished quote) = ok quote
after_last (Progress.reached leg) = err Fault.exceeds_curve_supply

unfoldable pub after_boundary : ℕ → (Leg → Partial DevBuyQuote) → Progress → Partial DevBuyQuote
after_boundary l rest (Progress.finished quote) = ok quote
after_boundary l rest (Progress.reached leg) = rest (add_liquidity l leg)

-- The loop: each round takes the next boundary below the current price, or else the far level.
unfoldable pub walk : ℕ → ℕ → ℕ → List Boundary → Leg → Partial DevBuyQuote
walk tokens_out fee_pips far_sqrt [] leg = segment tokens_out fee_pips far_sqrt leg >>= after_last
walk tokens_out fee_pips far_sqrt (b ∷ bs) leg =
    let rest = walk tokens_out fee_pips far_sqrt bs in
    if leb leg.current_sqrt b.sqrt_price
    then rest leg
    else (segment tokens_out fee_pips b.sqrt_price leg >>= after_boundary b.liquidity rest)

-- `devBuyQuote` for a positive amount of tokens.
unfoldable pub walk_curve : DevBuy → ℕ → ℕ → Partial DevBuyQuote
walk_curve p tokens_out start_sqrt = do
  boundaries ← boundaries_from p (p.curve_positions - 1) 1
  far_sqrt ← sqrt_price_at_level p.far_level
  liquidity ←
      curve_position_liquidity p.opening_level p.far_level p.curve_positions p.curve_supply 0
  throw_if (liquidity == 0) Fault.zero_position_liquidity
  walk tokens_out p.trading_fee_hundredths_bip far_sqrt boundaries (record {
    current_sqrt = start_sqrt;
    active_liquidity = liquidity;
    remaining = tokens_out;
    eth_cost = 0;
  })

unfoldable pub dev_buy_quote : DevBuy → Partial DevBuyQuote
dev_buy_quote p = do
  tokens_out ← mul_div p.total_supply_wei p.dev_buy_share_wad (10 ^ 18)
  start_sqrt ← sqrt_price_at_level p.opening_level
  if tokens_out == 0
      then ok (record {
        tokens_out = 0;
        eth_cost = 0;
        end_level = p.opening_level;
        end_sqrt_price = start_sqrt;
      })
      else walk_curve p tokens_out start_sqrt
