-- ===== src/Tests/DevBuy.antt =====
-- The quote of a creator's buy at a concrete input.
use spawn_backend.Prelude.{◌*◌, ◌/◌, ◌^◌, ◌≡◌, refl, arith}
use spawn_backend.Prelude.Int.{negsuc, neg, ◌+ℤ◌, ◌-ℤ◌, ◌*ℤ◌, div_floor, div_trunc}
use spawn_backend.Prelude.Outcome.{ok}
use spawn_backend.Protocol.TickMath.{
  sqrt_price_at_tick, ratio, multiply_factors, tick_at_sqrt_price, most_significant_bit, msb_step,
  normalize, log_round, log_rounds, log2_fixed, tick_low, tick_high, choose_tick,
}
use spawn_backend.Protocol.Curve.{
  curve_position_start, curve_position_liquidity, curve_position_amount, liquidity_between,
  liquidity_over, liquidity_of,
}
use spawn_backend.Protocol.SwapMath.{
  amount0_delta, amount0_ordered, amount1_delta, distance, next_sqrt_from_amount1_out,
}
use spawn_backend.Protocol.Arithmetic.{mul_div, mul_div_rounding_up, div_rounding_up}
use spawn_backend.Protocol.Orientation.{
  sqrt_price_at_level, to_tick, to_level, level_at_sqrt_price, level_range_to_ticks,
}
use spawn_backend.Protocol.DevBuy.{
  DevBuy, DevBuyQuote, dev_buy_quote, walk_curve, walk, segment, finish_inside, consume,
  cost_with_fee, quote_at, after_last, after_boundary, boundaries_from, boundary_at,
}
use spawn_backend.Protocol.DevBuy.Range.{EndsWithin}
use spawn_backend.Protocol.DevBuy.Quote.{dev_buy_quote_range}

abbrev first_buy : DevBuy
first_buy = record {
  total_supply_wei = 10 ^ 27;
  dev_buy_share_wad = 10 ^ 16;
  opening_level = negsuc 199_999;
  far_level = negsuc 186_137;
  curve_positions = 2;
  curve_supply = 25 * 10 ^ 25;
  trading_fee_hundredths_bip = 10_000;
}

abbrev quote : DevBuyQuote
quote = record {
  tokens_out = 10000000000000000000000000;
  eth_cost = 21708845056765753;
  end_level = negsuc 199182;
  end_sqrt_price = 1674480074174965072790497537642766;
}

start_price : sqrt_price_at_level (negsuc 199_999) ≡ ok 1744244129640337381386292603617838
unfolding sqrt_price_at_level to_tick neg sqrt_price_at_tick ratio multiply_factors
start_price = refl

far_price : sqrt_price_at_level (negsuc 186_137) ≡ ok 872193436323183523938862313097291
unfolding sqrt_price_at_level to_tick neg sqrt_price_at_tick ratio multiply_factors
far_price = refl

buy_runs : dev_buy_quote first_buy ≡ ok quote
unfolding sqrt_price_at_level to_tick neg sqrt_price_at_tick ratio multiply_factors dev_buy_quote
    walk_curve walk segment finish_inside consume cost_with_fee quote_at after_last after_boundary
    boundaries_from boundary_at curve_position_start curve_position_liquidity curve_position_amount
    liquidity_between liquidity_over liquidity_of level_range_to_ticks mul_div mul_div_rounding_up
    div_rounding_up amount0_delta amount0_ordered amount1_delta distance next_sqrt_from_amount1_out
    level_at_sqrt_price to_level tick_at_sqrt_price most_significant_bit msb_step normalize
    log_round log_rounds log2_fixed tick_low tick_high choose_tick ◌+ℤ◌ ◌-ℤ◌ ◌*ℤ◌ div_floor
    div_trunc
buy_runs = refl

dev_buy_quote_range_example :
    EndsWithin
      (10 ^ 27 * 10 ^ 16 / 10 ^ 18)
      872193436323183523938862313097291
      1744244129640337381386292603617838
      quote
dev_buy_quote_range_example =
    dev_buy_quote_range first_buy quote 1744244129640337381386292603617838
      872193436323183523938862313097291 (omega arith) start_price far_price buy_runs
