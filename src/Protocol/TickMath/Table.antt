-- ===== src/Protocol/TickMath/Table.antt =====
-- The prices at the two ends of the tick range.
use spawn_backend.Prelude.{◌≡◌, refl}
use spawn_backend.Prelude.Int.{pos, negsuc}
use spawn_backend.Prelude.Outcome.{ok}
use spawn_backend.Protocol.Constants.{min_sqrt_price, max_sqrt_price}
use spawn_backend.Protocol.TickMath.{sqrt_price_at_tick, multiply_factors, ratio}

pub price_at_lowest_tick : sqrt_price_at_tick (negsuc 887_271) ≡ ok min_sqrt_price
unfolding sqrt_price_at_tick ratio multiply_factors
price_at_lowest_tick = refl

pub price_at_highest_tick : sqrt_price_at_tick (pos 887_272) ≡ ok max_sqrt_price
unfolding sqrt_price_at_tick ratio multiply_factors
price_at_highest_tick = refl
