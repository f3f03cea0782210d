-- ===== src/Tokens/Candles/Query.antt =====
-- The query of candles and their presentation: `candles` and `candlePresenter` of
-- src/modules/tokens/token-query.service.ts.
use spawn_backend.Prelude.{
  ℕ, ◌*◌, min, max, Bool, true, false, ltb, leb, ◌&&◌, if◌then◌else◌, List, [], ◌∷◌, map, take,
  Option, none, some,
}
use mathlib.Core.List.{reverse}
use spawn_backend.Common.Decimal.{Text, to_text}
use spawn_backend.Protocol.PriceText.{sqrt_to_eth_string}
use spawn_backend.Tokens.Candles.{MinuteRow, Candle, fill_joined_candles}

pub record CandleView : Type 0 where
  pub time : ℕ
  pub open_eth : Option Text
  pub close_eth : Option Text
  pub high_eth : Option Text
  pub low_eth : Option Text
  pub open_sqrt_text : Text
  pub high_sqrt_text : Text
  pub low_sqrt_text : Text
  pub close_sqrt_text : Text
  pub buy_volume_eth : Text
  pub sell_volume_eth : Text
  pub swap_count : Text

unfoldable pub price_above_zero : ℕ → Option Text
price_above_zero sqrt = if ltb 0 sqrt then sqrt_to_eth_string sqrt else none

-- `candlePresenter`
unfoldable pub candle_presenter : Candle → CandleView
candle_presenter c = record {
  time = c.key * 60_000;
  open_eth = price_above_zero c.open_sqrt;
  close_eth = price_above_zero c.close_sqrt;
  high_eth = price_above_zero c.low_sqrt;
  low_eth = price_above_zero c.high_sqrt;
  open_sqrt_text = to_text c.open_sqrt;
  high_sqrt_text = to_text c.high_sqrt;
  low_sqrt_text = to_text c.low_sqrt;
  close_sqrt_text = to_text c.close_sqrt;
  buy_volume_eth = to_text c.buy;
  sell_volume_eth = to_text c.sell;
  swap_count = to_text c.swaps;
}

pub data Interval : Type 0 where
  one_minute five_minutes fifteen_minutes one_hour four_hours one_day : Interval

unfoldable pub bucket_minutes : Interval → ℕ
bucket_minutes Interval.one_minute = 1
bucket_minutes Interval.five_minutes = 5
bucket_minutes Interval.fifteen_minutes = 15
bucket_minutes Interval.one_hour = 60
bucket_minutes Interval.four_hours = 240
bucket_minutes Interval.one_day = 1_440

-- The query's `LIMIT`.
unfoldable pub raw_limit : ℕ → ℕ → ℕ
raw_limit limit bucket_size = min (max (limit * bucket_size) limit) 20_000

-- `new Date(query.from) >= new Date(query.to)`, where both are given.
unfoldable pub is_empty_range : Option ℕ → Option ℕ → Bool
is_empty_range none to = false
is_empty_range (some from) none = false
is_empty_range (some from) (some to) = leb to from

unfoldable pub in_range : Option ℕ → Option ℕ → MinuteRow → Bool
in_range from to r = above from && below to
  where
    above : Option ℕ → Bool
    above none = true
    above (some t) = leb t r.minute

    below : Option ℕ → Bool
    below none = true
    below (some t) = ltb r.minute t

unfoldable pub select_rows : Option ℕ → Option ℕ → List MinuteRow → List MinuteRow
select_rows from to [] = []
select_rows from to (r ∷ rs) =
    let rest = select_rows from to rs in if in_range from to r then r ∷ rest else rest

-- `candles` of a pool whose minute rows, newest first, are given: the candles, newest first, or
-- `INVALID_CANDLE_RANGE`.
unfoldable pub candles :
    Interval → Option ℕ → Option ℕ → ℕ → List MinuteRow → Option (List CandleView)
candles interval from to limit minutes =
    if is_empty_range from to
    then none
    else (let bucket_size = bucket_minutes interval in
        let rows = take (raw_limit limit bucket_size) (select_rows from to minutes) in
        some (map candle_presenter (reverse (fill_joined_candles rows bucket_size limit))))
