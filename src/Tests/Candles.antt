-- ===== src/Tests/Candles.antt =====
-- Candles of three minutes in two buckets, with three empty buckets between.
use spawn_backend.Prelude.{ℕ, ◌≤◌, List, [], ◌∷◌, map, length, max, ◌≡◌, refl}
use spawn_backend.Common.Dict.{find, put}
use spawn_backend.Tokens.Candles.{
  MinuteRow, Candle, priced, insert_row, sort_rows, bucket_of, push_row, add_to_bucket,
  into_buckets, insert_key, sorted_keys, last_of, last_before, close_of, seed_from, highest, lowest,
  sum_of, opening, full_candle, flat_candle, candle_at, push_candle, fill, trailing, fill_window,
  fill_joined_candles,
}
use spawn_backend.Tokens.Candles.Joined.{Joined, fill_joined_candles-Joined}

abbrev minute_at : ℕ → ℕ → ℕ → MinuteRow
minute_at minute opening closing = record {
  minute = minute;
  open_sqrt = opening;
  close_sqrt = closing;
  high_sqrt = 900;
  low_sqrt = 300;
  buy = 5;
  sell = 2;
  swaps = 3;
}

-- The minutes 21, 1 and 0 in milliseconds, which is not their order: with buckets of five minutes, the
-- first is in the bucket 20 and the others in the bucket 0.
abbrev minutes : List MinuteRow
minutes = minute_at 1_260_000 400 500 ∷ minute_at 60_000 600 700 ∷ minute_at 0 500 600 ∷ []

fill_joined_candles-Joined_example :
    Joined 5 (fill_joined_candles minutes 5 10)
    × (length (fill_joined_candles minutes 5 10) ≤ max 10 1)
fill_joined_candles-Joined_example = fill_joined_candles-Joined minutes 5 10

abbrev bars : List Candle
bars = fill_joined_candles minutes 5 10

-- Every bucket from the first to the last has a candle.
candle_keys : map (λ c. c.key) bars ≡ 0 ∷ 5 ∷ 10 ∷ 15 ∷ 20 ∷ []
unfolding priced insert_row sort_rows bucket_of push_row add_to_bucket into_buckets insert_key
    sorted_keys last_of last_before close_of seed_from highest lowest sum_of opening full_candle
    flat_candle candle_at push_candle fill trailing fill_window fill_joined_candles find put
candle_keys = refl

-- The empty buckets, and the last one, open at the close of the minute 1.
candle_opens : map (λ c. c.open_sqrt) bars ≡ 500 ∷ 700 ∷ 700 ∷ 700 ∷ 700 ∷ []
unfolding priced insert_row sort_rows bucket_of push_row add_to_bucket into_buckets insert_key
    sorted_keys last_of last_before close_of seed_from highest lowest sum_of opening full_candle
    flat_candle candle_at push_candle fill trailing fill_window fill_joined_candles find put
candle_opens = refl
