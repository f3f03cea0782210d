-- ===== src/Tokens/Candles.antt =====
-- The candles of a token: `fillJoinedCandles` of src/modules/tokens/token-query.service.ts, from the minute rows that the query returns. Times are
-- milliseconds, keys of buckets are minutes.
pub mod Joined
pub mod Query
use spawn_backend.Prelude.{
  ℕ, zero, suc, ◌+◌, ◌-◌, ◌*◌, ◌/◌, min, max, Bool, true, false, not, ltb, leb, ◌==◌, ◌&&◌,
  if◌then◌else◌, List, [], ◌∷◌, ◌++◌, map, length, take, Option, none, some,
}
use mathlib.Core.List.{reverse}
use spawn_backend.Common.Decimal.{Text, to_text}
use spawn_backend.Common.Dict.{Dict, find, put}
use spawn_backend.Protocol.PriceText.{sqrt_to_eth_string}

pub record MinuteRow : Type 0 where
  pub minute : ℕ
  pub open_sqrt : ℕ
  pub close_sqrt : ℕ
  pub high_sqrt : ℕ
  pub low_sqrt : ℕ
  pub buy : ℕ
  pub sell : ℕ
  pub swaps : ℕ

pub record Candle : Type 0 where
  pub key : ℕ
  pub open_sqrt : ℕ
  pub close_sqrt : ℕ
  pub high_sqrt : ℕ
  pub low_sqrt : ℕ
  pub buy : ℕ
  pub sell : ℕ
  pub swaps : ℕ

-- `if (open === '0' && close === '0') continue;`
unfoldable pub priced : List MinuteRow → List MinuteRow
priced [] = []
priced (r ∷ rs) =
    let rest = priced rs in if r.open_sqrt == 0 && r.close_sqrt == 0 then rest else r ∷ rest

-- `parsed.sort(…)`, which is stable.
unfoldable pub insert_row : MinuteRow → List MinuteRow → List MinuteRow
insert_row r [] = r ∷ []
insert_row r (x ∷ xs) =
    let rest = insert_row r xs in if leb r.minute x.minute then r ∷ x ∷ xs else x ∷ rest

unfoldable pub sort_rows : List MinuteRow → List MinuteRow
sort_rows [] = []
sort_rows (r ∷ rs) = insert_row r (sort_rows rs)

unfoldable pub bucket_of : ℕ → MinuteRow → ℕ
bucket_of bucket_size r = r.minute / (bucket_size * 60_000) * bucket_size

-- A bucket, which has rows once it exists.
abbrev pub Bucket : Type 0
Bucket = MinuteRow × List MinuteRow

unfoldable pub push_row : MinuteRow → Option Bucket → Bucket
push_row r none = (r, [])
push_row r (some (first, rest)) = (first, rest ++ r ∷ [])

unfoldable pub add_to_bucket : ℕ → MinuteRow → Dict Bucket → Dict Bucket
add_to_bucket bucket_size r buckets =
    let key = bucket_of bucket_size r in put buckets key (push_row r (find buckets key))

unfoldable pub into_buckets : ℕ → List MinuteRow → Dict Bucket → Dict Bucket
into_buckets bucket_size [] buckets = buckets
into_buckets bucket_size (r ∷ rs) buckets =
    into_buckets bucket_size rs (add_to_bucket bucket_size r buckets)

unfoldable pub insert_key : ℕ → List ℕ → List ℕ
insert_key k [] = k ∷ []
insert_key k (x ∷ xs) = let rest = insert_key k xs in if leb k x then k ∷ x ∷ xs else x ∷ rest

-- `[...buckets.keys()].sort((a, b) => a - b)`
unfoldable pub sorted_keys : Dict Bucket → List ℕ
sorted_keys [] = []
sorted_keys ((k, rows) ∷ rest) = insert_key k (sorted_keys rest)

-- The last of a list that starts with `x`.
unfoldable pub last_of {ℓ} : {A : Type ℓ} → A → List A → A
last_of x [] = x
last_of x (y ∷ ys) = last_of y ys

-- The last key below `start`, where one is.
unfoldable pub last_before : ℕ → List ℕ → Option ℕ
last_before start [] = none
last_before start (k ∷ ks) =
    let rest = last_before start ks in if ltb k start then some (later rest) else rest
  where
    later : Option ℕ → ℕ
    later none = k
    later (some l) = l

unfoldable pub close_of : Option Bucket → Option ℕ
close_of none = none
close_of (some (first, rest)) = some (last_of first rest).close_sqrt

unfoldable pub seed_from : Dict Bucket → Option ℕ → Option ℕ
seed_from buckets none = none
seed_from buckets (some key) = close_of (find buckets key)

-- The loop over the rows of a bucket.
unfoldable pub highest : ℕ → List MinuteRow → ℕ
highest high [] = high
highest high (r ∷ rs) = highest (if ltb high r.high_sqrt then r.high_sqrt else high) rs

unfoldable pub lowest : ℕ → List MinuteRow → ℕ
lowest low [] = low
lowest low (r ∷ rs) = lowest (if ltb r.low_sqrt low then r.low_sqrt else low) rs

unfoldable pub sum_of : (MinuteRow → ℕ) → List MinuteRow → ℕ
sum_of f [] = 0
sum_of f (r ∷ rs) = f r + sum_of f rs

unfoldable pub opening : Option ℕ → MinuteRow → ℕ
opening none first = first.open_sqrt
opening (some close) first = close

-- A candle of a bucket with rows; the wick is stretched to cover the open.
unfoldable pub full_candle : ℕ → Option ℕ → Bucket → Candle
full_candle key prev (first, rest) =
    let open_sqrt = opening prev first in
    let high = highest first.high_sqrt (first ∷ rest) in
    let low = lowest first.low_sqrt (first ∷ rest) in
    record {
      key = key;
      open_sqrt = open_sqrt;
      close_sqrt = (last_of first rest).close_sqrt;
      high_sqrt = if ltb high open_sqrt then open_sqrt else high;
      low_sqrt = if ltb open_sqrt low then open_sqrt else low;
      buy = sum_of (λ r. r.buy) (first ∷ rest);
      sell = sum_of (λ r. r.sell) (first ∷ rest);
      swaps = sum_of (λ r. r.swaps) (first ∷ rest);
    }

unfoldable pub flat_candle : ℕ → ℕ → Candle
flat_candle key close = record {
  key = key;
  open_sqrt = close;
  close_sqrt = close;
  high_sqrt = close;
  low_sqrt = close;
  buy = 0;
  sell = 0;
  swaps = 0;
}

-- What a round of the walk pushes, if anything.
unfoldable pub candle_at : ℕ → Option ℕ → Option Bucket → Option Candle
candle_at key prev (some bucket) = some (full_candle key prev bucket)
candle_at key (some close) none = some (flat_candle key close)
candle_at key none none = none

unfoldable pub push_candle : (Option ℕ → List Candle) → Option ℕ → Option Candle → List Candle
push_candle rest prev none = rest prev
push_candle rest prev (some c) = c ∷ rest (some c.close_sqrt)

-- The walk over `rounds` keys from `key` on, behind the close of the last candle.
unfoldable pub fill : Dict Bucket → ℕ → ℕ → ℕ → Option ℕ → List Candle
fill buckets bucket_size zero key prev = []
fill buckets bucket_size (suc rounds) key prev =
    push_candle (fill buckets bucket_size rounds (key + bucket_size)) prev
      (candle_at key prev (find buckets key))

-- `out.slice(-count)`, for a positive count.
unfoldable pub trailing : ℕ → List Candle → List Candle
trailing count [] = []
trailing count (c ∷ cs) =
    let rest = trailing count cs in if leb (length (c ∷ cs)) count then c ∷ cs else rest

unfoldable pub fill_window : Dict Bucket → ℕ → ℕ → List ℕ → List Candle
fill_window buckets bucket_size limit [] = []
fill_window buckets bucket_size limit (first ∷ keys) =
    let last = last_of first keys in
    let max_buckets = max limit 1 in
    let start = max first (last - (max_buckets - 1) * bucket_size) in
    let seed = seed_from buckets (last_before start (first ∷ keys)) in
    trailing max_buckets (fill buckets bucket_size ((last - start) / bucket_size + 1) start seed)

-- `fillJoinedCandles`, for a bucket size of at least 1.
unfoldable pub fill_joined_candles : List MinuteRow → ℕ → ℕ → List Candle
fill_joined_candles minutes bucket_size limit =
    let buckets = into_buckets bucket_size (sort_rows (priced minutes)) [] in
    fill_window buckets bucket_size limit (sorted_keys buckets)
