-- ===== src/Trading/QuoteCache.antt =====
-- The cache of quotes: `cachedQuote` of src/modules/trading/trading.service.ts. A call is answered from
-- the cache, joins the computation under way for its key, or starts one; a computation ends with a value
-- or fails. Values are numbers here, and times are milliseconds.
use spawn_backend.Prelude.{ℕ, ◌+◌, ltb, if◌then◌else◌, Option, none, some}
use spawn_backend.Common.Dict.{Dict, find, put, remove}

abbrev pub quote_ttl_ms : ℕ
quote_ttl_ms = 1_500

pub record CachedQuote : Type 0 where
  pub value : ℕ
  pub expires : ℕ

-- The values, and the number of the computation under way for a key.
pub record QuoteCache : Type 0 where
  pub quotes : Dict CachedQuote
  pub in_flight : Dict ℕ

pub data QuoteAnswer : Type 0 where
  cached : ℕ → QuoteAnswer
  joins : ℕ → QuoteAnswer
  starts : ℕ → QuoteAnswer

unfoldable pub live_quote : ℕ → Option CachedQuote → Option ℕ
live_quote now none = none
live_quote now (some hit) = if ltb now hit.expires then some hit.value else none

-- `cachedQuote` up to the promise, for a computation with a fresh number.
unfoldable pub cached_quote : ℕ → ℕ → ℕ → QuoteCache → QuoteAnswer × QuoteCache
cached_quote now key number s = by (live_quote now (find s.quotes key))
  where
    start : Option ℕ → QuoteAnswer × QuoteCache
    start (some pending) = (QuoteAnswer.joins pending, s)
    start none = (QuoteAnswer.starts number, record s { in_flight = put s.in_flight key number })

    by : Option ℕ → QuoteAnswer × QuoteCache
    by (some value) = (QuoteAnswer.cached value, s)
    by none = start (find s.in_flight key)

-- The end of a computation: its value is kept for the time to live, and a failure keeps nothing.
unfoldable pub quote_computed : ℕ → ℕ → Option ℕ → QuoteCache → QuoteCache
quote_computed now key none s = record s { in_flight = remove s.in_flight key }
quote_computed now key (some value) s = record {
  quotes = put s.quotes key (record { value = value; expires = now + quote_ttl_ms });
  in_flight = remove s.in_flight key;
}
