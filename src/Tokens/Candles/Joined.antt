-- ===== src/Tokens/Candles/Joined.antt =====
-- Consecutive candles join.
use spawn_backend.Prelude.{
  ℕ, zero, suc, ◌+◌, max, ◌≤◌, ◌≡◌, refl, leb, List, [], ◌∷◌, length, Option, none, some, inl, inr,
  Bool-cases, Option-cases, arith,
}
use spawn_backend.Common.Dict.{Dict, find}
use spawn_backend.Tokens.Candles.{
  MinuteRow, Candle, Bucket, last_of, opening, full_candle, flat_candle, candle_at, push_candle,
  fill, trailing, fill_window, fill_joined_candles, into_buckets, sort_rows, priced, sorted_keys,
}

-- The open lies between the low and the high, in square roots.
pub record Covers (c : Candle) : Type 0 where
  pub above_low : c.low_sqrt ≤ c.open_sqrt
  pub below_high : c.open_sqrt ≤ c.high_sqrt

-- The candles continue from that key and that price, without a gap.
unfoldable pub Follows : ℕ → ℕ → ℕ → List Candle → Type 0
Follows bucket_size key price [] = Unit
Follows bucket_size key price (c ∷ cs) =
    (c.key ≡ key)
    × (c.open_sqrt ≡ price)
    × Covers c
    × Follows bucket_size (key + bucket_size) c.close_sqrt cs

-- Each candle covers its open, opens where the one before closed, and starts where it ended.
unfoldable pub Joined : ℕ → List Candle → Type 0
Joined bucket_size [] = Unit
Joined bucket_size (c ∷ cs) = Covers c × Follows bucket_size (c.key + bucket_size) c.close_sqrt cs

full_candle-Covers : (key : ℕ) (prev : Option ℕ) (b : Bucket) → Covers (full_candle key prev b)
unfolding full_candle
full_candle-Covers key prev (first, rest) = record {
  above_low = ground arith;
  below_high = ground arith;
}

flat_candle-Covers : (key close : ℕ) → Covers (flat_candle key close)
unfolding flat_candle
flat_candle-Covers key close = record { above_low = omega arith; below_high = omega arith }

fill-Follows :
    (buckets : Dict Bucket) (size rounds key price : ℕ)
    → Follows size key price (fill buckets size rounds key (some price))
unfolding fill Follows push_candle candle_at full_candle flat_candle opening
fill-Follows buckets size zero key price = tt
fill-Follows buckets size (suc rounds) key price = elim (Option-cases (find buckets key)) [
  | inl gap ↦ rw gap (
    refl,
    refl,
    flat_candle-Covers key price,
    fill-Follows buckets size rounds (key + size) price,
  )
  | inr ((first, rest), full) ↦ rw full (
    refl,
    refl,
    full_candle-Covers key (some price) (first, rest),
    fill-Follows buckets size rounds (key + size) (last_of first rest).close_sqrt,
  )
]

fill-Joined :
    (buckets : Dict Bucket) (size rounds key : ℕ) (prev : Option ℕ)
    → Joined size (fill buckets size rounds key prev)
unfolding fill Joined push_candle candle_at full_candle flat_candle
fill-Joined buckets size zero key prev = tt
fill-Joined buckets size (suc rounds) key prev = elim (Option-cases (find buckets key)) [
  | inl gap ↦ rw gap (after_gap prev (fill-Joined buckets size rounds (key + size) none))
  | inr ((first, rest), full) ↦ rw full (
    full_candle-Covers key prev (first, rest),
    fill-Follows buckets size rounds (key + size) (last_of first rest).close_sqrt,
  )
]
  where
    after_gap :
        (p : Option ℕ)
        → Joined size (fill buckets size rounds (key + size) none)
        → Joined size (push_candle (fill buckets size rounds (key + size)) p (candle_at key p none))
    after_gap none h = h
    after_gap (some close) h =
        (flat_candle-Covers key close, fill-Follows buckets size rounds (key + size) close)

Follows-Joined :
    (size key price : ℕ) (cs : List Candle) → Follows size key price cs → Joined size cs
unfolding Follows Joined
Follows-Joined size key price [] h = tt
Follows-Joined size key price (c ∷ cs) (at, opens, covers, rest) = (covers, rw at rest)

trailing-Joined :
    (count size : ℕ) (cs : List Candle) → Joined size cs → Joined size (trailing count cs)
unfolding trailing Joined
trailing-Joined count size [] h = tt
trailing-Joined count size (c ∷ cs) (covers, rest) =
    elim (Bool-cases (leb (length (c ∷ cs)) count)) [
      | inl fits ↦ rw fits (covers, rest)
      | inr long ↦
          rw long (
            trailing-Joined count size cs (Follows-Joined size (c.key + size) c.close_sqrt cs rest))
    ]

length-trailing : (count : ℕ) (cs : List Candle) → length (trailing count cs) ≤ count
unfolding trailing
length-trailing count [] = omega arith
length-trailing count (c ∷ cs) = ground (arith, length-trailing count cs)

-- For every list of minute rows, bucket size and limit: there are at most as many candles as the
-- limit, or one for a limit of 0; each candle's low and high cover its open; and each candle after the
-- first opens at the close of the one before and starts where that one's bucket ends.
pub fill_joined_candles-Joined :
    (minutes : List MinuteRow) (bucket_size limit : ℕ)
    → Joined bucket_size (fill_joined_candles minutes bucket_size limit)
      × (length (fill_joined_candles minutes bucket_size limit) ≤ max limit 1)
unfolding fill_joined_candles fill_window Joined
fill_joined_candles-Joined minutes bucket_size limit =
    let buckets = into_buckets bucket_size (sort_rows (priced minutes)) [] in
    window buckets (sorted_keys buckets)
  where
    window :
        (buckets : Dict Bucket) (keys : List ℕ)
        → Joined bucket_size (fill_window buckets bucket_size limit keys)
          × (length (fill_window buckets bucket_size limit keys) ≤ max limit 1)
    window buckets [] = (tt, omega arith)
    window buckets (first ∷ keys) = (
      trailing-Joined (max limit 1) bucket_size _ (fill-Joined buckets bucket_size _ _ _),
      length-trailing (max limit 1) _,
    )
