-- ===== src/Protocol/TickMath.antt =====
-- src/protocol/tick-math.ts: the square root price at a tick (Q64.96), and the tick at a square root
-- price. A bit test `absTick & mask` at a mask 2^k is written by division, a shift to the right by
-- division, a shift to the left by multiplication.
pub mod Fold
pub mod Table
pub mod Bounds
pub mod Monotone
pub mod Bits
pub mod Log
pub mod Inverse
pub mod Total
use spawn_backend.Prelude.{
  ℕ, zero, suc, ◌+◌, ◌-◌, ◌*◌, ◌/◌, ◌%◌, ◌^◌, Bool, List, [], ◌∷◌, ltb, leb, ◌==◌, ◌||◌, ◌&&◌,
  if◌then◌else◌,
}
use spawn_backend.Prelude.Int.{ℤ, pos, sub_ℕ, ◌+ℤ◌, ◌-ℤ◌, ◌*ℤ◌, div_floor, abs, ltb_ℤ, leb_ℤ}
use spawn_backend.Prelude.Outcome.{Outcome, ok, ◌>>=◌, ◌>>◌, throw_if}
use spawn_backend.Protocol.Fault.{Fault, Partial, div}
use spawn_backend.Protocol.Constants.{max_tick, min_sqrt_price, max_sqrt_price}

abbrev pub uint32_max : ℕ
uint32_max = 0xffffffff

abbrev pub max_uint256 : ℕ
max_uint256 = 2 ^ 256 - 1

-- `absTick & mask`, as a test, at a mask that is a power of two.
abbrev pub has_bit : ℕ → ℕ → Bool
has_bit abs_tick mask = abs_tick / mask % 2 == 1

-- The factor of bit 0, and those of the bits 1 to 19 with their masks.
abbrev pub first_factor : ℕ
first_factor = 0xfffcb933bd6fad37aa2d162d1a594001

abbrev pub factors : List (ℕ × ℕ)
factors =
    (0x2, 0xfff97272373d413259a46990580e213a)
    ∷ (0x4, 0xfff2e50f5f656932ef12357cf3c7fdcc)
    ∷ (0x8, 0xffe5caca7e10e4e61c3624eaa0941cd0)
    ∷ (0x10, 0xffcb9843d60f6159c9db58835c926644)
    ∷ (0x20, 0xff973b41fa98c081472e6896dfb254c0)
    ∷ (0x40, 0xff2ea16466c96a3843ec78b326b52861)
    ∷ (0x80, 0xfe5dee046a99a2a811c461f1969c3053)
    ∷ (0x100, 0xfcbe86c7900a88aedcffc83b479aa3a4)
    ∷ (0x200, 0xf987a7253ac413176f2b074cf7815e54)
    ∷ (0x400, 0xf3392b0822b70005940c7a398e4b70f3)
    ∷ (0x800, 0xe7159475a2c29b7443b29c7fa6e889d9)
    ∷ (0x1000, 0xd097f3bdfd2022b8845ad8f792aa5825)
    ∷ (0x2000, 0xa9f746462d870fdf8a65dc1f90e061e5)
    ∷ (0x4000, 0x70d869a156d2a1b890bb3df62baf32f7)
    ∷ (0x8000, 0x31be135f97d08fd981231505542fcfa6)
    ∷ (0x10000, 0x9aa508b5b7a84e1c677de54f3e99bc9)
    ∷ (0x20000, 0x5d6af8dedb81196699c329225ee604)
    ∷ (0x40000, 0x2216e584f5fa1ea926041bedfe98)
    ∷ (0x80000, 0x48a170391f7dc42444e8fa2)
    ∷ []

abbrev pub Q128 : ℕ
Q128 = 2 ^ 128

-- One line `if (absTick & mask) price = (price * factor) >> 128n;` after another.
unfoldable pub multiply_factors : List (ℕ × ℕ) → ℕ → ℕ → ℕ
multiply_factors [] abs_tick price = price
multiply_factors ((mask, factor) ∷ rest) abs_tick price =
    multiply_factors rest abs_tick (if has_bit abs_tick mask then price * factor / Q128 else price)

-- The ratio 1.0001^(-absTick / 2), as Q128.128.
unfoldable pub ratio : ℕ → ℕ
ratio abs_tick =
    multiply_factors factors abs_tick (if has_bit abs_tick 1 then first_factor else Q128)

-- `getSqrtPriceAtTick`.
unfoldable pub sqrt_price_at_tick : ℤ → Partial ℕ
sqrt_price_at_tick tick = do
  throw_if (ltb max_tick (abs tick)) Fault.tick_out_of_range
  price ← if ltb_ℤ (pos 0) tick then div max_uint256 (ratio (abs tick)) else ok (ratio (abs tick))
  ok ((price + uint32_max) / 2 ^ 32)

-- One line `if (x >= 1n << k) { msb += k; x >>= k; }` of `mostSignificantBit`.
unfoldable pub msb_step : ℕ → ℕ × ℕ → ℕ × ℕ
msb_step k (msb, x) = if leb (2 ^ k) x then (msb + k, x / 2 ^ k) else (msb, x)

unfoldable pub most_significant_bit : ℕ → Partial ℕ
most_significant_bit x = do
  throw_if (x == 0) Fault.msb_of_zero
  ok
      (msb_step 1 (
        msb_step 2 (
          msb_step 4
            (msb_step 8 (msb_step 16 (msb_step 32 (msb_step 64 (msb_step 128 (0, x))))))))).0

-- `r` shifted so that its highest bit is bit 127.
unfoldable pub normalize : ℕ → ℕ → ℕ
normalize price msb = if leb 128 msb then price / 2 ^ (msb - 127) else price * 2 ^ (127 - msb)

-- One round of the loop. Bit `shift` of `log2` is still clear, so `|` adds it.
unfoldable pub log_round : ℕ → ℕ × ℤ → ℕ × ℤ
log_round shift (r, log2) =
    let square = r * r / 2 ^ 127 in
    let f = square / 2 ^ 128 in (square / 2 ^ f, log2 +ℤ pos (f * 2 ^ shift))

-- The rounds `shift = n - 1` down to 0.
unfoldable pub log_rounds : ℕ → ℕ × ℤ → ℕ × ℤ
log_rounds zero state = state
log_rounds (suc n) state = log_rounds n (log_round n state)

-- The base-2 logarithm of price / 2^128, times 2^64.
unfoldable pub log2_fixed : ℕ → ℕ → ℤ
log2_fixed price msb = (log_rounds 64 (normalize price msb, sub_ℕ msb 128 *ℤ pos (2 ^ 64))).1

abbrev pub log_factor : ℕ
log_factor = 255738958999603826347141

abbrev pub low_margin : ℕ
low_margin = 3402992956809132418596140100660247210

abbrev pub high_margin : ℕ
high_margin = 291339464771989622907027621153398088495

unfoldable pub tick_low : ℤ → ℤ
tick_low log2 = div_floor (log2 *ℤ pos log_factor -ℤ pos low_margin) Q128

unfoldable pub tick_high : ℤ → ℤ
tick_high log2 = div_floor (log2 *ℤ pos log_factor +ℤ pos high_margin) Q128

-- `tickLow === tickHi ? tickLow : …`
unfoldable pub choose_tick : ℕ → ℤ → ℤ → Partial ℤ
choose_tick sqrt_price low high =
    if leb_ℤ low high && leb_ℤ high low
    then ok low
    else (sqrt_price_at_tick high >>= λ at_high. ok (if leb at_high sqrt_price then high else low))

-- `getTickAtSqrtPrice`.
unfoldable pub tick_at_sqrt_price : ℕ → Partial ℤ
tick_at_sqrt_price sqrt_price = do
  throw_if (ltb sqrt_price min_sqrt_price || leb max_sqrt_price sqrt_price)
      Fault.sqrt_price_out_of_range
  let price = sqrt_price * 2 ^ 32
  msb ← most_significant_bit price
  let log2 = log2_fixed price msb
  choose_tick sqrt_price (tick_low log2) (tick_high log2)
