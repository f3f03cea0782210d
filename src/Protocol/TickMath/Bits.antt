-- ===== src/Protocol/TickMath/Bits.antt =====
-- `mostSignificantBit` finds the highest bit of every positive 256-bit number.
use native.Mathlib.Nat.{div-div-eq-div-mul, div-one, div-lt_iff_lt-mul, le-div_iff_mul-le}
use spawn_backend.Prelude.{
  ℕ, ◌*◌, ◌/◌, ◌^◌, ◌≤◌, ◌<◌, ◌≡◌, refl, arith, tests, inl, inr, sym, leb, Bool-cases,
}
use spawn_backend.Prelude.Outcome.{ok}
use spawn_backend.Prelude.Powers.{two_pow-pos, two_pow-add}
use spawn_backend.Protocol.TickMath.{msb_step, most_significant_bit}

-- What is left of `x` after `msb` bits have gone, and is below `bound`.
record Tracks (x bound : ℕ) (state : ℕ × ℕ) : Type 0 where
  shifted : state.1 ≡ x / 2 ^ state.0
  positive : 0 < state.1
  below : state.1 < bound

msb_step-Tracks :
    (x k bound : ℕ) (state : ℕ × ℕ)
    → bound ≡ 2 ^ k * 2 ^ k
    → Tracks x bound state
    → Tracks x (2 ^ k) (msb_step k state)
unfolding msb_step
msb_step-Tracks x k bound (msb, rest) e t = elim (Bool-cases (leb (2 ^ k) rest)) [
  | inl large ↦ rw large (record {
    shifted = rw (t.shifted, two_pow-add msb k) (div-div-eq-div-mul x (2 ^ msb) (2 ^ k));
    positive = (le-div_iff_mul-le (two_pow-pos k)).1 (omega (tests, two_pow-pos k));
    below = (div-lt_iff_lt-mul (two_pow-pos k)).1 (rw e at t.below);
  })
  | inr small ↦
      rw small (record { shifted = t.shifted; positive = t.positive; below = ground arith })
]

abbrev all_steps : ℕ → ℕ × ℕ
all_steps x = msb_step 1 (
    msb_step 2
      (msb_step 4 (msb_step 8 (msb_step 16 (msb_step 32 (msb_step 64 (msb_step 128 (0, x))))))))

all_steps-Tracks : (x : ℕ) → 0 < x → x < 2 ^ 256 → Tracks x (2 ^ 1) (all_steps x)
all_steps-Tracks x px fits = msb_step-Tracks x 1 (2 ^ 2) _ refl (
    msb_step-Tracks x 2 (2 ^ 4) _ refl (
      msb_step-Tracks x 4 (2 ^ 8) _ refl (
        msb_step-Tracks x 8 (2 ^ 16) _ refl (
          msb_step-Tracks x 16 (2 ^ 32) _ refl (
            msb_step-Tracks x 32 (2 ^ 64) _ refl (
              msb_step-Tracks x 64 (2 ^ 128) _ refl (
                msb_step-Tracks x 128 (2 ^ 256) (0, x) refl
                  (record { shifted = sym (div-one x); positive = px; below = fits }))))))))

-- A quotient that is 1 has its dividend within a factor 2 of its divisor.
quotient_one : (x d : ℕ) → 0 < d → x / d ≡ 1 → (d ≤ x) × (x < 2 * d)
quotient_one x d pd e = grind arith

-- For 0 < x < 2^256 the result is the m with 2^m ≤ x < 2^(m + 1).
pub most_significant_bit_lem :
    (x : ℕ)
    → 0 < x
    → x < 2 ^ 256
    → (m : ℕ) × (most_significant_bit x ≡ ok m) × (2 ^ m ≤ x) × (x < 2 * 2 ^ m)
unfolding most_significant_bit
most_significant_bit_lem x px fits =
    let t = all_steps-Tracks x px fits in
    let m = (all_steps x).0 in
    let one : x / 2 ^ m ≡ 1 = omega (arith, t.positive, t.below, t.shifted) in
    let (low, high) = quotient_one x (2 ^ m) (two_pow-pos m) one in (m, ground arith, low, high)
