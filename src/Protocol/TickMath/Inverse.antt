-- ===== src/Protocol/TickMath/Inverse.antt =====
-- The two candidates of `getTickAtSqrtPrice`: a higher price has no lower candidates, and the two are
-- equal or neighbours.
use native.Mathlib.Nat.{mul-le-mul_right, div-lt_iff_lt-mul, le-div_iff_mul-le}
use spawn_backend.Prelude.{
  ℕ, suc, ◌+◌, ◌-◌, ◌*◌, ◌^◌, ◌≤◌, ◌<◌, ◌≡◌, arith, tests, inl, inr, leb, ◌==◌, Bool-cases,
}
use spawn_backend.Prelude.Division.{div_mono}
use spawn_backend.Prelude.Int.{
  ℤ, pos, negsuc, pos_part, neg_part, ◌+ℤ◌, ◌*ℤ◌, ◌≤ℤ◌, sub_ℕ, sub_ℕ_parts, int_laws, *ℤ-pos_parts,
  div_floor,
}
use spawn_backend.Prelude.Powers.{two_pow-pos, two_pow-add, two_pow-le, two_pow-suc}
use spawn_backend.Protocol.TickMath.{Q128, log_factor, normalize, log2_fixed, tick_low, tick_high}
use spawn_backend.Protocol.TickMath.Log.{
  IsNormal, fraction, fraction-lt, fraction_mono, log_rounds-eq-fraction,
}

-- `m` is the highest bit of `x`.
abbrev pub IsTop : ℕ → ℕ → Type 0
IsTop x m = (2 ^ m ≤ x) × (x < 2 * 2 ^ m)

pub normalize-IsNormal : (x m : ℕ) → IsTop x m → IsNormal (normalize x m)
unfolding normalize
normalize-IsNormal x m (low, high) = elim (Bool-cases (leb 128 m)) [
  | inl large ↦
      let split : 2 ^ m ≡ 2 ^ (m - 127) * 2 ^ 127 =
        let e : m - 127 + 127 ≡ m = omega tests in rw e at (two_pow-add (m - 127) 127) in
      rw large (
        (le-div_iff_mul-le (two_pow-pos (m - 127))).1 (omega arith),
        (div-lt_iff_lt-mul (two_pow-pos (m - 127))).1 (omega arith),
      )
  | inr small ↦
      let split : 2 ^ 127 ≡ 2 ^ m * 2 ^ (127 - m) =
        let e : m + (127 - m) ≡ 127 = ground arith in rw e at (two_pow-add m (127 - m)) in
      rw small (
        omega (arith, mul-le-mul_right (2 ^ (127 - m)) low),
        omega (arith, mul-le-mul_right (2 ^ (127 - m)) high, two_pow-pos (127 - m)),
      )
]

pub normalize_mono : (x y m : ℕ) → x ≤ y → normalize x m ≤ normalize y m
unfolding normalize
normalize_mono x y m h = elim (Bool-cases (leb 128 m)) [
  | inl large ↦ rw large (div_mono x y (2 ^ (m - 127)) (two_pow-pos (m - 127)) h)
  | inr small ↦ rw small (mul-le-mul_right (2 ^ (127 - m)) h)
]

shifted_parts :
    (d : ℤ) (m f : ℕ)
    → pos_part d + 128 ≡ m + neg_part d
    → pos_part (d *ℤ pos (2 ^ 64) +ℤ pos f) + 128 * 2 ^ 64
      ≡ m * 2 ^ 64 + f + neg_part (d *ℤ pos (2 ^ 64) +ℤ pos f)
shifted_parts d m f h = omega (int_laws, *ℤ-pos_parts d (2 ^ 64))

-- The logarithm, moved up by 128 * 2^64 so that it is a natural number.
log2_fixed_lem :
    (x m : ℕ)
    → pos_part (log2_fixed x m) + 128 * 2 ^ 64
      ≡ m * 2 ^ 64 + fraction 64 (normalize x m) + neg_part (log2_fixed x m)
unfolding log2_fixed
log2_fixed_lem x m =
    rw (log_rounds-eq-fraction 64 (normalize x m) (sub_ℕ m 128 *ℤ pos (2 ^ 64)))
      (shifted_parts (sub_ℕ m 128) m (fraction 64 (normalize x m)) (sub_ℕ_parts m 128))

-- The highest bit rises with the number.
IsTop-mono : (x y m n : ℕ) → IsTop x m → IsTop y n → x ≤ y → m ≤ n
IsTop-mono x y m n tx ty h = elim (Bool-cases (leb m n)) [
  | inl le ↦ omega tests
  | inr gt ↦ absurd (omega (arith, two_pow-le (suc n) m (ground arith), two_pow-suc n))
]

-- A larger number has no smaller logarithm.
pub log2_fixed_mono :
    (x y m n : ℕ) → IsTop x m → IsTop y n → x ≤ y → log2_fixed x m ≤ℤ log2_fixed y n
log2_fixed_mono x y m n tx ty h =
    let nx = normalize-IsNormal x m tx in
    let ny = normalize-IsNormal y n ty in
    elim (Bool-cases (m == n)) [
      | inl same ↦
          let e : m ≡ n = ground arith in
          let ny' : IsNormal (normalize y m) = rw e ny in
          let le =
            fraction_mono 64 (normalize x m) (normalize y m) nx ny' (normalize_mono x y m h) in
          rw (← e) (omega (arith, log2_fixed_lem x m, log2_fixed_lem y m))
      | inr apart ↦
          let lt : m < n = ground (arith, IsTop-mono x y m n tx ty h) in
          omega (arith, log2_fixed_lem x m, log2_fixed_lem y n, fraction-lt 64 (normalize x m) nx)
    ]

div_floor_mono : (a b : ℤ) → a ≤ℤ b → div_floor a Q128 ≤ℤ div_floor b Q128
unfolding div_floor
div_floor_mono (pos a) (pos b) h = omega arith
div_floor_mono (pos a) (negsuc b) h = absurd (omega arith)
div_floor_mono (negsuc a) (pos b) h = omega arith
div_floor_mono (negsuc a) (negsuc b) h = omega arith

div_floor_near :
    (a b : ℤ) → b ≤ℤ a +ℤ pos (Q128 - 1) → div_floor b Q128 ≤ℤ div_floor a Q128 +ℤ pos 1
unfolding div_floor ◌+ℤ◌
div_floor_near a b h = ground arith

pub tick_low_mono : (a b : ℤ) → a ≤ℤ b → tick_low a ≤ℤ tick_low b
unfolding tick_low
tick_low_mono a b h =
    div_floor_mono _ _ (omega (int_laws, *ℤ-pos_parts a log_factor, *ℤ-pos_parts b log_factor))

pub tick_high_mono : (a b : ℤ) → a ≤ℤ b → tick_high a ≤ℤ tick_high b
unfolding tick_high
tick_high_mono a b h =
    div_floor_mono _ _ (omega (int_laws, *ℤ-pos_parts a log_factor, *ℤ-pos_parts b log_factor))

-- The two candidates are equal or neighbours.
pub candidates_near : (a : ℤ) → (tick_low a ≤ℤ tick_high a) × (tick_high a ≤ℤ tick_low a +ℤ pos 1)
unfolding tick_low tick_high
candidates_near a = (div_floor_mono _ _ (omega int_laws), div_floor_near _ _ (omega int_laws))
