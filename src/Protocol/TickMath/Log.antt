-- ===== src/Protocol/TickMath/Log.antt =====
-- The logarithm of `getTickAtSqrtPrice`: every round keeps the mantissa normalised, and a higher
-- mantissa has no lower fraction.
use native.Mathlib.Nat.{div-one, mul-le-mul, mul-le-mul_right}
use spawn_backend.Prelude.{
  ℕ, zero, suc, ◌+◌, ◌-◌, ◌*◌, ◌/◌, ◌^◌, ◌≤◌, ◌<◌, ◌≡◌, arith, tests, inl, inr, ltb, Bool-cases,
  ◌⊎◌,
}
use spawn_backend.Prelude.Int.{ℤ, pos, ◌+ℤ◌, int_laws}
use spawn_backend.Prelude.Powers.{two_pow-suc}
use spawn_backend.Protocol.TickMath.{log_round, log_rounds}

-- `r` has its highest bit at 127.
abbrev pub IsNormal : ℕ → Type 0
IsNormal r = (2 ^ 127 ≤ r) × (r < 2 ^ 128)

square : ℕ → ℕ
square r = r * r / 2 ^ 127

bit : ℕ → ℕ
bit r = square r / 2 ^ 128

next : ℕ → ℕ
next r = square r / 2 ^ bit r

square_bounds : (r : ℕ) → IsNormal r → (2 ^ 127 ≤ square r) × (square r < 2 ^ 129)
unfolding square
square_bounds r (low, high) =
    let least : 2 ^ 127 * 2 ^ 127 ≤ r * r = mul-le-mul low low in
    let top : r ≤ 2 ^ 128 - 1 = omega arith in
    let most : r * r ≤ (2 ^ 128 - 1) * (2 ^ 128 - 1) = mul-le-mul top top in omega arith

-- The two outcomes of a round.
round_cases :
    (r : ℕ)
    → IsNormal r
    → ((bit r ≡ 0) × (next r ≡ square r) × (square r < 2 ^ 128))
      ⊎ ((bit r ≡ 1) × (next r ≡ square r / 2) × (2 ^ 128 ≤ square r))
unfolding bit next
round_cases r h = elim (Bool-cases (ltb (square r) (2 ^ 128))) [
  | inl small ↦ let e : bit r ≡ 0 = omega tests in inl (e, rw e (div-one (square r)), omega tests)
  | inr large ↦ let e : bit r ≡ 1 = ground (arith, square_bounds r h) in inr (e, rw e, ground arith)
]

bit-le : (r : ℕ) → IsNormal r → bit r ≤ 1
bit-le r h = elim (round_cases r h) [ inl (e, _, _) ↦ omega arith | inr (e, _, _) ↦ omega arith ]

next-IsNormal : (r : ℕ) → IsNormal r → IsNormal (next r)
next-IsNormal r h = elim (round_cases r h) [
  | inl (_, e, lt) ↦ rw e (omega (arith, square_bounds r h))
  | inr (_, e, ge) ↦ rw e (omega (arith, square_bounds r h))
]

-- The bits that the rounds `n - 1` to 0 give.
pub fraction : ℕ → ℕ → ℕ
fraction zero r = 0
fraction (suc n) r = bit r * 2 ^ n + fraction n (next r)

pub fraction-lt : (n r : ℕ) → IsNormal r → fraction n r < 2 ^ n
unfolding fraction
fraction-lt zero r h = omega arith
fraction-lt (suc n) r h =
    let rest = fraction-lt n (next r) (next-IsNormal r h) in
    let carry : bit r * 2 ^ n ≤ 1 * 2 ^ n = mul-le-mul_right (2 ^ n) (bit-le r h) in
    omega (arith, two_pow-suc n)

square_mono : (r s : ℕ) → r ≤ s → square r ≤ square s
unfolding square
square_mono r s h = let p : r * r ≤ s * s = mul-le-mul h h in omega arith

pub fraction_mono : (n r s : ℕ) → IsNormal r → IsNormal s → r ≤ s → fraction n r ≤ fraction n s
unfolding fraction
fraction_mono zero r s hr hs le = omega arith
fraction_mono (suc n) r s hr hs le =
    let up = square_mono r s le in
    let step = fraction_mono n (next r) (next s) (next-IsNormal r hr) (next-IsNormal s hs) in
    let over = fraction-lt n (next r) (next-IsNormal r hr) in
    elim (round_cases r hr) [
      | inl (er, nr, cr) ↦ elim (round_cases s hs) [
        | inl (es, ns, cs) ↦ rw (er, es) (omega (arith, step (omega arith)))
        | inr (es, ns, cs) ↦ rw (er, es) (omega arith)
      ]
      | inr (er, nr, cr) ↦ elim (round_cases s hs) [
        | inl (es, ns, cs) ↦ absurd (omega arith)
        | inr (es, ns, cs) ↦ rw (er, es) (omega (arith, step (omega arith)))
      ]
    ]

pub log_rounds-eq-fraction :
    (n r : ℕ) (log2 : ℤ) → (log_rounds n (r, log2)).1 ≡ log2 +ℤ pos (fraction n r)
unfolding log_rounds log_round fraction bit next square
log_rounds-eq-fraction zero r log2 = omega int_laws
log_rounds-eq-fraction (suc n) r log2 =
    rw (log_rounds-eq-fraction n (next r) (log2 +ℤ pos (bit r * 2 ^ n))) (omega int_laws)
