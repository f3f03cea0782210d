-- ===== src/Protocol/Arithmetic/Isqrt.antt =====
-- `isqrt` is the floor square root, and it ends.
use native.Mathlib.Nat.{
  mul-le-mul, mul-le-mul_left, mul_comm, le_trans, mul-div-le, lt-mul-div-succ, div-one,
}
use spawn_backend.Prelude.{
  ℕ, zero, suc, ◌+◌, ◌-◌, ◌*◌, ◌/◌, ◌^◌, ◌≤◌, ◌<◌, ◌≡◌, true, arith, tests, inl, inr, ltb, leb,
  Bool-cases,
}
use spawn_backend.Prelude.Int.{pos}
use spawn_backend.Prelude.Outcome.{ok}
use spawn_backend.Prelude.Powers.{two_pow-pos, two_pow-add, two_pow-le}
use spawn_backend.Protocol.Arithmetic.{bit_length_from, bit_length, newton, first_guess, isqrt}

-- A number stays below the power of 2 of its bit length.
lt-two_pow-bit_length_from : (fuel x : ℕ) → x ≤ fuel → x < 2 ^ bit_length_from fuel x
unfolding bit_length_from
lt-two_pow-bit_length_from zero x h = omega arith
lt-two_pow-bit_length_from (suc fuel) x h = elim (Bool-cases (ltb x 2)) [
  | inl small ↦ rw small (omega tests)
  | inr large ↦
      rw (large, two_pow-add (bit_length_from fuel (x / 2)) 1)
        (omega (arith, lt-two_pow-bit_length_from fuel (x / 2) (ground arith)))
]

product-le_square : (a d b : ℕ) → b ≤ a + d + d → a * b ≤ (a + d) * (a + d)
product-le_square a d b h = omega (arith, mul-le-mul_left a h)

-- Two numbers with a sum up to 2c have a product up to c².
product-le_of_sum-le : (a b c : ℕ) → a + b ≤ 2 * c → a * b ≤ c * c
product-le_of_sum-le a b c h = elim (Bool-cases (leb a c)) [
  | inl le ↦
      let e : a + (c - a) ≡ c = omega tests in
      rw e at (product-le_square a (c - a) b (ground arith))
  | inr gt ↦
      let e : b + (c - b) ≡ c = ground arith in
      rw mul_comm (rw e at (product-le_square b (c - b) a (ground arith)))
]

-- The next guess does not fall below the root.
newton_step : (x g : ℕ) → 0 < g → x < ((g + x / g) / 2 + 1) * ((g + x / g) / 2 + 1)
newton_step x g pg =
    let n = (g + x / g) / 2 in
    let under : x < g * (x / g + 1) = lt-mul-div-succ x pg in
    omega (arith, product-le_of_sum-le g (x / g + 1) (n + 1) (omega arith))

abbrev pub IsRoot : ℕ → ℕ → Type 0
IsRoot x r = (r * r ≤ x) × (x < (r + 1) * (r + 1))

next_pos : (x g : ℕ) → 0 < x → 0 < g → 0 < (g + x / g) / 2
next_pos x g px pg = elim (Bool-cases (leb 2 g)) [
  | inl large ↦ omega tests
  | inr small ↦ let e : g ≡ 1 = ground arith in rw e (let d = div-one x in omega arith)
]

-- A round that does not fall has a quotient of at least the guess.
grows : (x g : ℕ) → g ≤ (g + x / g) / 2 → g ≤ x / g
grows x g h = omega arith

newton-IsRoot :
    (fuel x g : ℕ) → 0 < x → g ≤ fuel → 0 < g → x < (g + 1) * (g + 1) → IsRoot x (newton fuel x g)
unfolding newton
newton-IsRoot zero x g px le pg above = absurd (omega arith)
newton-IsRoot (suc fuel) x g px le pg above =
    let n = (g + x / g) / 2 in
    elim (Bool-cases (leb g n)) [
      | inl stop ↦
          rw stop
            ((le_trans (mul-le-mul_left g (grows x g (ground arith))) (mul-div-le x g)), above)
      | inr go ↦
          rw go (newton-IsRoot fuel x n px (ground arith) (next_pos x g px pg) (newton_step x g pg))
    ]

first_guess-pos : (x : ℕ) → 0 < first_guess x
unfolding first_guess
first_guess-pos x = two_pow-pos ((bit_length x + 1) / 2)

first_guess_above : (x : ℕ) → x < (first_guess x + 1) * (first_guess x + 1)
unfolding first_guess bit_length
first_guess_above x =
    let l = bit_length_from x x in
    let h = (l + 1) / 2 in
    let wide : 2 ^ l ≤ 2 ^ (h + h) = two_pow-le l (h + h) (omega arith) in
    omega (arith, lt-two_pow-bit_length_from x x (omega arith), two_pow-add h h)

small-IsRoot : (x : ℕ) → x < 2 → IsRoot x x
small-IsRoot zero h = omega arith
small-IsRoot (suc zero) h = omega arith
small-IsRoot (suc (suc x)) h = absurd (omega arith)

-- For every x ≥ 0 the call returns the r with r² ≤ x < (r + 1)².
pub isqrt-IsRoot : (x : ℕ) → (r : ℕ) × (isqrt (pos x) ≡ ok r) × IsRoot x r
unfolding isqrt
isqrt-IsRoot x = elim (Bool-cases (ltb x 2)) [
  | inl small ↦ (x, rw small, small-IsRoot x (omega tests))
  | inr large ↦ (
    newton (first_guess x) x (first_guess x),
    rw large,
    newton-IsRoot (first_guess x) x (first_guess x) (ground arith) (omega arith) (first_guess-pos x)
        (first_guess_above x),
  )
]

root-le : (x r s : ℕ) → IsRoot x r → IsRoot x s → r ≤ s
root-le x r s (lr, _) (_, us) = elim (Bool-cases (leb r s)) [
  | inl le ↦ omega tests
  | inr gt ↦ let up : s + 1 ≤ r = ground arith in absurd (omega (arith, mul-le-mul up up))
]

pub IsRoot-unique : (x r s : ℕ) → IsRoot x r → IsRoot x s → r ≡ s
IsRoot-unique x r s hr hs = omega (arith, root-le x r s hr hs, root-le x s r hs hr)

-- The guess that the loop gives is one at which its test stops it.
newton_stops :
    (fuel x g : ℕ)
    → 0 < x
    → g ≤ fuel
    → 0 < g
    → leb (newton fuel x g) ((newton fuel x g + x / newton fuel x g) / 2) ≡ true
unfolding newton
newton_stops zero x g px le pg = absurd (omega arith)
newton_stops (suc fuel) x g px le pg = elim (Bool-cases (leb g ((g + x / g) / 2))) [
  | inl stop ↦ rw stop stop
  | inr go ↦ rw go (newton_stops fuel x ((g + x / g) / 2) px (ground arith) (next_pos x g px pg))
]

-- For x ≥ 2 the call returns the r with r² ≤ x < (r + 1)², and the loop ends there: its test stops it
-- within as many rounds as the first guess, and any larger number of rounds gives the same r.
pub isqrt_ends :
    (x fuel : ℕ)
    → 2 ≤ x
    → first_guess x ≤ fuel
    → (r : ℕ) × (isqrt (pos x) ≡ ok r)
      × IsRoot x r
      × (newton fuel x (first_guess x) ≡ r)
      × (leb r ((r + x / r) / 2) ≡ true)
isqrt_ends x fuel large enough =
    let (r, e, root) = isqrt-IsRoot x in
    let pg = first_guess-pos x in
    let other =
      newton-IsRoot fuel x (first_guess x) (omega arith) enough pg (first_guess_above x) in
    let same = IsRoot-unique x (newton fuel x (first_guess x)) r other root in
    (r, e, root, same, rw (← same) (newton_stops fuel x (first_guess x) (omega arith) enough pg))
