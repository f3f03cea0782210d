-- ===== src/Protocol/Arithmetic.antt =====
-- The integer arithmetic of src/protocol/protocol-math.ts: the floor square root and the products
-- divided with either rounding.
pub mod Isqrt
pub mod Rounding
use spawn_backend.Prelude.{ℕ, zero, suc, ◌+◌, ◌*◌, ◌/◌, ◌%◌, ◌^◌, ltb, leb, ◌==◌, if◌then◌else◌}
use spawn_backend.Prelude.Int.{ℤ, pos, negsuc}
use spawn_backend.Prelude.Outcome.{ok, err, ◌>>=◌}
use spawn_backend.Protocol.Fault.{Fault, Partial, div, rem}

-- `x.toString(2).length`: a digit for each halving until a single digit is left. A number has no
-- more digits than its value, so the value is fuel enough.
unfoldable pub bit_length_from : ℕ → ℕ → ℕ
bit_length_from zero x = 1
bit_length_from (suc fuel) x =
    let rest = bit_length_from fuel (x / 2) in if ltb x 2 then 1 else rest + 1

unfoldable pub bit_length : ℕ → ℕ
bit_length x = bit_length_from x x

-- The loop of `isqrt`. A guess that falls takes at most as many rounds as its value.
unfoldable pub newton : ℕ → ℕ → ℕ → ℕ
newton zero x guess = guess
newton (suc fuel) x guess =
    let next = (guess + x / guess) / 2 in
    let rest = newton fuel x next in if leb guess next then guess else rest

-- 1n << BigInt(Math.ceil(length / 2))
unfoldable pub first_guess : ℕ → ℕ
first_guess x = 2 ^ ((bit_length x + 1) / 2)

unfoldable pub isqrt : ℤ → Partial ℕ
isqrt (negsuc n) = err Fault.isqrt_of_negative
isqrt (pos x) = ok (if ltb x 2 then x else newton (first_guess x) x (first_guess x))

-- `mulDiv`.
unfoldable pub mul_div : ℕ → ℕ → ℕ → Partial ℕ
mul_div a b denominator = div (a * b) denominator

-- `divRoundingUp`.
unfoldable pub div_rounding_up : ℕ → ℕ → Partial ℕ
div_rounding_up a denominator = do
  result ← div a denominator
  rest ← rem a denominator
  ok (if rest == 0 then result else result + 1)

-- `mulDivRoundingUp`.
unfoldable pub mul_div_rounding_up : ℕ → ℕ → ℕ → Partial ℕ
mul_div_rounding_up a b denominator = do
  let product = a * b
  result ← div product denominator
  rest ← rem product denominator
  ok (if rest == 0 then result else result + 1)
