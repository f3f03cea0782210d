-- ===== src/Prelude/Division.antt =====
-- Quotients of native numbers compared.
use native.Mathlib.Nat.{le-div_iff_mul-le, le_trans, mul-le-mul_left, div-mul-le_self}
use spawn_backend.Prelude.{ℕ, ◌*◌, ◌/◌, ◌≤◌, ◌<◌, arith}

pub div_mono : (a b k : ℕ) → 0 < k → a ≤ b → a / k ≤ b / k
div_mono a b k pk h = (le-div_iff_mul-le pk).1 (le_trans (div-mul-le_self a k) h)

pub div_antitone : (n a b : ℕ) → 0 < a → a ≤ b → n / b ≤ n / a
div_antitone n a b pa h =
    (le-div_iff_mul-le pa).1 (le_trans (mul-le-mul_left (n / b) h) (div-mul-le_self n b))

pub square_pos : (p : ℕ) → 0 < p → 0 < p * p
square_pos p h = grind arith

pub product-lt : (a j n : ℕ) → 0 < a → j < n → a * j < a * n
product-lt a j n pa lt = grind arith
