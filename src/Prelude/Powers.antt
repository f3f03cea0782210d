-- ===== src/Prelude/Powers.antt =====
-- Powers of 2, and that powers of 10 are positive.
use native.Mathlib.Nat.{pow-suc, pow-le-pow_right, add-zero}
use spawn_backend.Prelude.{ℕ, zero, suc, ◌+◌, ◌*◌, ◌^◌, ◌<◌, ◌≤◌, ◌≡◌, ap, arith}

pub two_pow-suc : (n : ℕ) → 2 ^ suc n ≡ 2 * 2 ^ n
two_pow-suc n = omega (arith, pow-suc 2 n)

pub two_pow-pos : (n : ℕ) → 0 < 2 ^ n
two_pow-pos zero = omega arith
two_pow-pos (suc n) = omega (arith, two_pow-pos n, two_pow-suc n)

pub two_pow-add : (m n : ℕ) → 2 ^ (m + n) ≡ 2 ^ m * 2 ^ n
two_pow-add m zero = rw (add-zero m) (omega arith)
two_pow-add m (suc n) =
    let e : m + suc n ≡ suc (m + n) = omega arith in
    rw e (
      omega (
        arith,
        two_pow-suc (m + n),
        ap (λ (t : ℕ). t * 2) (two_pow-add m n),
        ap (λ (t : ℕ). 2 ^ m * t) (two_pow-suc n),
      ))

pub two_pow-le : (m n : ℕ) → m ≤ n → 2 ^ m ≤ 2 ^ n
two_pow-le m n h = pow-le-pow_right {n = 2} (omega arith) h

pub ten_pow-pos : (n : ℕ) → 0 < 10 ^ n
ten_pow-pos zero = omega arith
ten_pow-pos (suc n) = omega (arith, pow-suc 10 n, ten_pow-pos n)
