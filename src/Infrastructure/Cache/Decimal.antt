-- ===== src/Infrastructure/Cache/Decimal.antt =====
-- Decimal texts compare as their numbers do.
use native.Mathlib.Nat.{pow-suc, mul-le-mul_right}
use spawn_backend.Prelude.{
  ℕ, ◌+◌, ◌-◌, ◌*◌, ◌^◌, ◌≤◌, ◌<◌, ◌≡◌, refl, sym, true, false, ltb, ◌==◌, if◌then◌else◌, [], ◌∷◌,
  length, inl, inr, Bool-cases, arith, lt→ltb, ltb→lt,
}
use spawn_backend.Common.Decimal.{Text, to_text, value_from}
use spawn_backend.Common.Decimal.Digits.{AreDigits, to_text-AreDigits, to_text_nonempty}
use spawn_backend.Common.Decimal.Laws.{value-to_text, length-to_text}
use spawn_backend.Infrastructure.Cache.{text_gt, is_newer}

-- A value behind digits already read.
value_from-acc : (acc : ℕ) (xs : Text) → value_from acc xs ≡ acc * 10 ^ length xs + value_from 0 xs
unfolding value_from
value_from-acc acc [] = omega arith
value_from-acc acc (x ∷ xs) =
    let d = x - b'0' in
    rw (value_from-acc (acc * 10 + d) xs, value_from-acc (0 * 10 + d) xs, pow-suc 10 (length xs))
      (grind arith)

value_from-lt : (xs : Text) → AreDigits xs → value_from 0 xs < 10 ^ length xs
unfolding value_from
value_from-lt [] h = omega arith
value_from-lt (x ∷ xs) ((low, high), h) =
    let d = x - b'0' in
    let ih = value_from-lt xs h in
    let few : d + 1 ≤ 10 = omega (arith, low, high) in
    rw (value_from-acc (0 * 10 + d) xs, pow-suc 10 (length xs))
      (omega (arith, ih, mul-le-mul_right (10 ^ length xs) few))

-- The first digit decides, unless it is the same.
ltb_lex :
    (x y v w top : ℕ)
    → b'0' ≤ x
    → b'0' ≤ y
    → v < top
    → w < top
    → (if ltb y x then true else if ltb x y then false else ltb w v)
      ≡ ltb ((0 * 10 + (y - b'0')) * top + w) ((0 * 10 + (x - b'0')) * top + v)
ltb_lex x y v w top hx hy hv hw = elim (Bool-cases (ltb y x)) [
  | inl more ↦
      let lt = ltb→lt y x more in
      let step : (0 * 10 + (y - b'0')) + 1 ≤ 0 * 10 + (x - b'0') = omega arith in
      rw
        (
          more,
          lt→ltb ((0 * 10 + (y - b'0')) * top + w) ((0 * 10 + (x - b'0')) * top + v)
              (omega (arith, mul-le-mul_right top step)),
        )
        refl
  | inr no_more ↦ elim (Bool-cases (ltb x y)) [
    | inl less ↦
        let lt = ltb→lt x y less in
        let step : (0 * 10 + (x - b'0')) + 1 ≤ 0 * 10 + (y - b'0') = omega arith in
        let h = mul-le-mul_right top step in rw (no_more, less) (ground arith)
    | inr no_less ↦ let same : x ≡ y = ground arith in rw (no_more, no_less, same) (ground arith)
  ]
]

text_gt-eq-ltb :
    (xs ys : Text)
    → AreDigits xs
    → AreDigits ys
    → length xs ≡ length ys
    → text_gt xs ys ≡ ltb (value_from 0 ys) (value_from 0 xs)
unfolding text_gt value_from
text_gt-eq-ltb [] [] hx hy e = refl
text_gt-eq-ltb [] (y ∷ ys) hx hy e = absurd (omega arith)
text_gt-eq-ltb (x ∷ xs) [] hx hy e = absurd (omega arith)
text_gt-eq-ltb (x ∷ xs) (y ∷ ys) (dx, hx) (dy, hy) e =
    let same : length xs ≡ length ys = omega (arith, e) in
    let ih = text_gt-eq-ltb xs ys hx hy same in
    rw (value_from-acc (0 * 10 + (x - b'0')) xs, value_from-acc (0 * 10 + (y - b'0')) ys, ih, same)
      (ltb_lex x y (value_from 0 xs) (value_from 0 ys) (10 ^ length ys) (omega (arith, dx))
        (omega (arith, dy)) (rw (sym same) (value_from-lt xs hx)) (value_from-lt ys hy))

-- The number with the longer text is the greater.
longer_lt : (a b : ℕ) → length (to_text a) < length (to_text b) → a < b
longer_lt a b h =
    let fits = rw (value-to_text a) at (value_from-lt (to_text a) (to_text-AreDigits a)) in
    elim (Bool-cases (ltb a b)) [
      | inl less ↦ ltb→lt a b less
      | inr no_less ↦ absurd (
          omega
            (arith, h, length-to_text b (length (to_text a)) (to_text_nonempty a) (ground arith)))
    ]

-- `is_newer` on the texts of two numbers compares the numbers.
pub is_newer-eq-ltb : (b a : ℕ) → is_newer (to_text b) (to_text a) ≡ ltb a b
unfolding is_newer
is_newer-eq-ltb b a = elim (Bool-cases (ltb (length (to_text a)) (length (to_text b)))) [
  | inl longer ↦
      rw longer
        (sym (lt→ltb a b (longer_lt a b (ltb→lt (length (to_text a)) (length (to_text b)) longer))))
  | inr not_longer ↦ elim (Bool-cases (length (to_text b) == length (to_text a))) [
    | inl same ↦
        rw
          (
            not_longer,
            same,
            text_gt-eq-ltb (to_text b) (to_text a) (to_text-AreDigits b) (to_text-AreDigits a)
                (ground arith),
            value-to_text b,
            value-to_text a,
          )
          refl
    | inr other ↦ let h = longer_lt b a (ground arith) in rw (not_longer, other) (ground arith)
  ]
]
