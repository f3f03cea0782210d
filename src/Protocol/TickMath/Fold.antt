-- ===== src/Protocol/TickMath/Fold.antt =====
-- The product of the factors that a tick selects, as a fold over the digits of the tick, and how it
-- bounds and separates the ratios.
use native.Mathlib.Nat.{div-div-eq-div-mul}
use spawn_backend.Prelude.{
  ℕ, ◌+◌, ◌-◌, ◌*◌, ◌/◌, ◌%◌, ◌≤◌, ◌≡◌, refl, Bool, true, false, List, [], ◌∷◌, All, arith, leb,
  ◌==◌, ◌&&◌, if◌then◌else◌, map, inl, inr, Bool-cases,
}
use spawn_backend.Protocol.TickMath.{Q128, multiply_factors, has_bit}

-- One multiplication by a factor, rounded down.
unfoldable pub scale : ℕ → ℕ → ℕ
scale price factor = price * factor / Q128

abbrev pub pick : ℕ → ℕ → ℕ → ℕ
pick t factor price = if t % 2 == 1 then scale price factor else price

unfoldable pub bit_fold : List ℕ → ℕ → ℕ → ℕ
bit_fold [] t price = price
bit_fold (c ∷ cs) t price = bit_fold cs (t / 2) (pick t c price)

pub bit_fold-cons :
    (c : ℕ) (cs : List ℕ) (t price : ℕ)
    → bit_fold (c ∷ cs) t price ≡ bit_fold cs (t / 2) (pick t c price)
unfolding bit_fold
bit_fold-cons c cs t price = refl

abbrev pub Doubling : ℕ → List (ℕ × ℕ) → Type 0
Doubling m [] = Unit
Doubling m ((mask, factor) ∷ rest) = (mask ≡ m) × Doubling (m * 2) rest

abbrev pub factor_of : ℕ × ℕ → ℕ
factor_of (mask, factor) = factor

pub multiply_factors-eq-bit_fold :
    (table : List (ℕ × ℕ)) (m t price : ℕ)
    → Doubling m table
    → multiply_factors table t price ≡ bit_fold (map factor_of table) (t / m) price
unfolding multiply_factors bit_fold scale
multiply_factors-eq-bit_fold [] m t price d = refl
multiply_factors-eq-bit_fold ((mask, c) ∷ rest) m t price (e, d) = rw e (
    rw ((div-div-eq-div-mul t m 2), bit_fold)
      (multiply_factors-eq-bit_fold rest (m * 2) t (if has_bit t m then price * c / Q128 else price)
        d))

pub scale_mono : (a b c : ℕ) → a ≤ b → scale a c ≤ scale b c
unfolding scale
scale_mono a b c h = grind arith

pub scale_superadd : (a b c : ℕ) → scale a c + scale b c ≤ scale (a + b) c
unfolding scale
scale_superadd a b c = omega arith

pub scale-le : (a c : ℕ) → c ≤ Q128 → scale a c ≤ a
unfolding scale
scale-le a c h = grind arith

-- No digit of a tick makes the price larger.
pub bit_fold_mono : (cs : List ℕ) (t a b : ℕ) → a ≤ b → bit_fold cs t a ≤ bit_fold cs t b
unfolding bit_fold
bit_fold_mono [] t a b h = h
bit_fold_mono (c ∷ cs) t a b h =
    bit_fold_mono cs (t / 2) (pick t c a) (pick t c b) (ground (arith, scale_mono a b c h))

pick_superadd : (t c a b : ℕ) → pick t c a + pick t c b ≤ pick t c (a + b)
pick_superadd t c a b = ground (arith, scale_superadd a b c)

pub bit_fold_superadd :
    (cs : List ℕ) (t a b : ℕ) → bit_fold cs t a + bit_fold cs t b ≤ bit_fold cs t (a + b)
unfolding bit_fold
bit_fold_superadd [] t a b = omega arith
bit_fold_superadd (c ∷ cs) t a b = omega (
  arith,
  bit_fold_superadd cs (t / 2) (pick t c a) (pick t c b),
  bit_fold_mono cs (t / 2) (pick t c a + pick t c b) (pick t c (a + b)) (pick_superadd t c a b),
)

abbrev pub Factors : List ℕ → Type 0
Factors = All λ c. c ≤ Q128

pub bit_fold-le : (cs : List ℕ) (t p : ℕ) → Factors cs → bit_fold cs t p ≤ p
unfolding bit_fold
bit_fold-le [] t p f = omega arith
bit_fold-le (c ∷ cs) t p (f, fs) =
    ground (arith, bit_fold-le cs (t / 2) (pick t c p) fs, scale-le p c f)

-- Every leaf of the tree of digits that make a number up to `n` is at least `floor`. A digit 1 of
-- `n` leaves only the branch of digit 1 to look at, since it is the smaller one.
unfoldable pub leaves_ge : List ℕ → ℕ → ℕ → ℕ → Bool
leaves_ge [] n p floor = leb floor p
leaves_ge (c ∷ cs) n p floor = elim (n % 2 == 1) [
  | true ↦ leaves_ge cs (n / 2) (scale p c) floor
  | false ↦ elim (leaves_ge cs (n / 2) p floor) [
    | true ↦ elim (n == 0) [ true ↦ true | false ↦ leaves_ge cs (n / 2 - 1) (scale p c) floor ]
    | false ↦ false
  ]
]

pub leaves_ge_sound :
    (cs : List ℕ) (n t p floor : ℕ)
    → Factors cs
    → leaves_ge cs n p floor ≡ true
    → t ≤ n
    → floor ≤ bit_fold cs t p
unfolding leaves_ge bit_fold
leaves_ge_sound [] n t p floor f h le = ground arith
leaves_ge_sound (c ∷ cs) n t p floor (f, fs) h le = ground (
  arith,
  leaves_ge_sound cs (n / 2) (t / 2) (scale p c) floor fs,
  leaves_ge_sound cs (n / 2) (t / 2) p floor fs,
  leaves_ge_sound cs (n / 2 - 1) (t / 2) (scale p c) floor fs,
  bit_fold_mono cs (t / 2) (scale p c) p (scale-le p c f),
)

gap_same_digits :
    (cs : List ℕ) (t a b gap : ℕ)
    → b ≤ a
    → gap ≤ bit_fold cs t (a - b)
    → bit_fold cs t b + gap ≤ bit_fold cs t a
gap_same_digits cs t a b gap h g =
    let whole : b + (a - b) ≡ a = omega arith in
    let apart : bit_fold cs t b + bit_fold cs t (a - b) ≤ bit_fold cs t a =
      rw whole at (bit_fold_superadd cs t b (a - b)) in
    omega arith

-- The folds at neighbouring ticks are at least `gap` apart, for ticks up to `n`: `above` is the price
-- at the digits so far of the lower tick, `below` that of the next one.
unfoldable pub gaps_ge : List ℕ → ℕ → ℕ → ℕ → ℕ → Bool
gaps_ge [] n a b gap = n == 0
gaps_ge (c ∷ cs) n a b gap =
    leb (scale b c) a
    && leaves_ge cs (n / 2) (a - scale b c) gap
    && gaps_ge cs (n / 2) (scale a c) b gap

pub gaps_ge_sound :
    (cs : List ℕ) (n t a b gap : ℕ)
    → Factors cs
    → gaps_ge cs n a b gap ≡ true
    → t + 1 ≤ n
    → bit_fold cs (t + 1) b + gap ≤ bit_fold cs t a
unfolding gaps_ge bit_fold
gaps_ge_sound [] n t a b gap f h le = ground arith
gaps_ge_sound (c ∷ cs) n t a b gap (f, fs) h le = elim (Bool-cases (t % 2 == 1)) [
  | inl odd ↦
      let half : (t + 1) / 2 ≡ t / 2 + 1 = ground arith in
      let up : pick (t + 1) c b ≡ b = ground arith in
      let low : pick t c a ≡ scale a c = rw odd in
      rw (half, up, low)
        (gaps_ge_sound cs (n / 2) (t / 2) (scale a c) b gap fs (ground arith) (ground arith))
  | inr even ↦
      let half : (t + 1) / 2 ≡ t / 2 = ground arith in
      let up : pick (t + 1) c b ≡ scale b c = ground arith in
      let low : pick t c a ≡ a = rw even in
      rw (half, up, low)
        (gap_same_digits cs (t / 2) a (scale b c) gap (ground arith)
          (leaves_ge_sound cs (n / 2) (t / 2) (a - scale b c) gap fs (ground arith) (omega arith)))
]
