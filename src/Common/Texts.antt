-- ===== src/Common/Texts.antt =====
-- Texts as character codes: the comparisons, cases and patterns that the services use of strings.
use spawn_backend.Prelude.{
  ℕ, ◌+◌, Bool, true, false, leb, ◌==◌, ◌&&◌, ◌||◌, if◌then◌else◌, List, [], ◌∷◌, ◌≡◌, refl, inl,
  inr, Bool-cases, arith,
}
use spawn_backend.Common.Decimal.{Text}
use Prim.Native.Char.{code}
use Prim.Native.String.{String}

-- A literal of the source.
abbrev pub codes : String → Text
codes String.[] = []
codes (String.◌∷◌ c s) = code c ∷ codes s

-- `===` on strings.
unfoldable pub same_text : Text → Text → Bool
same_text [] [] = true
same_text [] (y ∷ ys) = false
same_text (x ∷ xs) [] = false
same_text (x ∷ xs) (y ∷ ys) = x == y && same_text xs ys

-- `toLowerCase` of ASCII.
unfoldable pub lower_char : ℕ → ℕ
lower_char c = if leb b'A' c && leb c b'Z' then c + 32 else c

unfoldable pub to_lower_case : Text → Text
to_lower_case [] = []
to_lower_case (c ∷ cs) = lower_char c ∷ to_lower_case cs

-- `[0-9a-f]`
unfoldable pub is_hex_digit : ℕ → Bool
is_hex_digit c = leb b'0' c && leb c b'9' || leb b'a' c && leb c b'f'

unfoldable pub every : (ℕ → Bool) → Text → Bool
every test [] = true
every test (c ∷ cs) = test c && every test cs

-- `startsWith`
unfoldable pub starts_with : Text → Text → Bool
starts_with [] text = true
starts_with (p ∷ ps) [] = false
starts_with (p ∷ ps) (c ∷ cs) = p == c && starts_with ps cs

-- `split('.')` on a separator.
unfoldable pub split : ℕ → Text → List Text
split separator [] = [] ∷ []
split separator (c ∷ cs) =
    let rest = split separator cs in if c == separator then [] ∷ rest else add_first c rest
  where
    add_first : ℕ → List Text → List Text
    add_first x [] = (x ∷ []) ∷ []
    add_first x (part ∷ parts) = (x ∷ part) ∷ parts

pub same_text-eq : (xs ys : Text) → same_text xs ys ≡ true → xs ≡ ys
unfolding same_text
same_text-eq [] [] h = refl
same_text-eq [] (y ∷ ys) h = cc
same_text-eq (x ∷ xs) [] h = cc
same_text-eq (x ∷ xs) (y ∷ ys) h = elim (Bool-cases (x == y)) [
  | inl same ↦ let e : x ≡ y = ground arith in let ih = same_text-eq xs ys (rw same at h) in cc
  | inr other ↦ (let h' = rw other at h in cc)
]

pub same_text_self : (xs : Text) → same_text xs xs ≡ true
unfolding same_text
same_text_self [] = refl
same_text_self (x ∷ xs) = let e : (x == x) ≡ true = ground arith in rw (e, same_text_self xs) refl
