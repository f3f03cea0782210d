-- ===== src/Common/Trim.antt =====
-- Texts without the space around them: `trim` of the code's runtime, and the lists that the
-- configuration writes as one text with commas.
use spawn_backend.Prelude.{
  ℕ, leb, ◌==◌, ◌&&◌, ◌||◌, Bool, true, false, if◌then◌else◌, List, [], ◌∷◌,
}
use spawn_backend.Common.Decimal.{Text}
use spawn_backend.Common.Texts.{split}

-- White space and line ends of ECMAScript.
unfoldable pub is_white_space : ℕ → Bool
is_white_space c =
    leb 9 c && leb c 13
    || c == 32
    || c == 160
    || c == 5760
    || leb 8192 c && leb c 8202
    || c == 8232
    || c == 8233
    || c == 8239
    || c == 8287
    || c == 12288
    || c == 65279

unfoldable pub trim_start : Text → Text
trim_start [] = []
trim_start (c ∷ cs) = let rest = trim_start cs in if is_white_space c then rest else c ∷ cs

unfoldable pub trim_end : Text → Text
trim_end [] = []
trim_end (c ∷ cs) = put_back (trim_end cs)
  where
    put_back : Text → Text
    put_back [] = if is_white_space c then [] else c ∷ []
    put_back (d ∷ ds) = c ∷ d ∷ ds

-- `text.trim()`
unfoldable pub trim : Text → Text
trim text = trim_end (trim_start text)

-- Whether a text is falsy.
unfoldable pub is_blank : Text → Bool
is_blank [] = true
is_blank (c ∷ cs) = false

-- `.map((s) => s.trim()).filter(Boolean)`
unfoldable pub trimmed_parts : List Text → List Text
trimmed_parts [] = []
trimmed_parts (part ∷ parts) =
    let rest = trimmed_parts parts in if is_blank (trim part) then rest else trim part ∷ rest

-- `text.split(',').map((s) => s.trim()).filter(Boolean)`
unfoldable pub comma_list : Text → List Text
comma_list text = trimmed_parts (split b',' text)
