-- ===== src/Infrastructure/Cache.antt =====
-- The generations of the cache: `getGeneration`, `applyGeneration` and the script of
-- src/infrastructure/cache/redis-domain-cache.ts, with Redis up. Redis holds a generation as text.
pub mod Decimal
pub mod Generations
use spawn_backend.Prelude.{
  ℕ, ◌+◌, Bool, true, false, ltb, ◌==◌, ◌&&◌, ◌||◌, if◌then◌else◌, List, [], ◌∷◌, length, Option,
  none, some,
}
use spawn_backend.Common.Decimal.{Text, to_text, value_from}
use spawn_backend.Common.Dict.{Dict, find, put}

-- `incoming > current` on texts: the first difference decides, and a prefix is less.
unfoldable pub text_gt : Text → Text → Bool
text_gt [] ys = false
text_gt (x ∷ xs) [] = true
text_gt (x ∷ xs) (y ∷ ys) =
    let rest = text_gt xs ys in if ltb y x then true else if ltb x y then false else rest

-- The condition of the script, where the key has a value.
unfoldable pub is_newer : Text → Text → Bool
is_newer incoming current =
    ltb (length current) (length incoming)
    || length incoming == length current && text_gt incoming current

-- The script: the value of the key afterwards.
unfoldable pub apply_script : Text → Option Text → Text
apply_script incoming none = incoming
apply_script incoming (some current) = if is_newer incoming current then incoming else current

-- The generations in Redis, by domain.
abbrev pub Generations : Type 0
Generations = Dict Text

-- `applyGenerationStrict`
unfoldable pub apply_generation : ℕ → ℕ → Generations → Generations
apply_generation domain generation g =
    put g domain (apply_script (to_text generation) (find g domain))

unfoldable pub generation_of : Option Text → ℕ
generation_of none = 0
generation_of (some text) = value_from 0 text

-- `getGeneration`
unfoldable pub get_generation : ℕ → Generations → ℕ
get_generation domain g = generation_of (find g domain)
