-- ===== src/Infrastructure/RateLimit/Window.antt =====
-- The requests of one window.
use spawn_backend.Prelude.{
  ℕ, suc, ◌+◌, ◌-◌, ◌<◌, ◌≡◌, min, lt→ltb, if◌then◌else◌, List, [], ◌∷◌, length, Option, none, some,
  arith, All,
}
use spawn_backend.Infrastructure.RateLimit.{Counter, first_of, count_request, check_counter, check}

-- How many of the requests at these times are allowed.
unfoldable pub allowed_of : ℕ → ℕ → Option Counter → List ℕ → ℕ
allowed_of limit window counter [] = 0
allowed_of limit window counter (now ∷ later) =
    let (answer, c) = check limit window now counter in
    let rest = allowed_of limit window (some c) later in if answer.allowed then rest + 1 else rest

allowed_within :
    (limit window : ℕ) (c : Counter) (times : List ℕ)
    → All (λ now. now < c.expires_at) times
    → allowed_of limit window (some c) times ≡ min (limit - c.count) (length times)
unfolding allowed_of check count_request check_counter
allowed_within limit window c [] within = omega arith
allowed_within limit window c (now ∷ later) (early, within) =
    let next : Counter = record { count = c.count + 1; expires_at = c.expires_at } in
    let ih = allowed_within limit window next later within in
    rw (lt→ltb now c.expires_at early, ih) (ground arith)

-- In a window that starts with a request of a key without a counter, as many requests are allowed as
-- come, up to the limit and no more.
pub allowed_of-window :
    (limit window now : ℕ) (times : List ℕ)
    → All (λ t. t < now + window) times
    → allowed_of limit window none (now ∷ times) ≡ min limit (suc (length times))
unfolding allowed_of check count_request check_counter
allowed_of-window limit window now times within =
    rw (allowed_within limit window (first_of window now) times within) (ground arith)
