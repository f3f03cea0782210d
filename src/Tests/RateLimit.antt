-- ===== src/Tests/RateLimit.antt =====
-- The rate limiter at a concrete window.
use spawn_backend.Prelude.{◌≡◌, min, [], ◌∷◌, none, arith}
use spawn_backend.Infrastructure.RateLimit.Window.{allowed_of, allowed_of-window}

allowed_of-window_example : allowed_of 2 60 none (100 ∷ 110 ∷ 120 ∷ []) ≡ min 2 3
allowed_of-window_example =
    allowed_of-window 2 60 100 (110 ∷ 120 ∷ []) (omega arith, (omega arith, tt))
