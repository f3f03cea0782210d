-- ===== src/Infrastructure/RateLimit.antt =====
-- The rate limiter: `check` of src/infrastructure/rate-limit/redis-rate-limiter.ts for one key, with
-- its script run as one step, and Redis up. Times are whole seconds, as Redis counts its TTL.
pub mod Window
use spawn_backend.Prelude.{ℕ, ◌+◌, ◌-◌, max, Bool, ltb, leb, if◌then◌else◌, Option, none, some}

-- The counter of a key, and when it expires.
pub record Counter : Type 0 where
  pub count : ℕ
  pub expires_at : ℕ

pub record RateLimitCheck : Type 0 where
  pub allowed : Bool
  pub limit : ℕ
  pub remaining : ℕ
  pub reset_seconds : ℕ

abbrev pub first_of : ℕ → ℕ → Counter
first_of window now = record { count = 1; expires_at = now + window }

-- `INCR`, with `EXPIRE` on the first count; an expired key is no key.
unfoldable pub count_request : ℕ → ℕ → Option Counter → Counter
count_request window now none = first_of window now
count_request window now (some c) =
    if ltb now c.expires_at
    then record { count = c.count + 1; expires_at = c.expires_at }
    else first_of window now

-- `check`, from the counter after the script.
unfoldable pub check_counter : ℕ → ℕ → Counter → RateLimitCheck
check_counter limit now c = record {
  allowed = leb c.count limit;
  limit = limit;
  remaining = limit - c.count;
  reset_seconds = max 1 (c.expires_at - now);
}

unfoldable pub check : ℕ → ℕ → ℕ → Option Counter → RateLimitCheck × Counter
check limit window now counter =
    let c = count_request window now counter in (check_counter limit now c, c)
