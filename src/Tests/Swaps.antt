-- ===== src/Tests/Swaps.antt =====
-- The swap mathematics at concrete inputs.
use spawn_backend.Prelude.{ℕ, ◌-◌, ◌^◌, ◌≤◌, ◌<◌, ◌≡◌, refl, false, arith}
use spawn_backend.Prelude.Outcome.{ok}
use spawn_backend.Protocol.Arithmetic.{div_rounding_up}
use spawn_backend.Protocol.SwapMath.{amount1_delta, next_sqrt_from_amount1_out}
use spawn_backend.Protocol.SwapMath.Deltas.{next_sqrt_pays_out}

next_runs : next_sqrt_from_amount1_out (2 ^ 97) 1_000 250 ≡ ok (2 ^ 97 - 2 ^ 94)
unfolding next_sqrt_from_amount1_out div_rounding_up
next_runs = refl

next_sqrt_pays_out_example :
    (paid : ℕ) × (0 < 2 ^ 97 - 2 ^ 94)
    × (2 ^ 97 - 2 ^ 94 ≤ 2 ^ 97)
    × (amount1_delta (2 ^ 97 - 2 ^ 94) (2 ^ 97) 1_000 false ≡ ok paid)
    × (250 ≤ paid)
next_sqrt_pays_out_example = next_sqrt_pays_out (2 ^ 97) 1_000 250 (omega arith) next_runs
