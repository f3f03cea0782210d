-- ===== src/Infrastructure/Reads/Keys.antt =====
-- The key of a pool in the caches of src/infrastructure/blockchain/protocol-read.service.ts stands for one
-- chain and one pool.
use spawn_backend.Prelude.{ℕ, ◌≡◌, refl, ap, ◌∙◌, sym, [], ◌∷◌, ◌++◌, arith}
use spawn_backend.Common.Decimal.{Text, to_text, value_from}
use spawn_backend.Common.Decimal.Digits.{AreDigits, to_text-AreDigits}
use spawn_backend.Common.Decimal.Laws.{value-to_text}
use spawn_backend.Infrastructure.Reads.{pool_key}

-- The text in front of the first separator, and the one behind it.
append_injective :
    (xs ys p q : Text)
    → AreDigits xs
    → AreDigits ys
    → (xs ++ b':' ∷ p) ≡ (ys ++ b':' ∷ q)
    → (xs ≡ ys) × (p ≡ q)
append_injective [] [] p q hx hy h = (refl, cc)
append_injective [] (y ∷ ys) p q hx ((low, high), rest) h =
    let e : b':' ≡ y = cc in absurd (omega arith)
append_injective (x ∷ xs) [] p q ((low, high), rest) hy h =
    let e : x ≡ b':' = cc in absurd (omega arith)
append_injective (x ∷ xs) (y ∷ ys) p q (hx, rx) (hy, ry) h =
    let e : x ≡ y = cc in let (same, behind) = append_injective xs ys p q rx ry cc in (cc, behind)

-- Keys that are the same are those of the same chain and pool.
pub pool_key-injective :
    (chain_id other : ℕ) (pool_id other_pool : Text)
    → pool_key chain_id pool_id ≡ pool_key other other_pool
    → (chain_id ≡ other) × (pool_id ≡ other_pool)
unfolding pool_key
pool_key-injective chain_id other pool_id other_pool h =
    let (same, pool) =
      append_injective (to_text chain_id) (to_text other) pool_id other_pool
        (to_text-AreDigits chain_id) (to_text-AreDigits other) h in
    (sym (value-to_text chain_id) ∙ (ap (value_from 0) same ∙ value-to_text other), pool)
