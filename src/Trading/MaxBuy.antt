-- ===== src/Trading/MaxBuy.antt =====
-- The largest buy that the curve fills: the search of `maxBuy` in
-- src/modules/trading/trading.service.ts. Whether the quoter gives a quote for an amount is a
-- parameter; it does not change during the search.
pub mod Search
use spawn_backend.Prelude.{
  ℕ, zero, suc, ◌+◌, ◌-◌, ◌*◌, ◌/◌, ◌^◌, Bool, true, false, ltb, if◌then◌else◌, Option, none, some,
}

module _ (quotable : ℕ → Bool) where
  -- The rounds that raise `hi` while it can be filled.
  unfoldable pub raise : ℕ → ℕ → ℕ
  raise zero hi = hi
  raise (suc n) hi = let rest = raise n (hi * 4) in if quotable hi then rest else hi

  -- The rounds that halve the range from `lo` to `hi`.
  unfoldable pub halve : ℕ → ℕ → ℕ → ℕ
  halve zero lo hi = lo
  halve (suc n) lo hi =
      let rest = halve n in
      let mid = (lo + hi) / 2 in
      if ltb (10 ^ 14) (hi - lo) then (if quotable mid then rest mid hi else rest lo mid) else lo

  unfoldable pub highest_tried : ℕ
  highest_tried = if quotable (10 ^ 18) then raise 6 (10 ^ 18) else 10 ^ 18

  -- `maxEthWei`: null for a graduated market.
  unfoldable pub max_buy : Bool → Option ℕ
  max_buy is_bonding = if is_bonding then some (halve 12 0 highest_tried) else none
