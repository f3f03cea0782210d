-- ===== src/Trading/Ledger/Conserved.antt =====
-- What the ledger of a wallet conserves.
use spawn_backend.Prelude.{
  ℕ, ◌≡◌, refl, ◌==◌, List, [], ◌∷◌, map, Option, none, some, inl, inr, Bool-cases, if◌then◌else◌,
}
use spawn_backend.Prelude.Int.{ℤ, pos, neg, ◌+ℤ◌, ◌-ℤ◌, ltb_ℤ, int_laws, parts_of_eq}
use spawn_backend.Trading.Ledger.{
  Swap, Position, new_position, apply_swap, record_swap, fold_swaps, map_get, burn, burn_if_any,
  debit_burns, valued, sum, totals, wallet_pnl,
}

-- The ETH that a swap takes from the wallet: what a buy pays, less what a sell returns.
unfoldable pub spent : Swap → ℤ
spent row = if row.is_buy then pos row.eth else neg (pos row.eth)

unfoldable pub spent_all : List Swap → ℤ
spent_all [] = pos 0
spent_all (row ∷ rows) = spent row +ℤ spent_all rows

open_cost : Position → ℤ
open_cost p = p.cost_eth -ℤ p.realized_eth

open_costs : List Position → ℤ
open_costs [] = pos 0
open_costs (p ∷ ps) = open_cost p +ℤ open_costs ps

open_cost-apply_swap :
    (row : Swap) (p : Position) → open_cost (apply_swap row p) ≡ open_cost p +ℤ spent row
unfolding open_cost apply_swap spent
open_cost-apply_swap row p = elim (Bool-cases row.is_buy) [
  | inl b ↦ rw b (omega int_laws)
  | inr s ↦ elim (Bool-cases (ltb_ℤ (pos 0) p.tokens_held)) [
    | inl held ↦ rw (s, held) (omega int_laws)
    | inr none_held ↦ rw (s, none_held) (omega int_laws)
  ]
]

open_costs-record_swap :
    (row : Swap) (ps : List Position) → open_costs (record_swap row ps) ≡ open_costs ps +ℤ spent row
unfolding open_costs open_cost record_swap
open_costs-record_swap row [] =
    let e : open_cost (new_position row) ≡ pos 0 = omega int_laws in
    rw (open_cost-apply_swap row (new_position row), e) (omega int_laws)
open_costs-record_swap row (p ∷ ps) =
    let ih = open_costs-record_swap row ps in
    let e = open_cost-apply_swap row p in
    elim (Bool-cases (p.pool_id == row.pool_id)) [
      | inl same ↦ rw (same, e) (omega int_laws)
      | inr other ↦ rw (other, ih) (omega int_laws)
    ]

open_costs-fold_swaps :
    (rows : List Swap) (ps : List Position)
    → open_costs (fold_swaps rows ps) ≡ open_costs ps +ℤ spent_all rows
unfolding fold_swaps spent_all
open_costs-fold_swaps [] ps = omega int_laws
open_costs-fold_swaps (row ∷ rows) ps =
    rw (open_costs-fold_swaps rows (record_swap row ps), open_costs-record_swap row ps)
      (omega int_laws)

open_cost-burn_if_any :
    (burned : Option ℕ) (p : Position) → open_cost (burn_if_any burned p) ≡ open_cost p
unfolding open_cost burn_if_any burn
open_cost-burn_if_any none p = refl
open_cost-burn_if_any (some burned) p = omega int_laws

open_costs-debit_burns :
    (burns : List (ℕ × ℕ)) (ps : List Position) → open_costs (debit_burns burns ps) ≡ open_costs ps
unfolding open_costs debit_burns
open_costs-debit_burns burns [] = refl
open_costs-debit_burns burns (p ∷ ps) =
    rw (open_cost-burn_if_any (map_get burns p.token) p, open_costs-debit_burns burns ps) refl

totals-valued :
    (prices : List (ℕ × ℕ)) (ps : List Position)
    → (totals (map (valued prices) ps)).realized_pnl_eth
        +ℤ (totals (map (valued prices) ps)).unrealized_pnl_eth
      ≡ (totals (map (valued prices) ps)).value_eth -ℤ open_costs ps
unfolding totals sum valued open_costs open_cost
totals-valued prices [] = omega int_laws
totals-valued prices (p ∷ ps) =
    let t = totals (map (valued prices) ps) in
    let ih =
      parts_of_eq (t.realized_pnl_eth +ℤ t.unrealized_pnl_eth) (t.value_eth -ℤ open_costs ps)
        (totals-valued prices ps) in
    omega (int_laws, ih)

-- Whatever the swaps, the burns and the prices: the realized and the unrealized profit of all
-- positions add up to the value of what is held, less the ETH that the wallet spent on its buys, plus
-- the ETH that its sells returned.
pub wallet_pnl-totals :
    (rows : List Swap) (burns prices : List (ℕ × ℕ))
    → (totals (wallet_pnl rows burns prices)).realized_pnl_eth
        +ℤ (totals (wallet_pnl rows burns prices)).unrealized_pnl_eth
      ≡ (totals (wallet_pnl rows burns prices)).value_eth -ℤ spent_all rows
unfolding wallet_pnl open_costs
wallet_pnl-totals rows burns prices =
    let ps = fold_swaps rows [] in
    rw
      (
        totals-valued prices (debit_burns burns ps),
        open_costs-debit_burns burns ps,
        open_costs-fold_swaps rows [],
      )
      (omega int_laws)
