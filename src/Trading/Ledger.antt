-- ===== src/Trading/Ledger.antt =====
-- A wallet's profit and loss: `walletPnl` of src/modules/trading/trading.service.ts, from the rows
-- that its three queries return. A pool and a token are numbers, since the code only compares them;
-- the symbol and the name, which it passes on, are left out.
pub mod Conserved
use spawn_backend.Prelude.{
  ℕ, ◌+◌, ◌*◌, ◌^◌, Bool, true, false, ltb, ◌==◌, ◌&&◌, if◌then◌else◌, List, [], ◌∷◌, map, Option,
  none, some,
}
use spawn_backend.Prelude.Int.{ℤ, pos, pos_part, ◌+ℤ◌, ◌-ℤ◌, ◌*ℤ◌, div_trunc, ltb_ℤ}

-- A row of the first query; its numbers are read from unsigned columns.
pub record Swap : Type 0 where
  pub pool_id : ℕ
  pub token : ℕ
  pub is_buy : Bool
  pub eth : ℕ
  pub tokens : ℕ

pub record Position : Type 0 where
  pub pool_id : ℕ
  pub token : ℕ
  pub tokens_held : ℤ
  pub cost_eth : ℤ
  pub realized_eth : ℤ
  pub trades : ℕ

abbrev pub new_position : Swap → Position
new_position row = record {
  pool_id = row.pool_id;
  token = row.token;
  tokens_held = pos 0;
  cost_eth = pos 0;
  realized_eth = pos 0;
  trades = 0;
}

-- `(cost * tokens) / held` for `held > 0`.
unfoldable pub cost_share : ℤ → ℤ → ℤ → ℤ
cost_share cost amount held = div_trunc (cost *ℤ amount) (pos_part held)

abbrev pub buy : Swap → Position → Position
buy row p = record {
  pool_id = p.pool_id;
  token = p.token;
  tokens_held = p.tokens_held +ℤ pos row.tokens;
  cost_eth = p.cost_eth +ℤ pos row.eth;
  realized_eth = p.realized_eth;
  trades = p.trades + 1;
}

abbrev pub sell_held : Swap → Position → Position
sell_held row p =
    let cost_sold = cost_share p.cost_eth (pos row.tokens) p.tokens_held in
    record {
      pool_id = p.pool_id;
      token = p.token;
      tokens_held = p.tokens_held -ℤ pos row.tokens;
      cost_eth = p.cost_eth -ℤ cost_sold;
      realized_eth = p.realized_eth +ℤ (pos row.eth -ℤ cost_sold);
      trades = p.trades + 1;
    }

abbrev pub sell_untracked : Swap → Position → Position
sell_untracked row p = record {
  pool_id = p.pool_id;
  token = p.token;
  tokens_held = p.tokens_held;
  cost_eth = p.cost_eth;
  realized_eth = p.realized_eth +ℤ pos row.eth;
  trades = p.trades + 1;
}

-- The body of the loop, for the position of the row's pool.
unfoldable pub apply_swap : Swap → Position → Position
apply_swap row p =
    if row.is_buy
    then buy row p
    else if ltb_ℤ (pos 0) p.tokens_held
    then sell_held row p
    else sell_untracked row p

-- `byPool`, in the order of insertion.
unfoldable pub record_swap : Swap → List Position → List Position
record_swap row [] = apply_swap row (new_position row) ∷ []
record_swap row (p ∷ ps) =
    let rest = record_swap row ps in
    if p.pool_id == row.pool_id then apply_swap row p ∷ ps else p ∷ rest

unfoldable pub fold_swaps : List Swap → List Position → List Position
fold_swaps [] ps = ps
fold_swaps (row ∷ rows) ps = fold_swaps rows (record_swap row ps)

-- `new Map(rows).get(key)`: a later row replaces an earlier one.
unfoldable pub map_get : List (ℕ × ℕ) → ℕ → Option ℕ
map_get [] key = none
map_get ((k, v) ∷ rows) key = later (map_get rows key) (if k == key then some v else none)
  where
    later : Option ℕ → Option ℕ → Option ℕ
    later none first = first
    later (some v) first = some v

-- The debit of a burn.
unfoldable pub burn : ℕ → Position → Position
burn burned p =
    let debited = if ltb_ℤ p.tokens_held (pos burned) then p.tokens_held else pos burned in
    let cost_burned =
      if ltb_ℤ (pos 0) p.tokens_held then cost_share p.cost_eth debited p.tokens_held else pos 0 in
    record {
      pool_id = p.pool_id;
      token = p.token;
      tokens_held = p.tokens_held -ℤ debited;
      cost_eth = p.cost_eth -ℤ cost_burned;
      realized_eth = p.realized_eth -ℤ cost_burned;
      trades = p.trades;
    }

unfoldable pub burn_if_any : Option ℕ → Position → Position
burn_if_any none p = p
burn_if_any (some burned) p = burn burned p

unfoldable pub debit_burns : List (ℕ × ℕ) → List Position → List Position
debit_burns burns [] = []
debit_burns burns (p ∷ ps) = burn_if_any (map_get burns p.token) p ∷ debit_burns burns ps

-- A position of the answer.
pub record Valued : Type 0 where
  pub position : Position
  pub value_eth : ℤ
  pub unrealized_pnl_eth : ℤ

unfoldable pub value_at : Option ℕ → ℤ → ℤ
value_at none held = pos 0
value_at (some sqrt) held =
    if ltb 0 sqrt && ltb_ℤ (pos 0) held
    then div_trunc (held *ℤ pos (2 ^ 192)) (sqrt * sqrt)
    else pos 0

unfoldable pub valued : List (ℕ × ℕ) → Position → Valued
valued prices p =
    let value = value_at (map_get prices p.pool_id) p.tokens_held in
    record { position = p; value_eth = value; unrealized_pnl_eth = value -ℤ p.cost_eth }

-- `sum(pick)`
unfoldable pub sum : (Valued → ℤ) → List Valued → ℤ
sum pick [] = pos 0
sum pick (p ∷ ps) = pick p +ℤ sum pick ps

pub record Totals : Type 0 where
  pub realized_pnl_eth : ℤ
  pub unrealized_pnl_eth : ℤ
  pub cost_eth : ℤ
  pub value_eth : ℤ

unfoldable pub totals : List Valued → Totals
totals ps = record {
  realized_pnl_eth = sum (λ p. p.position.realized_eth) ps;
  unrealized_pnl_eth = sum (λ p. p.unrealized_pnl_eth) ps;
  cost_eth = sum (λ p. p.position.cost_eth) ps;
  value_eth = sum (λ p. p.value_eth) ps;
}

-- `walletPnl`, from the rows of the swaps, of the burns by token and of the last prices by pool.
unfoldable pub wallet_pnl : List Swap → List (ℕ × ℕ) → List (ℕ × ℕ) → List Valued
wallet_pnl rows burns prices = map (valued prices) (debit_burns burns (fold_swaps rows []))
