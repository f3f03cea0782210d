-- ===== src/Trading/Holders.antt =====
-- The holders of a token: `holders` of src/modules/trading/trading.service.ts, where the cache has no
-- answer. The rows of the indexer and the transfers of the chain are arguments.
pub mod Balances
pub mod Shares
use spawn_backend.Prelude.{
  ℕ, ◌+◌, ◌*◌, ◌/◌, ltb, ◌==◌, Bool, true, false, if◌then◌else◌, List, [], ◌∷◌, map, take, length,
  Option, none, some,
}
use spawn_backend.Prelude.Int.{ℤ, pos, ◌+ℤ◌, ◌-ℤ◌}
use spawn_backend.Common.Dict.{Dict, find, put}

pub record Transfer : Type 0 where
  pub from : ℕ
  pub to : ℕ
  pub value : ℕ

pub record Holder : Type 0 where
  pub address : ℕ
  pub balance : ℕ
  pub share_bps : ℕ

-- The answer: holders from the indexer or from the chain, or a refusal of too many transfers.
pub data Holders : Type 0 where
  available : ℕ → List Holder → Bool → Holders
  too_many_transfers : Holders

unfoldable pub balance_of : Option ℤ → ℤ
balance_of none = pos 0
balance_of (some balance) = balance

-- `balances.set(address, (balances.get(address) ?? 0n) + change)`, but not for the zero address.
unfoldable pub change_balance : (ℤ → ℤ) → ℕ → Dict ℤ → Dict ℤ
change_balance change address balances =
    if address == 0
    then balances
    else put balances address (change (balance_of (find balances address)))

unfoldable pub apply_transfer : Transfer → Dict ℤ → Dict ℤ
apply_transfer t balances =
    change_balance (λ b. b +ℤ pos t.value) t.to
      (change_balance (λ b. b -ℤ pos t.value) t.from balances)

unfoldable pub fold_transfers : List Transfer → Dict ℤ → Dict ℤ
fold_transfers [] balances = balances
fold_transfers (t ∷ ts) balances = fold_transfers ts (apply_transfer t balances)

-- The entries with a balance above zero.
unfoldable pub positive_balances : Dict ℤ → List (ℕ × ℕ)
positive_balances [] = []
positive_balances ((address, pos n) ∷ rest) =
    let later = positive_balances rest in if n == 0 then later else (address, n) ∷ later
positive_balances ((address, ℤ.negsuc n) ∷ rest) = positive_balances rest

unfoldable pub total_balance : List (ℕ × ℕ) → ℕ
total_balance [] = 0
total_balance ((address, balance) ∷ rest) = balance + total_balance rest

-- The sort by balance, the greatest first; equal balances keep their order.
unfoldable pub insert_holder : ℕ × ℕ → List (ℕ × ℕ) → List (ℕ × ℕ)
insert_holder entry [] = entry ∷ []
insert_holder entry (first ∷ rest) =
    let later = insert_holder entry rest in
    if ltb entry.1 first.1 then first ∷ later else entry ∷ first ∷ rest

unfoldable pub sort_holders : List (ℕ × ℕ) → List (ℕ × ℕ)
sort_holders [] = []
sort_holders (entry ∷ rest) = insert_holder entry (sort_holders rest)

unfoldable pub share_of : ℕ → ℕ × ℕ → Holder
share_of total (address, balance) = record {
  address = address;
  balance = balance;
  share_bps = if ltb 0 total then balance * 10_000 / total else 0;
}

-- The answer from the transfers of the chain.
unfoldable pub holders_of_transfers : List Transfer → Holders
holders_of_transfers logs =
    let holders = positive_balances (fold_transfers logs []) in
    if ltb 20_000 (length logs)
    then Holders.too_many_transfers
    else Holders.available (length holders)
        (map (share_of (total_balance holders)) (take 10 (sort_holders holders))) false

-- The answer from the ten greatest rows of the indexer and the count of its rows.
unfoldable pub holders_of_index : ℕ → List (ℕ × ℕ) → Holders
holders_of_index count indexed =
    let total = total_balance indexed in
    Holders.available count (map (share_of (if ltb 0 total then total else 1)) indexed) true

unfoldable pub holders : ℕ → List (ℕ × ℕ) → List Transfer → Holders
holders count [] logs = holders_of_transfers logs
holders count (row ∷ rows) logs = holders_of_index count (row ∷ rows)
