-- ===== src/Tests/Holders.antt =====
-- Four transfers of a token, one of them of a wallet to itself.
use spawn_backend.Prelude.{◌≡◌, ◌≤◌, refl, false, min, length, List, [], ◌∷◌}
use spawn_backend.Prelude.Int.{pos, ◌-ℤ◌, ◌+ℤ◌}
use spawn_backend.Common.Dict.{find, put}
use spawn_backend.Trading.Holders.{
  Transfer, Holder, Holders, balance_of, change_balance, apply_transfer, fold_transfers,
  positive_balances, total_balance, insert_holder, sort_holders, share_of, holders_of_transfers,
}
use spawn_backend.Trading.Holders.Balances.{received, sent, fold_transfers-eq-received}
use spawn_backend.Trading.Holders.Shares.{total_share, holders_of_transfers-IsBounded}

abbrev transfers : List Transfer
transfers =
    record { from = 0; to = 7; value = 300 }
    ∷ record { from = 7; to = 8; value = 100 }
    ∷ record { from = 8; to = 8; value = 40 }
    ∷ record { from = 7; to = 0; value = 50 }
    ∷ []

fold_transfers-eq-received_example :
    balance_of (find (fold_transfers transfers []) 8)
    ≡ pos (received 8 transfers) -ℤ pos (sent 8 transfers)
fold_transfers-eq-received_example = fold_transfers-eq-received transfers 8 refl

abbrev shown_holders : List Holder
shown_holders =
    record { address = 7; balance = 150; share_bps = 6_000 }
    ∷ record { address = 8; balance = 100; share_bps = 4_000 }
    ∷ []

transfers_shown : holders_of_transfers transfers ≡ Holders.available 2 shown_holders false
unfolding holders_of_transfers fold_transfers apply_transfer change_balance balance_of find put
    positive_balances total_balance insert_holder sort_holders share_of ◌-ℤ◌ ◌+ℤ◌
transfers_shown = refl

holders_of_transfers-IsBounded_example :
    (length shown_holders ≡ min 10 2) × (total_share shown_holders ≤ 10_000)
holders_of_transfers-IsBounded_example = holders_of_transfers-IsBounded transfers transfers_shown
