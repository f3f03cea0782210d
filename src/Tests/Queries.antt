-- ===== src/Tests/Queries.antt =====
-- Holders, depth and milestones at concrete inputs.
use spawn_backend.Prelude.{◌≡◌, refl, false, List, [], ◌∷◌}
use spawn_backend.Prelude.Int.{◌+ℤ◌, ◌-ℤ◌}
use spawn_backend.Common.Dict.{find, put}
use spawn_backend.Trading.Holders.{
  Transfer, Holders, balance_of, change_balance, apply_transfer, fold_transfers, positive_balances,
  total_balance, insert_holder, sort_holders, share_of, holders_of_transfers,
}

abbrev moves : List Transfer
moves =
    record { from = 0; to = 5; value = 1_000 }
    ∷ record { from = 5; to = 6; value = 750 }
    ∷ record { from = 5; to = 7; value = 250 }
    ∷ []

-- A holder who has sent everything is none.
moved :
    holders_of_transfers moves
    ≡ Holders.available 2
        (record { address = 6; balance = 750; share_bps = 7_500 }
          ∷ record { address = 7; balance = 250; share_bps = 2_500 }
          ∷ [])
        false
unfolding holders_of_transfers fold_transfers apply_transfer change_balance balance_of
    positive_balances total_balance insert_holder sort_holders share_of find put ◌+ℤ◌ ◌-ℤ◌
moved = refl
