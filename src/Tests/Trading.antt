-- ===== src/Tests/Trading.antt =====
-- The trading components at concrete inputs.
use spawn_backend.Prelude.{
  ℕ, ◌*◌, ◌/◌, ◌^◌, ◌≡◌, ◌≢◌, refl, true, false, List, [], ◌∷◌, some, arith,
}
use spawn_backend.Prelude.Int.{pos, ◌+ℤ◌, ◌-ℤ◌}
use spawn_backend.Prelude.Outcome.{ok}
use spawn_backend.Common.Decimal.{Text}
use spawn_backend.Common.Dict.{find}
use spawn_backend.Protocol.PriceText.{div_to_decimal_string}
use spawn_backend.Protocol.PriceText.Digits.{IsDecimal, div_to_decimal_string-IsDecimal}
use spawn_backend.Trading.Ledger.{Swap, totals, wallet_pnl}
use spawn_backend.Trading.Ledger.Conserved.{spent_all, wallet_pnl-totals}
use spawn_backend.Trading.Broadcaster.{Trade, Bar, Hub, Client, bucket_ms}
use spawn_backend.Trading.Broadcaster.Handlers.{Notification, on_notification}
use spawn_backend.Trading.Broadcaster.Bars.{
  on_trades, greatest, least, last_sqrt, volume, InMinute, on_trades-summary,
}
use spawn_backend.Trading.Broadcaster.Rings.{IsBounded, on_notification-IsBounded}

abbrev bought : Swap
bought = record { pool_id = 1; token = 7; is_buy = true; eth = 100; tokens = 30 }

abbrev sold : Swap
sold = record { pool_id = 1; token = 7; is_buy = false; eth = 90; tokens = 10 }

abbrev swaps : List Swap
swaps = bought ∷ sold ∷ []

abbrev burns : List (ℕ × ℕ)
burns = (7, 5) ∷ []

abbrev prices : List (ℕ × ℕ)
prices = (1, 2 ^ 95) ∷ []

wallet_pnl-totals_example :
    (totals (wallet_pnl swaps burns prices)).realized_pnl_eth
      +ℤ (totals (wallet_pnl swaps burns prices)).unrealized_pnl_eth
    ≡ (totals (wallet_pnl swaps burns prices)).value_eth -ℤ spent_all swaps
wallet_pnl-totals_example = wallet_pnl-totals swaps burns prices

abbrev first_trade : Trade
first_trade = record { pool = 5; sqrt = 900; is_buy = true; eth = 40; ts = 61; rest = [] }

abbrev second_trade : Trade
second_trade = record { pool = 5; sqrt = 700; is_buy = false; eth = 15; ts = 80; rest = [] }

abbrev near : Client
near = record { id = 1; subs = 5 ∷ []; is_alive = true; is_open = true; buffered_amount = 0 }

abbrev stalled : Client
stalled = record {
  id = 2;
  subs = 5 ∷ [];
  is_alive = true;
  is_open = true;
  buffered_amount = 9_000_000;
}

abbrev hub : Hub
hub = record {
  bars = [];
  recent_ticks = [];
  clients = near ∷ stalled ∷ [];
  next_serial = 0;
  sent = [];
}

no_bar : (b : Bar) → find hub.bars 5 ≡ some b → b.start ≢ bucket_ms 61
unfolding find
no_bar b e = cc

one_minute : InMinute 5 (bucket_ms 61) ((70_000, second_trade) ∷ [])
unfolding InMinute bucket_ms
one_minute = ((refl, refl), tt)

on_trades-summary_example :
    (b : Bar) × (find (on_trades ((62_000, first_trade) ∷ (70_000, second_trade) ∷ []) hub).bars 5
      ≡ some b)
    × (b.start ≡ bucket_ms 61)
    × (b.open_sqrt ≡ 900)
    × (b.close_sqrt ≡ last_sqrt 900 ((70_000, second_trade) ∷ []))
    × (b.high_sqrt ≡ greatest 900 ((70_000, second_trade) ∷ []))
    × (b.low_sqrt ≡ least 900 ((70_000, second_trade) ∷ []))
    × (b.buy_eth ≡ volume true ((62_000, first_trade) ∷ (70_000, second_trade) ∷ []))
    × (b.sell_eth ≡ volume false ((62_000, first_trade) ∷ (70_000, second_trade) ∷ []))
    × (b.trades ≡ 2)
on_trades-summary_example =
    on_trades-summary 62_000 first_trade ((70_000, second_trade) ∷ []) hub no_bar one_minute

no_rings : IsBounded hub.recent_ticks
unfolding IsBounded
no_rings = tt

on_notification-IsBounded_example :
    IsBounded (on_notification 62_000 (Notification.spawn_trades first_trade) hub).recent_ticks
on_notification-IsBounded_example =
    on_notification-IsBounded 62_000 (Notification.spawn_trades first_trade) hub no_rings

div_to_decimal_string-IsDecimal_example :
    (text : Text) × (div_to_decimal_string 22 7 (pos 3) ≡ ok text)
    × IsDecimal text (22 * 10 ^ 3 / 7) 3
div_to_decimal_string-IsDecimal_example =
    div_to_decimal_string-IsDecimal 22 7 3 (omega arith) (omega arith)
