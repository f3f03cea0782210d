-- ===== src/Trading/Broadcaster.antt =====
-- The stream of src/modules/trading/broadcaster.ts: the `Broadcaster` that turns notifications of
-- the database into messages to the sockets, and keeps a one-minute bar for each active pool. Pools
-- and sockets are numbers: a pool's identifier is not the empty string. The database client and the
-- server are not modelled; what they call is.
pub mod Bars
pub mod Delivery
pub mod Handlers
pub mod Rings
use spawn_backend.Prelude.{
  ℕ, suc, ◌+◌, ◌-◌, ◌*◌, ◌/◌, ◌%◌, max, Bool, true, false, not, ltb, leb, ◌==◌, if◌then◌else◌, List,
  [], ◌∷◌, ◌++◌, length, map, Option, none, some,
}
use spawn_backend.Common.Decimal.{Text, to_text}
use spawn_backend.Common.Dict.{Dict, find, put, remove}
use spawn_backend.Protocol.PriceText.{sqrt_to_eth_string}

abbrev pub minute_ms : ℕ
minute_ms = 60_000

abbrev pub bar_throttle_ms : ℕ
bar_throttle_ms = 250

-- The payload of a trade; `rest` is what the tick passes on (tokens, block, tx).
pub record Trade : Type 0 where
  pub pool : ℕ
  pub sqrt : ℕ
  pub is_buy : Bool
  pub eth : ℕ
  pub ts : ℕ
  pub rest : Text

-- `serial` tells one bar object from another; `timer` is the delay of the armed timer.
pub record Bar : Type 0 where
  pub serial : ℕ
  pub start : ℕ
  pub open_sqrt : ℕ
  pub close_sqrt : ℕ
  pub high_sqrt : ℕ
  pub low_sqrt : ℕ
  pub buy_eth : ℕ
  pub sell_eth : ℕ
  pub trades : ℕ
  pub last_push_at : ℕ
  pub timer : Option ℕ

pub record BarView : Type 0 where
  pub final : Bool
  pub pool : ℕ
  pub start : ℕ
  pub open_price : Option Text
  pub high_price : Option Text
  pub low_price : Option Text
  pub close_price : Option Text
  pub vol_eth : Text
  pub buy_vol_eth : Text
  pub sell_vol_eth : Text
  pub trades : ℕ

pub data Message : Type 0 where
  tick : Trade → Option Text → Message
  bar : BarView → Message
  pool_event : Text → Message
  comment : ℕ → Text → Message
  harvest : ℕ → ℕ → Text → Text → Message

pub record Client : Type 0 where
  pub id : ℕ
  pub subs : List ℕ
  pub is_alive : Bool
  pub is_open : Bool
  pub buffered_amount : ℕ

-- The broadcaster, with the messages sent so far, each with its socket.
pub record Hub : Type 0 where
  pub bars : Dict Bar
  pub recent_ticks : Dict (List Message)
  pub clients : List Client
  pub next_serial : ℕ
  pub sent : List (ℕ × Message)

abbrev pub set_bars : Dict Bar → Hub → Hub
set_bars bars h = record {
  bars = bars;
  recent_ticks = h.recent_ticks;
  clients = h.clients;
  next_serial = h.next_serial;
  sent = h.sent;
}

abbrev pub set_clients : List Client → Hub → Hub
set_clients clients h = record {
  bars = h.bars;
  recent_ticks = h.recent_ticks;
  clients = clients;
  next_serial = h.next_serial;
  sent = h.sent;
}

-- `socket.send`
abbrev pub send : List (ℕ × Message) → Hub → Hub
send messages h = record {
  bars = h.bars;
  recent_ticks = h.recent_ticks;
  clients = h.clients;
  next_serial = h.next_serial;
  sent = h.sent ++ messages;
}

-- `barMessage`: the highest ETH price is the lowest square root.
unfoldable pub bar_message : ℕ → Bar → Bool → Message
bar_message pool b final = bar (record {
  final = final;
  pool = pool;
  start = b.start / 1000;
  open_price = sqrt_to_eth_string b.open_sqrt;
  high_price = sqrt_to_eth_string b.low_sqrt;
  low_price = sqrt_to_eth_string b.high_sqrt;
  close_price = sqrt_to_eth_string b.close_sqrt;
  vol_eth = to_text (b.buy_eth + b.sell_eth);
  buy_vol_eth = to_text b.buy_eth;
  sell_vol_eth = to_text b.sell_eth;
  trades = b.trades;
})

-- `subs.has(pool)`
unfoldable pub has : List ℕ → ℕ → Bool
has [] pool = false
has (p ∷ ps) pool = let later = has ps pool in if p == pool then true else later

unfoldable pub is_addressed : Option ℕ → Client → Bool
is_addressed none c = true
is_addressed (some pool) c = has c.subs pool

-- The loop of `broadcast`: what it sends, and the clients that it leaves.
unfoldable pub fan_out : Message → Option ℕ → List Client → List (ℕ × Message) × List Client
fan_out message only [] = ([], [])
fan_out message only (c ∷ cs) =
    let (sent, kept) = fan_out message only cs in
    if not (is_addressed only c)
    then (sent, c ∷ kept)
    else if not c.is_open
    then (sent, c ∷ kept)
    else if ltb 8_000_000 c.buffered_amount
    then (sent, kept)
    else if ltb 1_000_000 c.buffered_amount
    then (sent, c ∷ kept)
    else ((c.id, message) ∷ sent, c ∷ kept)

unfoldable pub broadcast : Message → Option ℕ → Hub → Hub
broadcast message only h =
    let (sent, kept) = fan_out message only h.clients in send sent (set_clients kept h)

-- `ring.push(tick); if (ring.length > 30) ring.shift();`
unfoldable pub ring_push : Option (List Message) → Message → List Message
ring_push none t = t ∷ []
ring_push (some []) t = t ∷ []
ring_push (some (first ∷ ring)) t =
    if ltb 30 (length ((first ∷ ring) ++ t ∷ [])) then ring ++ t ∷ [] else (first ∷ ring) ++ t ∷ []

unfoldable pub tick_message : Trade → Message
tick_message t = tick t (if ltb 0 t.sqrt then sqrt_to_eth_string t.sqrt else none)

unfoldable pub push_tick : Trade → Hub → Hub
push_tick t h = record {
  bars = h.bars;
  recent_ticks =
      put h.recent_ticks t.pool (ring_push (find h.recent_ticks t.pool) (tick_message t));
  clients = h.clients;
  next_serial = h.next_serial;
  sent = h.sent;
}

unfoldable pub bucket_ms : ℕ → ℕ
bucket_ms ts = ts * 1000 - ts * 1000 % minute_ms

unfoldable pub new_bar : ℕ → Trade → Bar
new_bar serial t = record {
  serial = serial;
  start = bucket_ms t.ts;
  open_sqrt = t.sqrt;
  close_sqrt = t.sqrt;
  high_sqrt = t.sqrt;
  low_sqrt = t.sqrt;
  buy_eth = 0;
  sell_eth = 0;
  trades = 0;
  last_push_at = 0;
  timer = none;
}

-- The trade added to its bar.
unfoldable pub add_trade : Trade → Bar → Bar
add_trade t b = record {
  serial = b.serial;
  start = b.start;
  open_sqrt = b.open_sqrt;
  close_sqrt = t.sqrt;
  high_sqrt = if ltb b.high_sqrt t.sqrt then t.sqrt else b.high_sqrt;
  low_sqrt = if ltb t.sqrt b.low_sqrt then t.sqrt else b.low_sqrt;
  buy_eth = if t.is_buy then b.buy_eth + t.eth else b.buy_eth;
  sell_eth = if t.is_buy then b.sell_eth else b.sell_eth + t.eth;
  trades = b.trades + 1;
  last_push_at = b.last_push_at;
  timer = b.timer;
}
