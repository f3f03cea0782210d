-- ===== src/Trading/Broadcaster/Handlers.antt =====
-- The handlers of the `Broadcaster`: trades, the timer of a bar, notifications, and the events of a
-- socket.
use spawn_backend.Prelude.{
  ℕ, ◌+◌, ◌-◌, max, Bool, true, false, not, leb, ◌==◌, if◌then◌else◌, List, [], ◌∷◌, ◌++◌, map,
  Option, none, some,
}
use spawn_backend.Common.Decimal.{Text}
use spawn_backend.Common.Dict.{find, put, remove}
use spawn_backend.Trading.Broadcaster.{
  Trade, Bar, Message, Client, Hub, set_bars, set_clients, send, bar_message, has, broadcast,
  push_tick, tick_message, bucket_ms, new_bar, add_trade, minute_ms, bar_throttle_ms,
}

unfoldable pub fresh_bar : Trade → Hub → Bar × Hub
fresh_bar t h = (
  new_bar h.next_serial t,
  record {
    bars = h.bars;
    recent_ticks = h.recent_ticks;
    clients = h.clients;
    next_serial = h.next_serial + 1;
    sent = h.sent;
  },
)

-- The bar of the trade's minute; a bar of another minute is closed first.
unfoldable pub roll_bar : Option Bar → Trade → Hub → Bar × Hub
roll_bar none t h = fresh_bar t h
roll_bar (some b) t h =
    if b.start == bucket_ms t.ts
    then (b, h)
    else fresh_bar t (broadcast (bar_message t.pool b true) (some t.pool) h)

abbrev pub set_last_push : ℕ → Bar → Bar
set_last_push now b = record {
  serial = b.serial;
  start = b.start;
  open_sqrt = b.open_sqrt;
  close_sqrt = b.close_sqrt;
  high_sqrt = b.high_sqrt;
  low_sqrt = b.low_sqrt;
  buy_eth = b.buy_eth;
  sell_eth = b.sell_eth;
  trades = b.trades;
  last_push_at = now;
  timer = b.timer;
}

-- The push of a bar, at most one in each 250 ms.
unfoldable pub push_bar : ℕ → ℕ → Bar → Hub → Bar × Hub
push_bar now pool b h =
    if leb bar_throttle_ms (now - b.last_push_at)
    then (
      set_last_push now b,
      broadcast (bar_message pool (set_last_push now b) false) (some pool) h,
    )
    else (b, h)

unfoldable pub timer_at : ℕ → ℕ → Option ℕ → Option ℕ
timer_at now start none = some (max (start + minute_ms + 50 - now) 100)
timer_at now start (some delay) = some delay

unfoldable pub arm : ℕ → Bar → Bar
arm now b = record {
  serial = b.serial;
  start = b.start;
  open_sqrt = b.open_sqrt;
  close_sqrt = b.close_sqrt;
  high_sqrt = b.high_sqrt;
  low_sqrt = b.low_sqrt;
  buy_eth = b.buy_eth;
  sell_eth = b.sell_eth;
  trades = b.trades;
  last_push_at = b.last_push_at;
  timer = timer_at now b.start b.timer;
}

-- `onTrade`, at the time `now`.
unfoldable pub on_trade : ℕ → Trade → Hub → Hub
on_trade now t h =
    let ticked = broadcast (tick_message t) (some t.pool) (push_tick t h) in
    let (b, rolled) = roll_bar (find ticked.bars t.pool) t ticked in
    let (pushed, h') = push_bar now t.pool (add_trade t b) rolled in
    set_bars (put h'.bars t.pool (arm now pushed)) h'

unfoldable pub close_bar : Option Bar → ℕ → ℕ → Hub → Hub
close_bar none pool serial h = h
close_bar (some b) pool serial h =
    if b.serial == serial
    then (let closed = broadcast (bar_message pool b true) (some pool) h in
        set_bars (remove closed.bars pool) closed)
    else h

-- The timer of the bar with that serial.
unfoldable pub on_timer : ℕ → ℕ → Hub → Hub
on_timer pool serial h = close_bar (find h.bars pool) pool serial h

-- A notification whose payload is JSON.
pub data Notification : Type 0 where
  spawn_trades : Trade → Notification
  spawn_pools : Text → Notification
  spawn_comments : ℕ → Text → Notification
  spawn_harvests : ℕ → ℕ → Text → Text → Notification

unfoldable pub on_notification : ℕ → Notification → Hub → Hub
on_notification now (Notification.spawn_trades t) h = on_trade now t h
on_notification now (Notification.spawn_pools data') h = broadcast (Message.pool_event data') none h
on_notification now (Notification.spawn_comments token_db_id ts) h =
    broadcast (Message.comment token_db_id ts) none h
on_notification now (Notification.spawn_harvests pool band_index gross ts) h =
    broadcast (Message.harvest pool band_index gross ts) none h

-- The client changed by `f`.
unfoldable pub update_client : ℕ → (Client → Client) → List Client → List Client
update_client id f [] = []
update_client id f (c ∷ cs) =
    let rest = update_client id f cs in if c.id == id then f c ∷ cs else c ∷ rest

abbrev pub set_subs : List ℕ → Client → Client
set_subs subs c = record {
  id = c.id;
  subs = subs;
  is_alive = c.is_alive;
  is_open = c.is_open;
  buffered_amount = c.buffered_amount;
}

abbrev pub set_alive : Bool → Client → Client
set_alive alive c = record {
  id = c.id;
  subs = c.subs;
  is_alive = alive;
  is_open = c.is_open;
  buffered_amount = c.buffered_amount;
}

unfoldable pub without : ℕ → List ℕ → List ℕ
without pool [] = []
without pool (p ∷ ps) = let rest = without pool ps in if p == pool then rest else p ∷ rest

unfoldable pub snapshot : ℕ → Option Bar → List Message
snapshot pool none = []
snapshot pool (some b) = bar_message pool b false ∷ []

unfoldable pub ticks_of : Option (List Message) → List Message
ticks_of none = []
ticks_of (some ring) = ring

-- `op: 'sub'`: the current bar and the recent ticks of each pool.
unfoldable pub subscribe : ℕ → List ℕ → Hub → Hub
subscribe id [] h = h
subscribe id (pool ∷ pools) h =
    let messages = snapshot pool (find h.bars pool) ++ ticks_of (find h.recent_ticks pool) in
    subscribe id pools (
      send (map (λ m. (id, m)) messages) (
        set_clients
          (update_client id
            (λ c. set_subs (if has c.subs pool then c.subs else c.subs ++ pool ∷ []) c) h.clients)
          h))

-- `op: 'unsub'`
unfoldable pub unsubscribe : ℕ → List ℕ → Hub → Hub
unsubscribe id [] h = h
unsubscribe id (pool ∷ pools) h =
    unsubscribe id pools
      (set_clients (update_client id (λ c. set_subs (without pool c.subs) c) h.clients) h)

unfoldable pub on_pong : ℕ → Hub → Hub
on_pong id h = set_clients (update_client id (set_alive true) h.clients) h

unfoldable pub drop_client : ℕ → List Client → List Client
drop_client id [] = []
drop_client id (c ∷ cs) = let rest = drop_client id cs in if c.id == id then rest else c ∷ rest

unfoldable pub on_close : ℕ → Hub → Hub
on_close id h = set_clients (drop_client id h.clients) h

-- A socket that has not answered since the last round is dropped.
unfoldable pub beat : List Client → List Client
beat [] = []
beat (c ∷ cs) = let rest = beat cs in if not c.is_alive then rest else set_alive false c ∷ rest

unfoldable pub heartbeat : Hub → Hub
heartbeat h = set_clients (beat h.clients) h
