-- ===== src/Trading/Broadcaster/Bars.antt =====
-- The bars of the stream: a bar summarises the trades of its minute.
use spawn_backend.Prelude.{
  ℕ, suc, ◌+◌, ◌-◌, min, max, ◌≡◌, refl, ap, sym, ◌∙◌, ◌≢◌, Bool, true, false, leb, ◌==◌,
  if◌then◌else◌, List, [], ◌∷◌, length, some, inl, inr, Bool-cases, Option-cases, arith, All,
}
use spawn_backend.Common.Dict.{find, put, find-put}
use spawn_backend.Trading.Broadcaster.{
  Trade, Bar, Hub, broadcast, push_tick, tick_message, bucket_ms, new_bar, add_trade, bar_message,
  bar_throttle_ms,
}
use spawn_backend.Trading.Broadcaster.Handlers.{
  fresh_bar, roll_bar, set_last_push, push_bar, arm, on_trade,
}

-- The trades handled one after another, each at its time.
unfoldable pub on_trades : List (ℕ × Trade) → Hub → Hub
on_trades [] h = h
on_trades ((now, t) ∷ ts) h = on_trades ts (on_trade now t h)

unfoldable pub greatest : ℕ → List (ℕ × Trade) → ℕ
greatest first [] = first
greatest first ((now, t) ∷ ts) = max t.sqrt (greatest first ts)

unfoldable pub least : ℕ → List (ℕ × Trade) → ℕ
least first [] = first
least first ((now, t) ∷ ts) = min t.sqrt (least first ts)

unfoldable pub last_sqrt : ℕ → List (ℕ × Trade) → ℕ
last_sqrt first [] = first
last_sqrt first ((now, t) ∷ ts) = last_sqrt t.sqrt ts

-- The ETH of the trades of one side.
unfoldable pub volume : Bool → List (ℕ × Trade) → ℕ
volume buys [] = 0
volume true ((now, t) ∷ ts) = (if t.is_buy then t.eth else 0) + volume true ts
volume false ((now, t) ∷ ts) = (if t.is_buy then 0 else t.eth) + volume false ts

-- The bar `b` is `b0` with these trades added.
pub record IsExtended (b0 : Bar) (ts : List (ℕ × Trade)) (b : Bar) : Type 0 where
  pub same_start : b.start ≡ b0.start
  pub same_open : b.open_sqrt ≡ b0.open_sqrt
  pub last : b.close_sqrt ≡ last_sqrt b0.close_sqrt ts
  pub highest : b.high_sqrt ≡ greatest b0.high_sqrt ts
  pub lowest : b.low_sqrt ≡ least b0.low_sqrt ts
  pub bought : b.buy_eth ≡ b0.buy_eth + volume true ts
  pub sold : b.sell_eth ≡ b0.sell_eth + volume false ts
  pub count : b.trades ≡ b0.trades + length ts

add_trade-IsExtended :
    (now : ℕ) (t : Trade) (b : Bar) → IsExtended b ((now, t) ∷ []) (add_trade t b)
unfolding add_trade greatest least last_sqrt volume
add_trade-IsExtended now t b = elim (Bool-cases t.is_buy) [
  | inl buy ↦ record {
    same_start = refl;
    same_open = refl;
    last = refl;
    highest = ground arith;
    lowest = ground arith;
    bought = rw buy (omega arith);
    sold = rw buy (omega arith);
    count = refl;
  }
  | inr sell ↦ record {
    same_start = refl;
    same_open = refl;
    last = refl;
    highest = ground arith;
    lowest = ground arith;
    bought = rw sell (omega arith);
    sold = rw sell (omega arith);
    count = refl;
  }
]

-- A push and the timer leave what the bar says of its trades.
IsExtended-same :
    (b0 : Bar) (ts : List (ℕ × Trade)) (b : Bar) (now : ℕ)
    → IsExtended b0 ts b
    → IsExtended b0 ts (arm now b) × IsExtended b0 ts (arm now (set_last_push now b))
unfolding arm
IsExtended-same b0 ts b now e = (
  record {
    same_start = e.same_start;
    same_open = e.same_open;
    last = e.last;
    highest = e.highest;
    lowest = e.lowest;
    bought = e.bought;
    sold = e.sold;
    count = e.count;
  },
  record {
    same_start = e.same_start;
    same_open = e.same_open;
    last = e.last;
    highest = e.highest;
    lowest = e.lowest;
    bought = e.bought;
    sold = e.sold;
    count = e.count;
  },
)

-- What a trade does to the bars, once its bar is found or made.
bar_after_push :
    (now : ℕ) (t : Trade) (b0 : Bar) (h : Hub)
    → let pushed = push_bar now t.pool (add_trade t b0) h in
      (b : Bar) × (find (put pushed.1.bars t.pool (arm now pushed.0)) t.pool ≡ some b)
      × IsExtended b0 ((now, t) ∷ []) b
unfolding push_bar broadcast
bar_after_push now t b0 h =
    let grown = add_trade t b0 in
    let (held, pushed) =
      IsExtended-same b0 ((now, t) ∷ []) grown now (add_trade-IsExtended now t b0) in
    elim (Bool-cases (leb bar_throttle_ms (now - grown.last_push_at))) [
      | inl push ↦ (
        arm now (set_last_push now grown),
        rw push (find-put h.bars t.pool (arm now (set_last_push now grown))),
        pushed,
      )
      | inr hold ↦ (arm now grown, rw hold (find-put h.bars t.pool (arm now grown)), held)
    ]

-- After a trade in the minute of the pool's bar, the bar is extended by that trade.
on_trade-same_minute :
    (now : ℕ) (t : Trade) (h : Hub) (b0 : Bar)
    → find h.bars t.pool ≡ some b0
    → b0.start ≡ bucket_ms t.ts
    → (b : Bar) × (find (on_trade now t h).bars t.pool ≡ some b) × IsExtended b0 ((now, t) ∷ []) b
unfolding on_trade push_tick broadcast roll_bar
on_trade-same_minute now t h b0 found start =
    let same : (b0.start == bucket_ms t.ts) ≡ true = ground arith in
    rw (found, same)
      (bar_after_push now t b0 (broadcast (tick_message t) (some t.pool) (push_tick t h)))

-- After a trade of another minute than the pool's bar, the bar is a new one with that trade.
on_trade-new_minute :
    (now : ℕ) (t : Trade) (h : Hub)
    → ((b : Bar) → find h.bars t.pool ≡ some b → b.start ≢ bucket_ms t.ts)
    → (b : Bar) × (find (on_trade now t h).bars t.pool ≡ some b)
      × IsExtended (new_bar h.next_serial t) ((now, t) ∷ []) b
unfolding on_trade push_tick broadcast roll_bar fresh_bar
on_trade-new_minute now t h other =
    let ticked = broadcast (tick_message t) (some t.pool) (push_tick t h) in
    elim (Option-cases (find h.bars t.pool)) [
      | inl missing ↦
          rw missing (bar_after_push now t (new_bar h.next_serial t) (fresh_bar t ticked).1)
      | inr (b, found) ↦
          let differs : (b.start == bucket_ms t.ts) ≡ false = ground (arith, other b found) in
          rw (found, differs)
            (bar_after_push now t (new_bar h.next_serial t)
              (fresh_bar t (broadcast (bar_message t.pool b true) (some t.pool) ticked)).1)
    ]

greatest-max : (a x : ℕ) (ts : List (ℕ × Trade)) → greatest (max x a) ts ≡ max x (greatest a ts)
unfolding greatest
greatest-max a x [] = omega arith
greatest-max a x ((now, t) ∷ ts) = omega (arith, greatest-max a x ts)

least-min : (a x : ℕ) (ts : List (ℕ × Trade)) → least (min x a) ts ≡ min x (least a ts)
unfolding least
least-min a x [] = omega arith
least-min a x ((now, t) ∷ ts) = omega (arith, least-min a x ts)

IsExtended-then :
    (b0 b1 b : Bar) (now : ℕ) (t : Trade) (ts : List (ℕ × Trade))
    → IsExtended b0 ((now, t) ∷ []) b1
    → IsExtended b1 ts b
    → IsExtended b0 ((now, t) ∷ ts) b
unfolding greatest least last_sqrt volume
IsExtended-then b0 b1 b now t ts e f = record {
  same_start = f.same_start ∙ e.same_start;
  same_open = f.same_open ∙ e.same_open;
  last = f.last ∙ ap (λ x. last_sqrt x ts) e.last;
  highest = f.highest ∙ ap (λ x. greatest x ts) e.highest ∙ greatest-max b0.high_sqrt t.sqrt ts;
  lowest = f.lowest ∙ ap (λ x. least x ts) e.lowest ∙ least-min b0.low_sqrt t.sqrt ts;
  bought = omega (arith, e.bought, f.bought);
  sold = omega (arith, e.sold, f.sold);
  count = omega (arith, e.count, f.count);
}

-- The trades are all of that pool and of the minute that starts at `start`.
unfoldable pub InMinute : ℕ → ℕ → List (ℕ × Trade) → Type 0
InMinute pool start ts = All (λ (now, t). (t.pool ≡ pool) × (bucket_ms t.ts ≡ start)) ts

on_trades-same_minute :
    (pool start : ℕ) (ts : List (ℕ × Trade)) (h : Hub) (b0 : Bar)
    → find h.bars pool ≡ some b0
    → b0.start ≡ start
    → InMinute pool start ts
    → (b : Bar) × (find (on_trades ts h).bars pool ≡ some b) × IsExtended b0 ts b
unfolding on_trades greatest least last_sqrt volume InMinute
on_trades-same_minute pool start [] h b0 found at all = (b0, found, nothing)
  where
    nothing : IsExtended b0 [] b0
    nothing = record {
      same_start = refl;
      same_open = refl;
      last = refl;
      highest = refl;
      lowest = refl;
      bought = omega arith;
      sold = omega arith;
      count = omega arith;
    }
on_trades-same_minute pool start ((now, t) ∷ ts) h b0 found at ((here, minute), later) =
    let at_pool : find h.bars t.pool ≡ some b0 = rw here found in
    let (b1, found1, first) = on_trade-same_minute now t h b0 at_pool (at ∙ sym minute) in
    let found' : find (on_trade now t h).bars pool ≡ some b1 = rw (sym here) found1 in
    let (b, there, e) =
      on_trades-same_minute pool start ts (on_trade now t h) b1 found' (first.same_start ∙ at)
        later in
    (b, there, IsExtended-then b0 b1 b now t ts first e)

-- For trades of one pool and one minute, handled one after another by a broadcaster that has no bar
-- of that minute for the pool: afterwards the pool's bar starts at the minute and opens with the first
-- trade's price, closes with the last one's, has the greatest and the least of the prices as its high
-- and low, the sums of the ETH bought and sold as its volumes, and counts the trades.
pub on_trades-summary :
    (now : ℕ) (t : Trade) (ts : List (ℕ × Trade)) (h : Hub)
    → ((b : Bar) → find h.bars t.pool ≡ some b → b.start ≢ bucket_ms t.ts)
    → InMinute t.pool (bucket_ms t.ts) ts
    → (b : Bar) × (find (on_trades ((now, t) ∷ ts) h).bars t.pool ≡ some b)
      × (b.start ≡ bucket_ms t.ts)
      × (b.open_sqrt ≡ t.sqrt)
      × (b.close_sqrt ≡ last_sqrt t.sqrt ts)
      × (b.high_sqrt ≡ greatest t.sqrt ts)
      × (b.low_sqrt ≡ least t.sqrt ts)
      × (b.buy_eth ≡ volume true ((now, t) ∷ ts))
      × (b.sell_eth ≡ volume false ((now, t) ∷ ts))
      × (b.trades ≡ suc (length ts))
unfolding on_trades new_bar greatest least last_sqrt volume
on_trades-summary now t ts h other all =
    let (b1, found, first) = on_trade-new_minute now t h other in
    let (b, there, e) =
      on_trades-same_minute t.pool (bucket_ms t.ts) ts (on_trade now t h) b1 found first.same_start
        all in
    (
      b,
      there,
      e.same_start ∙ first.same_start,
      e.same_open ∙ first.same_open,
      e.last ∙ ap (λ x. last_sqrt x ts) first.last,
      e.highest ∙ ap (λ x. greatest x ts) (first.highest ∙ omega arith),
      e.lowest ∙ ap (λ x. least x ts) (first.lowest ∙ omega arith),
      omega (arith, e.bought, first.bought),
      omega (arith, e.sold, first.sold),
      omega (arith, e.count, first.count),
    )
