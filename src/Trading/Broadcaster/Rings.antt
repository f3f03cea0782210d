-- ===== src/Trading/Broadcaster/Rings.antt =====
-- The rings of recent ticks stay bounded.
use spawn_backend.Prelude.{
  ℕ, ◌-◌, ◌≤◌, ◌≡◌, refl, ltb, leb, ◌==◌, List, [], ◌∷◌, ◌++◌, length, length-append, Option, none,
  some, inl, inr, Bool-cases, arith, All,
}
use spawn_backend.Common.Dict.{Dict, find, put}
use spawn_backend.Trading.Broadcaster.{
  Trade, Bar, Hub, Message, bar_throttle_ms, broadcast, push_tick, tick_message, ring_push,
  bucket_ms, add_trade,
}
use spawn_backend.Trading.Broadcaster.Handlers.{
  Notification, fresh_bar, roll_bar, push_bar, on_trade, on_notification,
}

-- A ring holds at most 30 ticks.
unfoldable pub IsBounded : Dict (List Message) → Type 0
IsBounded rings = All (λ (pool, ring). length ring ≤ 30) rings

ring_push_bound :
    (ring : List Message) (m : Message) → length ring ≤ 30 → length (ring_push (some ring) m) ≤ 30
unfolding ring_push
ring_push_bound [] m h = omega arith
ring_push_bound (first ∷ ring) m h =
    elim (Bool-cases (ltb 30 (length ((first ∷ ring) ++ m ∷ [])))) [
      | inl full ↦ rw (full, length-append ring (m ∷ [])) (omega arith)
      | inr room ↦ rw room (ground arith)
    ]

IsBounded-push :
    (rings : Dict (List Message)) (pool : ℕ) (m : Message)
    → IsBounded rings
    → IsBounded (put rings pool (ring_push (find rings pool) m))
unfolding IsBounded put find ring_push
IsBounded-push [] pool m h = (omega arith, tt)
IsBounded-push ((p, ring) ∷ rest) pool m (here, later) = elim (Bool-cases (p == pool)) [
  | inl same ↦ rw same (ring_push_bound ring m here, later)
  | inr other ↦ rw other (here, IsBounded-push rest pool m later)
]

rings-push_bar :
    (now pool : ℕ) (b : Bar) (h : Hub) → (push_bar now pool b h).1.recent_ticks ≡ h.recent_ticks
unfolding push_bar broadcast
rings-push_bar now pool b h = elim (Bool-cases (leb bar_throttle_ms (now - b.last_push_at))) [
  | inl push ↦ rw push refl
  | inr hold ↦ rw hold refl
]

rings-roll_bar :
    (o : Option Bar) (t : Trade) (h : Hub) → (roll_bar o t h).1.recent_ticks ≡ h.recent_ticks
unfolding roll_bar fresh_bar broadcast
rings-roll_bar none t h = refl
rings-roll_bar (some b) t h = elim (Bool-cases (b.start == bucket_ms t.ts)) [
  | inl same ↦ rw same refl
  | inr other ↦ rw other refl
]

on_trade-IsBounded :
    (now : ℕ) (t : Trade) (h : Hub)
    → IsBounded h.recent_ticks
    → IsBounded (on_trade now t h).recent_ticks
unfolding on_trade push_tick broadcast
on_trade-IsBounded now t h bounded =
    let ticked = broadcast (tick_message t) (some t.pool) (push_tick t h) in
    let (b, rolled) = roll_bar (find h.bars t.pool) t ticked in
    rw
      (
        rings-push_bar now t.pool (add_trade t b) rolled,
        rings-roll_bar (find h.bars t.pool) t ticked,
      )
      (IsBounded-push h.recent_ticks t.pool (tick_message t) bounded)

-- If the ring of every pool holds at most 30 ticks, it still does after any notification.
pub on_notification-IsBounded :
    (now : ℕ) (n : Notification) (h : Hub)
    → IsBounded h.recent_ticks
    → IsBounded (on_notification now n h).recent_ticks
unfolding on_notification broadcast
on_notification-IsBounded now (Notification.spawn_trades t) h b = on_trade-IsBounded now t h b
on_notification-IsBounded now (Notification.spawn_pools d) h b = b
on_notification-IsBounded now (Notification.spawn_comments t d) h b = b
on_notification-IsBounded now (Notification.spawn_harvests p i g d) h b = b
