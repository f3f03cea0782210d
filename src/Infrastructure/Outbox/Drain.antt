-- ===== src/Infrastructure/Outbox/Drain.antt =====
-- Batches publish everything that can be delivered.
use spawn_backend.Prelude.{
  ℕ, ◌+◌, ◌*◌, ◌≤◌, ◌≡◌, ◌∙◌, min, ◌&&◌, true, List, [], ◌∷◌, map, take, length, All, inl, inr,
  Bool-cases, arith,
}
use spawn_backend.Common.Decimal.{Text}
use spawn_backend.Infrastructure.Outbox.{
  OutboxEvent, OutboxState, DeliveryFault, is_unpublished, is_free, due_ids, includes, lease,
  is_claimed, claimed, deliver, dispatch_ids, dispatch_batch,
}
use spawn_backend.Infrastructure.Outbox.Rows.{
  pending, IsDeliverable, IsReady, published_by, map-map, dispatch_events-published, ids_of,
  All-weaken, claimed_each, claimed-includes,
}
use spawn_backend.Infrastructure.Outbox.Leases.{
  left_out_none, left_out-taken, includes_each, All-map, map-All, ready_due, row_after, rows_after,
}

lease-IsDeliverable :
    (now owner : ℕ) (ids : List ℕ) (row : OutboxEvent)
    → IsDeliverable row
    → IsDeliverable (lease now owner ids row)
unfolding IsDeliverable lease deliver
lease-IsDeliverable now owner ids row h =
    elim (Bool-cases
      (includes row.id ids && is_unpublished row && is_free now row.lease_expires_at)) [
        | inl yes_lease ↦ rw yes_lease h
        | inr no_lease ↦ rw no_lease h
      ]

claimed-All :
    (P : OutboxEvent → Type 0) (owner : ℕ) (ids : List ℕ) (es : List OutboxEvent)
    → All P es
    → All P (claimed owner ids es)
unfolding claimed
claimed-All P owner ids [] all = tt
claimed-All P owner ids (e ∷ es) (h, all) = elim (Bool-cases (is_claimed owner ids e)) [
  | inl mine ↦ rw mine (h, claimed-All P owner ids es all)
  | inr other ↦ rw other (claimed-All P owner ids es all)
]

-- What a batch comes to: at most the rows left, and a table that is ready.
Progresses : ℕ → List OutboxEvent → List OutboxEvent → Type 0
Progresses start before after =
    (pending after + min 50 (pending before) ≤ pending before) × All (IsReady start) after

dispatch_ids-Progresses :
    (message_of : DeliveryFault → Text) (start now owner : ℕ) (ids : List ℕ) (s : OutboxState)
    → start ≤ now
    → All (IsReady start) s.events
    → All (λ id. includes id ids ≡ true) (take 50 (due_ids now s.events))
    → Progresses start s.events (dispatch_ids message_of true now owner ids s).1.events
unfolding dispatch_ids Progresses row_after
dispatch_ids-Progresses message_of start now owner [] s le ready taken =
    let due = All-weaken s.events (λ e r. ready_due start now e le r) ready in
    (omega (arith, left_out_none s.events, left_out-taken now 50 [] s.events due taken), ready)
dispatch_ids-Progresses message_of start now owner (id ∷ ids) s le ready taken =
    let all = id ∷ ids in
    let f = lease now owner all in
    let es = claimed owner all (map f s.events) in
    let due = All-weaken s.events (λ e r. ready_due start now e le r) ready in
    let deliverable =
      map-All IsDeliverable f s.events
        (All-weaken s.events (λ e r. lease-IsDeliverable now owner all e r.deliverable) ready) in
    let published =
      dispatch_events-published message_of now owner es
        (record { events = map f s.events; cache = s.cache })
        (claimed-All IsDeliverable owner all (map f s.events) deliverable)
      ∙ map-map (published_by now owner es) f s.events in
    let (left, still) =
      rows_after start now owner all es s.events le ready
        (All-map (λ row. is_claimed owner all row ≡ true → includes row.id (ids_of es) ≡ true) f
          s.events (claimed_each owner all (map f s.events)))
        (claimed-includes owner all (map f s.events)) in
    rw published (omega (arith, left, left_out-taken now 50 all s.events due taken), still)

dispatch_batch-Progresses :
    (message_of : DeliveryFault → Text) (start now owner : ℕ) (s : OutboxState)
    → start ≤ now
    → All (IsReady start) s.events
    → Progresses start s.events (dispatch_batch message_of true now owner s).1.events
unfolding dispatch_batch
dispatch_batch-Progresses message_of start now owner s le ready =
    dispatch_ids-Progresses message_of start now owner (take 50 (due_ids now s.events)) s le ready
      (includes_each (take 50 (due_ids now s.events)))

-- Batches one behind the other, each with its time and owner, with Redis up.
unfoldable pub dispatch_batches : (DeliveryFault → Text) → List (ℕ × ℕ) → OutboxState → OutboxState
dispatch_batches message_of [] s = s
dispatch_batches message_of ((now, owner) ∷ rest) s =
    dispatch_batches message_of rest (dispatch_batch message_of true now owner s).1

-- With Redis up, when every event of the table can be delivered, and was available and under no lease
-- at `start`: batches that run one behind the other, at any times from `start` on and with any owners,
-- leave no event unpublished as soon as 50 times their number is at least the number of the events
-- that were unpublished.
pub dispatch_batches-drains :
    (message_of : DeliveryFault → Text) (start : ℕ) (batches : List (ℕ × ℕ)) (s : OutboxState)
    → All (IsReady start) s.events
    → All (λ b. start ≤ b.0) batches
    → pending s.events ≤ 50 * length batches
    → pending (dispatch_batches message_of batches s).events ≡ 0
unfolding dispatch_batches Progresses
dispatch_batches-drains message_of start [] s ready times enough = omega (arith, enough)
dispatch_batches-drains message_of start ((now, owner) ∷ rest) s ready (le, times) enough =
    let (less, still) = dispatch_batch-Progresses message_of start now owner s le ready in
    dispatch_batches-drains message_of start rest (dispatch_batch message_of true now owner s).1
      still times (omega (arith, less, enough))
