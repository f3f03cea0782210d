-- ===== src/Tests/Services.antt =====
-- The cache, the outbox and wallet sessions at concrete inputs.
use spawn_backend.Prelude.{
  ℕ, ◌*◌, ◌≡◌, ◌≤◌, refl, max, ◌==◌, false, List, [], ◌∷◌, none, some, inl, inr, Bool-cases, arith,
  length,
}
use spawn_backend.Common.Decimal.{digits_from, to_text}
use spawn_backend.Common.Dict.{find}
use spawn_backend.Infrastructure.Cache.{Generations, apply_generation, get_generation}
use spawn_backend.Infrastructure.Cache.Generations.{IsReadable, apply_generation-refines}
use spawn_backend.Infrastructure.Outbox.{
  OutboxEvent, OutboxState, Topic, deliver, apply_payload, is_numeral, is_free, is_unpublished,
}
use spawn_backend.Infrastructure.Outbox.Rows.{IsReady, IsDeliverable, pending}
use spawn_backend.Infrastructure.Outbox.Drain.{dispatch_batches, dispatch_batches-drains}
use spawn_backend.Common.Texts.{every}

abbrev nine : Generations
nine = (3, b'9' ∷ []) ∷ []

nine-IsReadable : IsReadable nine
unfolding IsReadable find to_text digits_from
nine-IsReadable d = elim (Bool-cases (3 == d)) [
  | inl same ↦ inr (9, rw same refl)
  | inr other ↦ inl (rw other refl)
]

-- Ten is newer than nine, although its text is the lesser one.
apply_generation-refines_example :
    IsReadable (apply_generation 3 10 nine)
    × (get_generation 3 (apply_generation 3 10 nine) ≡ max (get_generation 3 nine) 10)
    × ((other : ℕ)
        → (3 == other) ≡ false
        → get_generation other (apply_generation 3 10 nine) ≡ get_generation other nine)
apply_generation-refines_example = apply_generation-refines 3 10 nine nine-IsReadable

abbrev event : OutboxEvent
event = record {
  id = 1;
  topic = Topic.apply_cache_generation;
  payload = some (record { domain = 3; generation = b'1' ∷ b'0' ∷ [] });
  available_at = 1_000;
  published_at = none;
  lease_owner = some 5;
  lease_expires_at = some 1_500;
  attempts = 1;
  last_error = none;
}

event-IsReady : IsReady 2_000 event
unfolding IsDeliverable deliver apply_payload is_numeral every is_free
event-IsReady = record { deliverable = λ cache. (_, refl); available = omega arith; free = refl }

abbrev outbox : OutboxState
outbox = record { events = event ∷ []; cache = nine }

abbrev batches : List (ℕ × ℕ)
batches = (2_000, 7) ∷ []

one_pending : pending outbox.events ≤ 50 * length batches
unfolding pending is_unpublished
one_pending = omega arith

dispatch_batches-drains_example : pending (dispatch_batches (λ fault. []) batches outbox).events ≡ 0
dispatch_batches-drains_example =
    dispatch_batches-drains (λ fault. []) 2_000 batches outbox (event-IsReady, tt) (omega arith, tt)
      one_pending
