-- ===== src/Infrastructure/Outbox.antt =====
-- The dispatcher of the outbox: src/infrastructure/queue/outbox-dispatcher.ts. The table is in the order
-- of creation; one dispatcher runs at a time, with its own clock, and Redis is up or down for a batch.
pub mod Rows
pub mod Leases
pub mod Drain
use spawn_backend.Prelude.{
  ℕ, ◌+◌, leb, ltb, ◌==◌, ◌&&◌, ◌||◌, not, Bool, true, false, if◌then◌else◌, List, [], ◌∷◌, map,
  take, Option, none, some,
}
use spawn_backend.Prelude.Outcome.{Outcome, ok, err, throw_if, ◌>>◌, ◌>>=◌}
use spawn_backend.Common.Decimal.{Text, value_from}
use spawn_backend.Common.Texts.{every}
use spawn_backend.Infrastructure.Cache.{Generations, apply_generation}

pub data Topic : Type 0 where
  apply_cache_generation unsupported : Topic

-- A payload that has a text for the domain, which stands for a number here, and one for the generation.
pub record GenerationPayload : Type 0 where
  pub domain : ℕ
  pub generation : Text

pub record OutboxEvent : Type 0 where
  pub id : ℕ
  pub topic : Topic
  pub payload : Option GenerationPayload
  pub available_at : ℕ
  pub published_at : Option ℕ
  pub lease_owner : Option ℕ
  pub lease_expires_at : Option ℕ
  pub attempts : ℕ
  pub last_error : Option Text

pub record OutboxState : Type 0 where
  pub events : List OutboxEvent
  pub cache : Generations

-- Why an event is not delivered.
pub data DeliveryFault : Type 0 where
  unsupported_topic invalid_payload cache_down : DeliveryFault

abbrev pub is_none {ℓ} : {A : Type ℓ} → Option A → Bool
is_none none = true
is_none (some a) = false

unfoldable pub is_unpublished : OutboxEvent → Bool
is_unpublished e = is_none e.published_at

-- No lease, or one that has expired.
unfoldable pub is_free : ℕ → Option ℕ → Bool
is_free now none = true
is_free now (some expires) = ltb expires now

unfoldable pub is_due : ℕ → OutboxEvent → Bool
is_due now e = is_unpublished e && leb e.available_at now && is_free now e.lease_expires_at

unfoldable pub due_ids : ℕ → List OutboxEvent → List ℕ
due_ids now [] = []
due_ids now (e ∷ es) = let rest = due_ids now es in if is_due now e then e.id ∷ rest else rest

unfoldable pub includes : ℕ → List ℕ → Bool
includes id [] = false
includes id (x ∷ xs) = x == id || includes id xs

abbrev pub with_lease : ℕ → ℕ → OutboxEvent → OutboxEvent
with_lease now owner e = record e {
  lease_owner = some owner;
  lease_expires_at = some (now + 30_000);
}

-- The first `updateMany`, on a row.
unfoldable pub lease : ℕ → ℕ → List ℕ → OutboxEvent → OutboxEvent
lease now owner ids e =
    if includes e.id ids && is_unpublished e && is_free now e.lease_expires_at
    then with_lease now owner e
    else e

unfoldable pub has_owner : ℕ → Option ℕ → Bool
has_owner owner none = false
has_owner owner (some o) = o == owner

unfoldable pub is_claimed : ℕ → List ℕ → OutboxEvent → Bool
is_claimed owner ids e = includes e.id ids && has_owner owner e.lease_owner && is_unpublished e

-- The rows that the transaction returns.
unfoldable pub claimed : ℕ → List ℕ → List OutboxEvent → List OutboxEvent
claimed owner ids [] = []
claimed owner ids (e ∷ es) =
    let rest = claimed owner ids es in if is_claimed owner ids e then e ∷ rest else rest

unfoldable pub is_numeral : Text → Bool
is_numeral [] = false
is_numeral (c ∷ cs) = every (λ d. leb b'0' d && leb d b'9') (c ∷ cs)

-- `applyCacheGeneration`, with `applyGenerationStrict`, which throws where Redis is down.
unfoldable pub apply_payload :
    Bool → Option GenerationPayload → Generations → Outcome DeliveryFault Generations
apply_payload up none cache = err DeliveryFault.invalid_payload
apply_payload up (some payload) cache = do
  throw_if (not (is_numeral payload.generation)) DeliveryFault.invalid_payload
  throw_if (not up) DeliveryFault.cache_down
  ok (apply_generation payload.domain (value_from 0 payload.generation) cache)

abbrev pub is_supported : Topic → Bool
is_supported Topic.apply_cache_generation = true
is_supported Topic.unsupported = false

-- The body of the `try`.
unfoldable pub deliver : Bool → OutboxEvent → Generations → Outcome DeliveryFault Generations
deliver up e cache = do
  throw_if (not (is_supported e.topic)) DeliveryFault.unsupported_topic
  apply_payload up e.payload cache

abbrev pub mark_published : ℕ → OutboxEvent → OutboxEvent
mark_published now e = record e {
  published_at = some now;
  attempts = e.attempts + 1;
  lease_owner = none;
  lease_expires_at = none;
  last_error = none;
}

abbrev pub mark_undelivered : Text → OutboxEvent → OutboxEvent
mark_undelivered message e = record e {
  attempts = e.attempts + 1;
  last_error = some message;
  lease_owner = none;
  lease_expires_at = none;
}

abbrev pub is_held : ℕ → ℕ → OutboxEvent → Bool
is_held owner id e = e.id == id && has_owner owner e.lease_owner && is_unpublished e

-- The `updateMany` of the `try`, and the one of the `catch`, on a row.
unfoldable pub publish_row : ℕ → ℕ → ℕ → OutboxEvent → OutboxEvent
publish_row now owner id e = if is_held owner id e then mark_published now e else e

unfoldable pub give_back_row : Text → ℕ → ℕ → OutboxEvent → OutboxEvent
give_back_row message owner id e = if is_held owner id e then mark_undelivered message e else e

unfoldable pub count_held : ℕ → ℕ → List OutboxEvent → ℕ
count_held owner id [] = 0
count_held owner id (e ∷ es) = (if is_held owner id e then 1 else 0) + count_held owner id es

-- One turn of the loop: what it adds to `published`, and the state. `message_of` is the error's text.
unfoldable pub dispatch_event :
    (DeliveryFault → Text) → Bool → ℕ → ℕ → OutboxEvent → OutboxState → ℕ × OutboxState
dispatch_event message_of up now owner event s = settled (deliver up event s.cache)
  where
    settled : Outcome DeliveryFault Generations → ℕ × OutboxState
    settled (ok cache) = (
      (if count_held owner event.id s.events == 1 then 1 else 0),
      record { events = map (publish_row now owner event.id) s.events; cache = cache },
    )
    settled (err fault) = (
      0,
      record {
        events = map (give_back_row (message_of fault) owner event.id) s.events;
        cache = s.cache;
      },
    )

unfoldable pub dispatch_events :
    (DeliveryFault → Text) → Bool → ℕ → ℕ → List OutboxEvent → OutboxState → ℕ × OutboxState
dispatch_events message_of up now owner [] s = (0, s)
dispatch_events message_of up now owner (e ∷ es) s =
    let first = dispatch_event message_of up now owner e s in
    let later = dispatch_events message_of up now owner es first.1 in (first.0 + later.0, later.1)

-- The batch behind the query of the candidates.
unfoldable pub dispatch_ids :
    (DeliveryFault → Text) → Bool → ℕ → ℕ → List ℕ → OutboxState → ℕ × OutboxState
dispatch_ids message_of up now owner [] s = (0, s)
dispatch_ids message_of up now owner (id ∷ ids) s =
    let leased = map (lease now owner (id ∷ ids)) s.events in
    dispatch_events message_of up now owner (claimed owner (id ∷ ids) leased)
      (record { events = leased; cache = s.cache })

-- `dispatchBatch`
unfoldable pub dispatch_batch :
    (DeliveryFault → Text) → Bool → ℕ → ℕ → OutboxState → ℕ × OutboxState
dispatch_batch message_of up now owner s =
    dispatch_ids message_of up now owner (take 50 (due_ids now s.events)) s
