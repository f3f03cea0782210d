-- ===== src/Infrastructure/Outbox/Rows.antt =====
-- The rows of the outbox through the claim and the loop of a batch.
use spawn_backend.Prelude.{
  ℕ, ◌+◌, ◌≤◌, ◌≡◌, ◌∙◌, refl, sym, ap, ◌==◌, true, false, if◌then◌else◌, List, [], ◌∷◌, map, All,
  inl, inr, Bool-cases, arith,
}
use spawn_backend.Prelude.Outcome.{ok}
use spawn_backend.Common.Decimal.{Text}
use spawn_backend.Infrastructure.Cache.{Generations}
use spawn_backend.Infrastructure.Outbox.{
  OutboxEvent, OutboxState, DeliveryFault, is_unpublished, is_free, includes, has_owner, is_claimed,
  claimed, deliver, mark_published, is_held, publish_row, dispatch_event, dispatch_events,
}

-- The events that are not published yet.
unfoldable pub pending : List OutboxEvent → ℕ
pending [] = 0
pending (e ∷ es) = (if is_unpublished e then 1 else 0) + pending es

-- The topic is supported and the payload has a numeral.
unfoldable pub IsDeliverable : OutboxEvent → Type 0
IsDeliverable e = (cache : Generations) → (after : Generations) × (deliver true e cache ≡ ok after)

-- An event can be delivered, and from `start` on is due unless it is published.
pub record IsReady (start : ℕ) (e : OutboxEvent) : Type 0 where
  pub deliverable : IsDeliverable e
  pub available : e.available_at ≤ start
  pub free : is_free start e.lease_expires_at ≡ true

-- What a row is after the turns of the loop, where all of them deliver.
unfoldable pub published_by : ℕ → ℕ → List OutboxEvent → OutboxEvent → OutboxEvent
published_by now owner [] row = row
published_by now owner (e ∷ es) row = published_by now owner es (publish_row now owner e.id row)

pub map-map :
    (f g : OutboxEvent → OutboxEvent) (es : List OutboxEvent)
    → map f (map g es) ≡ map (λ e. f (g e)) es
map-map f g [] = refl
map-map f g (e ∷ es) = ap (λ rest. f (g e) ∷ rest) (map-map f g es)

pub map_same :
    (f : OutboxEvent → OutboxEvent) (es : List OutboxEvent)
    → ((e : OutboxEvent) → f e ≡ e)
    → map f es ≡ es
map_same f [] same = refl
map_same f (e ∷ es) same = rw (same e, map_same f es same) refl

pub dispatch_events-published :
    (message_of : DeliveryFault → Text) (now owner : ℕ) (es : List OutboxEvent) (s : OutboxState)
    → All IsDeliverable es
    → (dispatch_events message_of true now owner es s).1.events
      ≡ map (published_by now owner es) s.events
unfolding dispatch_events dispatch_event published_by IsDeliverable
dispatch_events-published message_of now owner [] s all =
    sym (map_same (published_by now owner []) s.events (λ e. refl))
dispatch_events-published message_of now owner (e ∷ es) s (first, all) =
    let (after, delivered) = first s.cache in
    rw delivered (
      dispatch_events-published message_of now owner es
        (record { events = map (publish_row now owner e.id) s.events; cache = after }) all
      ∙ map-map (published_by now owner es) (publish_row now owner e.id) s.events)

unfoldable pub ids_of : List OutboxEvent → List ℕ
ids_of es = map (λ e. e.id) es

pub published_by-done :
    (now owner : ℕ) (es : List OutboxEvent) (row : OutboxEvent)
    → is_unpublished row ≡ false
    → published_by now owner es row ≡ row
unfolding published_by publish_row
published_by-done now owner [] row done = refl
published_by-done now owner (e ∷ es) row done =
    let free : is_held owner e.id row ≡ false = ground (arith, done) in
    rw free (published_by-done now owner es row done)

pub published_by-other :
    (now owner : ℕ) (es : List OutboxEvent) (row : OutboxEvent)
    → includes row.id (ids_of es) ≡ false
    → published_by now owner es row ≡ row
unfolding published_by publish_row includes ids_of
published_by-other now owner [] row out = refl
published_by-other now owner (e ∷ es) row out = elim (Bool-cases (e.id == row.id)) [
  | inl same ↦ (let h = rw same at out in cc)
  | inr other ↦
      let free : is_held owner e.id row ≡ false = ground arith in
      rw free (published_by-other now owner es row (rw other at out))
]

pub published_by-held :
    (now owner : ℕ) (es : List OutboxEvent) (row : OutboxEvent)
    → is_unpublished row ≡ true
    → has_owner owner row.lease_owner ≡ true
    → includes row.id (ids_of es) ≡ true
    → published_by now owner es row ≡ mark_published now row
unfolding published_by publish_row includes ids_of is_unpublished
published_by-held now owner [] row new mine there = cc
published_by-held now owner (e ∷ es) row new mine there = elim (Bool-cases (e.id == row.id)) [
  | inl same ↦
      let self : (row.id == e.id) ≡ true = ground arith in
      rw (self, mine, new) (published_by-done now owner es (mark_published now row) refl)
  | inr other ↦
      let free : (row.id == e.id) ≡ false = ground arith in
      rw free (published_by-held now owner es row new mine (rw other at there))
]

pub All-weaken :
    {A : Type 0} {P Q : A → Type 0} (es : List A) → ((e : A) → P e → Q e) → All P es → All Q es
All-weaken [] f all = tt
All-weaken (e ∷ es) f (h, all) = (f e h, All-weaken es f all)

-- Every claimed row of the table is in the list of the claimed.
pub claimed_first :
    (owner : ℕ) (ids : List ℕ) (e : OutboxEvent) (es : List OutboxEvent)
    → is_claimed owner ids e ≡ true
    → includes e.id (ids_of (claimed owner ids (e ∷ es))) ≡ true
unfolding claimed ids_of includes
claimed_first owner ids e es mine =
    let self : (e.id == e.id) ≡ true = ground arith in rw (mine, self) refl

pub claimed_later :
    (owner : ℕ) (ids : List ℕ) (e : OutboxEvent) (es : List OutboxEvent) (id : ℕ)
    → includes id (ids_of (claimed owner ids es)) ≡ true
    → includes id (ids_of (claimed owner ids (e ∷ es))) ≡ true
unfolding claimed ids_of includes
claimed_later owner ids e es id there = elim (Bool-cases (is_claimed owner ids e)) [
  | inr other ↦ rw other there
  | inl mine ↦ elim (Bool-cases (e.id == id)) [
    | inl same ↦ rw (mine, same) refl
    | inr differs ↦ rw (mine, differs) there
  ]
]

pub claimed_each :
    (owner : ℕ) (ids : List ℕ) (table : List OutboxEvent)
    → All
        (λ row.
          is_claimed owner ids row ≡ true
          → includes row.id (ids_of (claimed owner ids table)) ≡ true)
        table
claimed_each owner ids [] = tt
claimed_each owner ids (e ∷ es) = (
  claimed_first owner ids e es,
  All-weaken es (λ row there mine. claimed_later owner ids e es row.id (there mine))
      (claimed_each owner ids es),
)

pub claimed-includes :
    (owner : ℕ) (ids : List ℕ) (table : List OutboxEvent) (id : ℕ)
    → includes id ids ≡ false
    → includes id (ids_of (claimed owner ids table)) ≡ false
unfolding claimed ids_of includes is_claimed
claimed-includes owner ids [] id out = refl
claimed-includes owner ids (e ∷ es) id out =
    let ih = claimed-includes owner ids es id out in
    elim (Bool-cases (is_claimed owner ids e)) [
      | inr other ↦ rw other ih
      | inl mine ↦ elim (Bool-cases (e.id == id)) [
        | inr differs ↦ rw (mine, differs) ih
        | inl same ↦
            let at : e.id ≡ id = ground arith in
            let out' : includes e.id ids ≡ false = rw at out in (let h = rw out' at mine in cc)
      ]
    ]
