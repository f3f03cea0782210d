-- ===== src/Infrastructure/Outbox/Leases.antt =====
-- What a batch takes of the pending events, and what it leaves.
use spawn_backend.Prelude.{
  ℕ, zero, suc, ◌+◌, ◌≤◌, ◌≡◌, ◌∙◌, refl, min, leb, ◌==◌, ◌&&◌, not, true, false, if◌then◌else◌,
  List, [], ◌∷◌, map, take, All, Option, none, some, inl, inr, Bool-cases, arith,
}
use spawn_backend.Infrastructure.Outbox.{
  OutboxEvent, is_unpublished, is_free, is_due, due_ids, includes, lease, with_lease, has_owner,
  is_claimed, deliver, mark_published,
}
use spawn_backend.Infrastructure.Outbox.Rows.{
  pending, IsDeliverable, IsReady, published_by, ids_of, published_by-done, published_by-other,
  published_by-held, All-weaken,
}

-- The pending events that are not among `ids`.
unfoldable pub left_out : List ℕ → List OutboxEvent → ℕ
left_out ids [] = 0
left_out ids (e ∷ es) =
    (if is_unpublished e && not (includes e.id ids) then 1 else 0) + left_out ids es

pub left_out_none : (es : List OutboxEvent) → left_out [] es ≡ pending es
unfolding left_out pending includes
left_out_none [] = refl
left_out_none (e ∷ es) = elim (Bool-cases (is_unpublished e)) [
  | inl new ↦ rw (new, left_out_none es) refl
  | inr done ↦ rw (done, left_out_none es) refl
]

pub left_out_le : (ids : List ℕ) (es : List OutboxEvent) → left_out ids es ≤ pending es
unfolding left_out pending
left_out_le ids [] = omega arith
left_out_le ids (e ∷ es) = ground (arith, left_out_le ids es)

-- The first events that are due are as many as are asked for, or all that are pending.
pub left_out-taken :
    (now n : ℕ) (ids : List ℕ) (es : List OutboxEvent)
    → All (λ e. is_due now e ≡ is_unpublished e) es
    → All (λ id. includes id ids ≡ true) (take n (due_ids now es))
    → left_out ids es + min n (pending es) ≤ pending es
unfolding left_out pending due_ids
left_out-taken now zero ids es due taken = omega (arith, left_out_le ids es)
left_out-taken now (suc n) ids [] due taken = omega arith
left_out-taken now (suc n) ids (e ∷ es) (due, all) taken = elim (Bool-cases (is_unpublished e)) [
  | inr done ↦
      let idle : is_due now e ≡ false = due ∙ done in
      rw done (omega (arith, left_out-taken now (suc n) ids es all (rw idle at taken)))
  | inl new ↦
      let is : is_due now e ≡ true = due ∙ new in
      let (first, rest) : All (λ id. includes id ids ≡ true) (e.id ∷ take n (due_ids now es)) =
        rw is at taken in
      rw (new, first) (omega (arith, left_out-taken now n ids es all rest))
]

pub includes_each : (ids : List ℕ) → All (λ id. includes id ids ≡ true) ids
unfolding includes
includes_each [] = tt
includes_each (x ∷ xs) =
    let self : (x == x) ≡ true = ground arith in
    (
      rw self refl,
      All-weaken xs
          (λ id there. elim (Bool-cases (x == id)) [
            | inl same ↦ rw same refl
            | inr other ↦ rw other there
          ])
          (includes_each xs),
    )

pub All-map :
    (P : OutboxEvent → Type 0) (f : OutboxEvent → OutboxEvent) (es : List OutboxEvent)
    → All P (map f es)
    → All (λ e. P (f e)) es
All-map P f [] all = tt
All-map P f (e ∷ es) (h, all) = (h, All-map P f es all)

pub map-All :
    (P : OutboxEvent → Type 0) (f : OutboxEvent → OutboxEvent) (es : List OutboxEvent)
    → All (λ e. P (f e)) es
    → All P (map f es)
map-All P f [] all = tt
map-All P f (e ∷ es) (h, all) = (h, map-All P f es all)

pub is_free-later :
    (start now : ℕ) (o : Option ℕ) → start ≤ now → is_free start o ≡ true → is_free now o ≡ true
unfolding is_free
is_free-later start now none le free = refl
is_free-later start now (some expires) le free = ground arith

pub ready_due :
    (start now : ℕ) (e : OutboxEvent)
    → start ≤ now
    → IsReady start e
    → is_due now e ≡ is_unpublished e
unfolding is_due
ready_due start now e le r =
    let early : e.available_at ≤ start = r.available in
    let a : leb e.available_at now ≡ true = ground arith in
    rw (a, is_free-later start now e.lease_expires_at le r.free)
      (elim (Bool-cases (is_unpublished e)) [ inl new ↦ rw new refl | inr done ↦ rw done refl ])

-- A row of the table behind a batch that claims these rows.
unfoldable pub row_after : ℕ → ℕ → List ℕ → List OutboxEvent → OutboxEvent → OutboxEvent
row_after now owner ids es row = published_by now owner es (lease now owner ids row)

pub lease_done :
    (now owner : ℕ) (ids : List ℕ) (row : OutboxEvent)
    → is_unpublished row ≡ false
    → lease now owner ids row ≡ row
unfolding lease
lease_done now owner ids row done = elim (Bool-cases (includes row.id ids)) [
  | inl there ↦ rw (there, done) refl
  | inr out ↦ rw out refl
]

pub lease_out :
    (now owner : ℕ) (ids : List ℕ) (row : OutboxEvent)
    → includes row.id ids ≡ false
    → lease now owner ids row ≡ row
unfolding lease
lease_out now owner ids row out = rw out refl

pub lease_taken :
    (now owner : ℕ) (ids : List ℕ) (row : OutboxEvent)
    → is_unpublished row ≡ true
    → includes row.id ids ≡ true
    → is_free now row.lease_expires_at ≡ true
    → lease now owner ids row ≡ with_lease now owner row
unfolding lease
lease_taken now owner ids row new there free = rw (there, new, free) refl

pub own_lease :
    (now owner : ℕ) (row : OutboxEvent)
    → has_owner owner (with_lease now owner row).lease_owner ≡ true
unfolding has_owner
own_lease now owner row = ground arith

pub claims_lease :
    (now owner : ℕ) (ids : List ℕ) (row : OutboxEvent)
    → is_unpublished row ≡ true
    → includes row.id ids ≡ true
    → is_claimed owner ids (with_lease now owner row) ≡ true
unfolding is_claimed is_unpublished
claims_lease now owner ids row new there = rw (there, own_lease now owner row, new) refl

pub published-IsReady :
    (start now owner : ℕ) (row : OutboxEvent)
    → IsReady start row
    → (is_unpublished (mark_published now (with_lease now owner row)) ≡ false)
      × IsReady start (mark_published now (with_lease now owner row))
unfolding IsDeliverable deliver is_unpublished is_free
published-IsReady start now owner row ready =
    (refl, record { deliverable = ready.deliverable; available = ready.available; free = refl })

-- Behind a batch a row is pending if it was and was not taken, and it is ready.
pub row_after_lem :
    (start now owner : ℕ) (ids : List ℕ) (es : List OutboxEvent) (row : OutboxEvent)
    → start ≤ now
    → IsReady start row
    → (is_claimed owner ids (lease now owner ids row) ≡ true
        → includes (lease now owner ids row).id (ids_of es) ≡ true)
    → (includes row.id ids ≡ false → includes row.id (ids_of es) ≡ false)
    → (is_unpublished (row_after now owner ids es row)
        ≡ (is_unpublished row && not (includes row.id ids)))
      × IsReady start (row_after now owner ids es row)
unfolding row_after is_unpublished
row_after_lem start now owner ids es row le ready within without =
    elim (Bool-cases (is_unpublished row)) [
      | inr done ↦
          rw (lease_done now owner ids row done, published_by-done now owner es row done, done)
            (refl, ready)
      | inl new ↦ elim (Bool-cases (includes row.id ids)) [
        | inr out ↦
            rw
              (
                lease_out now owner ids row out,
                published_by-other now owner es row (without out),
                new,
                out,
              )
              (refl, ready)
        | inl taken ↦
            let free = is_free-later start now row.lease_expires_at le ready.free in
            let leased = lease_taken now owner ids row new taken free in
            let there : includes row.id (ids_of es) ≡ true =
              rw leased at within (claims_lease now owner ids row new taken) in
            let held =
              published_by-held now owner es (with_lease now owner row) new
                (own_lease now owner row) there in
            rw (leased, held, new, taken) (published-IsReady start now owner row ready)
      ]
    ]

-- The rows behind a batch, all of them.
pub rows_after :
    (start now owner : ℕ) (ids : List ℕ) (es rows : List OutboxEvent)
    → start ≤ now
    → All (IsReady start) rows
    → All
        (λ row.
          is_claimed owner ids (lease now owner ids row) ≡ true
          → includes (lease now owner ids row).id (ids_of es) ≡ true)
        rows
    → ((id : ℕ) → includes id ids ≡ false → includes id (ids_of es) ≡ false)
    → (pending (map (row_after now owner ids es) rows) ≡ left_out ids rows)
      × All (IsReady start) (map (row_after now owner ids es) rows)
unfolding pending left_out
rows_after start now owner ids es [] le ready within without = (refl, tt)
rows_after start now owner ids es (row ∷ rows) le (first, ready) (here, within) without =
    let (new, still) = row_after_lem start now owner ids es row le first here (without row.id) in
    let (rest, all) = rows_after start now owner ids es rows le ready within without in
    (rw (new, rest) refl, (still, all))
