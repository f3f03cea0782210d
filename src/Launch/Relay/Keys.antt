-- ===== src/Launch/Relay/Keys.antt =====
-- Relays that interleave: a key of a creator sends at most one transaction.
use spawn_backend.Prelude.{
  ℕ, ◌+◌, ◌≤◌, ◌≡◌, ◌≢◌, ◌⊎◌, refl, sym, ap, true, ◌==◌, ◌&&◌, if◌then◌else◌, List, [], ◌∷◌, ◌++◌,
  Option, none, some, inl, inr, Bool-cases, Option-cases, arith,
}
use spawn_backend.Prelude.Outcome.{Outcome, ok, err}
use spawn_backend.Common.Decimal.{Text}
use spawn_backend.Common.Dict.{Dict, find}
use spawn_backend.Launch.Relay.{
  LaunchRecord, Reservation, Sending, Store, Environment, Started, is_for, is_relayed,
  find_reservation, resource, reuse, reserve, start_known, start_at, relay_start, add_reservation,
}
use spawn_backend.Launch.Relay.Submission.{
  complete, submit, relay_finish, Receipt, on_receipt, watch_receipt,
}

-- The store, and the relays that hold a reservation and have not finished.
pub record System : Type 0 where
  pub store : Store
  pub in_flight : List (LaunchRecord × ℕ)

-- A relay starts, a relay finishes with some result of the chain, or a receipt comes in. The start is
-- one step, since the reservation's row is unique.
pub data Step (env : Environment) : System → System → Type 0 where
  starts :
      (launch_id key : ℕ) (launch : LaunchRecord) (s : Store) (flight : List (LaunchRecord × ℕ))
      → relay_start env launch_id key s ≡ Started.reserved launch
      → Step env
          (record { store = s; in_flight = flight })
          (record { store = add_reservation env launch key s; in_flight = (launch, key) ∷ flight })
  finishes :
      (result : Outcome Text ℕ) (launch : LaunchRecord) (key : ℕ) (s : Store)
      (before after : List (LaunchRecord × ℕ))
      → Step env
          (record { store = s; in_flight = before ++ (launch, key) ∷ after })
          (record { store = (relay_finish env result launch key s).1; in_flight = before ++ after })
  watches :
      (receipt : Receipt) (launch_id : ℕ) (s : Store) (flight : List (LaunchRecord × ℕ))
      → Step env
          (record { store = s; in_flight = flight })
          (record { store = watch_receipt receipt launch_id s; in_flight = flight })

pub data Run (env : Environment) : System → System → Type 0 where
  done : (x : System) → Run env x x
  then : (x y z : System) → Run env x y → Step env y z → Run env x z

hits : ℕ → ℕ → ℕ → ℕ → ℕ
hits creator key a b = if a == creator && b == key then 1 else 0

-- The transactions that a creator's key has sent.
unfoldable pub sendings : ℕ → ℕ → List Sending → ℕ
unfolding hits
sendings creator key [] = 0
sendings creator key (x ∷ xs) = hits creator key x.creator x.key + sendings creator key xs

flights : ℕ → ℕ → List (LaunchRecord × ℕ) → ℕ
flights creator key [] = 0
flights creator key ((launch, k) ∷ xs) =
    hits creator key launch.creator_wallet k + flights creator key xs

rows_for : ℕ → ℕ → List Reservation → ℕ
rows_for creator key [] = 0
rows_for creator key (r ∷ rs) =
    let rest = rows_for creator key rs in if is_for creator key r then 1 else rest

flights-append :
    (creator key : ℕ) (xs ys : List (LaunchRecord × ℕ))
    → flights creator key (xs ++ ys) ≡ flights creator key xs + flights creator key ys
unfolding flights
flights-append creator key [] ys = omega arith
flights-append creator key (x ∷ xs) ys = omega (arith, flights-append creator key xs ys)

-- What a creator's key has sent or may still send is covered by its reservation.
record IsCovered (x : System) : Type 0 where
  covered :
      (creator key : ℕ)
      → flights creator key x.in_flight + sendings creator key x.store.sent
        ≤ rows_for creator key x.store.reservations

no_row : {r : Reservation} → some r ≢ none
no_row e = cc

none_reserved :
    (creator key : ℕ) (rs : List Reservation)
    → find_reservation creator key rs ≡ none
    → rows_for creator key rs ≡ 0
unfolding find_reservation rows_for
none_reserved creator key [] e = refl
none_reserved creator key (r ∷ rs) e = elim (Bool-cases (is_for creator key r)) [
  | inl mine ↦ absurd (no_row (rw mine at e))
  | inr other ↦ rw other (none_reserved creator key rs (rw other at e))
]

rows_for-complete :
    (creator key a b id : ℕ) (rs : List Reservation)
    → rows_for creator key (complete a b id rs) ≡ rows_for creator key rs
unfolding complete rows_for
rows_for-complete creator key a b id [] = refl
rows_for-complete creator key a b id (r ∷ rs) = elim (Bool-cases (is_for a b r)) [
  | inl mine ↦ rw (mine, rows_for-complete creator key a b id rs) refl
  | inr other ↦ rw (other, rows_for-complete creator key a b id rs) refl
]

reuse-answers :
    (o : Option LaunchRecord) (existing : Reservation) (hash : ℕ) (launch : LaunchRecord)
    → reuse o existing hash ≢ Started.reserved launch
unfolding reuse
reuse-answers (some completed) existing hash launch e = cc
reuse-answers none existing hash launch e = elim (Bool-cases (existing.request_hash == hash)) [
  | inl same ↦ (let h = rw same at e in cc)
  | inr other ↦ (let h = rw other at e in cc)
]

reserve_lem :
    (env : Environment) (l : LaunchRecord) (o : Option Reservation) (launches : Dict LaunchRecord)
    (launch : LaunchRecord)
    → reserve env l o launches ≡ Started.reserved launch
    → (o ≡ none) × (l ≡ launch)
unfolding reserve
reserve_lem env l none launches launch e = (refl, cc)
reserve_lem env l (some x) launches launch e =
    absurd (reuse-answers (resource launches x) x (env.request_hash l.id) launch e)

start_known_lem :
    (env : Environment) (l : LaunchRecord) (key : ℕ) (s : Store) (launch : LaunchRecord)
    → start_known env l key s ≡ Started.reserved launch
    → (find_reservation launch.creator_wallet key s.reservations ≡ none)
      × (l ≡ launch)
      × (env.operator_configured ≡ true)
unfolding start_known reserve
start_known_lem env l key s launch e = elim (Bool-cases (is_relayed l.state)) [
  | inl relayed ↦ (let h = rw relayed at e in cc)
  | inr fresh ↦ elim (Bool-cases env.operator_configured) [
    | inr off ↦ (let h = rw (fresh, off) at e in cc)
    | inl on ↦
        let h = rw (fresh, on) at e in
        let (free, same) =
          reserve_lem env l (find_reservation l.creator_wallet key s.reservations) s.launches launch
            h in
        (rw (sym same) free, same, on)
  ]
]

-- A start that reserves found the record and no reservation, and has an operator.
pub reserved-found :
    (env : Environment) (launch_id key : ℕ) (s : Store) (launch : LaunchRecord)
    → relay_start env launch_id key s ≡ Started.reserved launch
    → (find s.launches launch_id ≡ some launch) × (env.operator_configured ≡ true)
unfolding relay_start start_at
reserved-found env launch_id key s launch e = elim (Option-cases (find s.launches launch_id)) [
  | inl missing ↦ (let h = rw missing at e in cc)
  | inr (l, found) ↦
      let (free, same, on) = start_known_lem env l key s launch (rw found at e) in
      (rw found (ap some same), on)
]

-- A start that reserves found no reservation.
reserved-unreserved :
    (env : Environment) (launch_id key : ℕ) (s : Store) (launch : LaunchRecord)
    → relay_start env launch_id key s ≡ Started.reserved launch
    → find_reservation launch.creator_wallet key s.reservations ≡ none
unfolding relay_start start_at
reserved-unreserved env launch_id key s launch e = elim (Option-cases (find s.launches launch_id)) [
  | inl missing ↦ (let h = rw missing at e in cc)
  | inr (l, found) ↦ (start_known_lem env l key s launch (rw found at e)).0
]

-- The same creator and key.
hits_one :
    (creator key a b : ℕ)
    → (hits creator key a b ≡ 0) ⊎ ((hits creator key a b ≡ 1) × (a ≡ creator) × (b ≡ key))
unfolding hits
hits_one creator key a b = elim (Bool-cases (a == creator)) [
  | inr other ↦ inl (rw other refl)
  | inl same ↦ elim (Bool-cases (b == key)) [
    | inr other ↦ inl (rw (same, other) refl)
    | inl alike ↦ inr (rw (same, alike) refl, ground arith, ground arith)
  ]
]

sendings-submit :
    (env : Environment) (result : Outcome Text ℕ) (launch : LaunchRecord) (k : ℕ) (s : Store)
    (creator key : ℕ)
    → let s' = (relay_finish env result launch k s).1 in
      (sendings creator key s'.sent
        ≤ hits creator key launch.creator_wallet k + sendings creator key s.sent)
      × (rows_for creator key s'.reservations ≡ rows_for creator key s.reservations)
unfolding relay_finish submit sendings
sendings-submit env result launch k s creator key =
    elim (Bool-cases (env.has_chain launch.chain_id)) [
      | inr away ↦ rw away (omega arith, refl)
      | inl here ↦ elim (Bool-cases (env.trusted_operator_is_zero launch.chain_id)) [
        | inl disabled ↦ rw (here, disabled) (omega arith, refl)
        | inr enabled ↦ rw (here, enabled) (by_result result)
      ]
    ]
  where
    by_result :
        (r : Outcome Text ℕ)
        → (sendings creator key (submit r launch k s).1.sent
            ≤ hits creator key launch.creator_wallet k + sendings creator key s.sent)
          × (rows_for creator key (submit r launch k s).1.reservations
              ≡ rows_for creator key s.reservations)
    by_result (ok hash) = (
      omega arith,
      rows_for-complete creator key launch.creator_wallet k launch.id s.reservations,
    )
    by_result (err m) = (omega arith, refl)

Step-IsCovered : (env : Environment) (x y : System) → Step env x y → IsCovered x → IsCovered y
unfolding add_reservation flights sendings rows_for hits watch_receipt on_receipt
Step-IsCovered env x y (Step.starts launch_id key launch s flight e) c = record {
  covered = λ a k. starts_lem a k (c.covered a k);
}
  where
    starts_lem :
        (a k : ℕ)
        → flights a k flight + sendings a k s.sent ≤ rows_for a k s.reservations
        → flights a k ((launch, key) ∷ flight)
            + sendings a k (add_reservation env launch key s).sent
          ≤ rows_for a k (add_reservation env launch key s).reservations
    starts_lem a k h = elim (hits_one a k launch.creator_wallet key) [
      | inl other ↦ ground arith
      | inr (one, ea, ek) ↦
          let free : find_reservation a k s.reservations ≡ none =
            rw (sym ea, sym ek) (reserved-unreserved env launch_id key s launch e) in
          let z : rows_for a k s.reservations ≡ 0 = none_reserved a k s.reservations free in
          ground arith
    ]
Step-IsCovered env x y (Step.finishes result launch key s before after) c = record {
  covered = λ a k.
      let (few, rows) = sendings-submit env result launch key s a k in
      omega (
        arith,
        few,
        rows,
        c.covered a k,
        flights-append a k before ((launch, key) ∷ after),
        flights-append a k before after,
      );
}
Step-IsCovered env x y (Step.watches receipt launch_id s flight) c = record {
  covered = λ a k. watched a k receipt (find s.launches launch_id) (c.covered a k);
}
  where
    watched :
        (a k : ℕ) (r : Receipt) (o : Option LaunchRecord)
        → flights a k flight + sendings a k s.sent ≤ rows_for a k s.reservations
        → flights a k flight + sendings a k (on_receipt r o s).sent
          ≤ rows_for a k (on_receipt r o s).reservations
    watched a k r none h = h
    watched a k (Receipt.success block) (some row) h = h
    watched a k Receipt.reverted (some row) h = h
    watched a k Receipt.unavailable (some row) h = h

Run-IsCovered : (env : Environment) (x y : System) → Run env x y → IsCovered x → IsCovered y
Run-IsCovered env x y (Run.done x') c = c
Run-IsCovered env x y (Run.then x' m y' run step) c =
    Step-IsCovered env m y step (Run-IsCovered env x m run c)

rows_for_le : (creator key : ℕ) (rs : List Reservation) → rows_for creator key rs ≤ 1
unfolding rows_for
rows_for_le creator key [] = omega arith
rows_for_le creator key (r ∷ rs) = ground (arith, rows_for_le creator key rs)

-- However relays and receipts interleave, from a store in which nothing was sent and a system with no
-- relay under way: a creator's idempotency key never sends more than one transaction.
pub one_sending :
    (env : Environment) (s : Store) (y : System) (creator key : ℕ)
    → s.sent ≡ []
    → Run env (record { store = s; in_flight = [] }) y
    → sendings creator key y.store.sent ≤ 1
unfolding flights sendings
one_sending env s y creator key nothing run =
    let first : IsCovered (record { store = s; in_flight = [] }) = record {
      covered = λ a k. rw nothing (omega arith);
    } in
    let c = Run-IsCovered env (record { store = s; in_flight = [] }) y run first in
    omega (arith, c.covered creator key, rows_for_le creator key y.store.reservations)
