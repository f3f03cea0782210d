-- ===== src/Launch/Relay/Submission.antt =====
-- The second part of the relay: signing and sending, and what becomes of the transaction.
use spawn_backend.Prelude.{
  ℕ, Bool, true, false, not, if◌then◌else◌, List, [], ◌∷◌, Option, none, some, take,
}
use spawn_backend.Prelude.Outcome.{Outcome, ok, err}
use spawn_backend.Common.Decimal.{Text}
use spawn_backend.Common.Dict.{Dict, find, put}
use spawn_backend.Launch.Relay.{
  LaunchRecord, Failure, Reservation, Store, Environment, RelayError, Response, Started, present,
  is_for, relay_start, add_reservation, mark_submitted, mark_failed, mark_mined,
}

-- `launchRecord.update`, which gives back the row as updated.
unfoldable pub current : Option LaunchRecord → LaunchRecord → LaunchRecord
current none launch = launch
current (some row) launch = row

-- The reservation's row as `COMPLETED`.
unfoldable pub complete : ℕ → ℕ → ℕ → List Reservation → List Reservation
complete creator key launch_id [] = []
complete creator key launch_id (r ∷ rs) =
    let rest = complete creator key launch_id rs in
    if is_for creator key r
    then (record {
      wallet_address = r.wallet_address;
      key = r.key;
      request_hash = r.request_hash;
      completed = true;
      resource_id = some launch_id;
    }
        ∷ rest)
    else r ∷ rest

-- The `try` block and its `catch`: what signing and sending gave is a hash or an error's message.
unfoldable pub submit :
    Outcome Text ℕ → LaunchRecord → ℕ → Store → Outcome RelayError Response × Store
submit (ok hash) launch key s =
    let updated = mark_submitted hash (current (find s.launches launch.id) launch) in
    (
      ok (present updated),
      record {
        launches = put s.launches launch.id updated;
        reservations = complete launch.creator_wallet key launch.id s.reservations;
        sent =
            record {
              launch_id = launch.id;
              creator = launch.creator_wallet;
              key = key;
              hash = hash;
            }
            ∷ s.sent;
      },
    )
submit (err message) launch key s = (
  err (RelayError.launch_broadcast_failed message),
  record {
    launches = put s.launches launch.id (
        mark_failed (Failure.message (take 1_000 message))
          (current (find s.launches launch.id) launch));
    reservations = s.reservations;
    sent = s.sent;
  },
)

-- `relay` from the reservation on.
unfoldable pub relay_finish :
    Environment → Outcome Text ℕ → LaunchRecord → ℕ → Store → Outcome RelayError Response × Store
relay_finish env result launch key s =
    if not (env.has_chain launch.chain_id)
    then (err RelayError.protocol_not_deployed, s)
    else if env.trusted_operator_is_zero launch.chain_id
    then (err RelayError.relay_disabled, s)
    else submit result launch key s

-- `{ response, replayed: false }`
unfoldable pub first_answer :
    Outcome RelayError Response × Store → Outcome RelayError (Response × Bool) × Store
first_answer (ok response, s) = (ok (response, false), s)
first_answer (err e, s) = (err e, s)

unfoldable pub relay_from :
    Environment
    → Outcome Text ℕ
    → ℕ
    → Store
    → Started
    → Outcome RelayError (Response × Bool) × Store
relay_from env result key s (Started.answered response) = (ok (response, true), s)
relay_from env result key s (Started.refused e) = (err e, s)
relay_from env result key s (Started.reserved launch) =
    first_answer (relay_finish env result launch key (add_reservation env launch key s))

-- `relay`, with nothing else in between.
unfoldable pub relay :
    Environment → Outcome Text ℕ → ℕ → ℕ → Store → Outcome RelayError (Response × Bool) × Store
relay env result launch_id key s = relay_from env result key s (relay_start env launch_id key s)

pub data Receipt : Type 0 where
  success : ℕ → Receipt
  reverted unavailable : Receipt

abbrev pub set_launches : Dict LaunchRecord → Store → Store
set_launches launches s = record {
  launches = launches;
  reservations = s.reservations;
  sent = s.sent;
}

unfoldable pub on_receipt : Receipt → Option LaunchRecord → Store → Store
on_receipt receipt none s = s
on_receipt (Receipt.success block) (some row) s =
    set_launches (put s.launches row.id (mark_mined block row)) s
on_receipt Receipt.reverted (some row) s =
    set_launches (put s.launches row.id (mark_failed Failure.transaction_reverted_on_chain row)) s
on_receipt Receipt.unavailable (some row) s = s

-- `watchReceipt`
unfoldable pub watch_receipt : Receipt → ℕ → Store → Store
watch_receipt receipt launch_id s = on_receipt receipt (find s.launches launch_id) s
