-- ===== src/Tests/Launch.antt =====
-- The relay at a concrete launch.
use spawn_backend.Prelude.{ℕ, ◌++◌, ◌≤◌, ◌≡◌, refl, sym, true, false, [], ◌∷◌, none, some}
use spawn_backend.Prelude.Outcome.{ok, err}
use spawn_backend.Common.Dict.{find, put}
use spawn_backend.Launch.Relay.{
  LaunchRecord, LaunchState, Store, Environment, Response, Started, present, find_reservation,
  start_known, start_at, relay_start, reserve, add_reservation,
}
use spawn_backend.Launch.Relay.Submission.{
  current, complete, submit, relay_finish, first_answer, relay_from, relay,
}
use spawn_backend.Launch.Relay.Keys.{Step, Run, sendings, one_sending}
use spawn_backend.Launch.Relay.Retries.{relay-replays}

abbrev prepared : ℕ → LaunchRecord
prepared id = record {
  id = id;
  creator_wallet = 9;
  state = LaunchState.prepared;
  transaction_hash = none;
  block_number = none;
  failure_reason = none;
  predicted_token = 77;
  config_hash = 88;
  chain_id = 8_453;
  config = [];
}

abbrev launch : LaunchRecord
launch = prepared 1

abbrev env : Environment
env = record {
  operator_configured = true;
  has_chain = λ chain. true;
  trusted_operator_is_zero = λ chain. false;
  request_hash = λ id. id;
}

abbrev store : Store
store = record { launches = (1, launch) ∷ []; reservations = []; sent = [] }

abbrev response : Response
response = record {
  launch_id = 1;
  state = LaunchState.submitted;
  transaction_hash = some 500;
  predicted_token = 77;
  config_hash = 88;
}

abbrev after : Store
after = (relay_finish env (ok 500) launch 4 (add_reservation env launch 4 store)).1

starts : relay_start env 1 4 store ≡ Started.reserved launch
unfolding relay_start start_at start_known reserve find_reservation find
starts = refl

abbrev two_steps :
    Run env (record { store = store; in_flight = [] }) (record { store = after; in_flight = [] })
two_steps =
    Run.then _ (record { store = add_reservation env launch 4 store; in_flight = (launch, 4) ∷ [] })
      _
      (Run.then _ (record { store = store; in_flight = [] }) _ (Run.done _)
        (Step.starts 1 4 launch store [] starts))
      (Step.finishes (ok 500) launch 4 (add_reservation env launch 4 store) [] [])

one_sending_example : sendings 9 4 after.sent ≤ 1
one_sending_example =
    one_sending env store (record { store = after; in_flight = [] }) 9 4 refl two_steps

relay_runs : relay env (ok 500) 1 4 store ≡ (ok (response, false), after)
unfolding relay relay_from first_answer relay_finish submit current complete present relay_start
    start_at start_known reserve find_reservation find put add_reservation
relay_runs = refl

launch_keyed : (l : LaunchRecord) → find store.launches 1 ≡ some l → l.id ≡ 1
unfolding find
launch_keyed l e = let same : launch ≡ l = cc in rw (sym same) refl

-- Another launch was prepared since.
abbrev later : Store
later = record {
  launches = after.launches ++ (2, prepared 2) ∷ [];
  reservations = after.reservations;
  sent = after.sent;
}

record_unchanged : find later.launches 1 ≡ find after.launches 1
unfolding relay_finish submit current complete find put add_reservation
record_unchanged = refl

relay-replays_example : relay env (err []) 1 6 later ≡ (ok (response, true), later)
relay-replays_example =
    relay-replays env env (ok 500) (err []) 1 4 6 store after later response launch_keyed relay_runs
      record_unchanged
