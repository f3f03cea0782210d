-- ===== src/Launch/Relay/Retries.antt =====
-- What a second relay of the same launch gives.
use spawn_backend.Prelude.{ℕ, ◌≡◌, refl, sym, ap, true, false, some, inl, inr, Bool-cases}
use spawn_backend.Prelude.Outcome.{Outcome, ok, err}
use spawn_backend.Common.Decimal.{Text}
use spawn_backend.Common.Dict.{find, put, find-put}
use spawn_backend.Launch.Relay.{
  LaunchRecord, Store, Environment, Response, Started, present, is_relayed, start_known, start_at,
  relay_start, add_reservation, mark_submitted,
}
use spawn_backend.Launch.Relay.Keys.{reserved-found}
use spawn_backend.Launch.Relay.Submission.{
  current, submit, relay_finish, first_answer, relay_from, relay,
}

-- What the first relay may come to, from the reservation on.
finish-sent :
    (env : Environment) (result : Outcome Text ℕ) (launch : LaunchRecord) (key : ℕ) (s s' : Store)
    (response : Response)
    → first_answer (relay_finish env result launch key s) ≡ (ok (response, false), s')
    → (hash : ℕ) × (submit (ok hash) launch key s ≡ (ok response, s'))
unfolding relay_finish first_answer submit
finish-sent env result launch key s s' response e =
    elim (Bool-cases (env.has_chain launch.chain_id)) [
      | inr away ↦ (let h = rw away at e in cc)
      | inl here ↦ elim (Bool-cases (env.trusted_operator_is_zero launch.chain_id)) [
        | inl disabled ↦ (let h = rw (here, disabled) at e in cc)
        | inr enabled ↦ by_result result (rw (here, enabled) at e)
      ]
    ]
  where
    by_result :
        (r : Outcome Text ℕ)
        → first_answer (submit r launch key s) ≡ (ok (response, false), s')
        → (hash : ℕ) × (submit (ok hash) launch key s ≡ (ok response, s'))
    by_result (ok hash) h = (hash, cc)
    by_result (err m) h = cc

start_relayed :
    (env : Environment) (launch_id key : ℕ) (s : Store) (row : LaunchRecord)
    → find s.launches launch_id ≡ some row
    → is_relayed row.state ≡ true
    → relay_start env launch_id key s ≡ Started.answered (present row)
unfolding relay_start start_at start_known
start_relayed env launch_id key s row found relayed = rw (found, relayed) refl

-- If a relay sends the transaction and answers with a response, in a store whose record of that launch
-- carries its id: a relay of the launch, with any key, configuration and state of the chain, on any
-- later store that has the same record of that launch as the first relay left, answers with the same
-- response, marked as replayed, and leaves that store as it is.
pub relay-replays :
    (env env' : Environment) (result result' : Outcome Text ℕ) (launch_id key key' : ℕ)
    (s s' later : Store) (response : Response)
    → ((l : LaunchRecord) → find s.launches launch_id ≡ some l → l.id ≡ launch_id)
    → relay env result launch_id key s ≡ (ok (response, false), s')
    → find later.launches launch_id ≡ find s'.launches launch_id
    → relay env' result' launch_id key' later ≡ (ok (response, true), later)
unfolding relay relay_from submit add_reservation present
relay-replays env env' result result' launch_id key key' s s' later response keyed e unchanged =
    by_start (relay_start env launch_id key s) refl e
  where
    by_start :
        (x : Started)
        → relay_start env launch_id key s ≡ x
        → relay_from env result key s x ≡ (ok (response, false), s')
        → relay_from env' result' key' later (relay_start env' launch_id key' later)
          ≡ (ok (response, true), later)
    by_start (Started.answered r) at h = cc
    by_start (Started.refused f) at h = cc
    by_start (Started.reserved launch) at h =
        let (found, on) = reserved-found env launch_id key s launch at in
        let (hash, sent) =
          finish-sent env result launch key (add_reservation env launch key s) s' response h in
        let updated = mark_submitted hash (current (find s.launches launch.id) launch) in
        let same : s'.launches ≡ put s.launches launch.id updated =
          ap (λ x. x.1.launches) (sym sent) in
        let there : find later.launches launch_id ≡ some updated =
          rw (unchanged, same, sym (keyed launch found)) (find-put s.launches launch.id updated) in
        let answer : response ≡ present updated = cc in
        rw (start_relayed env' launch_id key' later updated there refl, answer) refl
