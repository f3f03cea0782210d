-- ===== src/Launch/Prepare/Again.antt =====
-- A launch that is prepared again: one record for a configuration and a creator.
use spawn_backend.Prelude.{
  ℕ, ◌≡◌, ◌∙◌, refl, sym, ap, ◌==◌, true, List, [], ◌∷◌, length, some, inl, inr, Bool-cases,
  Option-cases, arith,
}
use spawn_backend.Prelude.Outcome.{ok}
use spawn_backend.Launch.Prepare.{PrepareEnvironment, PrepareInput, PrepareResponse, prepare_config}
use spawn_backend.Launch.Prepare.Records.{
  PreparedLaunch, is_launch_of, find_launch, update_launch, refresh, record_launch, prepare,
  new_launch,
}

length-update_launch :
    (id : ℕ) (input : PrepareInput) (response : PrepareResponse) (launches : List PreparedLaunch)
    → length (update_launch id input response launches) ≡ length launches
unfolding update_launch
length-update_launch id input response [] = refl
length-update_launch id input response (r ∷ rs) = elim (Bool-cases (r.id == id)) [
  | inl this ↦ rw (this, length-update_launch id input response rs) refl
  | inr other ↦ rw (other, length-update_launch id input response rs) refl
]

-- An update keeps the key, the identifier and the state of what is found.
find_launch-update_launch :
    (chain_id hash creator id : ℕ) (input : PrepareInput) (response : PrepareResponse)
    (launches : List PreparedLaunch) (e : PreparedLaunch)
    → find_launch chain_id hash creator launches ≡ some e
    → (e' : PreparedLaunch) × (find_launch chain_id hash creator
          (update_launch id input response launches)
        ≡ some e')
      × (e'.id ≡ e.id)
      × (e'.state ≡ e.state)
unfolding find_launch update_launch
find_launch-update_launch chain_id hash creator id input response [] e h = cc
find_launch-update_launch chain_id hash creator id input response (r ∷ rs) e h =
    elim (Bool-cases (is_launch_of chain_id hash creator r)) [
      | inl mine ↦
          let h' : some r ≡ some e = rw mine at h in
          let same : r ≡ e = cc in
          elim (Bool-cases (r.id == id)) [
            | inl this ↦
                rw (this, mine)
                  (refresh input response r, refl, ap (λ x. x.id) same, ap (λ x. x.state) same)
            | inr other ↦ rw (other, mine) (r, refl, ap (λ x. x.id) same, ap (λ x. x.state) same)
          ]
      | inr other ↦
          let ih =
            find_launch-update_launch chain_id hash creator id input response rs e
              (rw other at h) in
          elim (Bool-cases (r.id == id)) [
            | inl this ↦ rw (this, other) ih
            | inr that ↦ rw (that, other) ih
          ]
    ]

-- The record of a configuration is found behind its preparation.
record_launch-found :
    (id chain_id : ℕ) (input : PrepareInput) (response : PrepareResponse)
    (launches : List PreparedLaunch)
    → (e : PreparedLaunch) × (find_launch chain_id response.config_hash input.creator_wallet_address
          (record_launch id chain_id input response launches).1
        ≡ some e)
      × (e.id ≡ (record_launch id chain_id input response launches).0.launch_id)
unfolding record_launch find_launch
record_launch-found id chain_id input response launches =
    let creator = input.creator_wallet_address in
    elim (Option-cases (find_launch chain_id response.config_hash creator launches)) [
      | inr (e, there) ↦
          let (e', found, as_before, state) =
            find_launch-update_launch chain_id response.config_hash creator e.id input response
              launches e there in
          rw there (e', found, as_before)
      | inl missing ↦
          let new = new_launch id chain_id input response in
          let mine : is_launch_of chain_id response.config_hash creator new ≡ true = ground arith in
          rw (missing, mine) (new, refl, refl)
    ]

record_launch-update :
    (id chain_id : ℕ) (input : PrepareInput) (response : PrepareResponse)
    (launches : List PreparedLaunch) (e : PreparedLaunch)
    → find_launch chain_id response.config_hash input.creator_wallet_address launches ≡ some e
    → record_launch id chain_id input response launches
      ≡ (record response { launch_id = e.id }, update_launch e.id input response launches)
unfolding record_launch
record_launch-update id chain_id input response launches e found = rw found refl

-- Two requests of one creator are prepared, one behind the other, and their configurations have the
-- same hash (which leaves out the deadline). Then both answers have the same launch identifier, and
-- the second adds no record.
pub prepare-again :
    (env : PrepareEnvironment) (first_id second_id : ℕ) (first second : PrepareInput)
    (launches : List PreparedLaunch) (a b : PrepareResponse)
    → prepare_config env first ≡ ok a
    → prepare_config env second ≡ ok b
    → a.config_hash ≡ b.config_hash
    → first.creator_wallet_address ≡ second.creator_wallet_address
    → let before = prepare env first_id first launches in
      let after = prepare env second_id second before.1 in
      (id : ℕ) × (ra : PrepareResponse) × (rb : PrepareResponse) × (before.0 ≡ ok ra)
      × (after.0 ≡ ok rb)
      × (ra.launch_id ≡ id)
      × (rb.launch_id ≡ id)
      × (length after.1 ≡ length before.1)
unfolding prepare
prepare-again env first_id second_id first second launches a b ea eb hash author =
    let (ra, between) = record_launch first_id env.chain_id first a launches in
    let (e, found, id) = record_launch-found first_id env.chain_id first a launches in
    let found' : find_launch env.chain_id b.config_hash second.creator_wallet_address between
        ≡ some e =
      rw (sym hash, sym author) found in
    let second_time = record_launch-update second_id env.chain_id second b between e found' in
    rw (ea, eb)
      (
        e.id,
        ra,
        record b { launch_id = e.id },
        refl,
        ap (λ p. ok p.0) second_time,
        sym id,
        refl,
        ap (λ p. length p.1) second_time ∙ length-update_launch e.id second b between,
      )
