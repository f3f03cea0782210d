-- ===== src/Launch/Relay.antt =====
-- The relay of launches: `LaunchRelayService` of src/modules/launch/launch-relay.service.ts. The
-- database answers every query, and the record's numbers and the operator's key are well formed;
-- the chain is a parameter, through the result of signing and sending the transaction.
pub mod Keys
pub mod Submission
pub mod Retries
use spawn_backend.Prelude.{
  ℕ, ◌==◌, ◌&&◌, ◌||◌, not, Bool, true, false, if◌then◌else◌, List, [], ◌∷◌, Option, none, some,
}
use spawn_backend.Prelude.Outcome.{Outcome, ok, err}
use spawn_backend.Common.Decimal.{Text}
use spawn_backend.Common.Dict.{Dict, find, put}

pub data LaunchState : Type 0 where
  prepared submitted confirmed failed : LaunchState

-- Why a launch failed: the error's message, or the text for a reverted transaction.
pub data Failure : Type 0 where
  message : Text → Failure
  transaction_reverted_on_chain : Failure

-- A row of the launch records; `config` is what the signature covers.
pub record LaunchRecord : Type 0 where
  pub id : ℕ
  pub creator_wallet : ℕ
  pub state : LaunchState
  pub transaction_hash : Option ℕ
  pub block_number : Option ℕ
  pub failure_reason : Option Failure
  pub predicted_token : ℕ
  pub config_hash : ℕ
  pub chain_id : ℕ
  pub config : Text

-- A row of the idempotency requests in the relay's scope.
pub record Reservation : Type 0 where
  pub wallet_address : ℕ
  pub key : ℕ
  pub request_hash : ℕ
  pub completed : Bool
  pub resource_id : Option ℕ

-- A transaction sent to the chain.
pub record Sending : Type 0 where
  pub launch_id : ℕ
  pub creator : ℕ
  pub key : ℕ
  pub hash : ℕ

pub record Store : Type 0 where
  pub launches : Dict LaunchRecord
  pub reservations : List Reservation
  pub sent : List Sending

-- The configuration, and the hash of a request's body.
pub record Environment : Type 0 where
  pub operator_configured : Bool
  pub has_chain : ℕ → Bool
  pub trusted_operator_is_zero : ℕ → Bool
  pub request_hash : ℕ → ℕ

pub data RelayError : Type 0 where
  launch_record_not_found operator_not_configured : RelayError
  idempotency_key_reused request_in_progress : RelayError
  protocol_not_deployed relay_disabled : RelayError
  launch_broadcast_failed : Text → RelayError

pub record Response : Type 0 where
  pub launch_id : ℕ
  pub state : LaunchState
  pub transaction_hash : Option ℕ
  pub predicted_token : ℕ
  pub config_hash : ℕ

unfoldable pub present : LaunchRecord → Response
present r = record {
  launch_id = r.id;
  state = r.state;
  transaction_hash = r.transaction_hash;
  predicted_token = r.predicted_token;
  config_hash = r.config_hash;
}

abbrev pub is_relayed : LaunchState → Bool
is_relayed LaunchState.prepared = false
is_relayed LaunchState.submitted = true
is_relayed LaunchState.confirmed = true
is_relayed LaunchState.failed = false

abbrev pub is_for : ℕ → ℕ → Reservation → Bool
is_for creator key r = r.wallet_address == creator && r.key == key

unfoldable pub find_reservation : ℕ → ℕ → List Reservation → Option Reservation
find_reservation creator key [] = none
find_reservation creator key (r ∷ rs) =
    let later = find_reservation creator key rs in if is_for creator key r then some r else later

-- What the first part of `relay` comes to; `reserved` goes on with the record that it read.
pub data Started : Type 0 where
  answered : Response → Started
  refused : RelayError → Started
  reserved : LaunchRecord → Started

unfoldable pub resource : Dict LaunchRecord → Reservation → Option LaunchRecord
resource launches existing = if existing.completed then found existing.resource_id else none
  where
    found : Option ℕ → Option LaunchRecord
    found none = none
    found (some id) = find launches id

-- An existing reservation: its completed launch, or a refusal.
unfoldable pub reuse : Option LaunchRecord → Reservation → ℕ → Started
reuse (some completed) existing hash = Started.answered (present completed)
reuse none existing hash =
    if not (existing.request_hash == hash)
    then Started.refused RelayError.idempotency_key_reused
    else Started.refused RelayError.request_in_progress

unfoldable pub reserve :
    Environment → LaunchRecord → Option Reservation → Dict LaunchRecord → Started
reserve env launch none launches = Started.reserved launch
reserve env launch (some existing) launches =
    reuse (resource launches existing) existing (env.request_hash launch.id)

unfoldable pub start_known : Environment → LaunchRecord → ℕ → Store → Started
start_known env launch key s =
    if is_relayed launch.state
    then Started.answered (present launch)
    else if not env.operator_configured
    then Started.refused RelayError.operator_not_configured
    else reserve env launch (find_reservation launch.creator_wallet key s.reservations) s.launches

unfoldable pub start_at : Environment → Option LaunchRecord → ℕ → Store → Started
start_at env none key s = Started.refused RelayError.launch_record_not_found
start_at env (some launch) key s = start_known env launch key s

-- `relay` up to the reservation.
unfoldable pub relay_start : Environment → ℕ → ℕ → Store → Started
relay_start env launch_id key s = start_at env (find s.launches launch_id) key s

-- The row that `idempotencyRequest.create` writes.
unfoldable pub add_reservation : Environment → LaunchRecord → ℕ → Store → Store
add_reservation env launch key s = record {
  launches = s.launches;
  reservations =
      record {
        wallet_address = launch.creator_wallet;
        key = key;
        request_hash = env.request_hash launch.id;
        completed = false;
        resource_id = none;
      }
      ∷ s.reservations;
  sent = s.sent;
}

abbrev pub mark_submitted : ℕ → LaunchRecord → LaunchRecord
mark_submitted hash r = record {
  id = r.id;
  creator_wallet = r.creator_wallet;
  state = LaunchState.submitted;
  transaction_hash = some hash;
  block_number = r.block_number;
  failure_reason = r.failure_reason;
  predicted_token = r.predicted_token;
  config_hash = r.config_hash;
  chain_id = r.chain_id;
  config = r.config;
}

abbrev pub mark_failed : Failure → LaunchRecord → LaunchRecord
mark_failed reason r = record {
  id = r.id;
  creator_wallet = r.creator_wallet;
  state = LaunchState.failed;
  transaction_hash = r.transaction_hash;
  block_number = r.block_number;
  failure_reason = some reason;
  predicted_token = r.predicted_token;
  config_hash = r.config_hash;
  chain_id = r.chain_id;
  config = r.config;
}

abbrev pub mark_mined : ℕ → LaunchRecord → LaunchRecord
mark_mined block r = record {
  id = r.id;
  creator_wallet = r.creator_wallet;
  state = r.state;
  transaction_hash = r.transaction_hash;
  block_number = some block;
  failure_reason = r.failure_reason;
  predicted_token = r.predicted_token;
  config_hash = r.config_hash;
  chain_id = r.chain_id;
  config = r.config;
}
