-- ===== src/Tokens/Creation.antt =====
-- The creation of tokens: `TokenCreationService` of src/modules/tokens/token-creation.service.ts, in two
-- parts, up to the reservation and from the upload on, so that creations can interleave. What the upload
-- and the commit give are arguments. The expiry of the reservations is not modelled.
pub mod Keys
use spawn_backend.Prelude.{
  ℕ, ◌==◌, ◌&&◌, not, Bool, true, false, if◌then◌else◌, List, [], ◌∷◌, Option, none, some,
}
use spawn_backend.Prelude.Outcome.{Outcome, ok, err}
use spawn_backend.Common.Decimal.{Text}
use spawn_backend.Comments.Threads.{upsert_profile}

pub record CreateTokenInput : Type 0 where
  pub creator_wallet_address : ℕ
  pub name : Text
  pub symbol : Text
  pub description : Text
  pub image_uri : Text
  pub socials : Option Text

pub record StoredMetadata : Type 0 where
  pub ipfs_uri : Text
  pub gateway_url : Text

-- A row of the idempotency requests in the scope of token creation.
pub record CreationRequest : Type 0 where
  pub wallet_address : ℕ
  pub key : ℕ
  pub request_hash : ℕ
  pub completed : Bool
  pub resource_id : Option ℕ

-- A row of the tokens, with the key that it was created with.
pub record TokenRow : Type 0 where
  pub id : ℕ
  pub creator : ℕ
  pub key : ℕ
  pub input : CreateTokenInput
  pub metadata : StoredMetadata

pub record CreationStore : Type 0 where
  pub requests : List CreationRequest
  pub tokens : List TokenRow
  pub profiles : List ℕ

pub data CreationError : Type 0 where
  idempotency_key_reused request_in_progress token_disappeared : CreationError
  metadata_upload_failed : Text → CreationError
  commit_failed : CreationError

-- The token that a call answers with, and whether it was there before.
pub record TokenAnswer : Type 0 where
  pub token : TokenRow
  pub replayed : Bool

abbrev pub is_creation_of : ℕ → ℕ → CreationRequest → Bool
is_creation_of creator key r = r.wallet_address == creator && r.key == key

unfoldable pub find_creation : ℕ → ℕ → List CreationRequest → Option CreationRequest
find_creation creator key [] = none
find_creation creator key (r ∷ rs) =
    let later = find_creation creator key rs in
    if is_creation_of creator key r then some r else later

unfoldable pub find_token : ℕ → List TokenRow → Option TokenRow
find_token id [] = none
find_token id (t ∷ ts) = let later = find_token id ts in if t.id == id then some t else later

-- `findCreated`
unfoldable pub find_created : ℕ → List TokenRow → Bool → Outcome CreationError TokenAnswer
find_created id tokens replayed = found (find_token id tokens)
  where
    found : Option TokenRow → Outcome CreationError TokenAnswer
    found none = err CreationError.token_disappeared
    found (some token) = ok (record { token = token; replayed = replayed })

-- `replay`, where there is a request.
unfoldable pub replay_creation :
    ℕ → List TokenRow → CreationRequest → Outcome CreationError TokenAnswer
replay_creation hash tokens existing =
    if not (existing.request_hash == hash)
    then err CreationError.idempotency_key_reused
    else if existing.completed
    then at existing.resource_id
    else err CreationError.request_in_progress
  where
    at : Option ℕ → Outcome CreationError TokenAnswer
    at none = err CreationError.request_in_progress
    at (some id) = find_created id tokens true

-- What the first part of `create` comes to.
pub data CreationStart : Type 0 where
  replays : Outcome CreationError TokenAnswer → CreationStart
  reserves : CreationStart

unfoldable pub start_with : ℕ → List TokenRow → Option CreationRequest → CreationStart
start_with hash tokens none = CreationStart.reserves
start_with hash tokens (some existing) =
    CreationStart.replays (replay_creation hash tokens existing)

-- `create` up to the reservation, for a request with this hash.
unfoldable pub create_start : ℕ → ℕ → ℕ → CreationStore → CreationStart
create_start hash creator key s = start_with hash s.tokens (find_creation creator key s.requests)

-- `reserve`
unfoldable pub reserve_creation : ℕ → ℕ → ℕ → CreationStore → CreationStore
reserve_creation hash creator key s = record s {
  requests =
      record {
        wallet_address = creator;
        key = key;
        request_hash = hash;
        completed = false;
        resource_id = none;
      }
      ∷ s.requests;
}

-- `releaseReservation`
unfoldable pub release : ℕ → ℕ → ℕ → List CreationRequest → List CreationRequest
release hash creator key [] = []
release hash creator key (r ∷ rs) =
    let later = release hash creator key rs in
    if is_creation_of creator key r && r.request_hash == hash && not r.completed
    then later
    else r ∷ later

-- The update that completes the request; a request that is missing is an error.
unfoldable pub complete_creation : ℕ → ℕ → ℕ → List CreationRequest → List CreationRequest
complete_creation id creator key [] = []
complete_creation id creator key (r ∷ rs) =
    let later = complete_creation id creator key rs in
    if is_creation_of creator key r
    then record r { completed = true; resource_id = some id } ∷ later
    else r ∷ later

-- What the commit of the transaction comes to, where its statements do not fail.
pub data Commit : Type 0 where
  committed unique_violation failed : Commit

-- `create` from the upload on, with a fresh identifier for the token.
unfoldable pub create_finish :
    ℕ
    → CreateTokenInput
    → ℕ
    → ℕ
    → Outcome Text StoredMetadata
    → Commit
    → CreationStore
    → Outcome CreationError TokenAnswer × CreationStore
create_finish hash input key id upload commit s = by upload
  where
    creator : ℕ
    creator = input.creator_wallet_address

    raced : Option CreationRequest → Outcome CreationError TokenAnswer
    raced none = err CreationError.commit_failed
    raced (some existing) = replay_creation hash s.tokens existing

    added : StoredMetadata → CreationStore
    added metadata = record {
      requests = complete_creation id creator key s.requests;
      tokens =
          record { id = id; creator = creator; key = key; input = input; metadata = metadata }
          ∷ s.tokens;
      profiles = upsert_profile creator s.profiles;
    }

    write :
        StoredMetadata
        → Option CreationRequest
        → Commit
        → Outcome CreationError TokenAnswer × CreationStore
    write metadata none c = (err CreationError.commit_failed, s)
    write metadata (some row) Commit.failed = (err CreationError.commit_failed, s)
    write metadata (some row) Commit.unique_violation =
        (raced (find_creation creator key s.requests), s)
    write metadata (some row) Commit.committed =
        (find_created id (added metadata).tokens false, added metadata)

    by : Outcome Text StoredMetadata → Outcome CreationError TokenAnswer × CreationStore
    by (err message) = (
      err (CreationError.metadata_upload_failed message),
      record s { requests = release hash creator key s.requests },
    )
    by (ok metadata) = write metadata (find_creation creator key s.requests) commit
