-- ===== src/Launch/Prepare/Records.antt =====
-- The launch records that `prepare` of src/modules/launch/launch-prepare.service.ts creates and updates.
use spawn_backend.Prelude.{ℕ, ◌==◌, ◌&&◌, Bool, if◌then◌else◌, List, [], ◌∷◌, Option, none, some}
use spawn_backend.Prelude.Outcome.{Outcome, ok, err}
use spawn_backend.Common.Decimal.{Text}
use spawn_backend.Protocol.Eip712.{LaunchConfig}
use spawn_backend.Launch.Relay.{LaunchState}
use spawn_backend.Launch.Prepare.{
  PrepareEnvironment, PrepareInput, PrepareResponse, PrepareError, UploadedMetadata, prepare_config,
}

-- A row of the launch records.
pub record PreparedLaunch : Type 0 where
  pub id : ℕ
  pub chain_id : ℕ
  pub creator_wallet : ℕ
  pub config : LaunchConfig
  pub description : Text
  pub image_uri : Text
  pub socials : Option Text
  pub metadata : UploadedMetadata
  pub config_hash : ℕ
  pub digest : ℕ
  pub predicted_token : ℕ
  pub state : LaunchState

-- The unique key of the records.
abbrev pub is_launch_of : ℕ → ℕ → ℕ → PreparedLaunch → Bool
is_launch_of chain_id config_hash creator r =
    r.chain_id == chain_id && r.config_hash == config_hash && r.creator_wallet == creator

unfoldable pub find_launch : ℕ → ℕ → ℕ → List PreparedLaunch → Option PreparedLaunch
find_launch chain_id config_hash creator [] = none
find_launch chain_id config_hash creator (r ∷ rs) =
    let later = find_launch chain_id config_hash creator rs in
    if is_launch_of chain_id config_hash creator r then some r else later

-- The fields that `update` writes; the supply, the share, the plan and the state stay.
abbrev pub refresh : PrepareInput → PrepareResponse → PreparedLaunch → PreparedLaunch
refresh input response r = record {
  id = r.id;
  chain_id = r.chain_id;
  creator_wallet = r.creator_wallet;
  config = record {
    creator = r.config.creator;
    name = input.name;
    symbol = input.symbol;
    uri = response.config.uri;
    total_supply = r.config.total_supply;
    dev_buy_share_wad = r.config.dev_buy_share_wad;
    payout_plan = r.config.payout_plan;
    deadline = input.deadline;
  };
  description = input.description;
  image_uri = input.image_uri;
  socials = input.socials;
  metadata = response.metadata;
  config_hash = r.config_hash;
  digest = response.digest;
  predicted_token = response.predicted_token;
  state = r.state;
}

unfoldable pub update_launch :
    ℕ → PrepareInput → PrepareResponse → List PreparedLaunch → List PreparedLaunch
update_launch id input response [] = []
update_launch id input response (r ∷ rs) =
    let later = update_launch id input response rs in
    if r.id == id then refresh input response r ∷ later else r ∷ later

abbrev pub new_launch : ℕ → ℕ → PrepareInput → PrepareResponse → PreparedLaunch
new_launch id chain_id input response = record {
  id = id;
  chain_id = chain_id;
  creator_wallet = input.creator_wallet_address;
  config = response.config;
  description = input.description;
  image_uri = input.image_uri;
  socials = input.socials;
  metadata = response.metadata;
  config_hash = response.config_hash;
  digest = response.digest;
  predicted_token = response.predicted_token;
  state = LaunchState.prepared;
}

-- The record that is updated or created, and the answer with its identifier; `id` is fresh.
unfoldable pub record_launch :
    ℕ
    → ℕ
    → PrepareInput
    → PrepareResponse
    → List PreparedLaunch
    → PrepareResponse × List PreparedLaunch
record_launch id chain_id input response launches =
    by (find_launch chain_id response.config_hash input.creator_wallet_address launches)
  where
    by : Option PreparedLaunch → PrepareResponse × List PreparedLaunch
    by (some existing) = (
      record response { launch_id = existing.id },
      update_launch existing.id input response launches,
    )
    by none = (record response { launch_id = id }, new_launch id chain_id input response ∷ launches)

-- `prepare`
unfoldable pub prepare :
    PrepareEnvironment
    → ℕ
    → PrepareInput
    → List PreparedLaunch
    → Outcome PrepareError PrepareResponse × List PreparedLaunch
prepare env id input launches = answered (prepare_config env input)
  where
    recorded :
        PrepareResponse × List PreparedLaunch
        → Outcome PrepareError PrepareResponse × List PreparedLaunch
    recorded (response, after) = (ok response, after)

    answered :
        Outcome PrepareError PrepareResponse
        → Outcome PrepareError PrepareResponse × List PreparedLaunch
    answered (err error) = (err error, launches)
    answered (ok response) = recorded (record_launch id env.chain_id input response launches)
