-- ===== src/Launch/Prepare.antt =====
-- The preparation of a launch: `LaunchPrepareService` of src/modules/launch/launch-prepare.service.ts.
-- The chain's registry and template, the upload of the metadata, the predicted address and the hashes
-- are parameters; the database answers every query. The numbers of the request are parsed, but for the
-- share of the dev buy.
pub mod Records
pub mod Plan
pub mod Again
use spawn_backend.Prelude.{
  ℕ, zero, suc, ◌+◌, ◌-◌, ◌*◌, ◌/◌, ◌%◌, ◌^◌, ltb, leb, ◌==◌, ◌&&◌, not, Bool, true, false,
  if◌then◌else◌, List, [], ◌∷◌, ◌++◌, length, Option, none, some, take,
}
use spawn_backend.Prelude.Int.{ℤ}
use spawn_backend.Prelude.Outcome.{Outcome, ok, err, throw_if, ◌>>=◌, ◌>>◌}
use spawn_backend.Common.Decimal.{Text, value_from, zeros}
use spawn_backend.Protocol.Constants.{max_dev_buy_share_wad, fixed_total_supply}
use spawn_backend.Protocol.Fault.{Fault, Partial}
use spawn_backend.Protocol.Curve.{opening_level, far_level}
use spawn_backend.Protocol.DevBuy.{DevBuy, DevBuyQuote, dev_buy_quote}
use spawn_backend.Protocol.Eip712.{Hasher, LaunchConfig, launch_config_hash, launch_digest}
use spawn_backend.Launch.Relay.{LaunchState}

-- An entry of the chain's plugin registry.
pub record RegistryEntry : Type 0 where
  pub role : ℕ
  pub take_wad : ℕ
  pub suspended : Bool

pub data PrepareError : Type 0 where
  protocol_not_deployed supply_not_fixed dev_buy_above_cap : PrepareError
  too_many_plugins : PrepareError
  entry_suspended entry_not_selectable : ℕ → PrepareError
  takes_above_wad : PrepareError
  metadata_upload_failed : Text → PrepareError
  opening_level_out_of_range far_level_out_of_range : PrepareError
  quote_failed : Fault → PrepareError

-- `(payoutPlan >> i) & 1`
unfoldable pub selects_bit : ℕ → ℕ → Bool
selects_bit plan i = plan / 2 ^ i % 2 == 1

-- The loop over the plan's bits, from `i` on, with `found` bits so far.
unfoldable pub plan_bits : ℕ → ℕ → ℕ → ℕ → List ℕ
plan_bits zero i found plan = []
plan_bits (suc left) i found plan =
    let rest = plan_bits left (i + 1) in
    if not (leb found 8)
    then []
    else if selects_bit plan i
    then i ∷ rest (found + 1) plan
    else rest found plan

-- The loop over the selected entries, and the test of the sum behind it.
unfoldable pub check_entries : (ℕ → RegistryEntry) → ℕ → List ℕ → Outcome PrepareError (Unit {0})
check_entries entry takes [] = throw_if (ltb (10 ^ 18) takes) PrepareError.takes_above_wad
check_entries entry takes (index ∷ rest) =
    let later = check_entries entry (takes + (entry index).take_wad) rest in
    if (entry index).suspended
    then err (PrepareError.entry_suspended index)
    else if not ((entry index).role == 1)
    then err (PrepareError.entry_not_selectable index)
    else later

-- `validatePayoutPlan`
unfoldable pub validate_payout_plan : (ℕ → RegistryEntry) → ℕ → Outcome PrepareError (Unit {0})
validate_payout_plan entry plan =
    let bits = plan_bits 256 0 0 plan in
    if plan == 0
    then ok tt
    else if ltb 8 (length bits)
    then err PrepareError.too_many_plugins
    else check_entries entry 0 bits

-- `split('.')`: the part in front of the first point, and the part behind it up to the next.
unfoldable pub up_to_point : Text → Text
up_to_point [] = []
up_to_point (c ∷ cs) = let rest = up_to_point cs in if c == b'.' then [] else c ∷ rest

unfoldable pub behind_point : Text → Text
behind_point [] = []
behind_point (c ∷ cs) = let rest = behind_point cs in if c == b'.' then up_to_point cs else rest

-- `parseWad`
unfoldable pub parse_wad : Text → ℕ
parse_wad value = value_from 0 (up_to_point value ++ take 18 (behind_point value ++ zeros 18))

unfoldable pub mul_div_wad : ℕ → ℕ → ℕ
mul_div_wad a wad = a * wad / 10 ^ 18

or_throw : {A : Type 0} → PrepareError → Partial A → Outcome PrepareError A
or_throw error (ok value) = ok value
or_throw error (err fault) = err error

unfoldable pub safe_opening_level : ℕ → ℕ → Outcome PrepareError ℤ
unfolding or_throw
safe_opening_level total_supply opening_fdv_wei =
    or_throw PrepareError.opening_level_out_of_range (opening_level total_supply opening_fdv_wei)

unfoldable pub safe_far_level : ℤ → ℤ → Outcome PrepareError ℤ
unfolding or_throw
safe_far_level opening span = or_throw PrepareError.far_level_out_of_range (far_level opening span)

pub record TokenMetadata : Type 0 where
  pub name : Text
  pub symbol : Text
  pub description : Text
  pub image : Text
  pub socials : Option Text

pub record UploadedMetadata : Type 0 where
  pub ipfs_uri : Text
  pub gateway_url : Text

pub record PrepareInput : Type 0 where
  pub creator_wallet_address : ℕ
  pub name : Text
  pub symbol : Text
  pub description : Text
  pub image_uri : Text
  pub socials : Option Text
  pub total_supply : ℕ
  pub dev_buy_share_wad : Text
  pub payout_plan : ℕ
  pub deadline : ℕ

pub record CurveTemplate : Type 0 where
  pub opening_fdv_wei : ℕ
  pub curve_span_levels : ℤ
  pub curve_supply_share_wad : ℕ
  pub curve_positions : ℕ
  pub trading_fee_hundredths_bip : ℕ

-- The default chain, its registry, template and addresses, and the services.
pub record PrepareEnvironment : Type 0 where
  pub chain_id : ℕ
  pub has_chain : Bool
  pub registry_entry : ℕ → RegistryEntry
  pub template : CurveTemplate
  pub hook : ℕ
  pub hasher : Hasher
  pub predict_token : LaunchConfig → ℕ
  pub upload : TokenMetadata → Outcome Text UploadedMetadata

pub record PrepareResponse : Type 0 where
  pub launch_id : ℕ
  pub config : LaunchConfig
  pub config_hash : ℕ
  pub digest : ℕ
  pub predicted_token : ℕ
  pub opening_level : ℤ
  pub far_level : ℤ
  pub dev_buy_quote : Option DevBuyQuote
  pub suggested_msg_value : Option ℕ
  pub metadata : UploadedMetadata

unfoldable pub uploaded : Outcome Text UploadedMetadata → Outcome PrepareError UploadedMetadata
uploaded (ok metadata) = ok metadata
uploaded (err message) = err (PrepareError.metadata_upload_failed message)

quoted : Partial DevBuyQuote → Outcome PrepareError (Option DevBuyQuote)
quoted (ok quote) = ok (some quote)
quoted (err fault) = err (PrepareError.quote_failed fault)

-- The quote of the dev buy, where there is a share.
unfoldable pub quote_dev_buy :
    CurveTemplate → ℕ → ℕ → ℤ → ℤ → Outcome PrepareError (Option DevBuyQuote)
unfolding quoted
quote_dev_buy template total_supply share opening far =
    if ltb 0 share
    then quoted (
        dev_buy_quote (record {
          total_supply_wei = total_supply;
          dev_buy_share_wad = share;
          opening_level = opening;
          far_level = far;
          curve_positions = template.curve_positions;
          curve_supply = mul_div_wad total_supply template.curve_supply_share_wad;
          trading_fee_hundredths_bip = template.trading_fee_hundredths_bip;
        }))
    else ok none

abbrev pub with_headroom : Option DevBuyQuote → Option ℕ
with_headroom none = none
with_headroom (some quote) = some (quote.eth_cost * 105 / 100)

abbrev pub config_of : PrepareInput → UploadedMetadata → LaunchConfig
config_of input metadata = record {
  creator = input.creator_wallet_address;
  name = input.name;
  symbol = input.symbol;
  uri = metadata.gateway_url;
  total_supply = input.total_supply;
  dev_buy_share_wad = parse_wad input.dev_buy_share_wad;
  payout_plan = input.payout_plan;
  deadline = input.deadline;
}

-- `prepare` up to the records: the answer, whose identifier is still 0.
unfoldable pub prepare_config :
    PrepareEnvironment → PrepareInput → Outcome PrepareError PrepareResponse
prepare_config env input = do
  throw_if (not env.has_chain) PrepareError.protocol_not_deployed
  throw_if (not (input.total_supply == fixed_total_supply)) PrepareError.supply_not_fixed
  throw_if (ltb max_dev_buy_share_wad (parse_wad input.dev_buy_share_wad))
      PrepareError.dev_buy_above_cap
  validate_payout_plan env.registry_entry input.payout_plan
  metadata ← uploaded (
      env.upload (record {
        name = input.name;
        symbol = input.symbol;
        description = input.description;
        image = input.image_uri;
        socials = input.socials;
      }))
  opening ← safe_opening_level input.total_supply env.template.opening_fdv_wei
  far ← safe_far_level opening env.template.curve_span_levels
  quote ←
      quote_dev_buy env.template input.total_supply (parse_wad input.dev_buy_share_wad) opening far
  ok (record {
    launch_id = 0;
    config = config_of input metadata;
    config_hash = launch_config_hash env.hasher (config_of input metadata);
    digest = launch_digest env.hasher (config_of input metadata) env.hook env.chain_id;
    predicted_token = env.predict_token (config_of input metadata);
    opening_level = opening;
    far_level = far;
    dev_buy_quote = quote;
    suggested_msg_value = with_headroom quote;
    metadata = metadata;
  })
