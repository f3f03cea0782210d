-- ===== src/Tests/Prepare.antt =====
-- A launch that is prepared twice, and a payout plan of two entries.
use spawn_backend.Prelude.{
  ℕ, ◌+◌, ◌*◌, ◌^◌, ◌≡◌, ◌↔◌, refl, true, ◌==◌, [], ◌∷◌, length, none, arith,
}
use spawn_backend.Prelude.Int.{ℤ, pos, ◌+ℤ◌}
use spawn_backend.Prelude.Outcome.{ok, err}
use spawn_backend.Common.Decimal.{value_from, zeros}
use spawn_backend.Protocol.Template
use spawn_backend.Protocol.Constants.{fixed_total_supply}
use spawn_backend.Protocol.Orientation.{is_valid_level}
use spawn_backend.Protocol.Curve.{opening_level, far_level}
use spawn_backend.Protocol.Curve.Opening.{opening_level_valid}
use spawn_backend.Protocol.Eip712.{Hasher, launch_config_hash, launch_digest}
use spawn_backend.Launch.Prepare.{
  RegistryEntry, selects_bit, PrepareError, PrepareEnvironment, PrepareInput, PrepareResponse,
  UploadedMetadata, validate_payout_plan, config_of, prepare_config, parse_wad, up_to_point,
  behind_point, plan_bits, uploaded, safe_opening_level, safe_far_level, quote_dev_buy,
  check_entries,
}
use spawn_backend.Launch.Prepare.Plan.{IsPayable, validate_payout_plan_iff}
use spawn_backend.Launch.Prepare.Records.{prepare}
use spawn_backend.Launch.Prepare.Again.{prepare-again}

-- Entries 0 and 2 are payout entries; 1 is suspended.
abbrev entry : ℕ → RegistryEntry
entry index = record { role = 1; take_wad = 300_000_000_000_000_000; suspended = index == 1 }

plan_passes : validate_payout_plan entry 5 ≡ ok tt
unfolding validate_payout_plan plan_bits check_entries selects_bit
plan_passes = refl

suspended_refused : validate_payout_plan entry 3 ≡ err (PrepareError.entry_suspended 1)
unfolding validate_payout_plan plan_bits check_entries selects_bit
suspended_refused = refl

validate_payout_plan_iff_example : (validate_payout_plan entry 5 ≡ ok tt) ↔ IsPayable entry 5
validate_payout_plan_iff_example = validate_payout_plan_iff entry 5

-- A hash that tells texts and encodings apart by their length, enough for one launch.
abbrev hasher : Hasher
hasher = record {
  keccak_text = λ text. 7;
  keccak_encoded = λ values. length values;
  keccak_signed = λ domain content. domain * 100 + content;
}

abbrev metadata : UploadedMetadata
metadata = record { ipfs_uri = b'q' ∷ []; gateway_url = b'g' ∷ [] }

abbrev env : PrepareEnvironment
env = record {
  chain_id = 8_453;
  has_chain = true;
  registry_entry = entry;
  template = record {
    opening_fdv_wei = Template.opening_fdv_wei;
    curve_span_levels = pos 0;
    curve_supply_share_wad = Template.curve_supply_share_wad;
    curve_positions = 32;
    trading_fee_hundredths_bip = 10_000;
  };
  hook = 44;
  hasher = hasher;
  predict_token = λ config. config.creator + 1;
  upload = λ given. ok metadata;
}

abbrev input : ℕ → PrepareInput
input deadline = record {
  creator_wallet_address = 9;
  name = b'n' ∷ [];
  symbol = b'S' ∷ [];
  description = b'd' ∷ [];
  image_uri = b'i' ∷ [];
  socials = none;
  total_supply = fixed_total_supply;
  dev_buy_share_wad = b'0' ∷ [];
  payout_plan = 0;
  deadline = deadline;
}

template_root : ℕ
template_root = 1_771_595_571_142_957_102_961_017_161_607_260

opened :
    (level : ℤ) × (opening_level fixed_total_supply Template.opening_fdv_wei ≡ ok level)
    × (is_valid_level level ≡ true)
unfolding template_root
opened =
    opening_level_valid fixed_total_supply Template.opening_fdv_wei template_root (omega arith)
      (omega arith) (omega arith) (omega arith)

far_of_valid :
    (level : ℤ) → is_valid_level level ≡ true → far_level level (pos 0) ≡ ok (level +ℤ pos 0)
unfolding far_level is_valid_level ◌+ℤ◌
far_of_valid level v = ground arith

abbrev response : ℕ → PrepareResponse
response deadline = record {
  launch_id = 0;
  config = config_of (input deadline) metadata;
  config_hash = launch_config_hash hasher (config_of (input deadline) metadata);
  digest = launch_digest hasher (config_of (input deadline) metadata) 44 8_453;
  predicted_token = 10;
  opening_level = opened.0;
  far_level = opened.0 +ℤ pos 0;
  dev_buy_quote = none;
  suggested_msg_value = none;
  metadata = metadata;
}

prepared : (deadline : ℕ) → prepare_config env (input deadline) ≡ ok (response deadline)
unfolding prepare_config validate_payout_plan uploaded safe_opening_level safe_far_level
    quote_dev_buy parse_wad up_to_point behind_point zeros value_from
prepared deadline = rw (opened.1, far_of_valid opened.0 opened.2) refl

tenth : parse_wad (b'0' ∷ b'.' ∷ b'1' ∷ []) ≡ 10 ^ 17
unfolding parse_wad up_to_point behind_point zeros value_from
tenth = refl

same_hash : (response 100).config_hash ≡ (response 200).config_hash
unfolding launch_config_hash
same_hash = refl

prepare-again_example :
    let before = prepare env 1 (input 100) [] in
    let after = prepare env 2 (input 200) before.1 in
    (id : ℕ) × (ra : PrepareResponse) × (rb : PrepareResponse) × (before.0 ≡ ok ra)
    × (after.0 ≡ ok rb)
    × (ra.launch_id ≡ id)
    × (rb.launch_id ≡ id)
    × (length after.1 ≡ length before.1)
prepare-again_example =
    prepare-again env 1 2 (input 100) (input 200) [] (response 100) (response 200) (prepared 100)
      (prepared 200) same_hash refl
