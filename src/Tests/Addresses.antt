-- ===== src/Tests/Addresses.antt =====
-- A book with an override in front of a manifest, a registry that loads it, and the reads behind it.
use spawn_backend.Prelude.{
  ℕ, zero, suc, ◌≡◌, refl, List, [], ◌∷◌, ◌++◌, Option, none, some, false, arith,
}
use spawn_backend.Prelude.Int.{ℤ, pos}
use spawn_backend.Prelude.Outcome.{ok}
use spawn_backend.Common.Decimal.{Text, to_text}
use spawn_backend.Common.Dict.{find}
use spawn_backend.Common.Texts.{codes, to_lower_case, lower_char, every, starts_with}
use spawn_backend.Common.Trim.{trim, trim_start, trim_end, is_blank, is_white_space}
use spawn_backend.Infrastructure.Addresses.Manifest.{
  Field, missing, text_field, other_field, no_template, manifest_object, Document,
  DeploymentManifest, is_any_hex_digit, hex_text, address_schema, for_each_key, valid_or_reject,
  required_text, optional_text, nullish_text, positive_integer, check_template, parse_manifest,
}
use spawn_backend.Infrastructure.Addresses.Overrides.{
  BookEnvironment, valid_or_throw, read_setting, read_env_overrides, read_infra_overrides,
}
use spawn_backend.Infrastructure.Addresses.Validity.{IsBook, build_address_book-IsBook}
use spawn_backend.Infrastructure.Addresses.Precedence.{Sources, build_address_book-Sources}
use spawn_backend.Infrastructure.Addresses.{
  AddressBook, known_addresses, or_next, optional_field, text_or_throw, merged_key, parsed_manifest,
  assemble, build_address_book,
}
use spawn_backend.Infrastructure.Registry.{Registry}
use spawn_backend.Infrastructure.Registry.Books
use spawn_backend.Infrastructure.Registry.Books.{
  Call, configures, initialises, reloads, reads_contracts, IsSound, perform_all-IsSound,
}
use spawn_backend.Infrastructure.Reads.Views.{ProtocolTemplateView, PoolStateView}
use spawn_backend.Infrastructure.Reads.Freshness
use spawn_backend.Infrastructure.Reads.Freshness.{
  ChainHistory, CacheEvent, economics_read, economics_invalidated, pool_state_read, no_entries,
}
use spawn_backend.Infrastructure.Reads.Answers.{AnswersAreRecent, perform_all-AnswersAreRecent}

abbrev repeat : ℕ → ℕ → Text
repeat zero c = []
repeat (suc n) c = c ∷ repeat n c

abbrev lower : Text
lower = codes "0x" ++ repeat 40 b'b'

abbrev upper : Text
upper = codes "  0x" ++ repeat 40 b'B'

abbrev other : Text
other = codes "0x" ++ repeat 40 b'1'

abbrev hook_is_set : BookEnvironment
hook_is_set = record {
  protocol = record {
    hook = some upper;
    launch_support = none;
    revenue_nft = some [];
    payout_plugin_registry = none;
    protocol_controller = none;
  };
  pool_manager = none;
  state_view = some upper;
  v4_quoter = none;
  multicall3 = none;
}

abbrev five_others : Document
five_others = manifest_object (record {
  chain_id = other_field 8453;
  protocol = record {
    hook = text_field other;
    launch_support = text_field other;
    revenue_nft = text_field other;
    payout_plugin_registry = text_field other;
    protocol_controller = text_field other;
  };
  buyback_and_burn_plugin = missing;
  buyback_plugin = text_field (codes "0x" ++ repeat 40 b'B');
  pool_manager = text_field other;
  state_view = missing;
  v4_quoter = missing;
  multicall3 = missing;
  canonical_payout_plan = missing;
  hook_salt = missing;
  template = no_template;
})

abbrev integer_of : Field → Option ℤ
integer_of (other_field n) = some (pos n)
integer_of _ = none

abbrev base_book : AddressBook
base_book = record {
  chain_id = 8453;
  protocol = record {
    hook = lower;
    launch_support = other;
    revenue_nft = other;
    payout_plugin_registry = other;
    protocol_controller = other;
  };
  buyback_and_burn_plugin = some lower;
  pool_manager = other;
  state_view = some lower;
  v4_quoter = none;
  multicall3 = codes "0xca11bde05977b3631167028862be2a173976ca11";
  canonical_payout_plan = none;
  hook_salt = none;
}

book_is_built : build_address_book integer_of 8453 hook_is_set (some five_others) ≡ ok base_book
unfolding build_address_book assemble parsed_manifest known_addresses or_next optional_field
    text_or_throw merged_key read_env_overrides read_infra_overrides read_setting valid_or_throw
    parse_manifest check_template positive_integer nullish_text optional_text required_text
    valid_or_reject for_each_key address_schema hex_text is_any_hex_digit trim trim_start trim_end
    is_blank is_white_space to_lower_case lower_char every starts_with
book_is_built = refl

build_address_book-IsBook_example : IsBook base_book
build_address_book-IsBook_example =
    build_address_book-IsBook integer_of 8453 hook_is_set (some five_others) book_is_built

build_address_book-Sources_example :
    (parsed : Option DeploymentManifest) × (parsed_manifest integer_of 8453 (some five_others)
      ≡ ok parsed)
    × (base_book.chain_id ≡ 8453)
    × Sources hook_is_set parsed base_book
build_address_book-Sources_example =
    build_address_book-Sources integer_of 8453 hook_is_set (some five_others) book_is_built

abbrev empty_registry : Registry Text Text
empty_registry = record {
  books = [];
  contracts = [];
  configured = false;
  factory = record { clients = []; config = none };
}

abbrev registry_calls : List Call
registry_calls =
    initialises 8453 (some (codes "https://a, https://b"))
      (some (record { chain_id = 8453; document = five_others } ∷ []))
    ∷ reads_contracts 8453
    ∷ reloads (record { chain_id = 1; document = five_others } ∷ [])
    ∷ []

perform_all-IsSound_example :
    IsSound integer_of hook_is_set
      (λ client address. client ++ address)
      (λ chain urls. to_text chain)
      (λ chain. none)
      (Books.perform_all integer_of hook_is_set
        (λ client address. client ++ address)
        (λ chain urls. to_text chain)
        (λ chain. none)
        registry_calls
        empty_registry)
unfolding find
perform_all-IsSound_example =
    perform_all-IsSound integer_of hook_is_set (λ client address. client ++ address)
      (λ chain urls. to_text chain) (λ chain. none) registry_calls empty_registry
      (record { books = λ key v h. cc; contracts = λ key v h. cc })

abbrev default_template : ProtocolTemplateView
default_template = record {
  opening_fdv_wei = 0;
  curve_positions = 1;
  curve_span_levels = 2;
  band_level_spacing = 3;
  band_first_step_levels = 4;
  band_step_decay_levels = 5;
  band_width_levels = 6;
  core_band_count = 7;
  max_fee_funded_bands = 8;
  curve_supply_share_wad = 9;
  ladder_supply_share_wad = 10;
  full_range_supply_share_wad = 11;
  lp_seed_wad = 12;
  proceeds_creator_wad = 13;
  proceeds_protocol_wad = 14;
  trading_fee_hundredths_bip = 15;
  band_inventory_cap_multiple = 16;
  max_deploys_per_swap = 17;
  max_harvests_per_swap = 18;
}

abbrev no_pool : PoolStateView
no_pool = record {
  phase = 0;
  creator = [];
  token = [];
  launched_at = 0;
  graduated_at = 0;
  total_supply = 0;
  opening_level = pos 0;
  far_level = pos 0;
  payout_plan = 0;
  curve_deployed = 0;
  graduation_level = pos 0;
  deployed_bands = 0;
  completed_bands = 0;
  next_band_index = 0;
  fee_funded_bands_created = 0;
  completed_milestones = 0;
  ladder_inventory_remaining = 0;
  carried_inventory = 0;
  milestone_fund_accrued = 0;
  full_range_liquidity = 0;
  full_range_tick_lower = pos 0;
  full_range_tick_upper = pos 0;
  wall_liquidity = 0;
  wall_tick_lower = pos 0;
  wall_tick_upper = pos 0;
}

abbrev quiet : ChainHistory
quiet = record {
  template = λ chain time. default_template;
  economics = λ chain time. record {
    harvest_service_fee_wad = time;
    quote_creator_share_wad = chain;
    token_milestone_fund_share_wad = 0;
    version = 1;
  };
  pool_state = λ chain pool time. no_pool;
  slot0 = λ chain pool time. record {
    sqrt_price_x96 = time;
    tick = pos 0;
    protocol_fee = 0;
    lp_fee = 0;
  };
  controller = λ chain time. record {
    administrator = [];
    pending_administrator = [];
    governance_delay = time;
    protocol_recipient = [];
    trusted_operator = [];
    actions = [];
  };
}

abbrev reads : List CacheEvent
reads =
    economics_read 1 1_000 1_200
    ∷ economics_invalidated 1
    ∷ pool_state_read 1 (codes "0xab") 1_300 1_500
    ∷ economics_read 1 1_600 1_700
    ∷ []

perform_all-AnswersAreRecent_example :
    AnswersAreRecent quiet 200 2_000 1
      (codes "0xab")
      (Freshness.perform_all quiet 200 reads no_entries)
perform_all-AnswersAreRecent_example =
    perform_all-AnswersAreRecent quiet 200 reads 2_000 1 (codes "0xab")
      (omega arith, (tt, (omega arith, (omega arith, tt))))
