-- ===== src/Infrastructure/Addresses/Manifest.antt =====
-- The deployment manifest of src/infrastructure/blockchain/address-book.ts: the patterns of its texts
-- and the schema. The schema collects every fault of a document; here the first one rejects it.
use spawn_backend.Prelude.{
  ℕ, ◌+◌, leb, ◌==◌, ◌&&◌, ◌||◌, not, Bool, if◌then◌else◌, List, [], ◌∷◌, length, drop, Option,
  none, some, zero, suc,
}
use spawn_backend.Prelude.Int.{ℤ, pos, negsuc}
use spawn_backend.Prelude.Outcome.{Outcome, ok, err, ◌>>=◌, ◌>>◌}
use spawn_backend.Common.Decimal.{Text}
use spawn_backend.Common.Texts.{codes, every, starts_with, to_lower_case}
use spawn_backend.Common.Trim.{is_blank}

-- `[0-9a-fA-F]`
unfoldable pub is_any_hex_digit : ℕ → Bool
is_any_hex_digit c =
    leb b'0' c && leb c b'9' || leb b'a' c && leb c b'f' || leb b'A' c && leb c b'F'

-- `/^0x[0-9a-fA-F]{digits}$/` and `toLowerCase`.
unfoldable pub hex_text : ℕ → Text → Option Text
hex_text digits text =
    if starts_with (codes "0x") text
      && length text == digits + 2
      && every is_any_hex_digit (drop 2 text)
    then some (to_lower_case text)
    else none

unfoldable pub address_schema : Text → Option Text
address_schema text = hex_text 40 text

unfoldable pub bytes32_schema : Text → Option Text
bytes32_schema text = hex_text 64 text

-- `/^\d+$/`
unfoldable pub wad_schema : Text → Option Text
wad_schema text =
    if not (is_blank text) && every (λ c. leb b'0' c && leb c b'9') text then some text else none

pub data ProtocolKey : Type 0 where
  hook launch_support revenue_nft payout_plugin_registry protocol_controller : ProtocolKey

abbrev pub protocol_keys : List ProtocolKey
protocol_keys =
    ProtocolKey.hook ∷ ProtocolKey.launch_support ∷ ProtocolKey.revenue_nft
    ∷ ProtocolKey.payout_plugin_registry ∷ ProtocolKey.protocol_controller ∷ []

-- A value for each protocol contract.
pub record PerKey {ℓ} (A : Type ℓ) : Type ℓ where
  pub hook : A
  pub launch_support : A
  pub revenue_nft : A
  pub payout_plugin_registry : A
  pub protocol_controller : A

abbrev pub at {ℓ} : {A : Type ℓ} → ProtocolKey → PerKey A → A
at ProtocolKey.hook values = values.hook
at ProtocolKey.launch_support values = values.launch_support
at ProtocolKey.revenue_nft values = values.revenue_nft
at ProtocolKey.payout_plugin_registry values = values.payout_plugin_registry
at ProtocolKey.protocol_controller values = values.protocol_controller

-- What a call throws. `invalid_setting` is zod's own error, the others are an AddressBookError.
pub data BookError : Type 0 where
  invalid_override : ProtocolKey → BookError
  chain_mismatch : ℕ → BookError
  missing_protocol : List ProtocolKey → BookError
  invalid_setting invalid_manifest missing_pool_manager missing_multicall3 : BookError

-- A loop over the protocol's keys, which stops at the first one that throws.
unfoldable pub for_each_key {κ ℓ} :
    {E : Type κ} {A : Type ℓ} → (ProtocolKey → Outcome E A) → Outcome E (PerKey A)
for_each_key body = body ProtocolKey.hook >>= λ h. body ProtocolKey.launch_support >>= λ l.
    body ProtocolKey.revenue_nft >>= λ n. body ProtocolKey.payout_plugin_registry >>= λ p.
    body ProtocolKey.protocol_controller >>= λ c. ok (record {
      hook = h;
      launch_support = l;
      revenue_nft = n;
      payout_plugin_registry = p;
      protocol_controller = c;
    })

-- A field of a document: absent, `null`, a text, or another value.
pub data Field : Type 0 where
  missing null_field : Field
  text_field : Text → Field
  other_field : ℕ → Field

-- The fields of the template, those of decimal strings and those of integers.
pub record TemplateDocument : Type 0 where
  pub wads : List Field
  pub integers : List Field

pub data TemplateField : Type 0 where
  no_template not_an_object : TemplateField
  template : TemplateDocument → TemplateField

pub record ManifestDocument : Type 0 where
  pub chain_id : Field
  pub protocol : PerKey Field
  pub buyback_and_burn_plugin : Field
  pub buyback_plugin : Field
  pub pool_manager : Field
  pub state_view : Field
  pub v4_quoter : Field
  pub multicall3 : Field
  pub canonical_payout_plan : Field
  pub hook_salt : Field
  pub template : TemplateField

pub data Document : Type 0 where
  other_value : Document
  manifest_object : ManifestDocument → Document

pub record DeploymentManifest : Type 0 where
  pub chain_id : ℕ
  pub protocol : PerKey Text
  pub buyback_and_burn_plugin : Option Text
  pub buyback_plugin : Option Text
  pub pool_manager : Option Text
  pub state_view : Option Text
  pub v4_quoter : Option Text
  pub multicall3 : Option Text
  pub canonical_payout_plan : Option Text
  pub hook_salt : Option Text

unfoldable pub valid_or_reject {ℓ} : {A : Type ℓ} → Option A → Outcome BookError A
valid_or_reject none = err BookError.invalid_manifest
valid_or_reject (some value) = ok value

unfoldable pub required_text : (Text → Option Text) → Field → Outcome BookError Text
required_text schema (text_field text) = valid_or_reject (schema text)
required_text schema _ = err BookError.invalid_manifest

-- `schema.optional()`
unfoldable pub optional_text : (Text → Option Text) → Field → Outcome BookError (Option Text)
optional_text schema missing = ok none
optional_text schema (text_field text) = valid_or_reject (schema text) >>= λ value. ok (some value)
optional_text schema _ = err BookError.invalid_manifest

-- `schema.nullish()`
unfoldable pub nullish_text : (Text → Option Text) → Field → Outcome BookError (Option Text)
nullish_text schema null_field = ok none
nullish_text schema field = optional_text schema field

unfoldable pub every_field :
    (Field → Outcome BookError (Unit {0})) → List Field → Outcome BookError (Unit {0})
every_field check [] = ok tt
every_field check (field ∷ fields) = check field >> every_field check fields

module _ (to_integer : Field → Option ℤ) where
  -- `z.coerce.number().int().positive()`
  unfoldable pub positive_integer : Field → Outcome BookError ℕ
  positive_integer field = valid_or_reject (to_integer field) >>= positive
    where
      positive : ℤ → Outcome BookError ℕ
      positive (pos zero) = err BookError.invalid_manifest
      positive (pos (suc n)) = ok (suc n)
      positive (negsuc n) = err BookError.invalid_manifest

  unfoldable pub check_template : TemplateField → Outcome BookError (Unit {0})
  check_template no_template = ok tt
  check_template not_an_object = err BookError.invalid_manifest
  check_template (template t) =
      every_field (λ field. required_text wad_schema field >>= λ wad. ok tt) t.wads
      >> every_field (λ field. valid_or_reject (to_integer field) >>= λ n. ok tt) t.integers

  -- `deploymentManifestSchema.safeParse`
  unfoldable pub parse_manifest : Document → Outcome BookError DeploymentManifest
  parse_manifest other_value = err BookError.invalid_manifest
  parse_manifest (manifest_object d) = positive_integer d.chain_id >>= λ chain_id.
      for_each_key (λ key. required_text address_schema (at key d.protocol)) >>= λ protocol.
      nullish_text address_schema d.buyback_and_burn_plugin >>= λ buyback_and_burn.
      nullish_text address_schema d.buyback_plugin >>= λ buyback.
      optional_text address_schema d.pool_manager >>= λ manager.
      nullish_text address_schema d.state_view >>= λ view.
      nullish_text address_schema d.v4_quoter >>= λ quoter.
      optional_text address_schema d.multicall3 >>= λ multicall.
      nullish_text bytes32_schema d.canonical_payout_plan >>= λ plan.
      nullish_text bytes32_schema d.hook_salt >>= λ salt.
      check_template d.template
      >> ok (record {
        chain_id = chain_id;
        protocol = protocol;
        buyback_and_burn_plugin = buyback_and_burn;
        buyback_plugin = buyback;
        pool_manager = manager;
        state_view = view;
        v4_quoter = quoter;
        multicall3 = multicall;
        canonical_payout_plan = plan;
        hook_salt = salt;
      })
