-- ===== src/Infrastructure/Addresses.antt =====
-- The address book of a chain: src/infrastructure/blockchain/address-book.ts. A manifest is the
-- object of its fields; the conversion of a field to an integer by zod is a parameter.
pub mod Manifest
pub mod Overrides
pub mod Hexadecimal
pub mod Schemas
pub mod Validity
pub mod Precedence
use spawn_backend.Prelude.{ℕ, ◌==◌, not, Bool, if◌then◌else◌, List, [], ◌∷◌, Option, none, some}
use spawn_backend.Prelude.Int.{ℤ}
use spawn_backend.Prelude.Outcome.{Outcome, ok, err, throw_if, ◌>>=◌, ◌>>◌}
use spawn_backend.Common.Decimal.{Text}
use spawn_backend.Common.Texts.{codes}
use Manifest.{
  ProtocolKey, protocol_keys, PerKey, at, BookError, for_each_key, Field, Document,
  DeploymentManifest, parse_manifest,
}
use Overrides.{BookEnvironment, InfraOverrides, read_env_overrides, read_infra_overrides}

pub record AddressBook : Type 0 where
  pub chain_id : ℕ
  pub protocol : PerKey Text
  pub buyback_and_burn_plugin : Option Text
  pub pool_manager : Text
  pub state_view : Option Text
  pub v4_quoter : Option Text
  pub multicall3 : Text
  pub canonical_payout_plan : Option Text
  pub hook_salt : Option Text

pub record KnownAddresses : Type 0 where
  pub pool_manager : Text
  pub multicall3 : Text

unfoldable pub known_addresses : ℕ → Option KnownAddresses
known_addresses chain_id =
    if chain_id == 8453
    then some (record {
      pool_manager = codes "0x498581ff718922c3f8e6a244956af099b2652b2b";
      multicall3 = codes "0xca11bde05977b3631167028862be2a173976ca11";
    })
    else if chain_id == 84532
    then some (record {
      pool_manager = codes "0x7a9a54d308b0e6806b1bf3343d3e905939166b43";
      multicall3 = codes "0xca11bde05977b3631167028862be2a173976ca11";
    })
    else none

-- `a ?? b`
unfoldable pub or_next {ℓ} : {A : Type ℓ} → Option A → Option A → Option A
or_next none next = next
or_next (some value) next = some value

-- `parsed?.field`
unfoldable pub optional_field {ℓ κ} :
    {A : Type ℓ} {B : Type κ} → (A → Option B) → Option A → Option B
optional_field field none = none
optional_field field (some value) = field value

unfoldable pub text_or_throw : BookError → Option Text → Outcome BookError Text
text_or_throw fault none = err fault
text_or_throw fault (some text) = ok text

-- The protocol's addresses: the override, else the manifest's.
unfoldable pub merged_key :
    PerKey (Option Text) → Option DeploymentManifest → ProtocolKey → Option Text
merged_key overrides parsed key =
    or_next (at key overrides) (optional_field (λ m. some (at key m.protocol)) parsed)

unfoldable pub missing_of : (ProtocolKey → Option Text) → List ProtocolKey → List ProtocolKey
missing_of address [] = []
missing_of address (key ∷ keys) = add_missing (address key) (missing_of address keys)
  where
    add_missing : Option Text → List ProtocolKey → List ProtocolKey
    add_missing none later = key ∷ later
    add_missing (some text) later = later

module _ (to_integer : Field → Option ℤ) where
  -- The manifest that the caller gives, for the chain that it asks for.
  unfoldable pub parsed_manifest :
      ℕ → Option Document → Outcome BookError (Option DeploymentManifest)
  parsed_manifest chain_id none = ok none
  parsed_manifest chain_id (some document) = parse_manifest to_integer document >>= λ m.
      throw_if (not (m.chain_id == chain_id)) (BookError.chain_mismatch m.chain_id) >> ok (some m)

  -- The book from its parts, behind the checks of what is missing.
  unfoldable pub assemble :
      ℕ
      → PerKey (Option Text)
      → InfraOverrides
      → Option DeploymentManifest
      → Outcome BookError AddressBook
  assemble chain_id overrides infra parsed =
      let known = known_addresses chain_id in
      let address = merged_key overrides parsed in
      let missing = BookError.missing_protocol (missing_of address protocol_keys) in
      let pool_manager = or_next infra.pool_manager (
        or_next (optional_field (λ m. m.pool_manager) parsed)
          (optional_field (λ k. some k.pool_manager) known)) in
      let multicall3 = or_next infra.multicall3 (
        or_next (optional_field (λ m. m.multicall3) parsed)
          (optional_field (λ k. some k.multicall3) known)) in
      for_each_key (λ key. text_or_throw missing (address key)) >>= λ protocol.
      text_or_throw BookError.missing_pool_manager pool_manager >>= λ manager.
      text_or_throw BookError.missing_multicall3 multicall3 >>= λ multicall. ok (record {
        chain_id = chain_id;
        protocol = protocol;
        buyback_and_burn_plugin =
            or_next (optional_field (λ m. m.buyback_and_burn_plugin) parsed)
              (optional_field (λ m. m.buyback_plugin) parsed);
        pool_manager = manager;
        state_view = or_next infra.state_view (optional_field (λ m. m.state_view) parsed);
        v4_quoter = or_next infra.v4_quoter (optional_field (λ m. m.v4_quoter) parsed);
        multicall3 = multicall;
        canonical_payout_plan = optional_field (λ m. m.canonical_payout_plan) parsed;
        hook_salt = optional_field (λ m. m.hook_salt) parsed;
      })

  -- `buildAddressBook`
  unfoldable pub build_address_book :
      ℕ → BookEnvironment → Option Document → Outcome BookError AddressBook
  build_address_book chain_id env manifest = read_env_overrides env >>= λ overrides.
      read_infra_overrides env >>= λ infra.
      parsed_manifest chain_id manifest >>= λ parsed. assemble chain_id overrides infra parsed
