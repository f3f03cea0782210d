-- ===== src/Protocol/Eip712.antt =====
-- The hashes of a launch: `launchConfigHash`, `launchTokenSalt` and `launchDigest` of
-- src/protocol/protocol-math.ts. Keccak and the ABI encoder are parameters.
use spawn_backend.Prelude.{ℕ, List, [], ◌∷◌}
use spawn_backend.Common.Decimal.{Text}

-- A text that is hashed: one given, or one of the constants of the file.
pub data HashedText : Type 0 where
  given : Text → HashedText
  domain_type domain_name domain_version launch_config_type : HashedText

-- A value with its ABI type.
pub data AbiValue : Type 0 where
  address : ℕ → AbiValue
  bytes32 : ℕ → AbiValue
  uint256 : ℕ → AbiValue
  uint64 : ℕ → AbiValue

-- Keccak of a text, of an ABI encoding, and of 0x1901 with two hashes behind it.
pub record Hasher : Type 0 where
  pub keccak_text : HashedText → ℕ
  pub keccak_encoded : List AbiValue → ℕ
  pub keccak_signed : ℕ → ℕ → ℕ

pub record LaunchConfig : Type 0 where
  pub creator : ℕ
  pub name : Text
  pub symbol : Text
  pub uri : Text
  pub total_supply : ℕ
  pub dev_buy_share_wad : ℕ
  pub payout_plan : ℕ
  pub deadline : ℕ

module _ (h : Hasher) where
  unfoldable pub keccak_utf8 : Text → ℕ
  keccak_utf8 text = h.keccak_text (HashedText.given text)

  -- The identity of a launch, without the deadline.
  unfoldable pub launch_config_hash : LaunchConfig → ℕ
  launch_config_hash config = h.keccak_encoded (
      AbiValue.address config.creator
      ∷ AbiValue.bytes32 (keccak_utf8 config.name)
      ∷ AbiValue.bytes32 (keccak_utf8 config.symbol)
      ∷ AbiValue.bytes32 (keccak_utf8 config.uri)
      ∷ AbiValue.uint256 config.total_supply
      ∷ AbiValue.uint64 config.dev_buy_share_wad
      ∷ AbiValue.uint256 config.payout_plan
      ∷ [])

  unfoldable pub launch_token_salt : ℕ → ℕ → ℕ
  launch_token_salt config_hash creator =
      h.keccak_encoded (AbiValue.bytes32 config_hash ∷ AbiValue.address creator ∷ [])

  unfoldable pub domain_separator : ℕ → ℕ → ℕ
  domain_separator chain_id hook = h.keccak_encoded (
      AbiValue.bytes32 (h.keccak_text HashedText.domain_type)
      ∷ AbiValue.bytes32 (h.keccak_text HashedText.domain_name)
      ∷ AbiValue.bytes32 (h.keccak_text HashedText.domain_version)
      ∷ AbiValue.uint256 chain_id
      ∷ AbiValue.address hook
      ∷ [])

  unfoldable pub struct_hash : LaunchConfig → ℕ
  struct_hash config = h.keccak_encoded (
      AbiValue.bytes32 (h.keccak_text HashedText.launch_config_type)
      ∷ AbiValue.address config.creator
      ∷ AbiValue.bytes32 (keccak_utf8 config.name)
      ∷ AbiValue.bytes32 (keccak_utf8 config.symbol)
      ∷ AbiValue.bytes32 (keccak_utf8 config.uri)
      ∷ AbiValue.uint256 config.total_supply
      ∷ AbiValue.uint64 config.dev_buy_share_wad
      ∷ AbiValue.uint256 config.payout_plan
      ∷ AbiValue.uint256 config.deadline
      ∷ [])

  unfoldable pub launch_digest : LaunchConfig → ℕ → ℕ → ℕ
  launch_digest config hook chain_id =
      h.keccak_signed (domain_separator chain_id hook) (struct_hash config)
