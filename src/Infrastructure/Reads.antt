-- ===== src/Infrastructure/Reads.antt =====
-- The cached reads of the contracts: `ProtocolReadService` of
-- src/infrastructure/blockchain/protocol-read.service.ts. The contracts are parameters, a function of
-- the address that the book gives; times are in milliseconds.
pub mod Views
pub mod Methods
pub mod Keys
pub mod Freshness
pub mod Answers
use spawn_backend.Prelude.{
  ℕ, ◌+◌, ◌*◌, ltb, ◌==◌, ◌||◌, not, Bool, if◌then◌else◌, List, [], ◌∷◌, ◌++◌, Option, none, some,
}
use spawn_backend.Prelude.Outcome.{Outcome, ok, err, ◌>>=◌}
use spawn_backend.Common.Decimal.{Text, to_text}
use spawn_backend.Common.Dict.{Dict, find, put, remove}
use spawn_backend.Common.TextDict.{TextDict, find_text, put_text, remove_text}
use spawn_backend.Common.Texts.{to_lower_case}
use spawn_backend.Common.Trim.{is_blank}
use spawn_backend.Infrastructure.Addresses.{AddressBook}
use Views.{
  ProtocolTemplateView, EconomicConfigView, PoolStateView, Slot0View, RawSlot0, positional, named,
  PluginEntryView, ActionName, ControllerStateView,
}

abbrev pub template_ttl_ms : ℕ
template_ttl_ms = 5 * 60 * 1_000

abbrev pub economics_ttl_ms : ℕ
economics_ttl_ms = 30 * 1_000

abbrev pub pool_state_ttl_ms : ℕ
pool_state_ttl_ms = 5 * 1_000

abbrev pub slot0_ttl_ms : ℕ
slot0_ttl_ms = 2 * 1_000

abbrev pub controller_ttl_ms : ℕ
controller_ttl_ms = 30 * 1_000

-- `{ value, expiresAt }`
pub record Timed {ℓ} (A : Type ℓ) : Type ℓ where
  pub value : A
  pub expires_at : ℕ

pub record ReadCaches : Type 0 where
  pub templates : Dict (Timed ProtocolTemplateView)
  pub economics : Dict (Timed EconomicConfigView)
  pub pool_states : TextDict (Timed PoolStateView)
  pub slot0s : TextDict (Timed Slot0View)
  pub controller : Option (Timed ControllerStateView)

-- `` `${chainId}:${poolId}` ``
unfoldable pub pool_key : ℕ → Text → Text
pool_key chain_id pool_id = to_text chain_id ++ b':' ∷ pool_id

-- `cached && cached.expiresAt > Date.now()`
unfoldable pub live_value {ℓ} : {A : Type ℓ} → ℕ → Option (Timed A) → Option A
live_value now none = none
live_value now (some entry) = if ltb now entry.expires_at then some entry.value else none

unfoldable pub timed {ℓ} : {A : Type ℓ} → ℕ → ℕ → A → Timed A
timed ttl ended value = record { value = value; expires_at = ended + ttl }

-- The maps after a read that ended with a value.
unfoldable pub store_template : ℕ → ℕ → ProtocolTemplateView → ReadCaches → ReadCaches
store_template ended chain_id value s = record s {
  templates = put s.templates chain_id (timed template_ttl_ms ended value);
}

unfoldable pub store_economics : ℕ → ℕ → EconomicConfigView → ReadCaches → ReadCaches
store_economics ended chain_id value s = record s {
  economics = put s.economics chain_id (timed economics_ttl_ms ended value);
}

unfoldable pub store_pool_state : ℕ → ℕ → Text → PoolStateView → ReadCaches → ReadCaches
store_pool_state ended chain_id pool_id value s = record s {
  pool_states =
      put_text s.pool_states (pool_key chain_id pool_id) (timed pool_state_ttl_ms ended value);
}

unfoldable pub store_slot0 : ℕ → ℕ → Text → Slot0View → ReadCaches → ReadCaches
store_slot0 ended chain_id pool_id value s = record s {
  slot0s = put_text s.slot0s (pool_key chain_id pool_id) (timed slot0_ttl_ms ended value);
}

unfoldable pub store_controller : ℕ → ControllerStateView → ReadCaches → ReadCaches
store_controller ended value s = record s {
  controller = some (timed controller_ttl_ms ended value);
}

-- What the caches answer without a read.
unfoldable pub cached_template : ℕ → ℕ → ReadCaches → Option ProtocolTemplateView
cached_template now chain_id s = live_value now (find s.templates chain_id)

unfoldable pub cached_economics : ℕ → ℕ → ReadCaches → Option EconomicConfigView
cached_economics now chain_id s = live_value now (find s.economics chain_id)

unfoldable pub cached_pool_state : ℕ → ℕ → Text → ReadCaches → Option PoolStateView
cached_pool_state now chain_id pool_id s =
    live_value now (find_text s.pool_states (pool_key chain_id pool_id))

unfoldable pub cached_slot0 : ℕ → ℕ → Text → ReadCaches → Option Slot0View
cached_slot0 now chain_id pool_id s =
    live_value now (find_text s.slot0s (pool_key chain_id pool_id))

unfoldable pub cached_controller : ℕ → ReadCaches → Option ControllerStateView
cached_controller now s = live_value now s.controller

-- `invalidatePool`
unfoldable pub invalidate_pool : ℕ → Text → ReadCaches → ReadCaches
invalidate_pool chain_id pool_id s = record s {
  pool_states = remove_text s.pool_states (pool_key chain_id pool_id);
  slot0s = remove_text s.slot0s (pool_key chain_id pool_id);
}

-- `invalidateEconomics`
unfoldable pub invalidate_economics : ℕ → ReadCaches → ReadCaches
invalidate_economics chain_id s = record s { economics = remove s.economics chain_id }

-- `invalidateGovernance`
unfoldable pub invalidate_governance : ReadCaches → ReadCaches
invalidate_governance s = record s { controller = none }

-- A method with a cache: what is cached, else the read, which may throw, and its result stored.
unfoldable pub through {κ ℓ} :
    {E : Type κ} {A : Type ℓ}
    → Option A
    → Outcome E A
    → (A → ReadCaches → ReadCaches)
    → ReadCaches
    → Outcome E A × ReadCaches
through (some value) read store s = (ok value, s)
through none (err fault) store s = (err fault, s)
through none (ok value) store s = (ok value, store value s)

unfoldable pub slot0_of : RawSlot0 → Slot0View
slot0_of (positional price tick protocol_fee lp_fee) = record {
  sqrt_price_x96 = price;
  tick = tick;
  protocol_fee = protocol_fee;
  lp_fee = lp_fee;
}
slot0_of (named view) = view

-- The contracts: a read of a chain at an address.
pub record Contracts {κ} (E : Type κ) : Type κ where
  pub read_template : ℕ → Text → Outcome E ProtocolTemplateView
  pub read_economic_config : ℕ → Text → Outcome E EconomicConfigView
  pub read_pool_state : ℕ → Text → Text → Outcome E PoolStateView
  pub read_slot0 : ℕ → Text → Text → Outcome E RawSlot0
  pub read_entry : ℕ → Text → ℕ → Outcome E PluginEntryView
  pub read_text : ℕ → Text → Text → Outcome E Text
  pub read_number : ℕ → Text → Text → List Text → Outcome E ℕ
