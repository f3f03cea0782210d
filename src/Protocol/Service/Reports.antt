-- ===== src/Protocol/Service/Reports.antt =====
-- The reports of `ProtocolService`, src/modules/protocol/protocol.service.ts: rows of the database in
-- the shape of the API, and the statement of `revenueHistory`. Decimals, dates and JSON values stay
-- those of the libraries; the results of the queries are arguments.
use spawn_backend.Prelude.{ℕ, Bool, List, map, length, Option, none, some}
use spawn_backend.Prelude.Outcome.{Outcome, ok, err}
use spawn_backend.Common.Decimal.{Text, to_text}
use spawn_backend.Common.Pagination.{PageMeta, page_meta}
use spawn_backend.Protocol.Service.{ProtocolError}

-- `x?.toString() ?? null`
unfoldable pub optional_text_of {ℓ} : {A : Type ℓ} → (A → Text) → Option A → Option Text
optional_text_of to_string none = none
optional_text_of to_string (some value) = some (to_string value)

-- A row of `plugin_registry_entries`.
pub record PluginRow {ℓ} (Amount : Type ℓ) : Type ℓ where
  pub registry_index : ℕ
  pub plugin : Text
  pub take_wad : Amount
  pub gas_limit : ℕ
  pub code_hash : Text
  pub role : ℕ
  pub suspended : Bool
  pub registered_block : ℕ

pub record PluginAnswer : Type 0 where
  pub registry_index : ℕ
  pub plugin : Text
  pub take_wad : Text
  pub gas_limit : ℕ
  pub code_hash : Text
  pub role : ℕ
  pub suspended : Bool
  pub registered_at_block : Text

pub record PluginPage : Type 0 where
  pub data_rows : List PluginAnswer
  pub meta : PageMeta

-- A row of `protocol_state`, as far as the reports read it.
pub record ProtocolState : Type 0 where
  pub economic_version : ℕ
  pub protocol_recipient : Option Text
  pub trusted_operator : Option Text
  pub trusted_operator_block : Option ℕ
  pub administrator : Option Text
  pub pending_administrator : Option Text
  pub governance_delay_seconds : Option ℕ
  pub last_indexed_block : Option ℕ

pub record GovernanceOperation : Type 0 where
  pub operation_id : Text
  pub action : Text
  pub status : Text
  pub ready_at : Option ℕ
  pub executed_at_block : Option ℕ
  pub cancelled_at_block : Option ℕ
  pub block_time : ℕ

pub record GovernanceState : Type 0 where
  pub economic_version : Text
  pub protocol_recipient : Option Text
  pub trusted_operator : Option Text
  pub trusted_operator_set_block : Option Text
  pub administrator : Option Text
  pub pending_administrator : Option Text
  pub governance_delay_seconds : Option Text

pub record OperationAnswer : Type 0 where
  pub operation_id : Text
  pub action : Text
  pub status : Text
  pub ready_at : Option Text
  pub executed_at_block : Option Text
  pub cancelled_at_block : Option Text
  pub block_time : ℕ

pub record Governance : Type 0 where
  pub chain_id : ℕ
  pub state : Option GovernanceState
  pub operations : List OperationAnswer

pub record Watermark : Type 0 where
  pub committed_version : ℕ
  pub block_number : ℕ
  pub block_hash : Text
  pub block_time : ℕ

pub record WatermarkAnswer : Type 0 where
  pub chain_id : ℕ
  pub committed_version : Text
  pub block_number : Text
  pub block_hash : Text
  pub block_time : Text
  pub last_indexed_block : Option Text
  pub trusted_operator : Option Text

module _ {ℓ} {Amount : Type ℓ} (to_fixed : Amount → Text) where
  unfoldable pub plugin_answer : PluginRow Amount → PluginAnswer
  plugin_answer row = record {
    registry_index = row.registry_index;
    plugin = row.plugin;
    take_wad = to_fixed row.take_wad;
    gas_limit = row.gas_limit;
    code_hash = row.code_hash;
    role = row.role;
    suspended = row.suspended;
    registered_at_block = to_text row.registered_block;
  }

  -- `plugins`
  unfoldable pub plugins : List (PluginRow Amount) → PluginPage
  plugins rows = record { data_rows = map plugin_answer rows; meta = page_meta 1 256 (length rows) }

unfoldable pub governance_state : ProtocolState → GovernanceState
governance_state s = record {
  economic_version = to_text s.economic_version;
  protocol_recipient = s.protocol_recipient;
  trusted_operator = s.trusted_operator;
  trusted_operator_set_block = optional_text_of to_text s.trusted_operator_block;
  administrator = s.administrator;
  pending_administrator = s.pending_administrator;
  governance_delay_seconds = optional_text_of to_text s.governance_delay_seconds;
}

unfoldable pub map_option {κ ℓ} : {A : Type κ} {B : Type ℓ} → (A → B) → Option A → Option B
map_option f none = none
map_option f (some value) = some (f value)

module _ (to_iso_string : ℕ → Text) where
  unfoldable pub operation_answer : GovernanceOperation → OperationAnswer
  operation_answer o = record {
    operation_id = o.operation_id;
    action = o.action;
    status = o.status;
    ready_at = optional_text_of to_iso_string o.ready_at;
    executed_at_block = optional_text_of to_text o.executed_at_block;
    cancelled_at_block = optional_text_of to_text o.cancelled_at_block;
    block_time = o.block_time;
  }

  -- `governance`, on the operations that the query gives.
  unfoldable pub governance : ℕ → Option ProtocolState → List GovernanceOperation → Governance
  governance chain_id state operations = record {
    chain_id = chain_id;
    state = map_option governance_state state;
    operations = map operation_answer operations;
  }

  -- `watermark`
  unfoldable pub watermark :
      ℕ → Option Watermark → Option ProtocolState → Outcome ProtocolError WatermarkAnswer
  watermark chain_id none state = err ProtocolError.watermark_not_found
  watermark chain_id (some row) state = ok (record {
    chain_id = chain_id;
    committed_version = to_text row.committed_version;
    block_number = to_text row.block_number;
    block_hash = row.block_hash;
    block_time = to_iso_string row.block_time;
    last_indexed_block = last_block state;
    trusted_operator = operator state;
  })
    where
      last_block : Option ProtocolState → Option Text
      last_block none = none
      last_block (some s) = optional_text_of to_text s.last_indexed_block

      operator : Option ProtocolState → Option Text
      operator none = none
      operator (some s) = s.trusted_operator
