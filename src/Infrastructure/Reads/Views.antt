-- ===== src/Infrastructure/Reads/Views.antt =====
-- The views of the contracts' state: the types of
-- src/infrastructure/blockchain/protocol-read.service.ts.
use spawn_backend.Prelude.{ℕ, Bool, List}
use spawn_backend.Prelude.Int.{ℤ}
use spawn_backend.Common.Decimal.{Text}

pub record ProtocolTemplateView : Type 0 where
  pub opening_fdv_wei : ℕ
  pub curve_positions : ℕ
  pub curve_span_levels : ℕ
  pub band_level_spacing : ℕ
  pub band_first_step_levels : ℕ
  pub band_step_decay_levels : ℕ
  pub band_width_levels : ℕ
  pub core_band_count : ℕ
  pub max_fee_funded_bands : ℕ
  pub curve_supply_share_wad : ℕ
  pub ladder_supply_share_wad : ℕ
  pub full_range_supply_share_wad : ℕ
  pub lp_seed_wad : ℕ
  pub proceeds_creator_wad : ℕ
  pub proceeds_protocol_wad : ℕ
  pub trading_fee_hundredths_bip : ℕ
  pub band_inventory_cap_multiple : ℕ
  pub max_deploys_per_swap : ℕ
  pub max_harvests_per_swap : ℕ

pub record EconomicConfigView : Type 0 where
  pub harvest_service_fee_wad : ℕ
  pub quote_creator_share_wad : ℕ
  pub token_milestone_fund_share_wad : ℕ
  pub version : ℕ

pub record PoolStateView : Type 0 where
  pub phase : ℕ
  pub creator : Text
  pub token : Text
  pub launched_at : ℕ
  pub graduated_at : ℕ
  pub total_supply : ℕ
  pub opening_level : ℤ
  pub far_level : ℤ
  pub payout_plan : ℕ
  pub curve_deployed : ℕ
  pub graduation_level : ℤ
  pub deployed_bands : ℕ
  pub completed_bands : ℕ
  pub next_band_index : ℕ
  pub fee_funded_bands_created : ℕ
  pub completed_milestones : ℕ
  pub ladder_inventory_remaining : ℕ
  pub carried_inventory : ℕ
  pub milestone_fund_accrued : ℕ
  pub full_range_liquidity : ℕ
  pub full_range_tick_lower : ℤ
  pub full_range_tick_upper : ℤ
  pub wall_liquidity : ℕ
  pub wall_tick_lower : ℤ
  pub wall_tick_upper : ℤ

pub record Slot0View : Type 0 where
  pub sqrt_price_x96 : ℕ
  pub tick : ℤ
  pub protocol_fee : ℕ
  pub lp_fee : ℕ

-- `getSlot0` gives its outputs in order, or by name.
pub data RawSlot0 : Type 0 where
  positional : ℕ → ℤ → ℕ → ℕ → RawSlot0
  named : Slot0View → RawSlot0

pub record PluginEntryView : Type 0 where
  pub plugin : Text
  pub take_wad : ℕ
  pub gas_limit : ℕ
  pub code_hash : Text
  pub role : ℕ
  pub suspended : Bool

pub data ActionName : Type 0 where
  set_economic_config set_protocol_recipient register_plugin set_plugin_suspended : ActionName
  set_governance_delay set_trusted_operator : ActionName

-- `actions` is in the order in which the code fills it; a later entry of a key counts.
pub record ControllerStateView : Type 0 where
  pub administrator : Text
  pub pending_administrator : Text
  pub governance_delay : ℕ
  pub protocol_recipient : Text
  pub trusted_operator : Text
  pub actions : List (ℕ × ActionName)
