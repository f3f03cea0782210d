-- ===== src/Protocol/Constants.antt =====
-- The template and economics constants of src/protocol/protocol-constants.ts.
use spawn_backend.Prelude.{ℕ, ◌-◌, List, [], ◌∷◌, Option, get_elem?}
use spawn_backend.Prelude.Int.{ℤ, pos, negsuc}

abbrev pub max_dev_buy_share_wad : ℕ
max_dev_buy_share_wad = 100_000_000_000_000_000

abbrev pub fixed_total_supply : ℕ
fixed_total_supply = 1_000_000_000_000_000_000_000_000_000

abbrev pub wad : ℕ
wad = 1_000_000_000_000_000_000

abbrev pub fee_denominator : ℕ
fee_denominator = 1_000_000

abbrev pub full_range_tick_lower : ℕ
full_range_tick_lower = 28_135

abbrev pub full_range_tick_upper : ℕ
full_range_tick_upper = 200_114

abbrev pub wall_width_levels : ℕ
wall_width_levels = 880_000

-- MAX_TICK; MIN_TICK is its opposite.
abbrev pub max_tick : ℕ
max_tick = 887_272

abbrev pub min_sqrt_price : ℕ
min_sqrt_price = 4_295_128_739

abbrev pub max_sqrt_price : ℕ
max_sqrt_price = 1_461_446_703_485_210_103_287_273_052_203_988_822_378_723_970_342

-- MIN_LEVEL = -MAX_TICK and MAX_LEVEL = -MIN_TICK.
abbrev pub min_level : ℤ
min_level = negsuc (max_tick - 1)

abbrev pub max_level : ℤ
max_level = pos max_tick

pub data AccrualSource : Type 0 where
  curve_proceeds swap_fees milestone_harvest : AccrualSource

pub data PluginRole : Type 0 where
  invalid payout creator_system utility : PluginRole

pub data Phase : Type 0 where
  unlaunched bonding_curve graduated : Phase

abbrev accrual_sources : List AccrualSource
accrual_sources =
    AccrualSource.curve_proceeds ∷ AccrualSource.swap_fees ∷ AccrualSource.milestone_harvest ∷ []

abbrev plugin_roles : List PluginRole
plugin_roles =
    PluginRole.invalid ∷ PluginRole.payout ∷ PluginRole.creator_system ∷ PluginRole.utility ∷ []

abbrev phases : List Phase
phases = Phase.unlaunched ∷ Phase.bonding_curve ∷ Phase.graduated ∷ []

-- An index out of range gives null.
pub accrual_source_from_uint8 : ℕ → Option AccrualSource
accrual_source_from_uint8 value = get_elem? accrual_sources value

pub plugin_role_from_uint8 : ℕ → Option PluginRole
plugin_role_from_uint8 value = get_elem? plugin_roles value

pub phase_from_uint8 : ℕ → Option Phase
phase_from_uint8 value = get_elem? phases value
