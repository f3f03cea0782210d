-- ===== src/Protocol/Template.antt =====
-- PROTOCOL_TEMPLATE_DEFAULT of src/protocol/protocol-constants.ts.
use spawn_backend.Prelude.{ℕ}

abbrev pub opening_fdv_wei : ℕ
opening_fdv_wei = 2_000_000_000_000_000_000

abbrev pub curve_positions : ℕ
curve_positions = 32

abbrev pub curve_span_levels : ℕ
curve_span_levels = 13_862

abbrev pub band_level_spacing : ℕ
band_level_spacing = 2_235

abbrev pub band_first_step_levels : ℕ
band_first_step_levels = 6_932

abbrev pub band_step_decay_levels : ℕ
band_step_decay_levels = 391

abbrev pub band_width_levels : ℕ
band_width_levels = 447

abbrev pub core_band_count : ℕ
core_band_count = 22

abbrev pub max_fee_funded_bands : ℕ
max_fee_funded_bands = 30

abbrev pub curve_supply_share_wad : ℕ
curve_supply_share_wad = 250_000_000_000_000_000

abbrev pub ladder_supply_share_wad : ℕ
ladder_supply_share_wad = 100_000_000_000_000_000

abbrev pub full_range_supply_share_wad : ℕ
full_range_supply_share_wad = 650_000_000_000_000_000

abbrev pub lp_seed_wad : ℕ
lp_seed_wad = 200_000_000_000_000_000

abbrev pub proceeds_creator_wad : ℕ
proceeds_creator_wad = 700_000_000_000_000_000

abbrev pub proceeds_protocol_wad : ℕ
proceeds_protocol_wad = 100_000_000_000_000_000

abbrev pub trading_fee_hundredths_bip : ℕ
trading_fee_hundredths_bip = 10_000

abbrev pub band_inventory_cap_multiple : ℕ
band_inventory_cap_multiple = 2
