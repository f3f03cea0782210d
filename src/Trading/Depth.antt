-- ===== src/Trading/Depth.antt =====
-- The liquidity ahead of a price: `depth` and `curveProgress` of
-- src/modules/trading/trading.service.ts. The pool, its last price and its live bands above the level
-- are what the queries return.
use spawn_backend.Prelude.{
  ℕ, zero, suc, ◌+◌, ◌-◌, ◌*◌, ◌/◌, min, max, leb, Bool, if◌then◌else◌, List, [], ◌∷◌, take, Option,
  none, some,
}
use spawn_backend.Prelude.Int.{ℤ, pos, ◌+ℤ◌, ◌-ℤ◌, leb_ℤ, ltb_ℤ, pos_part}
use spawn_backend.Prelude.Outcome.{ok, ◌>>=◌}
use spawn_backend.Protocol.Fault.{Partial}
use spawn_backend.Protocol.Constants.{
  full_range_tick_lower, full_range_tick_upper, wall_width_levels,
}
use spawn_backend.Protocol.Template
use spawn_backend.Protocol.Orientation.{sqrt_price_at_level}
use spawn_backend.Protocol.PriceText.{level_from_sqrt_price}
use spawn_backend.Protocol.Curve.{curve_position_start, curve_position_liquidity}

pub record LiveBand : Type 0 where
  pub index : ℕ
  pub level_lower : ℤ
  pub level_upper : ℤ
  pub liquidity : ℕ
  pub token_inventory : ℕ

-- A row of the pools, with the last price of its statistics.
pub record DepthPool : Type 0 where
  pub is_bonding : Bool
  pub is_graduated : Bool
  pub opening_level : ℤ
  pub far_level : ℤ
  pub total_supply : ℕ
  pub last_price_sqrt : Option ℕ
  pub graduation_level : Option ℤ
  pub full_range_liquidity : Option ℕ
  pub wall_liquidity : Option ℕ

pub record DepthPosition : Type 0 where
  pub position : ℕ
  pub start_level : ℤ
  pub end_level : ℤ
  pub liquidity : ℕ

pub data Depth : Type 0 where
  curve : ℤ → List DepthPosition → Depth
  ladder : ℤ → Option ℤ → List LiveBand → Option ℕ × ℕ × ℕ → Option ℕ × ℤ × ℤ → Depth

unfoldable pub bucket_count : Option ℕ → ℕ
bucket_count none = 8
bucket_count (some buckets) = min (max buckets 1) 32

-- One position of the loop that lies above the level.
unfoldable pub position_at : DepthPool → ℤ → ℕ → Partial DepthPosition
position_at pool start i = do
  liquidity ←
      curve_position_liquidity pool.opening_level pool.far_level Template.curve_positions
        (pool.total_supply * 25 / 100) i
  ok (record {
    position = i;
    start_level = start;
    end_level = pool.far_level;
    liquidity = liquidity;
  })

-- The loop over the positions from `i` on, until `wanted` are found.
unfoldable pub positions_from :
    DepthPool → ℤ → (left : ℕ) (i : ℕ) (wanted : ℕ) → Partial (List DepthPosition)
positions_from pool level zero i wanted = ok []
positions_from pool level (suc left) i wanted =
    let rest = positions_from pool level left (i + 1) in
    curve_position_start pool.opening_level pool.far_level Template.curve_positions i >>= λ start.
    if leb_ℤ start level then rest wanted else taken start rest
  where
    taken : ℤ → (ℕ → Partial (List DepthPosition)) → Partial (List DepthPosition)
    taken start rest = do
      position ← position_at pool start i
      later ← if leb wanted 1 then ok [] else rest (wanted - 1)
      ok (position ∷ later)

-- A price of the statistics is an object, which counts as true also where it is 0.
unfoldable pub price_or_opening : DepthPool → Option ℕ → Partial ℕ
price_or_opening pool none = sqrt_price_at_level pool.opening_level
price_or_opening pool (some sqrt) = ok sqrt

abbrev pub graduation_or_zero : Option ℤ → ℤ
graduation_or_zero none = pos 0
graduation_or_zero (some level) = level

-- The bands that the query returns: those above the level, the lowest first, up to the count.
unfoldable pub bands_above : ℤ → List LiveBand → List LiveBand
bands_above level [] = []
bands_above level (b ∷ bs) =
    let rest = bands_above level bs in if ltb_ℤ level b.level_lower then b ∷ rest else rest

-- `depth`, for live bands in the order of their levels.
unfoldable pub depth : Option ℕ → DepthPool → List LiveBand → Partial Depth
depth buckets pool bands = do
  sqrt ← price_or_opening pool pool.last_price_sqrt
  level ← level_from_sqrt_price sqrt
  positions ← positions_from pool level (curve_positions_of pool) 0 (bucket_count buckets)
  ok (
      if pool.is_bonding
      then Depth.curve level positions
      else Depth.ladder level pool.graduation_level
          (take (bucket_count buckets) (bands_above level bands))
          (pool.full_range_liquidity, full_range_tick_lower, full_range_tick_upper)
          (
            pool.wall_liquidity,
            graduation_or_zero pool.graduation_level +ℤ pos 1,
            graduation_or_zero pool.graduation_level +ℤ pos wall_width_levels,
          ))
  where
    -- The loop runs only while the pool is bonding.
    curve_positions_of : DepthPool → ℕ
    curve_positions_of p = if p.is_bonding then Template.curve_positions else 0

-- `curveProgress`, as the covered levels and the span that they are divided by.
unfoldable pub curve_progress : DepthPool → ℤ → ℕ × ℕ
curve_progress pool level =
    let span = pool.far_level -ℤ pool.opening_level in
    if pool.is_graduated
    then (1, 1)
    else if leb_ℤ span (pos 0)
    then (0, 1)
    else (min (pos_part (level -ℤ pool.opening_level)) (pos_part span), pos_part span)
