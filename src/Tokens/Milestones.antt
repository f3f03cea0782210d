-- ===== src/Tokens/Milestones.antt =====
-- The milestones of a pool: `milestones` of src/modules/tokens/token-query.service.ts, and the share of
-- the way to the next payout that the list and the board show. The rows of bands and skips are what the
-- queries return.
use spawn_backend.Prelude.{
  ℕ, zero, suc, ◌+◌, ◌*◌, ◌/◌, ltb, ◌==◌, Bool, true, false, if◌then◌else◌, List, [], ◌∷◌, take,
  drop, length, Option, none, some,
}
use spawn_backend.Prelude.Int.{ℤ, pos, ◌-ℤ◌, ltb_ℤ, pos_part}
use spawn_backend.Prelude.Outcome.{ok, ◌>>=◌}
use spawn_backend.Common.Dict.{Dict, find}
use spawn_backend.Common.Pagination.{PageMeta, page_meta, skip}
use spawn_backend.Protocol.Fault.{Partial}
use spawn_backend.Protocol.Template
use spawn_backend.Protocol.Ladder.{BandBounds, band_levels}
use spawn_backend.Protocol.PriceText.{level_from_sqrt_price}

-- A row of the bands.
pub record DeployedBand : Type 0 where
  pub is_completed : Bool
  pub level_lower : ℤ
  pub level_upper : ℤ
  pub liquidity : ℕ
  pub token_inventory : ℕ
  pub deployed_at : Option ℕ
  pub completed_at : Option ℕ

pub data MilestoneState : Type 0 where
  harvested deployed skipped pending : MilestoneState

pub record Milestone : Type 0 where
  pub index : ℕ
  pub is_core : Bool
  pub state : MilestoneState
  pub level_lower : ℤ
  pub level_upper : ℤ
  pub band : Option DeployedBand

unfoldable pub has_index : ℕ → List ℕ → Bool
has_index i [] = false
has_index i (x ∷ xs) = let later = has_index i xs in if x == i then true else later

unfoldable pub milestone_state : Option DeployedBand → Bool → MilestoneState
milestone_state (some b) is_skipped =
    if b.is_completed then MilestoneState.harvested else MilestoneState.deployed
milestone_state none is_skipped =
    if is_skipped then MilestoneState.skipped else MilestoneState.pending

unfoldable pub milestone_row : ℕ → BandBounds → Option DeployedBand → Bool → Milestone
milestone_row i geometry none is_skipped = record {
  index = i;
  is_core = ltb i Template.core_band_count;
  state = milestone_state none is_skipped;
  level_lower = geometry.level_lower;
  level_upper = geometry.level_upper;
  band = none;
}
milestone_row i geometry (some b) is_skipped = record {
  index = i;
  is_core = ltb i Template.core_band_count;
  state = milestone_state (some b) is_skipped;
  level_lower = b.level_lower;
  level_upper = b.level_upper;
  band = some b;
}

unfoldable pub template_band : ℤ → ℕ → Partial BandBounds
template_band graduation index =
    band_levels graduation Template.band_first_step_levels Template.band_step_decay_levels
      Template.band_level_spacing Template.band_width_levels index

-- The loop over the bands from `i` on, up to the first that does not exist.
unfoldable pub milestone_rows :
    ℤ → Dict DeployedBand → List ℕ → (left : ℕ) (i : ℕ) → Partial (List Milestone)
milestone_rows graduation bands skips zero i = ok []
milestone_rows graduation bands skips (suc left) i =
    let rest = milestone_rows graduation bands skips left (i + 1) in
    do
      geometry ← template_band graduation i
      later ← if geometry.exists then rest else ok []
      ok (
          if geometry.exists
          then milestone_row i geometry (find bands i) (has_index i skips) ∷ later
          else [])

pub record MilestonePage : Type 0 where
  pub data_rows : List Milestone
  pub meta : PageMeta

-- `milestones`, for the level of a graduated pool, or none.
unfoldable pub milestones : Option ℤ → Dict DeployedBand → List ℕ → ℕ → ℕ → Partial MilestonePage
milestones none bands skips page limit =
    ok (record { data_rows = []; meta = page_meta page limit 0 })
milestones (some graduation) bands skips page limit = do
  rows ←
      milestone_rows graduation bands skips
        (Template.core_band_count + Template.max_fee_funded_bands) 0
  ok (record {
    data_rows = take limit (drop (skip page limit) rows);
    meta = page_meta page limit (length rows);
  })

-- Where the way to the next payout starts: the graduation, or the end of the band paid last.
unfoldable pub payout_start : ℤ → ℕ → Partial ℤ
payout_start graduation zero = ok graduation
payout_start graduation (suc paid) = do last ← template_band graduation paid; ok last.level_upper

-- The way done and the whole way: the share is their quotient, at least 0 and at most 0.99.
unfoldable pub way_between : ℤ → ℤ → ℤ → Option (ℕ × ℕ)
way_between level from to =
    if ltb_ℤ (pos 0) (to -ℤ from)
    then some (pos_part (level -ℤ from), pos_part (to -ℤ from))
    else none

unfoldable pub way_at_level : ℤ → ℕ → ℤ → Partial (Option (ℕ × ℕ))
way_at_level graduation paid level = do
  geometry ← template_band graduation paid
  start ← if geometry.exists then payout_start graduation paid else ok graduation
  ok (if geometry.exists then way_between level start geometry.level_lower else none)

-- A pool without a price has no way.
unfoldable pub payout_way : ℤ → ℕ → ℕ → Partial (Option (ℕ × ℕ))
payout_way graduation paid sqrt =
    let way = (level_from_sqrt_price sqrt >>= way_at_level graduation paid) in
    if sqrt == 0 then ok none else way

-- `proximityPct` of the board is the share rounded to a percent; it is at most 99.
unfoldable pub proximity_percent : ℕ × ℕ → ℕ
proximity_percent (way, whole) =
    if ltb (99 * whole) (100 * way) then 99 else (200 * way + whole) / (2 * whole)
