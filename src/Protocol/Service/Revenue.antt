-- ===== src/Protocol/Service/Revenue.antt =====
-- Revenue and statistics of `ProtocolService`, src/modules/protocol/protocol.service.ts: the rows of the
-- queries in the shape of the API, and the statement of `revenueHistory`. Kinds that the table inherits
-- from `Object.prototype` are not in the model.
use spawn_backend.Prelude.{
  ℕ, min, max, Bool, true, false, if◌then◌else◌, List, [], ◌∷◌, ◌++◌, map, Option, none, some,
}
use spawn_backend.Prelude.Int.{ℤ, pos, negsuc}
use spawn_backend.Prelude.Outcome.{Outcome, ok, err, ◌>>=◌}
use spawn_backend.Common.Decimal.{Text, to_text}
use spawn_backend.Common.TextDict.{TextDict, find_text}
use spawn_backend.Common.Texts.{codes, to_lower_case}
use spawn_backend.Common.Trim.{is_blank}
use spawn_backend.Protocol.Service.{ProtocolError}
use spawn_backend.Protocol.Service.Reports.{map_option}

-- `protocol_stats`
pub record RevenueTotals {ℓ} (Amount : Type ℓ) : Type ℓ where
  pub protocol_revenue_total : Amount
  pub protocol_revenue_curve : Amount
  pub protocol_revenue_swap_fees : Amount
  pub protocol_revenue_harvest : Amount
  pub claimed_total : Amount

pub record TotalsAnswer : Type 0 where
  pub accrued : Text
  pub curve : Text
  pub swap_fees : Text
  pub harvest_fees : Text
  pub claimed : Text

pub record AccrualRow {ℓ} (Amount : Type ℓ) : Type ℓ where
  pub pool_id : Text
  pub source : Text
  pub amount : Amount
  pub economic_version : ℕ
  pub transaction_hash : Text
  pub block_number : ℕ
  pub timestamp : ℕ

pub record AccrualAnswer : Type 0 where
  pub pool_id : Text
  pub source : Text
  pub amount_wei : Text
  pub economic_version : Text
  pub transaction_hash : Text
  pub block_number : Text
  pub timestamp : ℕ

pub record ClaimRow {ℓ} (Amount : Type ℓ) : Type ℓ where
  pub holder : Text
  pub amount : Amount
  pub transaction_hash : Text
  pub block_number : ℕ
  pub timestamp : ℕ

pub record ClaimAnswer : Type 0 where
  pub recipient : Text
  pub amount_wei : Text
  pub transaction_hash : Text
  pub block_number : Text
  pub timestamp : ℕ

pub record LiveRevenue : Type 0 where
  pub protocol_claimable : Text
  pub protocol_claim_backed : Text

pub record Revenue : Type 0 where
  pub chain_id : ℕ
  pub totals : Option TotalsAnswer
  pub live : Option LiveRevenue
  pub accruals : List AccrualAnswer
  pub claims : List ClaimAnswer

pub record DayRow {ℓ} (Amount : Type ℓ) : Type ℓ where
  pub day : ℕ
  pub buy_volume_eth : Amount
  pub sell_volume_eth : Amount
  pub swap_count : ℕ
  pub creator_revenue_eth : Amount
  pub protocol_revenue_eth : Amount
  pub harvest_fees_eth : Amount
  pub graduation_count : ℕ
  pub launch_count : ℕ

pub record DayAnswer : Type 0 where
  pub day : ℕ
  pub buy_volume_eth : Text
  pub sell_volume_eth : Text
  pub swap_count : Text
  pub creator_revenue_eth : Text
  pub protocol_revenue_eth : Text
  pub harvest_fees_eth : Text
  pub graduation_count : ℕ
  pub launch_count : ℕ

pub record ProtocolStats {ℓ} (Row : Type ℓ) : Type ℓ where
  pub chain_id : ℕ
  pub daily : List DayAnswer
  pub leaderboard : List Row

-- The live view of the ledgers: null where the chain has no book or a read throws.
unfoldable pub live_revenue {κ} :
    {E : Type κ} → Bool → Outcome E ℕ → Outcome E ℕ → Option LiveRevenue
live_revenue false claimable backed = none
live_revenue true claimable backed = shown (claimable >>= λ c. backed >>= λ b. ok (live_of c b))
  where
    live_of : ℕ → ℕ → LiveRevenue
    live_of c b = record { protocol_claimable = to_text c; protocol_claim_backed = to_text b }

    shown : {F : Type κ} → Outcome F LiveRevenue → Option LiveRevenue
    shown (err fault) = none
    shown (ok view) = some view

module _ {ℓ} {Amount : Type ℓ} (to_fixed : Amount → Text) where
  unfoldable pub totals_answer : RevenueTotals Amount → TotalsAnswer
  totals_answer t = record {
    accrued = to_fixed t.protocol_revenue_total;
    curve = to_fixed t.protocol_revenue_curve;
    swap_fees = to_fixed t.protocol_revenue_swap_fees;
    harvest_fees = to_fixed t.protocol_revenue_harvest;
    claimed = to_fixed t.claimed_total;
  }

  unfoldable pub accrual_answer : AccrualRow Amount → AccrualAnswer
  accrual_answer r = record {
    pool_id = r.pool_id;
    source = r.source;
    amount_wei = to_fixed r.amount;
    economic_version = to_text r.economic_version;
    transaction_hash = r.transaction_hash;
    block_number = to_text r.block_number;
    timestamp = r.timestamp;
  }

  unfoldable pub claim_answer : ClaimRow Amount → ClaimAnswer
  claim_answer r = record {
    recipient = r.holder;
    amount_wei = to_fixed r.amount;
    transaction_hash = r.transaction_hash;
    block_number = to_text r.block_number;
    timestamp = r.timestamp;
  }

  -- `revenue`
  unfoldable pub revenue {κ} :
      {E : Type κ}
      → ℕ
      → List (AccrualRow Amount)
      → List (ClaimRow Amount)
      → Option (RevenueTotals Amount)
      → Bool
      → Outcome E ℕ
      → Outcome E ℕ
      → Revenue
  revenue chain_id accruals claims totals has_book claimable backed = record {
    chain_id = chain_id;
    totals = map_option totals_answer totals;
    live = live_revenue has_book claimable backed;
    accruals = map accrual_answer accruals;
    claims = map claim_answer claims;
  }

  unfoldable pub day_answer : DayRow Amount → DayAnswer
  day_answer d = record {
    day = d.day;
    buy_volume_eth = to_fixed d.buy_volume_eth;
    sell_volume_eth = to_fixed d.sell_volume_eth;
    swap_count = to_text d.swap_count;
    creator_revenue_eth = to_fixed d.creator_revenue_eth;
    protocol_revenue_eth = to_fixed d.protocol_revenue_eth;
    harvest_fees_eth = to_fixed d.harvest_fees_eth;
    graduation_count = d.graduation_count;
    launch_count = d.launch_count;
  }

  -- `stats`, with the rows of the leaderboard as they are.
  unfoldable pub stats {κ} :
      {Row : Type κ} → ℕ → List (DayRow Amount) → List Row → ProtocolStats Row
  stats chain_id days leaderboard = record {
    chain_id = chain_id;
    daily = map day_answer days;
    leaderboard = leaderboard;
  }

abbrev pub revenue_tables : TextDict Text
revenue_tables =
    (codes "creator", codes "creator_accruals")
    ∷ (codes "protocol", codes "protocol_accruals")
    ∷ (codes "claims", codes "claims")
    ∷ (codes "tips", codes "payout_tips")
    ∷ (codes "pluginPayouts", codes "plugin_payouts")
    ∷ (codes "pots", codes "payout_pot_fundings")
    ∷ []

unfoldable pub kind_or_default : Option Text → Text
kind_or_default none = codes "protocol"
kind_or_default (some kind) = kind

-- `Math.min(Math.max(query.limit ?? 100, 1), 500)`
unfoldable pub history_limit : Option ℤ → ℕ
history_limit none = 100
history_limit (some (pos n)) = min (max n 1) 500
history_limit (some (negsuc n)) = 1

-- The condition of the pool, if the query names one.
unfoldable pub pool_condition : Option Text → Text
pool_condition none = []
pool_condition (some pool_id) =
    if is_blank pool_id
    then []
    else codes " AND \"pool_id\" = '" ++ to_lower_case pool_id ++ codes "'"

-- The statement that `revenueHistory` sends, of a table.
unfoldable pub history_statement : Text → ℕ → Option Text → ℕ → Text
history_statement table chain_id pool_id limit =
    codes "SELECT * FROM "
    ++ table
    ++ codes " WHERE "
    ++ codes "\"chain_id\" = "
    ++ to_text chain_id
    ++ pool_condition pool_id
    ++ codes " ORDER BY \"block_number\" DESC, \"log_index\" DESC LIMIT "
    ++ to_text limit

-- `revenueHistory`, up to the rows that the statement gives.
unfoldable pub revenue_history :
    ℕ → Option Text → Option Text → Option ℤ → Outcome ProtocolError Text
revenue_history chain_id kind pool_id limit =
    of_table (find_text revenue_tables (kind_or_default kind))
  where
    of_table : Option Text → Outcome ProtocolError Text
    of_table none = err ProtocolError.invalid_kind
    of_table (some table) = ok (history_statement table chain_id pool_id (history_limit limit))
