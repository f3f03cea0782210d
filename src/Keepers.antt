-- ===== src/Keepers.antt =====
-- The jobs of keepers: `jobs` of src/modules/keepers/keepers.service.ts. The rows of pools and pots, the
-- swaps since the last collection and the addresses of the deployment are what the queries return.
use spawn_backend.Prelude.{
  ℕ, ◌/◌, min, max, ltb, leb, ◌==◌, Bool, true, false, if◌then◌else◌, List, [], ◌∷◌, ◌++◌, take,
  Option, none, some,
}
use spawn_backend.Prelude.Int.{ℤ, pos, ◌-ℤ◌}
use spawn_backend.Prelude.Outcome.{ok, ◌>>=◌}
use spawn_backend.Protocol.Fault.{Partial}
use spawn_backend.Protocol.Orientation.{sqrt_price_at_level}

pub data JobKind : Type 0 where
  flush graduate collect_fees : JobKind

pub data PoolStatus : Type 0 where
  bonding graduated : PoolStatus

-- What the job is listed for.
pub data JobSignal : Type 0 where
  pot_balance : ℕ → JobSignal
  far_level_price : ℤ → ℕ → JobSignal
  swaps_since_last_collection : ℕ → JobSignal

pub record KeeperJob : Type 0 where
  pub kind : JobKind
  pub pool_id : ℕ
  pub call_to : Option ℕ
  pub incentive_wei : ℕ
  pub signal : JobSignal

pub record Pot : Type 0 where
  pub pool_id : ℕ
  pub balance : ℕ

-- The statistics of a pool, and its swaps of the last day behind the last collection of fees.
pub record KeeperStats : Type 0 where
  pub last_price_sqrt : ℕ
  pub last_swap_block : ℕ
  pub new_swaps : ℕ

pub record KeeperPool : Type 0 where
  pub pool_id : ℕ
  pub status : PoolStatus
  pub far_level : ℤ
  pub stats : Option KeeperStats

abbrev pub is_bonding : PoolStatus → Bool
is_bonding PoolStatus.bonding = true
is_bonding PoolStatus.graduated = false

abbrev pub same_kind : JobKind → JobKind → Bool
same_kind JobKind.flush JobKind.flush = true
same_kind JobKind.graduate JobKind.graduate = true
same_kind JobKind.collect_fees JobKind.collect_fees = true
same_kind JobKind.flush JobKind.graduate = false
same_kind JobKind.flush JobKind.collect_fees = false
same_kind JobKind.graduate JobKind.flush = false
same_kind JobKind.graduate JobKind.collect_fees = false
same_kind JobKind.collect_fees JobKind.flush = false
same_kind JobKind.collect_fees JobKind.graduate = false

-- `!query.kind || query.kind === kind`
abbrev pub wants : Option JobKind → JobKind → Bool
wants none kind = true
wants (some wanted) kind = same_kind wanted kind

unfoldable pub flush_jobs : Option ℕ → List Pot → List KeeperJob
flush_jobs hook [] = []
flush_jobs hook (pot ∷ pots) =
    let rest = flush_jobs hook pots in
    if ltb 0 pot.balance
    then record {
      kind = JobKind.flush;
      pool_id = pot.pool_id;
      call_to = hook;
      incentive_wei = pot.balance / 100;
      signal = JobSignal.pot_balance pot.balance;
    }
      ∷ rest
    else rest

-- The price test of one pool: a pool without statistics or price is passed over.
unfoldable pub reaches_far_level : KeeperPool → Option KeeperStats → Partial Bool
reaches_far_level pool none = ok false
reaches_far_level pool (some stats) =
    let compared =
      sqrt_price_at_level (pool.far_level -ℤ pos 1) >>= λ far. ok (leb stats.last_price_sqrt far) in
    if is_bonding pool.status
    then if stats.last_price_sqrt == 0 then ok false else compared
    else ok false

abbrev pub price_of_stats : Option KeeperStats → ℕ
price_of_stats none = 0
price_of_stats (some stats) = stats.last_price_sqrt

unfoldable pub graduate_jobs : Option ℕ → List KeeperPool → Partial (List KeeperJob)
graduate_jobs hook [] = ok []
graduate_jobs hook (pool ∷ pools) =
    let rest = graduate_jobs hook pools in
    do
      listed ← reaches_far_level pool pool.stats
      later ← rest
      ok (
          if listed
          then record {
            kind = JobKind.graduate;
            pool_id = pool.pool_id;
            call_to = hook;
            incentive_wei = 0;
            signal = JobSignal.far_level_price pool.far_level (price_of_stats pool.stats);
          }
            ∷ later
          else later)

unfoldable pub swaps_to_collect : KeeperPool → Option KeeperStats → ℕ
swaps_to_collect pool none = 0
swaps_to_collect pool (some stats) =
    if is_bonding pool.status then 0 else if ltb 0 stats.last_swap_block then stats.new_swaps else 0

unfoldable pub collect_jobs : Option ℕ → List KeeperPool → List KeeperJob
collect_jobs hook [] = []
collect_jobs hook (pool ∷ pools) =
    let rest = collect_jobs hook pools in
    let swaps = swaps_to_collect pool pool.stats in
    if ltb 0 swaps
    then record {
      kind = JobKind.collect_fees;
      pool_id = pool.pool_id;
      call_to = hook;
      incentive_wei = 0;
      signal = JobSignal.swaps_since_last_collection swaps;
    }
      ∷ rest
    else rest

unfoldable pub job_limit : Option ℕ → ℕ
job_limit none = 50
job_limit (some limit) = min (max limit 1) 200

-- `jobs`: the first 500 pools, the latest launch first.
unfoldable pub jobs :
    Option JobKind → Option ℕ → Option ℕ → List KeeperPool → List Pot → Partial (List KeeperJob)
jobs kind limit hook pools pots = do
  graduations ← if wants kind JobKind.graduate then graduate_jobs hook (take 500 pools) else ok []
  ok (
      take (job_limit limit) (
        (if wants kind JobKind.flush then flush_jobs hook pots else [])
        ++ graduations
        ++ (if wants kind JobKind.collect_fees then collect_jobs hook (take 500 pools) else [])))
