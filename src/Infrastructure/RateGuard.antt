-- ===== src/Infrastructure/RateGuard.antt =====
-- The guard of the mutations: src/infrastructure/rate-limit/mutation-rate-limit.guard.ts with the
-- policies of src/infrastructure/rate-limit/rate-limit.policy.ts. The limiter is the one of
-- Infrastructure.RateLimit, with a counter for the address and one for the wallet.
use spawn_backend.Prelude.{ℕ, Bool, true, false, if◌then◌else◌, not, Option, none, some}
use spawn_backend.Infrastructure.RateLimit.{Counter, RateLimitCheck, check}

pub record RateLimitPolicy : Type 0 where
  pub ip_limit : ℕ
  pub wallet_limit : ℕ
  pub window_seconds : ℕ

pub data PolicyName : Type 0 where
  general token_create comment comment_like profile_update rpc_proxy : PolicyName

unfoldable pub rate_limit_policy : PolicyName → RateLimitPolicy
rate_limit_policy PolicyName.general = record {
  ip_limit = 60;
  wallet_limit = 30;
  window_seconds = 60;
}
rate_limit_policy PolicyName.token_create = record {
  ip_limit = 5;
  wallet_limit = 3;
  window_seconds = 3_600;
}
rate_limit_policy PolicyName.comment = record {
  ip_limit = 20;
  wallet_limit = 10;
  window_seconds = 60;
}
rate_limit_policy PolicyName.comment_like = record {
  ip_limit = 120;
  wallet_limit = 60;
  window_seconds = 60;
}
rate_limit_policy PolicyName.profile_update = record {
  ip_limit = 20;
  wallet_limit = 10;
  window_seconds = 3_600;
}
rate_limit_policy PolicyName.rpc_proxy = record {
  ip_limit = 600;
  wallet_limit = 600;
  window_seconds = 60;
}

pub data Method : Type 0 where
  get post put_method delete patch other_method : Method

abbrev pub is_mutation : Method → Bool
is_mutation Method.get = false
is_mutation Method.post = true
is_mutation Method.put_method = true
is_mutation Method.delete = true
is_mutation Method.patch = true
is_mutation Method.other_method = false

-- The wallets that a request names: in the body, in the path and in the query.
pub record RequestWallets : Type 0 where
  pub body_wallet : Option ℕ
  pub body_creator : Option ℕ
  pub path_wallet : Option ℕ
  pub query_wallet : Option ℕ

-- `a ?? b`
abbrev pub or_else {ℓ} : {A : Type ℓ} → Option A → Option A → Option A
or_else none b = b
or_else (some a) b = some a

unfoldable pub wallet_of : RequestWallets → Option ℕ
wallet_of r = or_else r.body_wallet (or_else r.body_creator (or_else r.path_wallet r.query_wallet))

-- The counter of the address, and the one of the wallet where the request names one.
pub record GuardCounters : Type 0 where
  pub ip : Option Counter
  pub wallet : Option Counter

-- The headers of an answer, and whether the request is refused.
pub record GuardAnswer : Type 0 where
  pub header : Option RateLimitCheck
  pub is_refused : Bool

unfoldable pub check_wallet :
    RateLimitPolicy → ℕ → Option ℕ → Option Counter → Option RateLimitCheck × Option Counter
check_wallet policy now none counter = (none, counter)
check_wallet policy now (some wallet) counter =
    let (result, after) = check policy.wallet_limit policy.window_seconds now counter in
    (some result, some after)

-- The first result that is not allowed decides, then the wallet's, then the address's.
unfoldable pub effective : RateLimitCheck → Option RateLimitCheck → GuardAnswer
effective ip none = record { header = some ip; is_refused = not ip.allowed }
effective ip (some wallet) =
    if not ip.allowed
    then record { header = some ip; is_refused = true }
    else record { header = some wallet; is_refused = not wallet.allowed }

-- `canActivate`, for the handler's policy, or the general one.
unfoldable pub guard_mutation :
    Method → Option PolicyName → RequestWallets → ℕ → GuardCounters → GuardAnswer × GuardCounters
guard_mutation method name wallets now counters = by (policy_of name)
  where
    policy_of : Option PolicyName → RateLimitPolicy
    policy_of none = rate_limit_policy PolicyName.general
    policy_of (some n) = rate_limit_policy n

    by : RateLimitPolicy → GuardAnswer × GuardCounters
    by policy =
        let (ip, ip_after) = check policy.ip_limit policy.window_seconds now counters.ip in
        let (wallet, wallet_after) = check_wallet policy now (wallet_of wallets) counters.wallet in
        if is_mutation method
        then (effective ip wallet, record { ip = some ip_after; wallet = wallet_after })
        else (record { header = none; is_refused = false }, counters)
