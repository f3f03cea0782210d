-- ===== src/Infrastructure/Addresses/Overrides.antt =====
-- The environment's overrides of addresses: `readEnvOverrides` and `readInfraOverrides` of
-- src/infrastructure/blockchain/address-book.ts.
use spawn_backend.Prelude.{if◌then◌else◌, Option, none, some}
use spawn_backend.Prelude.Outcome.{Outcome, ok, err, ◌>>=◌}
use spawn_backend.Common.Decimal.{Text}
use spawn_backend.Common.Trim.{trim, is_blank}
use spawn_backend.Infrastructure.Addresses.Manifest.{
  PerKey, at, BookError, for_each_key, address_schema,
}

-- The variables of the process that the book reads.
pub record BookEnvironment : Type 0 where
  pub protocol : PerKey (Option Text)
  pub pool_manager : Option Text
  pub state_view : Option Text
  pub v4_quoter : Option Text
  pub multicall3 : Option Text

pub record InfraOverrides : Type 0 where
  pub pool_manager : Option Text
  pub state_view : Option Text
  pub v4_quoter : Option Text
  pub multicall3 : Option Text

unfoldable pub valid_or_throw : BookError → Option Text → Outcome BookError (Option Text)
valid_or_throw fault none = err fault
valid_or_throw fault (some address) = ok (some address)

-- One variable: nothing where it is unset or blank.
unfoldable pub read_setting : BookError → Option Text → Outcome BookError (Option Text)
read_setting fault none = ok none
read_setting fault (some raw) =
    if is_blank (trim raw) then ok none else valid_or_throw fault (address_schema (trim raw))

-- `readEnvOverrides`
unfoldable pub read_env_overrides : BookEnvironment → Outcome BookError (PerKey (Option Text))
read_env_overrides env =
    for_each_key (λ key. read_setting (BookError.invalid_override key) (at key env.protocol))

-- `readInfraOverrides`
unfoldable pub read_infra_overrides : BookEnvironment → Outcome BookError InfraOverrides
read_infra_overrides env = read_setting BookError.invalid_setting env.pool_manager >>= λ manager.
    read_setting BookError.invalid_setting env.state_view >>= λ view.
    read_setting BookError.invalid_setting env.v4_quoter >>= λ quoter.
    read_setting BookError.invalid_setting env.multicall3 >>= λ multicall. ok (record {
      pool_manager = manager;
      state_view = view;
      v4_quoter = quoter;
      multicall3 = multicall;
    })
