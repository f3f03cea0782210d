-- ===== src/Config.antt =====
-- The environment of a process: src/config/environment.ts. The schema of zod is a parameter; its values
-- are an argument.
use spawn_backend.Prelude.{
  ℕ, leb, ◌==◌, ◌&&◌, ◌||◌, Bool, true, false, if◌then◌else◌, List, [], ◌∷◌, length, Option, none,
  some,
}
use spawn_backend.Prelude.Outcome.{Outcome, ok, err, throw_if, ◌>>=◌, ◌>>◌}
use spawn_backend.Common.Decimal.{Text, value_from}
use spawn_backend.Common.Texts.{codes, every, same_text}
use spawn_backend.Common.Trim.{is_blank, trim, comma_list}

pub data NodeEnvironment : Type 0 where
  development test production : NodeEnvironment

pub data ProcessRole : Type 0 where
  api worker indexer broadcaster seed : ProcessRole

-- The schema's values, as far as the checks read them.
pub record EnvironmentValues : Type 0 where
  pub node_env : NodeEnvironment
  pub process_role : ProcessRole
  pub cors_origins : Text
  pub chain_rpc_urls : Text
  pub trusted_proxy : Text
  pub rate_limit_hmac_key : Option Text

-- `boolean | number | string[]`
pub data TrustedProxy : Type 0 where
  no_proxy : TrustedProxy
  hops : ℕ → TrustedProxy
  proxies : List Text → TrustedProxy

pub record ValidatedEnvironment : Type 0 where
  pub values : EnvironmentValues
  pub cors_origins : List Text
  pub chain_rpc_urls : List Text
  pub trusted_proxy : TrustedProxy

pub data EnvironmentError : Type 0 where
  schema_rejects origins_not_explicit hmac_key_missing rpc_urls_missing : EnvironmentError

-- `parseTrustedProxy`
unfoldable pub parse_trusted_proxy : Text → TrustedProxy
parse_trusted_proxy value =
    let trimmed = trim value in
    if is_blank trimmed
    then no_proxy
    else if every (λ c. leb b'0' c && leb c b'9') trimmed
    then hops (value_from 0 trimmed)
    else proxies (comma_list trimmed)

-- `corsOrigins.includes('*')`
unfoldable pub includes_text : Text → List Text → Bool
includes_text text [] = false
includes_text text (part ∷ parts) = same_text part text || includes_text text parts

abbrev pub is_production : NodeEnvironment → Bool
is_production production = true
is_production _ = false

abbrev pub is_indexer : ProcessRole → Bool
is_indexer indexer = true
is_indexer _ = false

-- Whether a key is unset or empty.
unfoldable pub lacks_key : Option Text → Bool
lacks_key none = true
lacks_key (some key) = is_blank key

-- The checks behind the schema.
unfoldable pub check_environment : EnvironmentValues → Outcome EnvironmentError ValidatedEnvironment
check_environment values =
    let cors_origins = comma_list values.cors_origins in
    let chain_rpc_urls = comma_list values.chain_rpc_urls in
    let live = is_production values.node_env in
    throw_if (live && (length cors_origins == 0 || includes_text (codes "*") cors_origins))
      EnvironmentError.origins_not_explicit
    >> (throw_if (live && lacks_key values.rate_limit_hmac_key) EnvironmentError.hmac_key_missing
        >> (throw_if (is_indexer values.process_role && length chain_rpc_urls == 0)
              EnvironmentError.rpc_urls_missing
            >> ok (record {
              values = values;
              cors_origins = cors_origins;
              chain_rpc_urls = chain_rpc_urls;
              trusted_proxy = parse_trusted_proxy values.trusted_proxy;
            })))

unfoldable pub parsed_values : Option EnvironmentValues → Outcome EnvironmentError EnvironmentValues
parsed_values none = err EnvironmentError.schema_rejects
parsed_values (some values) = ok values

-- `validateEnvironment`, with what the schema makes of the input.
unfoldable pub validate_environment {ℓ} :
    {Input : Type ℓ}
    → (Input → Option EnvironmentValues)
    → Input
    → Outcome EnvironmentError ValidatedEnvironment
validate_environment parse input =
    parsed_values (parse input) >>= λ values. check_environment values
