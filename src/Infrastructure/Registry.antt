-- ===== src/Infrastructure/Registry.antt =====
-- The address books and contracts of the chains: `BlockchainRegistryService` of
-- src/infrastructure/blockchain/blockchain-registry.service.ts, over the stored manifests, with the
-- clients of src/infrastructure/blockchain/chain-client.factory.ts and the contracts of
-- src/infrastructure/blockchain/contract-readers.ts. The clients and contracts themselves are viem's,
-- and so parameters.
pub mod Books
use spawn_backend.Prelude.{
  ℕ, ◌==◌, Bool, true, false, if◌then◌else◌, List, [], ◌∷◌, map, Option, none, some,
}
use spawn_backend.Prelude.Int.{ℤ}
use spawn_backend.Prelude.Outcome.{Outcome, ok, err, ◌>>=◌}
use spawn_backend.Common.Decimal.{Text}
use spawn_backend.Common.Dict.{Dict, find, put}
use spawn_backend.Common.Texts.{codes}
use spawn_backend.Common.Trim.{is_blank, trim, comma_list}
use spawn_backend.Infrastructure.Addresses.Manifest.{BookError, Field, Document, PerKey}
use spawn_backend.Infrastructure.Addresses.Overrides.{BookEnvironment}
use spawn_backend.Infrastructure.Addresses.{AddressBook, build_address_book}

pub record ChainConfig : Type 0 where
  pub chain_id : ℕ
  pub rpc_urls : List Text

-- `ChainClientFactory`
pub record ClientFactory {ℓ} (Client : Type ℓ) : Type ℓ where
  pub clients : Dict Client
  pub config : Option ChainConfig

-- `environmentDefaultUrls`, of the variable for the chain.
unfoldable pub environment_default_urls : Option Text → List Text
environment_default_urls none = []
environment_default_urls (some raw) = if is_blank (trim raw) then [] else comma_list raw

unfoldable pub configured_urls : Option ChainConfig → ℕ → List Text
configured_urls none chain_id = []
configured_urls (some config) chain_id = if chain_id == config.chain_id then config.rpc_urls else []

unfoldable pub urls_or_default : List Text → List Text → List Text
urls_or_default [] default = default
urls_or_default (url ∷ urls) default = url ∷ urls

module _ {ℓ} {Client : Type ℓ} where
  unfoldable pub configure_clients : ℕ → List Text → ClientFactory Client → ClientFactory Client
  configure_clients chain_id rpc_urls f = record f {
    config = some (record { chain_id = chain_id; rpc_urls = rpc_urls });
  }

  -- `client`, with `createChainPublicClient` and the variables of the chains.
  unfoldable pub get_client :
      (ℕ → List Text → Client)
      → (ℕ → Option Text)
      → ℕ
      → ClientFactory Client
      → Client × ClientFactory Client
  get_client create rpc_variable chain_id f = cached (find f.clients chain_id)
    where
      cached : Option Client → Client × ClientFactory Client
      cached (some client) = (client, f)
      cached none =
          let urls =
            urls_or_default (configured_urls f.config chain_id)
              (environment_default_urls (rpc_variable chain_id)) in
          let client = create chain_id urls in
          (client, record f { clients = put f.clients chain_id client })

-- `onModuleDestroy` of the factory.
unfoldable pub clear_clients {ℓ} : {Client : Type ℓ} → ClientFactory Client → ClientFactory Client
clear_clients f = record f { clients = [] }

-- The handles of a chain; `getContract` makes one of an address.
pub record ChainReadContracts {ℓ} (Contract : Type ℓ) : Type ℓ where
  pub chain_id : ℕ
  pub protocol : PerKey Contract
  pub state_view : Option Contract
  pub quoter : Option Contract

unfoldable pub optional_contract {ℓ} : {C : Type ℓ} → (Text → C) → Option Text → Option C
optional_contract get_contract none = none
optional_contract get_contract (some address) =
    if is_blank address then none else some (get_contract address)

-- `buildReadContracts`
unfoldable pub build_read_contracts {ℓ} :
    {C : Type ℓ} → (Text → C) → AddressBook → ChainReadContracts C
build_read_contracts get_contract book = record {
  chain_id = book.chain_id;
  protocol = record {
    hook = get_contract book.protocol.hook;
    launch_support = get_contract book.protocol.launch_support;
    revenue_nft = get_contract book.protocol.revenue_nft;
    payout_plugin_registry = get_contract book.protocol.payout_plugin_registry;
    protocol_controller = get_contract book.protocol.protocol_controller;
  };
  state_view = optional_contract get_contract book.state_view;
  quoter = optional_contract get_contract book.v4_quoter;
}

abbrev pub native_eth_placeholder : Text
native_eth_placeholder = codes "0x0000000000000000000000000000000000000000"

pub record PoolKeyStruct : Type 0 where
  pub currency0 : Text
  pub currency1 : Text
  pub fee : ℕ
  pub tick_spacing : ℕ
  pub hooks : Text

-- `spawnPoolKey`
unfoldable pub spawn_pool_key : AddressBook → Text → PoolKeyStruct
spawn_pool_key book token = record {
  currency0 = native_eth_placeholder;
  currency1 = token;
  fee = 10_000;
  tick_spacing = 1;
  hooks = book.protocol.hook;
}

-- A row of `deployment_manifests`.
pub record StoredManifest : Type 0 where
  pub chain_id : ℕ
  pub document : Document

pub record Registry {κ ℓ} (Client : Type κ) (Contract : Type ℓ) : Type (κ ⊔ ℓ) where
  pub books : Dict AddressBook
  pub contracts : Dict (ChainReadContracts Contract)
  pub configured : Bool
  pub factory : ClientFactory Client

-- What `book` throws: no address book for the chain.
pub data RegistryError : Type 0 where
  no_address_book : ℕ → RegistryError

unfoldable pub book_or_throw : ℕ → Option AddressBook → Outcome RegistryError AddressBook
book_or_throw chain_id none = err (RegistryError.no_address_book chain_id)
book_or_throw chain_id (some book) = ok book

-- A book that is built takes the place of the chain's; a manifest that is not valid is skipped.
unfoldable pub store_book : ℕ → Outcome BookError AddressBook → Dict AddressBook → Dict AddressBook
store_book chain_id (ok book) books = put books chain_id book
store_book chain_id (err fault) books = books

module _ (to_integer : Field → Option ℤ) (env : BookEnvironment) where
  -- `loadAll` on the rows that the query gives.
  unfoldable pub load_books : List StoredManifest → Dict AddressBook → Dict AddressBook
  load_books [] books = books
  load_books (row ∷ rows) books = load_books rows (
      store_book row.chain_id (build_address_book to_integer row.chain_id env (some row.document))
        books)

module _ {κ ℓ} {Client : Type κ} {Contract : Type ℓ} where
  -- `configure`
  unfoldable pub configure : ℕ → List Text → Registry Client Contract → Registry Client Contract
  configure chain_id rpc_urls r = record r {
    factory = configure_clients chain_id rpc_urls r.factory;
    configured = true;
  }

  module _ (to_integer : Field → Option ℤ) (env : BookEnvironment) where
    -- `loadAll` and `reload`
    unfoldable pub load_all :
        List StoredManifest → Registry Client Contract → Registry Client Contract
    load_all rows r = record r { books = load_books to_integer env rows r.books }

    -- `onModuleInit`, with the chain and the URLs of the environment, and the rows of the query, or none
    -- where it fails.
    unfoldable pub on_module_init :
        ℕ
        → Option Text
        → Option (List StoredManifest)
        → Registry Client Contract
        → Registry Client Contract
    on_module_init default_chain urls rows r =
        load rows (if r.configured then r else configured_by_default)
      where
        rpc_urls : Option Text → List Text
        rpc_urls none = []
        rpc_urls (some raw) = comma_list raw

        configured_by_default : Registry Client Contract
        configured_by_default = configure default_chain (rpc_urls urls) r

        load : Option (List StoredManifest) → Registry Client Contract → Registry Client Contract
        load none s = s
        load (some found) s = load_all found s

  -- `hasChain`
  unfoldable pub has_chain : ℕ → Registry Client Contract → Bool
  has_chain chain_id r = is_some (find r.books chain_id)
    where
      is_some : Option AddressBook → Bool
      is_some none = false
      is_some (some book) = true

  -- `book`
  unfoldable pub book_of : ℕ → Registry Client Contract → Outcome RegistryError AddressBook
  book_of chain_id r = book_or_throw chain_id (find r.books chain_id)

  -- `contractsFor`
  unfoldable pub contracts_for :
      (Client → Text → Contract)
      → (ℕ → List Text → Client)
      → (ℕ → Option Text)
      → ℕ
      → Registry Client Contract
      → Outcome RegistryError (ChainReadContracts Contract × Registry Client Contract)
  contracts_for get_contract create rpc_variable chain_id r = cached (find r.contracts chain_id)
    where
      build :
          Client × ClientFactory Client
          → AddressBook
          → ChainReadContracts Contract × Registry Client Contract
      build (client, factory) book =
          let built = build_read_contracts (get_contract client) book in
          (built, record r { contracts = put r.contracts chain_id built; factory = factory })

      cached :
          Option (ChainReadContracts Contract)
          → Outcome RegistryError (ChainReadContracts Contract × Registry Client Contract)
      cached (some found) = ok (found, r)
      cached none = book_of chain_id r >>= λ book.
          ok (build (get_client create rpc_variable chain_id r.factory) book)

-- `chains`
unfoldable pub chains : Dict AddressBook → List ℕ
chains books = map (λ entry. entry.0) books
