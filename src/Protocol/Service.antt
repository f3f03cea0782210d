-- ===== src/Protocol/Service.antt =====
-- The protocol's records as the API shows them: `ProtocolService` of
-- src/modules/protocol/protocol.service.ts, `resolveChainId` of src/common/chain-id.ts, with the rows
-- that its queries give. Decimals of the database and their `toFixed` are parameters.
pub mod Reports
pub mod Revenue
use spawn_backend.Prelude.{
  ℕ, zero, suc, ◌/◌, ◌%◌, ◌^◌, ◌==◌, Bool, true, false, if◌then◌else◌, List, [], ◌∷◌, ◌++◌, map,
  Option, none, some,
}
use spawn_backend.Prelude.Int.{ℤ, pos, negsuc}
use spawn_backend.Prelude.Outcome.{Outcome, ok, err}
use spawn_backend.Common.Decimal.{Text, to_text, pad_start}
use spawn_backend.Common.Texts.{codes}
use spawn_backend.Infrastructure.Addresses.{AddressBook, or_next}
use spawn_backend.Infrastructure.Registry.{Registry, has_chain, book_of}
use spawn_backend.Infrastructure.Reads.Views.{EconomicConfigView}

pub data ProtocolError : Type 0 where
  manifest_not_synced economics_not_available watermark_not_found invalid_kind : ProtocolError
  no_book : ProtocolError

-- `resolveChainId`, of a query's value: absent, or what `Number` makes of it, if that is whole.
unfoldable pub resolve_chain_id : ℕ → Option (Option ℤ) → ℕ
resolve_chain_id fallback none = fallback
resolve_chain_id fallback (some none) = fallback
resolve_chain_id fallback (some (some (pos zero))) = fallback
resolve_chain_id fallback (some (some (pos (suc n)))) = suc n
resolve_chain_id fallback (some (some (negsuc n))) = fallback

-- `wadString`
unfoldable pub wad_string : ℕ → Text
wad_string value = to_text (value / 10 ^ 18) ++ b'.' ∷ pad_start 18 (to_text (value % 10 ^ 18))

-- `addresses`: the chain's book; what is undefined there is null.
unfoldable pub addresses {κ ℓ} :
    {Client : Type κ} {Contract : Type ℓ}
    → ℕ
    → Registry Client Contract
    → Outcome ProtocolError AddressBook
addresses chain_id r =
    if has_chain chain_id r
    then found (book_of chain_id r)
    else err ProtocolError.manifest_not_synced
  where
    found : {E : Type 0} → Outcome E AddressBook → Outcome ProtocolError AddressBook
    found (err fault) = err ProtocolError.no_book
    found (ok book) = ok book

-- A row of `economic_configs`.
pub record EconomicRow {ℓ} (Decimal : Type ℓ) : Type ℓ where
  pub version : ℕ
  pub harvest_service_fee_wad : Decimal
  pub quote_creator_share_wad : Decimal
  pub token_milestone_fund_share_wad : Decimal
  pub effective_block : ℕ
  pub effective_at : ℕ

pub record CurrentEconomics : Type 0 where
  pub version : Text
  pub harvest_service_fee_wad : Text
  pub quote_creator_share_wad : Text
  pub token_milestone_fund_share_wad : Text
  pub effective_block : Option Text
  pub effective_at : Option ℕ

pub record EconomicVersion : Type 0 where
  pub version : Text
  pub effective_block : Text
  pub effective_at : ℕ

pub record EconomicCaps : Type 0 where
  pub harvest_service_fee_wad : Text
  pub quote_creator_share_wad : Text
  pub token_milestone_fund_share_wad : Text

pub data EconomicSource : Type 0 where
  live indexer : EconomicSource

pub record Economics : Type 0 where
  pub chain_id : ℕ
  pub current : CurrentEconomics
  pub caps : EconomicCaps
  pub history : List EconomicVersion
  pub source : EconomicSource

abbrev pub economics_caps : EconomicCaps
economics_caps = record {
  harvest_service_fee_wad = codes "200000000000000000";
  quote_creator_share_wad = codes "900000000000000000";
  token_milestone_fund_share_wad = codes "1000000000000000000";
}

module _ {ℓ} {Decimal : Type ℓ} (to_fixed : Decimal → Text) where
  -- `!state || r.version === state.economicVersion`, by the version of the state, if there is one.
  unfoldable pub is_current : Option ℕ → EconomicRow Decimal → Bool
  is_current none row = true
  is_current (some version) row = row.version == version

  unfoldable pub find_current : Option ℕ → List (EconomicRow Decimal) → Option (EconomicRow Decimal)
  find_current version [] = none
  find_current version (row ∷ rows) =
      let later = find_current version rows in if is_current version row then some row else later

  unfoldable pub first_row : List (EconomicRow Decimal) → Option (EconomicRow Decimal)
  first_row [] = none
  first_row (row ∷ rows) = some row

  unfoldable pub current_of_view : EconomicConfigView → CurrentEconomics
  current_of_view view = record {
    version = to_text view.version;
    harvest_service_fee_wad = wad_string view.harvest_service_fee_wad;
    quote_creator_share_wad = wad_string view.quote_creator_share_wad;
    token_milestone_fund_share_wad = wad_string view.token_milestone_fund_share_wad;
    effective_block = none;
    effective_at = none;
  }

  unfoldable pub current_of_row : EconomicRow Decimal → CurrentEconomics
  current_of_row row = record {
    version = to_text row.version;
    harvest_service_fee_wad = to_fixed row.harvest_service_fee_wad;
    quote_creator_share_wad = to_fixed row.quote_creator_share_wad;
    token_milestone_fund_share_wad = to_fixed row.token_milestone_fund_share_wad;
    effective_block = some (to_text row.effective_block);
    effective_at = some row.effective_at;
  }

  unfoldable pub version_of_row : EconomicRow Decimal → EconomicVersion
  version_of_row row = record {
    version = to_text row.version;
    effective_block = to_text row.effective_block;
    effective_at = row.effective_at;
  }

  -- The answer where nothing is recorded: the live read of a chain with a book.
  unfoldable pub live_economics {κ} :
      {E : Type κ} → ℕ → Bool → Outcome E EconomicConfigView → Outcome ProtocolError Economics
  live_economics chain_id false view = err ProtocolError.economics_not_available
  live_economics chain_id true (err fault) = err ProtocolError.economics_not_available
  live_economics chain_id true (ok view) = ok (record {
    chain_id = chain_id;
    current = current_of_view view;
    caps = economics_caps;
    history = [];
    source = EconomicSource.live;
  })

  -- `economics`, with the newest rows first, the version of the chain's state, if there is one, and the
  -- live read.
  unfoldable pub economics {κ} :
      {E : Type κ}
      → ℕ
      → List (EconomicRow Decimal)
      → Option ℕ
      → Bool
      → Outcome E EconomicConfigView
      → Outcome ProtocolError Economics
  economics chain_id rows version has_book view =
      answer (or_next (find_current version rows) (first_row rows))
    where
      answer : Option (EconomicRow Decimal) → Outcome ProtocolError Economics
      answer none = live_economics chain_id has_book view
      answer (some current) = ok (record {
        chain_id = chain_id;
        current = current_of_row current;
        caps = economics_caps;
        history = map version_of_row rows;
        source = EconomicSource.indexer;
      })
