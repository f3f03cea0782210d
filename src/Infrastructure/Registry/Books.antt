-- ===== src/Infrastructure/Registry/Books.antt =====
-- What a registry holds, after any of its operations:
-- src/infrastructure/blockchain/blockchain-registry.service.ts.
use spawn_backend.Prelude.{
  ℕ, ◌≡◌, refl, List, [], ◌∷◌, Option, none, some, inl, inr, Bool-cases, Option-cases,
}
use spawn_backend.Prelude.Int.{ℤ}
use spawn_backend.Prelude.Outcome.{Outcome, ok, err}
use spawn_backend.Common.Decimal.{Text}
use spawn_backend.Common.Dict.{Dict, find}
use spawn_backend.Common.Dict.Entries.{Everywhere, Everywhere-put}
use spawn_backend.Infrastructure.Addresses.Manifest.{BookError, Field}
use spawn_backend.Infrastructure.Addresses.Overrides.{BookEnvironment}
use spawn_backend.Infrastructure.Addresses.Validity.{IsBook, build_address_book-IsBook}
use spawn_backend.Infrastructure.Addresses.Precedence.{build_address_book-Sources}
use spawn_backend.Infrastructure.Addresses.{AddressBook, build_address_book}
use spawn_backend.Infrastructure.Registry.{
  ChainReadContracts, build_read_contracts, StoredManifest, Registry, RegistryError, book_or_throw,
  configure, store_book, load_books, load_all, on_module_init, book_of, contracts_for,
}

-- A well-formed book of its own chain.
abbrev IsBookOf : ℕ → AddressBook → Type 0
IsBookOf chain_id book = (book.chain_id ≡ chain_id) × IsBook book

store_book-IsBookOf :
    (to_integer : Field → Option ℤ) (env : BookEnvironment) (row : StoredManifest)
    (books : Dict AddressBook)
    → Everywhere IsBookOf books
    → Everywhere IsBookOf (
        store_book row.chain_id
          (build_address_book to_integer row.chain_id env (some row.document))
          books)
unfolding store_book
store_book-IsBookOf to_integer env row books old =
    stored (build_address_book to_integer row.chain_id env (some row.document)) refl
  where
    stored :
        (result : Outcome BookError AddressBook)
        → build_address_book to_integer row.chain_id env (some row.document) ≡ result
        → Everywhere IsBookOf (store_book row.chain_id result books)
    stored (err fault) h = old
    stored (ok book) h =
        let (m, em, own, s) =
          build_address_book-Sources to_integer row.chain_id env (some row.document) h in
        Everywhere-put IsBookOf books row.chain_id book
          (own, build_address_book-IsBook to_integer row.chain_id env (some row.document) h) old

load_books-IsBookOf :
    (to_integer : Field → Option ℤ) (env : BookEnvironment) (rows : List StoredManifest)
    (books : Dict AddressBook)
    → Everywhere IsBookOf books
    → Everywhere IsBookOf (load_books to_integer env rows books)
unfolding load_books
load_books-IsBookOf to_integer env [] books old = old
load_books-IsBookOf to_integer env (row ∷ rows) books old =
    load_books-IsBookOf to_integer env rows _ (store_book-IsBookOf to_integer env row books old)

-- The calls that reach a registry.
pub data Call : Type 0 where
  configures : ℕ → List Text → Call
  initialises : ℕ → Option Text → Option (List StoredManifest) → Call
  reloads : List StoredManifest → Call
  reads_contracts : ℕ → Call

module _ {κ ℓ} {Client : Type κ} {Contract : Type ℓ} (to_integer : Field → Option ℤ)
    (env : BookEnvironment) (get_contract : Client → Text → Contract)
    (create : ℕ → List Text → Client) (rpc_variable : ℕ → Option Text) where
  abbrev left_by :
      Registry Client Contract
      → Outcome RegistryError (ChainReadContracts Contract × Registry Client Contract)
      → Registry Client Contract
  left_by before (err fault) = before
  left_by before (ok (contracts, after)) = after

  abbrev pub perform : Call → Registry Client Contract → Registry Client Contract
  perform (configures chain_id urls) r = configure chain_id urls r
  perform (initialises chain_id urls rows) r = on_module_init to_integer env chain_id urls rows r
  perform (reloads rows) r = load_all to_integer env rows r
  perform (reads_contracts chain_id) r =
      left_by r (contracts_for get_contract create rpc_variable chain_id r)

  abbrev pub perform_all : List Call → Registry Client Contract → Registry Client Contract
  perform_all [] r = r
  perform_all (call ∷ calls) r = perform_all calls (perform call r)

  -- The books and the contracts of a chain are the chain's own.
  pub record IsSound (r : Registry Client Contract) : Type ℓ where
    pub books : Everywhere IsBookOf r.books
    pub contracts : Everywhere (λ chain_id c. c.chain_id ≡ chain_id) r.contracts

  load_all-IsSound :
      (rows : List StoredManifest) (r : Registry Client Contract)
      → IsSound r
      → IsSound (load_all to_integer env rows r)
  unfolding load_all
  load_all-IsSound rows r s = record {
    books = load_books-IsBookOf to_integer env rows r.books s.books;
    contracts = s.contracts;
  }

  on_module_init-IsSound :
      (chain_id : ℕ) (urls : Option Text) (rows : Option (List StoredManifest))
      (r : Registry Client Contract)
      → IsSound r
      → IsSound (on_module_init to_integer env chain_id urls rows r)
  unfolding on_module_init configure
  on_module_init-IsSound chain_id urls rows r s = elim (Bool-cases r.configured) [
    | inl set ↦
        elim rows as (λ rows. IsSound (on_module_init to_integer env chain_id urls rows r)) [
          | none ↦ rw set (record { books = s.books; contracts = s.contracts })
          | some found ↦
              rw set
                (load_all-IsSound found _ (record { books = s.books; contracts = s.contracts }))
        ]
    | inr unset ↦
        elim rows as (λ rows. IsSound (on_module_init to_integer env chain_id urls rows r)) [
          | none ↦ rw unset (record { books = s.books; contracts = s.contracts })
          | some found ↦
              rw unset
                (load_all-IsSound found _ (record { books = s.books; contracts = s.contracts }))
        ]
  ]

  contracts_for-IsSound :
      (chain_id : ℕ) (r : Registry Client Contract)
      → IsSound r
      → IsSound (left_by r (contracts_for get_contract create rpc_variable chain_id r))
  unfolding contracts_for book_of book_or_throw build_read_contracts
  contracts_for-IsSound chain_id r s = elim (Option-cases (find r.contracts chain_id)) [
    | inr (c, cached) ↦ rw cached s
    | inl fresh ↦ elim (Option-cases (find r.books chain_id)) [
      | inl unknown ↦ rw (fresh, unknown) s
      | inr (book, known) ↦
          rw (fresh, known)
            (record {
              books = s.books;
              contracts =
                  Everywhere-put (λ chain_id c. c.chain_id ≡ chain_id) r.contracts chain_id _
                    (s.books chain_id book known).0 s.contracts;
            })
    ]
  ]

  perform-IsSound :
      (call : Call) (r : Registry Client Contract) → IsSound r → IsSound (perform call r)
  unfolding configure
  perform-IsSound (configures chain_id urls) r s = record {
    books = s.books;
    contracts = s.contracts;
  }
  perform-IsSound (initialises chain_id urls rows) r s =
      on_module_init-IsSound chain_id urls rows r s
  perform-IsSound (reloads rows) r s = load_all-IsSound rows r s
  perform-IsSound (reads_contracts chain_id) r s = contracts_for-IsSound chain_id r s

  -- Whatever the calls and the stored rows, from a registry whose books are well formed and stand, as
  -- the contracts do, under their own chain, the calls lead to such a registry.
  pub perform_all-IsSound :
      (calls : List Call) (r : Registry Client Contract) → IsSound r → IsSound (perform_all calls r)
  perform_all-IsSound [] r s = s
  perform_all-IsSound (call ∷ calls) r s =
      perform_all-IsSound calls (perform call r) (perform-IsSound call r s)
