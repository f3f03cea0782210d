-- ===== src/Infrastructure/Addresses/Precedence.antt =====
-- Which source an address of the book comes from: the comment and the code of `buildAddressBook` in
-- src/infrastructure/blockchain/address-book.ts.
use spawn_backend.Prelude.{
  ◌≡◌, refl, ap, ◌∙◌, sym, ℕ, if◌then◌else◌, Option, none, some, inl, inr, Bool-cases, Option-cases,
}
use spawn_backend.Prelude.Int.{ℤ}
use spawn_backend.Prelude.Outcome.{ok, >>=-eq-ok}
use spawn_backend.Common.Decimal.{Text}
use spawn_backend.Common.Texts.{to_lower_case}
use spawn_backend.Common.Trim.{trim, is_blank}
use spawn_backend.Infrastructure.Addresses.Manifest.{
  ProtocolKey, PerKey, at, BookError, for_each_key, Field, Document, DeploymentManifest,
  address_schema, hex_text,
}
use spawn_backend.Infrastructure.Addresses.Overrides.{
  BookEnvironment, InfraOverrides, valid_or_throw, read_setting, read_env_overrides,
  read_infra_overrides,
}
use spawn_backend.Infrastructure.Addresses.Hexadecimal.{hex_text-some}
use spawn_backend.Infrastructure.Addresses.Schemas.{ok_injective, for_each_key-ok}
use spawn_backend.Infrastructure.Addresses.{
  AddressBook, known_addresses, or_next, optional_field, text_or_throw, merged_key, parsed_manifest,
  assemble, build_address_book,
}

-- What a variable asks for: its text without space, in lower case, or nothing where it is blank.
abbrev pub setting_of : Option Text → Option Text
setting_of none = none
setting_of (some raw) = if is_blank (trim raw) then none else some (to_lower_case (trim raw))

-- A variable that is read is the setting that it asks for.
read_setting-setting_of :
    (fault : BookError) (raw : Option Text) {value : Option Text}
    → read_setting fault raw ≡ ok value
    → value ≡ setting_of raw
unfolding read_setting valid_or_throw address_schema
read_setting-setting_of fault none h = sym (ok_injective h)
read_setting-setting_of fault (some raw) h = elim (Bool-cases (is_blank (trim raw))) [
  | inl blank ↦ rw blank (sym (ok_injective (rw blank at h)))
  | inr set ↦ elim (Option-cases (hex_text 40 (trim raw))) [
    | inl bad ↦ (let h' = rw (set, bad) at h in cc)
    | inr (v, good) ↦ rw set (
        sym (ok_injective (rw (set, good) at h))
        ∙ ap some (sym ((hex_text-some 40 (trim raw) good).1)))
  ]
]

text_or_throw-some :
    (fault : BookError) (o : Option Text) {text : Text}
    → text_or_throw fault o ≡ ok text
    → some text ≡ o
unfolding text_or_throw
text_or_throw-some fault none h = cc
text_or_throw-some fault (some t) h = ap some (sym (ok_injective h))

-- Where the fields of a book come from, with the manifest that was accepted.
pub record Sources (env : BookEnvironment) (parsed : Option DeploymentManifest) (b : AddressBook)
    : Type 0 where
  pub protocol :
      (key : ProtocolKey)
      → some (at key b.protocol)
        ≡ or_next
            (setting_of (at key env.protocol))
            (optional_field (λ m. some (at key m.protocol)) parsed)
  pub pool_manager :
      some b.pool_manager
      ≡ or_next (setting_of env.pool_manager) (
          or_next
            (optional_field (λ m. m.pool_manager) parsed)
            (optional_field (λ k. some k.pool_manager) (known_addresses b.chain_id)))
  pub multicall3 :
      some b.multicall3
      ≡ or_next (setting_of env.multicall3) (
          or_next
            (optional_field (λ m. m.multicall3) parsed)
            (optional_field (λ k. some k.multicall3) (known_addresses b.chain_id)))
  pub state_view :
      b.state_view ≡ or_next (setting_of env.state_view) (optional_field (λ m. m.state_view) parsed)
  pub v4_quoter :
      b.v4_quoter ≡ or_next (setting_of env.v4_quoter) (optional_field (λ m. m.v4_quoter) parsed)
  pub hook_salt : b.hook_salt ≡ optional_field (λ m. m.hook_salt) parsed

or_next-eq {ℓ} :
    {A : Type ℓ} {a b : Option A} (next : Option A) → a ≡ b → or_next a next ≡ or_next b next
or_next-eq next e = ap (λ o. or_next o next) e

abbrev IsRead : BookEnvironment → InfraOverrides → Type 0
IsRead env infra =
    (infra.pool_manager ≡ setting_of env.pool_manager)
    × (infra.state_view ≡ setting_of env.state_view)
    × (infra.v4_quoter ≡ setting_of env.v4_quoter)
    × (infra.multicall3 ≡ setting_of env.multicall3)

read_infra_overrides-IsRead :
    (env : BookEnvironment) {infra : InfraOverrides}
    → read_infra_overrides env ≡ ok infra
    → IsRead env infra
unfolding read_infra_overrides
read_infra_overrides-IsRead env h =
    let (a, ea, i1) = >>=-eq-ok (read_setting _ env.pool_manager) _ h in
    let (b, eb, i2) = >>=-eq-ok (read_setting _ env.state_view) _ i1 in
    let (c, ec, i3) = >>=-eq-ok (read_setting _ env.v4_quoter) _ i2 in
    let (d, ed, i4) = >>=-eq-ok (read_setting _ env.multicall3) _ i3 in
    rw (← ok_injective i4) (
      read_setting-setting_of _ env.pool_manager ea,
      read_setting-setting_of _ env.state_view eb,
      read_setting-setting_of _ env.v4_quoter ec,
      read_setting-setting_of _ env.multicall3 ed,
    )

module _ (to_integer : Field → Option ℤ) where
  assemble-Sources :
      (chain_id : ℕ) (env : BookEnvironment) (overrides : PerKey (Option Text))
      (infra : InfraOverrides) (parsed : Option DeploymentManifest) {book : AddressBook}
      → ((key : ProtocolKey) → at key overrides ≡ setting_of (at key env.protocol))
      → IsRead env infra
      → assemble to_integer chain_id overrides infra parsed ≡ ok book
      → (book.chain_id ≡ chain_id) × Sources env parsed book
  unfolding assemble merged_key
  assemble-Sources chain_id env overrides infra parsed set (manager, view, quoter, multicall) h =
      let (p, ep, h1) = >>=-eq-ok (for_each_key _) _ h in
      let (a, ea, h2) = >>=-eq-ok (text_or_throw _ _) _ h1 in
      let (b, eb, h3) = >>=-eq-ok (text_or_throw _ _) _ h2 in
      rw (← ok_injective h3) (
        refl,
        record {
          protocol =
              λ key. text_or_throw-some _ _ (for_each_key-ok _ ep key) ∙ or_next-eq _ (set key);
          pool_manager = text_or_throw-some _ _ ea ∙ or_next-eq _ manager;
          multicall3 = text_or_throw-some _ _ eb ∙ or_next-eq _ multicall;
          state_view = or_next-eq _ view;
          v4_quoter = or_next-eq _ quoter;
          hook_salt = refl;
        },
      )

  -- A book is returned for the chain asked for, and only without a manifest or with one that is
  -- accepted. Each protocol address is the trimmed, lower-case setting of its variable where that is
  -- not blank, else the manifest's; so are the pool manager and multicall, with the chain's known
  -- address last, and the view and the quoter, which may be absent. The salt is the manifest's.
  pub build_address_book-Sources :
      (chain_id : ℕ) (env : BookEnvironment) (manifest : Option Document) {book : AddressBook}
      → build_address_book to_integer chain_id env manifest ≡ ok book
      → (parsed : Option DeploymentManifest) × (parsed_manifest to_integer chain_id manifest
          ≡ ok parsed)
        × (book.chain_id ≡ chain_id)
        × Sources env parsed book
  unfolding build_address_book read_env_overrides
  build_address_book-Sources chain_id env manifest h =
      let (o, eo, h1) = >>=-eq-ok (for_each_key _) _ h in
      let (i, ei, h2) = >>=-eq-ok (read_infra_overrides env) _ h1 in
      let (m, em, h3) = >>=-eq-ok (parsed_manifest to_integer chain_id manifest) _ h2 in
      let (c, s) =
        assemble-Sources chain_id env o i m
          (λ key. read_setting-setting_of _ (at key env.protocol) (for_each_key-ok _ eo key))
          (read_infra_overrides-IsRead env ei) h3 in
      (m, em, c, s)
