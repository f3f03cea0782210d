-- ===== src/Infrastructure/Addresses/Validity.antt =====
-- Every address of a book is well formed: `buildAddressBook` of
-- src/infrastructure/blockchain/address-book.ts, whatever its sources.
use spawn_backend.Prelude.{ℕ, ◌≡◌, ap, ◌∙◌, ◌==◌, not, Option, none, some}
use spawn_backend.Prelude.Int.{ℤ}
use spawn_backend.Prelude.Outcome.{ok, throw_if, >>=-eq-ok}
use spawn_backend.Common.Decimal.{Text}
use spawn_backend.Infrastructure.Addresses.Manifest.{
  ProtocolKey, PerKey, at, for_each_key, Field, Document, other_value, manifest_object,
  DeploymentManifest, address_schema, bytes32_schema, optional_text, nullish_text, parse_manifest,
  positive_integer, check_template,
}
use spawn_backend.Infrastructure.Addresses.Overrides.{
  BookEnvironment, InfraOverrides, read_setting, read_env_overrides, read_infra_overrides,
}
use spawn_backend.Infrastructure.Addresses.Hexadecimal.{IsHex}
use spawn_backend.Infrastructure.Addresses.Schemas.{
  IsAddress, Optionally, ok_injective, for_each_key-ok, read_setting-IsAddress, required_text-IsHex,
  optional_text-IsHex, nullish_text-IsHex, or_next-Optionally, optional_field-Optionally,
  text_or_throw-ok, IsKnown, known_addresses-IsKnown,
}
use spawn_backend.Infrastructure.Addresses.{
  AddressBook, text_or_throw, merged_key, parsed_manifest, assemble, build_address_book,
}

-- The addresses of a manifest are 0x and 40 lower-case digits, its hashes 0x and 64.
record IsManifest (m : DeploymentManifest) : Type 0 where
  protocol : (key : ProtocolKey) → IsAddress (at key m.protocol)
  buyback_and_burn_plugin : Optionally IsAddress m.buyback_and_burn_plugin
  buyback_plugin : Optionally IsAddress m.buyback_plugin
  pool_manager : Optionally IsAddress m.pool_manager
  state_view : Optionally IsAddress m.state_view
  v4_quoter : Optionally IsAddress m.v4_quoter
  multicall3 : Optionally IsAddress m.multicall3
  canonical_payout_plan : Optionally (IsHex 64) m.canonical_payout_plan
  hook_salt : Optionally (IsHex 64) m.hook_salt

record IsInfra (o : InfraOverrides) : Type 0 where
  pool_manager : Optionally IsAddress o.pool_manager
  state_view : Optionally IsAddress o.state_view
  v4_quoter : Optionally IsAddress o.v4_quoter
  multicall3 : Optionally IsAddress o.multicall3

-- The addresses of a book, and its hashes.
pub record IsBook (b : AddressBook) : Type 0 where
  pub protocol : (key : ProtocolKey) → IsAddress (at key b.protocol)
  pub pool_manager : IsAddress b.pool_manager
  pub multicall3 : IsAddress b.multicall3
  pub buyback_and_burn_plugin : Optionally IsAddress b.buyback_and_burn_plugin
  pub state_view : Optionally IsAddress b.state_view
  pub v4_quoter : Optionally IsAddress b.v4_quoter
  pub canonical_payout_plan : Optionally (IsHex 64) b.canonical_payout_plan
  pub hook_salt : Optionally (IsHex 64) b.hook_salt

read_infra_overrides-IsInfra :
    (env : BookEnvironment) {infra : InfraOverrides}
    → read_infra_overrides env ≡ ok infra
    → IsInfra infra
unfolding read_infra_overrides
read_infra_overrides-IsInfra env h =
    let (a, ea, h1) = >>=-eq-ok (read_setting _ env.pool_manager) _ h in
    let (b, eb, h2) = >>=-eq-ok (read_setting _ env.state_view) _ h1 in
    let (c, ec, h3) = >>=-eq-ok (read_setting _ env.v4_quoter) _ h2 in
    let (d, ed, h4) = >>=-eq-ok (read_setting _ env.multicall3) _ h3 in
    rw (← ok_injective h4) (record {
      pool_manager = read_setting-IsAddress _ env.pool_manager ea;
      state_view = read_setting-IsAddress _ env.state_view eb;
      v4_quoter = read_setting-IsAddress _ env.v4_quoter ec;
      multicall3 = read_setting-IsAddress _ env.multicall3 ed;
    })

module _ (to_integer : Field → Option ℤ) where
  parse_manifest-IsManifest :
      (document : Document) {m : DeploymentManifest}
      → parse_manifest to_integer document ≡ ok m
      → IsManifest m
  unfolding parse_manifest address_schema bytes32_schema
  parse_manifest-IsManifest other_value h = cc
  parse_manifest-IsManifest (manifest_object d) h =
      let (n, en, h0) = >>=-eq-ok (positive_integer to_integer d.chain_id) _ h in
      let (p, ep, h1) = >>=-eq-ok (for_each_key _) _ h0 in
      let (a, ea, h2) = >>=-eq-ok (nullish_text _ d.buyback_and_burn_plugin) _ h1 in
      let (b, eb, h3) = >>=-eq-ok (nullish_text _ d.buyback_plugin) _ h2 in
      let (c, ec, h4) = >>=-eq-ok (optional_text _ d.pool_manager) _ h3 in
      let (v, ev, h5) = >>=-eq-ok (nullish_text _ d.state_view) _ h4 in
      let (q, eq, h6) = >>=-eq-ok (nullish_text _ d.v4_quoter) _ h5 in
      let (k, ek, h7) = >>=-eq-ok (optional_text _ d.multicall3) _ h6 in
      let (l, el, h8) = >>=-eq-ok (nullish_text _ d.canonical_payout_plan) _ h7 in
      let (s, es, h9) = >>=-eq-ok (nullish_text _ d.hook_salt) _ h8 in
      let (t, et, h10) = >>=-eq-ok (check_template to_integer d.template) _ h9 in
      rw (← ok_injective h10) (record {
        protocol = λ key. required_text-IsHex 40 (at key d.protocol) (for_each_key-ok _ ep key);
        buyback_and_burn_plugin = nullish_text-IsHex 40 d.buyback_and_burn_plugin ea;
        buyback_plugin = nullish_text-IsHex 40 d.buyback_plugin eb;
        pool_manager = optional_text-IsHex 40 d.pool_manager ec;
        state_view = nullish_text-IsHex 40 d.state_view ev;
        v4_quoter = nullish_text-IsHex 40 d.v4_quoter eq;
        multicall3 = optional_text-IsHex 40 d.multicall3 ek;
        canonical_payout_plan = nullish_text-IsHex 64 d.canonical_payout_plan el;
        hook_salt = nullish_text-IsHex 64 d.hook_salt es;
      })

  parsed_manifest-IsManifest :
      (chain_id : ℕ) (manifest : Option Document) {parsed : Option DeploymentManifest}
      → parsed_manifest to_integer chain_id manifest ≡ ok parsed
      → Optionally IsManifest parsed
  unfolding parsed_manifest
  parsed_manifest-IsManifest chain_id manifest {parsed = none} h = tt
  parsed_manifest-IsManifest chain_id none {parsed = some m} h = cc
  parsed_manifest-IsManifest chain_id (some document) {parsed = some m} h =
      let (w, ew, h1) = >>=-eq-ok (parse_manifest to_integer document) _ h in
      let (t, et, h2) = >>=-eq-ok (throw_if (not (w.chain_id == chain_id)) _) _ h1 in
      let same : w ≡ m = cc in parse_manifest-IsManifest document (ew ∙ ap ok same)

  -- From well-formed parts comes a well-formed book.
  assemble-IsBook :
      (chain_id : ℕ) (overrides : PerKey (Option Text)) (infra : InfraOverrides)
      (parsed : Option DeploymentManifest) {book : AddressBook}
      → ((key : ProtocolKey) → Optionally IsAddress (at key overrides))
      → IsInfra infra
      → Optionally IsManifest parsed
      → assemble to_integer chain_id overrides infra parsed ≡ ok book
      → IsBook book
  unfolding assemble merged_key
  assemble-IsBook chain_id overrides infra parsed set i m h =
      let known = known_addresses-IsKnown chain_id in
      let (p, ep, h1) = >>=-eq-ok (for_each_key _) _ h in
      let (a, ea, h2) = >>=-eq-ok (text_or_throw _ _) _ h1 in
      let (b, eb, h3) = >>=-eq-ok (text_or_throw _ _) _ h2 in
      rw (← ok_injective h3) (record {
        protocol = λ key. text_or_throw-ok IsAddress _ _ (for_each_key-ok _ ep key) (
            or_next-Optionally IsAddress (at key overrides) _ (set key)
              (optional_field-Optionally IsManifest IsAddress _ parsed (λ m v. v.protocol key) m));
        pool_manager = text_or_throw-ok IsAddress _ _ ea (
            or_next-Optionally IsAddress infra.pool_manager _ i.pool_manager (
              or_next-Optionally IsAddress _ _
                (optional_field-Optionally IsManifest IsAddress _ parsed (λ m v. v.pool_manager) m)
                (optional_field-Optionally IsKnown IsAddress _ _ (λ k v. v.0) known)));
        multicall3 = text_or_throw-ok IsAddress _ _ eb (
            or_next-Optionally IsAddress infra.multicall3 _ i.multicall3 (
              or_next-Optionally IsAddress _ _
                (optional_field-Optionally IsManifest IsAddress _ parsed (λ m v. v.multicall3) m)
                (optional_field-Optionally IsKnown IsAddress _ _ (λ k v. v.1) known)));
        buyback_and_burn_plugin =
            or_next-Optionally IsAddress _ _
              (optional_field-Optionally IsManifest IsAddress _ parsed
                (λ m v. v.buyback_and_burn_plugin) m)
              (optional_field-Optionally IsManifest IsAddress _ parsed (λ m v. v.buyback_plugin) m);
        state_view =
            or_next-Optionally IsAddress infra.state_view _ i.state_view
              (optional_field-Optionally IsManifest IsAddress _ parsed (λ m v. v.state_view) m);
        v4_quoter =
            or_next-Optionally IsAddress infra.v4_quoter _ i.v4_quoter
              (optional_field-Optionally IsManifest IsAddress _ parsed (λ m v. v.v4_quoter) m);
        canonical_payout_plan =
            optional_field-Optionally IsManifest (IsHex 64) _ parsed
              (λ m v. v.canonical_payout_plan) m;
        hook_salt = optional_field-Optionally IsManifest (IsHex 64) _ parsed (λ m v. v.hook_salt) m;
      })

  -- In a book that the call returns, each address, whatever its source, is 0x and 40 lower-case
  -- hexadecimal digits, and each hash is 0x and 64 of them.
  pub build_address_book-IsBook :
      (chain_id : ℕ) (env : BookEnvironment) (manifest : Option Document) {book : AddressBook}
      → build_address_book to_integer chain_id env manifest ≡ ok book
      → IsBook book
  unfolding build_address_book read_env_overrides
  build_address_book-IsBook chain_id env manifest h =
      let (o, eo, h1) = >>=-eq-ok (for_each_key _) _ h in
      let (i, ei, h2) = >>=-eq-ok (read_infra_overrides env) _ h1 in
      let (m, em, h3) = >>=-eq-ok (parsed_manifest to_integer chain_id manifest) _ h2 in
      assemble-IsBook chain_id o i m
        (λ key. read_setting-IsAddress _ (at key env.protocol) (for_each_key-ok _ eo key))
        (read_infra_overrides-IsInfra env ei) (parsed_manifest-IsManifest chain_id manifest em) h3
