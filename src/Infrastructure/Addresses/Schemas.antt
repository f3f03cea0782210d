-- ===== src/Infrastructure/Addresses/Schemas.antt =====
-- The texts that the schema of the manifest and the overrides let through, of
-- src/infrastructure/blockchain/address-book.ts, and the loop over the protocol's keys.
use spawn_backend.Prelude.{
  ℕ, ◌≡◌, refl, ◌∙◌, ◌==◌, Option, none, some, inl, inr, Bool-cases, Option-cases,
}
use spawn_backend.Prelude.Outcome.{Outcome, ok, >>=-eq-ok}
use spawn_backend.Common.Decimal.{Text}
use spawn_backend.Common.Texts.{every, starts_with, is_hex_digit}
use spawn_backend.Common.Trim.{trim, is_blank}
use spawn_backend.Infrastructure.Addresses.Manifest.{
  ProtocolKey, PerKey, at, BookError, for_each_key, Field, missing, null_field, text_field,
  other_field, address_schema, hex_text, valid_or_reject, required_text, optional_text,
  nullish_text,
}
use spawn_backend.Infrastructure.Addresses.Overrides.{valid_or_throw, read_setting}
use spawn_backend.Infrastructure.Addresses.Hexadecimal.{IsHex, hex_text-IsHex}
use spawn_backend.Infrastructure.Addresses.{
  KnownAddresses, known_addresses, or_next, optional_field, text_or_throw,
}

-- The predicate of what an option holds.
abbrev pub Optionally {ℓ} : {A : Type ℓ} → (A → Type 0) → Option A → Type 0
Optionally P none = Unit
Optionally P (some value) = P value

pub ok_injective {κ ℓ} :
    {E : Type κ} {A : Type ℓ} {x y : A} → Path (Outcome E A) (ok x) (ok y) → x ≡ y
ok_injective h = cc

-- A loop that ends has called its body at every key.
pub for_each_key-ok {κ ℓ} :
    {E : Type κ} {A : Type ℓ} (body : ProtocolKey → Outcome E A) {values : PerKey A}
    → for_each_key body ≡ ok values
    → (key : ProtocolKey) → body key ≡ ok (at key values)
unfolding for_each_key
for_each_key-ok body {values = values} h key =
    let (a, ea, h1) = >>=-eq-ok (body ProtocolKey.hook) _ h in
    let (b, eb, h2) = >>=-eq-ok (body ProtocolKey.launch_support) _ h1 in
    let (c, ec, h3) = >>=-eq-ok (body ProtocolKey.revenue_nft) _ h2 in
    let (d, ed, h4) = >>=-eq-ok (body ProtocolKey.payout_plugin_registry) _ h3 in
    let (e, ee, h5) = >>=-eq-ok (body ProtocolKey.protocol_controller) _ h4 in
    let same = ok_injective h5 in
    elim key as (λ k. body k ≡ ok (at k values)) [
      | ProtocolKey.hook ↦ rw (← same) ea
      | ProtocolKey.launch_support ↦ rw (← same) eb
      | ProtocolKey.revenue_nft ↦ rw (← same) ec
      | ProtocolKey.payout_plugin_registry ↦ rw (← same) ed
      | ProtocolKey.protocol_controller ↦ rw (← same) ee
    ]

abbrev pub IsAddress : Text → Type 0
IsAddress text = IsHex 40 text

valid_or_throw-IsAddress :
    (fault : BookError) (text : Text) {value : Option Text}
    → valid_or_throw fault (address_schema text) ≡ ok value
    → Optionally IsAddress value
unfolding valid_or_throw address_schema
valid_or_throw-IsAddress fault text {value = none} h = tt
valid_or_throw-IsAddress fault text {value = some v} h = elim (Option-cases (hex_text 40 text)) [
  | inl bad ↦ (let h' = rw bad at h in cc)
  | inr (w, good) ↦ hex_text-IsHex 40 text (let h' = rw good at h in good ∙ cc)
]

pub read_setting-IsAddress :
    (fault : BookError) (raw : Option Text) {value : Option Text}
    → read_setting fault raw ≡ ok value
    → Optionally IsAddress value
unfolding read_setting
read_setting-IsAddress fault none {value = none} h = tt
read_setting-IsAddress fault none {value = some v} h = cc
read_setting-IsAddress fault (some raw) {value = none} h = tt
read_setting-IsAddress fault (some raw) {value = some v} h =
    elim (Bool-cases (is_blank (trim raw))) [
      | inl blank ↦ (let h' = rw blank at h in cc)
      | inr set ↦ valid_or_throw-IsAddress fault (trim raw) {value = some v} (rw set at h)
    ]

module _ (digits : ℕ) where
  pub required_text-IsHex :
      (field : Field) {value : Text}
      → required_text (hex_text digits) field ≡ ok value
      → IsHex digits value
  unfolding required_text valid_or_reject
  required_text-IsHex missing h = cc
  required_text-IsHex null_field h = cc
  required_text-IsHex (other_field n) h = cc
  required_text-IsHex (text_field text) h = elim (Option-cases (hex_text digits text)) [
    | inl bad ↦ (let h' = rw bad at h in cc)
    | inr (w, good) ↦ hex_text-IsHex digits text (let h' = rw good at h in good ∙ cc)
  ]

  pub optional_text-IsHex :
      (field : Field) {value : Option Text}
      → optional_text (hex_text digits) field ≡ ok value
      → Optionally (IsHex digits) value
  unfolding optional_text valid_or_reject
  optional_text-IsHex field {value = none} h = tt
  optional_text-IsHex missing {value = some v} h = cc
  optional_text-IsHex null_field {value = some v} h = cc
  optional_text-IsHex (other_field n) {value = some v} h = cc
  optional_text-IsHex (text_field text) {value = some v} h =
      elim (Option-cases (hex_text digits text)) [
        | inl bad ↦ (let h' = rw bad at h in cc)
        | inr (w, good) ↦ hex_text-IsHex digits text (let h' = rw good at h in good ∙ cc)
      ]

  pub nullish_text-IsHex :
      (field : Field) {value : Option Text}
      → nullish_text (hex_text digits) field ≡ ok value
      → Optionally (IsHex digits) value
  unfolding nullish_text
  nullish_text-IsHex null_field {value = none} h = tt
  nullish_text-IsHex null_field {value = some v} h = cc
  nullish_text-IsHex missing h = optional_text-IsHex missing h
  nullish_text-IsHex (other_field n) h = optional_text-IsHex (other_field n) h
  nullish_text-IsHex (text_field text) h = optional_text-IsHex (text_field text) h

pub or_next-Optionally {ℓ} :
    {A : Type ℓ} (P : A → Type 0) (first next : Option A)
    → Optionally P first
    → Optionally P next
    → Optionally P (or_next first next)
unfolding or_next
or_next-Optionally P none next hf hn = hn
or_next-Optionally P (some value) next hf hn = hf

pub optional_field-Optionally {ℓ κ} :
    {A : Type ℓ} {B : Type κ} (Q : A → Type 0) (P : B → Type 0) (field : A → Option B)
    (o : Option A)
    → ((a : A) → Q a → Optionally P (field a))
    → Optionally Q o
    → Optionally P (optional_field field o)
unfolding optional_field
optional_field-Optionally Q P field none each h = tt
optional_field-Optionally Q P field (some a) each h = each a h

pub text_or_throw-ok :
    (P : Text → Type 0) (fault : BookError) (o : Option Text) {text : Text}
    → text_or_throw fault o ≡ ok text
    → Optionally P o
    → P text
unfolding text_or_throw
text_or_throw-ok P fault none h p = cc
text_or_throw-ok P fault (some t) h p = rw (← ok_injective h) p

abbrev pub IsKnown : KnownAddresses → Type 0
IsKnown known = IsAddress known.pool_manager × IsAddress known.multicall3

pub known_addresses-IsKnown : (chain_id : ℕ) → Optionally IsKnown (known_addresses chain_id)
unfolding known_addresses starts_with every is_hex_digit
known_addresses-IsKnown chain_id = elim (Bool-cases (chain_id == 8453)) [
  | inl base ↦ rw base ((refl, refl, refl), (refl, refl, refl))
  | inr other ↦ elim (Bool-cases (chain_id == 84532)) [
    | inl sepolia ↦ rw (other, sepolia) ((refl, refl, refl), (refl, refl, refl))
    | inr unknown ↦ rw (other, unknown) tt
  ]
]
