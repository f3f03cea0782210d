-- ===== src/Infrastructure/WalletAuth.antt =====
-- Wallet sessions: `WalletAuthService` of src/infrastructure/auth/wallet-auth.service.ts, the tokens of
-- src/infrastructure/auth/jwt.ts and the guard of src/infrastructure/auth/wallet-auth.guard.ts. The
-- cache of nonces is up; the signature check of a message, HMAC, base64 and JSON are parameters, and
-- the random nonce and the clock are arguments.
pub mod Nonces
pub mod Sessions
use spawn_backend.Prelude.{
  ℕ, ◌+◌, ◌-◌, ◌*◌, ◌/◌, ◌%◌, ltb, leb, ◌==◌, ◌&&◌, ◌||◌, not, Bool, true, false, if◌then◌else◌,
  List, [], ◌∷◌, ◌++◌, length, map, Option, none, some, drop,
}
use spawn_backend.Prelude.Outcome.{Outcome, ok, err, throw_if, ◌>>=◌, ◌>>◌}
use spawn_backend.Common.Decimal.{Text}
use spawn_backend.Infrastructure.SignInMessage.{nonce_message}
use spawn_backend.Common.Texts.{same_text, to_lower_case, is_hex_digit, every, starts_with, split}

abbrev pub nonce_ttl_seconds : ℕ
nonce_ttl_seconds = 600

abbrev pub session_ttl_seconds : ℕ
session_ttl_seconds = 60 * 60 * 24 * 7

-- A message behind the key of a wallet and a nonce, until it expires (in seconds).
pub record IssuedNonce : Type 0 where
  pub wallet : Text
  pub nonce : Text
  pub message : Text
  pub expires_at : ℕ

pub record SessionClaims : Type 0 where
  pub sub : Text
  pub iat : ℕ
  pub exp : ℕ

pub record AuthSession : Type 0 where
  pub token : Text
  pub wallet : Text
  pub expires_in : ℕ

pub data AuthError : Type 0 where
  invalid_wallet_address invalid_nonce nonce_expired message_mismatch : AuthError
  signature_invalid session_invalid : AuthError

-- The libraries: `verifyMessage` may throw, and so may `JSON.parse`, which also may give a value that
-- is no claims.
pub record AuthLibraries : Type 0 where
  pub verify_message : Text → Text → Text → Option Bool
  pub hmac_sha256 : Text → Text → Text
  pub to_base64 : Text → Text
  pub from_base64 : Text → Text
  pub stringify_claims : SessionClaims → Text
  pub header_json : Text
  pub parse_claims : Text → Option SessionClaims

-- `/^0x[0-9a-f]{40}$/` and not `/^0x0{40}$/`
unfoldable pub is_wallet : Text → Bool
is_wallet text =
    starts_with (b'0' ∷ b'x' ∷ []) text
    && length text == 42
    && every is_hex_digit (drop 2 text)
    && not (every (λ c. c == b'0') (drop 2 text))

-- `/^[0-9a-f]{32}$/`
unfoldable pub is_nonce : Text → Bool
is_nonce text = length text == 32 && every is_hex_digit text

abbrev pub is_issued_to : Text → Text → IssuedNonce → Bool
is_issued_to wallet nonce n = same_text n.wallet wallet && same_text n.nonce nonce

-- `cache.get` of a nonce's key.
unfoldable pub get_nonce : ℕ → Text → Text → List IssuedNonce → Option IssuedNonce
get_nonce now wallet nonce [] = none
get_nonce now wallet nonce (n ∷ ns) =
    let later = get_nonce now wallet nonce ns in
    if is_issued_to wallet nonce n && ltb now n.expires_at then some n else later

-- `cache.delete`
unfoldable pub delete_nonce : Text → Text → List IssuedNonce → List IssuedNonce
delete_nonce wallet nonce [] = []
delete_nonce wallet nonce (n ∷ ns) =
    let later = delete_nonce wallet nonce ns in
    if is_issued_to wallet nonce n then later else n ∷ later

-- `issueNonce`, with the random nonce.
unfoldable pub issue_nonce :
    (ℕ → Text)
    → ℕ
    → Text
    → Text
    → List IssuedNonce
    → Outcome AuthError (Text × Text) × List IssuedNonce
issue_nonce to_iso_string now nonce wallet_address issued =
    let wallet = to_lower_case wallet_address in
    let message = nonce_message to_iso_string wallet nonce now in
    if not (is_wallet wallet) then (err AuthError.invalid_wallet_address, issued) else (
      ok (nonce, message),
      record {
        wallet = wallet;
        nonce = nonce;
        message = message;
        expires_at = now + nonce_ttl_seconds;
      }
          ∷ delete_nonce wallet nonce issued,
    )

unfoldable pub url_char : ℕ → ℕ
url_char c = if c == b'+' then b'-' else if c == b'/' then b'_' else c

unfoldable pub base_char : ℕ → ℕ
base_char c = if c == b'-' then b'+' else if c == b'_' then b'/' else c

-- `replace(/=+$/, '')`
unfoldable pub strip_padding : Text → Text
strip_padding [] = []
strip_padding (c ∷ cs) = put_back (strip_padding cs)
  where
    put_back : Text → Text
    put_back [] = if c == b'=' then [] else c ∷ []
    put_back (d ∷ ds) = c ∷ d ∷ ds

-- `'='.repeat(4 - length % 4)`, nothing where the length is a multiple of 4.
unfoldable pub padding : ℕ → Text
padding rest =
    if rest == 0
    then []
    else if rest == 1
    then b'=' ∷ b'=' ∷ b'=' ∷ []
    else if rest == 2
    then b'=' ∷ b'=' ∷ []
    else b'=' ∷ []

module _ (lib : AuthLibraries) where
  unfoldable pub b64url : Text → Text
  b64url input = strip_padding (map url_char (lib.to_base64 input))

  unfoldable pub from_b64url : Text → Text
  from_b64url input = lib.from_base64 (map base_char input ++ padding (length input % 4))

  unfoldable pub sign_session : ℕ → Text → ℕ → Text → Text
  sign_session now sub exp secret =
      let claims : SessionClaims = record { sub = sub; iat = now; exp = exp } in
      let signing_input = b64url lib.header_json ++ b'.' ∷ b64url (lib.stringify_claims claims) in
      signing_input ++ b'.' ∷ b64url (lib.hmac_sha256 secret signing_input)

  unfoldable pub live_claims : ℕ → Option SessionClaims → Option SessionClaims
  live_claims now none = none
  live_claims now (some claims) = if leb claims.exp now then none else some claims

  unfoldable pub verify_parts : ℕ → Text → List Text → Option SessionClaims
  verify_parts now secret (header ∷ payload ∷ sig ∷ []) =
      let expected = lib.hmac_sha256 secret (header ++ b'.' ∷ payload) in
      if not (same_text (from_b64url sig) expected)
      then none
      else live_claims now (lib.parse_claims (from_b64url payload))
  verify_parts now secret [] = none
  verify_parts now secret (a ∷ []) = none
  verify_parts now secret (a ∷ b ∷ []) = none
  verify_parts now secret (a ∷ b ∷ c ∷ d ∷ rest) = none

  -- `verifySession`
  unfoldable pub verify_session : ℕ → Text → Text → Option SessionClaims
  verify_session now token secret = verify_parts now secret (split b'.' token)

  unfoldable pub is_signed_by : Text → Text → Text → Bool
  is_signed_by wallet message signature = valid (lib.verify_message wallet message signature)
    where
      valid : Option Bool → Bool
      valid none = false
      valid (some b) = b

  -- `verify` behind the lookup of the nonce, with the nonces that are left.
  unfoldable pub verify_stored :
      ℕ
      → Text
      → Text
      → Text
      → Text
      → Text
      → Option IssuedNonce
      → List IssuedNonce
      → Outcome AuthError AuthSession × List IssuedNonce
  verify_stored now secret wallet nonce signature message none issued =
      (err AuthError.nonce_expired, issued)
  verify_stored now secret wallet nonce signature message (some stored) issued =
      let left = delete_nonce wallet nonce issued in
      if not (same_text message stored.message)
      then (err AuthError.message_mismatch, left)
      else if not (is_signed_by wallet message signature)
      then (err AuthError.signature_invalid, left)
      else (
        ok (record {
          token = sign_session now wallet (now + session_ttl_seconds) secret;
          wallet = wallet;
          expires_in = session_ttl_seconds;
        }),
        left,
      )

  -- `verify`
  unfoldable pub verify :
      ℕ
      → Text
      → Text
      → Text
      → Text
      → Text
      → List IssuedNonce
      → Outcome AuthError AuthSession × List IssuedNonce
  verify now secret wallet_address nonce signature message issued =
      let wallet = to_lower_case wallet_address in
      if not (is_wallet wallet)
      then (err AuthError.invalid_wallet_address, issued)
      else if not (is_nonce nonce)
      then (err AuthError.invalid_nonce, issued)
      else verify_stored now secret wallet nonce signature message
          (get_nonce now wallet nonce issued) issued

  unfoldable pub claims_or_throw : Option SessionClaims → Outcome AuthError SessionClaims
  claims_or_throw none = err AuthError.session_invalid
  claims_or_throw (some claims) = ok claims

  -- `authenticate`
  unfoldable pub authenticate : ℕ → Text → Text → Outcome AuthError SessionClaims
  authenticate now secret token = claims_or_throw (verify_session now token secret)

  -- `canActivate`: the wallet that the request gets, or none where the guard says no; the header has
  -- no space around the token.
  unfoldable pub can_activate : ℕ → Text → Option Text → Outcome AuthError (Option Text)
  can_activate now secret none = ok none
  can_activate now secret (some header) =
      let session = authenticate now secret (drop 7 header) in
      let bearer = b'B' ∷ b'e' ∷ b'a' ∷ b'r' ∷ b'e' ∷ b'r' ∷ b' ' ∷ [] in
      if not (starts_with bearer header)
      then ok none
      else (session >>= λ claims. ok (some claims.sub))
