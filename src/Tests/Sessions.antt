-- ===== src/Tests/Sessions.antt =====
-- A wallet signs in once.
use spawn_backend.Prelude.{
  ℕ, zero, suc, ◌+◌, ◌%◌, ◌≡◌, ◌≢◌, ◌∙◌, refl, ap, inl, leb, if◌then◌else◌, All, length, List, [],
  ◌∷◌, ◌++◌, Option, none, some, ◌==◌, arith,
}
use spawn_backend.Prelude.Outcome.{ok}
use spawn_backend.Common.Decimal.{Text}
use spawn_backend.Common.Texts.{
  same_text, to_lower_case, lower_char, is_hex_digit, every, starts_with,
}
use spawn_backend.Infrastructure.WalletAuth.{
  IssuedNonce, AuthSession, AuthLibraries, is_wallet, is_nonce, get_nonce, delete_nonce,
  sign_session, is_signed_by, verify_stored, verify,
}
use spawn_backend.Infrastructure.WalletAuth.{SessionClaims, sign_session, verify_session}
use spawn_backend.Infrastructure.WalletAuth.Sessions.{
  IsBase64Char, IsBase64, verify_session-sign_session,
}
use spawn_backend.Infrastructure.WalletAuth.Nonces.{IsSignedIn, verify-once}

abbrev repeat : ℕ → ℕ → Text
repeat zero c = []
repeat (suc n) c = c ∷ repeat n c

abbrev address : Text
address = b'0' ∷ b'x' ∷ repeat 40 b'A'

abbrev wallet : Text
wallet = b'0' ∷ b'x' ∷ repeat 40 b'a'

abbrev nonce : Text
nonce = repeat 32 b'7'

abbrev issued : List IssuedNonce
issued = record { wallet = wallet; nonce = nonce; message = b'm' ∷ []; expires_at = 1_600 } ∷ []

-- Libraries that accept the signature `s` and encode nothing.
abbrev lib : AuthLibraries
lib = record {
  verify_message = λ signer message signature. some (same_text signature (b's' ∷ []));
  hmac_sha256 = λ secret text. [];
  to_base64 = λ text. text;
  from_base64 = λ text. text;
  stringify_claims = λ claims. claims.sub;
  header_json = [];
  parse_claims = λ text. none;
}

abbrev session : AuthSession
session = record {
  token = sign_session lib 1_000 wallet (1_000 + 604_800) [];
  wallet = wallet;
  expires_in = 604_800;
}

signs_in : verify lib 1_000 [] address nonce (b's' ∷ []) (b'm' ∷ []) issued ≡ (ok session, [])
unfolding verify verify_stored is_wallet is_nonce get_nonce delete_nonce is_signed_by same_text
    to_lower_case lower_char is_hex_digit every starts_with
signs_in = refl

verify-once_example :
    IsSignedIn lib 1_000 [] (to_lower_case address) nonce (b's' ∷ []) (b'm' ∷ []) issued [] session
    × ((later : ℕ) (signature' message' : Text) (session' : AuthSession)
        → (verify lib later [] address nonce signature' message' []).0 ≢ ok session')
verify-once_example =
    verify-once lib 1_000 [] address nonce (b's' ∷ []) (b'm' ∷ []) issued [] session signs_in

-- A code that stands for each character c by c blocks `AAAA` and a block `BBBB`.
abbrev blocks : ℕ → Text → Text
blocks zero rest = b'B' ∷ b'B' ∷ b'B' ∷ b'B' ∷ rest
blocks (suc n) rest = b'A' ∷ b'A' ∷ b'A' ∷ b'A' ∷ blocks n rest

abbrev encode : Text → Text
encode [] = []
encode (c ∷ cs) = blocks c (encode cs)

abbrev decode_from : ℕ → Text → Text
decode_from n [] = []
decode_from n (a ∷ []) = []
decode_from n (a ∷ b ∷ []) = []
decode_from n (a ∷ b ∷ c ∷ []) = []
decode_from n (a ∷ b ∷ c ∷ d ∷ rest) =
    let more = decode_from (n + 1) rest in
    let next = decode_from 0 rest in if a == b'A' then more else n ∷ next

decode-blocks :
    (n c : ℕ) (rest : Text) → decode_from n (blocks c rest) ≡ (n + c) ∷ decode_from 0 rest
decode-blocks n zero rest = ap (λ m. m ∷ decode_from 0 rest) (omega arith)
decode-blocks n (suc c) rest =
    decode-blocks (n + 1) c rest ∙ ap (λ m. m ∷ decode_from 0 rest) (omega arith)

decode-encode : (x : Text) → decode_from 0 (encode x) ≡ x
decode-encode [] = refl
decode-encode (c ∷ cs) =
    decode-blocks 0 c (encode cs)
    ∙ ap (λ m. m ∷ decode_from 0 (encode cs)) (omega arith)
    ∙ ap (λ rest. c ∷ rest) (decode-encode cs)

blocks_lem :
    (c : ℕ) (rest : Text)
    → All IsBase64Char rest
    → length rest % 4 ≡ 0
    → All IsBase64Char (blocks c rest) × (length (blocks c rest) % 4 ≡ 0)
unfolding IsBase64Char
blocks_lem zero rest all fours =
    ((ground arith, (ground arith, (ground arith, (ground arith, all)))), omega (arith, fours))
blocks_lem (suc c) rest all fours =
    let (chars, four) = blocks_lem c rest all fours in
    ((ground arith, (ground arith, (ground arith, (ground arith, chars)))), omega (arith, four))

encode_lem : (x : Text) → All IsBase64Char (encode x) × (length (encode x) % 4 ≡ 0)
encode_lem [] = (tt, omega arith)
encode_lem (c ∷ cs) = let (all, fours) = encode_lem cs in blocks_lem c (encode cs) all fours

append_nothing : (xs : Text) → xs ≡ xs ++ []
append_nothing [] = refl
append_nothing (x ∷ xs) = ap (λ rest. x ∷ rest) (append_nothing xs)

encode-IsBase64 : (x : Text) → IsBase64 (encode x)
encode-IsBase64 x =
    let (all, fours) = encode_lem x in
    record {
      body = encode x;
      pad = [];
      parts = append_nothing (encode x);
      characters = all;
      padded = inl refl;
      fours = omega (arith, fours);
    }

-- Claims as a text: the two times in front of the wallet.
abbrev print_claims : SessionClaims → Text
print_claims c = c.iat ∷ c.exp ∷ c.sub

abbrev read_claims : Text → Option SessionClaims
read_claims [] = none
read_claims (a ∷ []) = none
read_claims (iat ∷ exp ∷ sub) = some (record { sub = sub; iat = iat; exp = exp })

abbrev codes : AuthLibraries
codes = record {
  verify_message = λ signer message signature. none;
  hmac_sha256 = λ secret text. secret ++ text;
  to_base64 = encode;
  from_base64 = decode_from 0;
  stringify_claims = print_claims;
  header_json = b'{' ∷ b'}' ∷ [];
  parse_claims = read_claims;
}

verify_session-sign_session_example :
    verify_session codes 1_500 (sign_session codes 1_000 wallet 2_000 (b'k' ∷ [])) (b'k' ∷ [])
    ≡ (if leb 2_000 1_500 then none else some (record { sub = wallet; iat = 1_000; exp = 2_000 }))
verify_session-sign_session_example =
    verify_session-sign_session codes encode-IsBase64 decode-encode (λ c. refl) 1_000 1_500 2_000
      wallet (b'k' ∷ [])
