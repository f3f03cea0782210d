-- ===== src/Infrastructure/WalletAuth/Sessions.antt =====
-- The token of a session is accepted until it expires.
use spawn_backend.Prelude.{
  ℕ, ◌+◌, ◌%◌, ◌≤◌, ◌≡◌, ◌∙◌, ◌⊎◌, refl, sym, ap, leb, ◌==◌, false, if◌then◌else◌, [], ◌∷◌, ◌++◌,
  length, map, All, none, some, inl, inr, arith,
}
use spawn_backend.Common.Decimal.{Text}
use spawn_backend.Common.Texts.{same_text_self, split}
use spawn_backend.Infrastructure.WalletAuth.{
  SessionClaims, AuthLibraries, url_char, base_char, strip_padding, padding, b64url, from_b64url,
  sign_session, live_claims, verify_parts, verify_session,
}

-- A character of base64: a letter, a digit, `+` or `/`.
unfoldable pub IsBase64Char : ℕ → Type 0
IsBase64Char c =
    ((b'a' ≤ c) × (c ≤ b'z'))
    ⊎ ((b'A' ≤ c) × (c ≤ b'Z'))
    ⊎ ((b'0' ≤ c) × (c ≤ b'9'))
    ⊎ (c ≡ b'+')
    ⊎ (c ≡ b'/')

-- A text of base64: characters and at most two signs of padding, a multiple of four in all.
pub record IsBase64 (text : Text) : Type 0 where
  pub body : Text
  pub pad : Text
  pub parts : text ≡ body ++ pad
  pub characters : All IsBase64Char body
  pub padded : (pad ≡ []) ⊎ (pad ≡ b'=' ∷ []) ⊎ (pad ≡ b'=' ∷ b'=' ∷ [])
  pub fours : (length body + length pad) % 4 ≡ 0

char_back : (c : ℕ) → IsBase64Char c → base_char (url_char c) ≡ c
unfolding IsBase64Char base_char url_char
char_back c h = ground arith

url_char_plain :
    (c : ℕ) → IsBase64Char c → ((url_char c == b'=') ≡ false) × ((url_char c == b'.') ≡ false)
unfolding IsBase64Char url_char
url_char_plain c h = (ground arith, ground arith)

map_back : (body : Text) → All IsBase64Char body → map base_char (map url_char body) ≡ body
map_back [] all = refl
map_back (c ∷ cs) (h, all) = rw (char_back c h, map_back cs all) refl

strip_pad :
    (pad : Text)
    → (pad ≡ []) ⊎ (pad ≡ b'=' ∷ []) ⊎ (pad ≡ b'=' ∷ b'=' ∷ [])
    → strip_padding (map url_char pad) ≡ []
unfolding strip_padding url_char
strip_pad pad (inl e) = rw e refl
strip_pad pad (inr (inl e)) = rw e refl
strip_pad pad (inr (inr e)) = rw e refl

strip_body :
    (body pad : Text)
    → All IsBase64Char body
    → strip_padding (map url_char pad) ≡ []
    → strip_padding (map url_char (body ++ pad)) ≡ map url_char body
unfolding strip_padding
strip_body [] pad all e = e
strip_body (c ∷ []) pad (h, all) e = rw (e, (url_char_plain c h).0) refl
strip_body (c ∷ d ∷ ds) pad (h, all) e = rw (strip_body (d ∷ ds) pad all e) refl

length-map_url : (body : Text) → length (map url_char body) ≡ length body
length-map_url [] = refl
length-map_url (c ∷ cs) = omega (arith, length-map_url cs)

pad_back :
    (n : ℕ) (pad : Text)
    → (pad ≡ []) ⊎ (pad ≡ b'=' ∷ []) ⊎ (pad ≡ b'=' ∷ b'=' ∷ [])
    → (n + length pad) % 4 ≡ 0
    → padding (n % 4) ≡ pad
unfolding padding
pad_back n pad (inl e) fours =
    (let f = rw e at fours in let m : n % 4 ≡ 0 = omega (arith, f) in rw (m, e) refl)
pad_back n pad (inr (inl e)) fours =
    (let f = rw e at fours in let m : n % 4 ≡ 3 = omega (arith, f) in rw (m, e) refl)
pad_back n pad (inr (inr e)) fours =
    (let f = rw e at fours in let m : n % 4 ≡ 2 = omega (arith, f) in rw (m, e) refl)

-- No point in a text.
IsPlain : Text → Type 0
IsPlain text = All (λ c. (c == b'.') ≡ false) text

map_url-IsPlain : (body : Text) → All IsBase64Char body → IsPlain (map url_char body)
unfolding IsPlain
map_url-IsPlain [] all = tt
map_url-IsPlain (c ∷ cs) (h, all) = ((url_char_plain c h).1, map_url-IsPlain cs all)

split_plain : (text : Text) → IsPlain text → split b'.' text ≡ text ∷ []
unfolding split IsPlain
split_plain [] plain = refl
split_plain (c ∷ cs) (h, plain) = rw (h, split_plain cs plain) refl

split_point :
    (text rest : Text) → IsPlain text → split b'.' (text ++ b'.' ∷ rest) ≡ text ∷ split b'.' rest
unfolding split IsPlain
split_point [] rest plain = refl
split_point (c ∷ cs) rest (h, plain) = rw (h, split_point cs rest plain) refl

append_assoc : (xs ys zs : Text) → (xs ++ ys) ++ zs ≡ xs ++ (ys ++ zs)
append_assoc [] ys zs = refl
append_assoc (x ∷ xs) ys zs = ap (λ rest. x ∷ rest) (append_assoc xs ys zs)

module _ (lib : AuthLibraries) (encodes : (x : Text) → IsBase64 (lib.to_base64 x)) where
  b64url-body : (x : Text) → b64url lib x ≡ map url_char (encodes x).body
  unfolding b64url
  b64url-body x =
      let e = encodes x in
      rw e.parts (strip_body e.body e.pad e.characters (strip_pad e.pad e.padded))

  b64url-IsPlain : (x : Text) → IsPlain (b64url lib x)
  b64url-IsPlain x = rw (b64url-body x) (map_url-IsPlain (encodes x).body (encodes x).characters)

  from_b64url-b64url :
      ((y : Text) → lib.from_base64 (lib.to_base64 y) ≡ y)
      → (x : Text) → from_b64url lib (b64url lib x) ≡ x
  unfolding from_b64url
  from_b64url-b64url decodes x =
      let e = encodes x in
      let restored : map base_char (map url_char e.body)
            ++ padding (length (map url_char e.body) % 4)
          ≡ lib.to_base64 x =
        rw
          (
            map_back e.body e.characters,
            length-map_url e.body,
            pad_back (length e.body) e.pad e.padded e.fours,
          )
          (sym e.parts) in
      ap (from_b64url lib) (b64url-body x) ∙ ap lib.from_base64 restored ∙ decodes x

split_three :
    (a b c : Text)
    → IsPlain a
    → IsPlain b
    → IsPlain c
    → split b'.' ((a ++ b'.' ∷ b) ++ b'.' ∷ c) ≡ a ∷ b ∷ c ∷ []
split_three a b c pa pb pc =
    let last : split b'.' (b ++ b'.' ∷ c) ≡ b ∷ c ∷ [] =
      split_point b c pb ∙ ap (λ rest. b ∷ rest) (split_plain c pc) in
    let first : split b'.' (a ++ b'.' ∷ (b ++ b'.' ∷ c)) ≡ a ∷ b ∷ c ∷ [] =
      split_point a (b ++ b'.' ∷ c) pa ∙ ap (λ rest. a ∷ rest) last in
    rw (append_assoc a (b'.' ∷ b) (b'.' ∷ c)) first

-- Where base64 encodes to its alphabet with padding to a multiple of four and decodes what it encodes,
-- and JSON parses the claims that it prints: the token that is signed for a wallet with a secret
-- verifies with that secret to the same wallet and times, at every time before it expires, and to
-- nothing from then on.
pub verify_session-sign_session :
    (lib : AuthLibraries)
    → ((x : Text) → IsBase64 (lib.to_base64 x))
    → ((x : Text) → lib.from_base64 (lib.to_base64 x) ≡ x)
    → ((c : SessionClaims) → lib.parse_claims (lib.stringify_claims c) ≡ some c)
    → (signed_at now exp : ℕ) (sub secret : Text)
    → verify_session lib now (sign_session lib signed_at sub exp secret) secret
      ≡ (if leb exp now then none else some (record { sub = sub; iat = signed_at; exp = exp }))
unfolding verify_session sign_session verify_parts live_claims
verify_session-sign_session lib encodes decodes parses signed_at now exp sub secret =
    let claims : SessionClaims = record { sub = sub; iat = signed_at; exp = exp } in
    let header = b64url lib lib.header_json in
    let payload = b64url lib (lib.stringify_claims claims) in
    let mac = lib.hmac_sha256 secret (header ++ b'.' ∷ payload) in
    let plain = b64url-IsPlain lib encodes in
    let back = from_b64url-b64url lib encodes decodes in
    ap (verify_parts lib now secret) (
      split_three header payload (b64url lib mac) (plain lib.header_json)
        (plain (lib.stringify_claims claims)) (plain mac))
    ∙ rw (back mac, same_text_self mac, back (lib.stringify_claims claims), parses claims) refl
