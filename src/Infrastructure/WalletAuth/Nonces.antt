-- ===== src/Infrastructure/WalletAuth/Nonces.antt =====
-- A nonce signs in once.
use spawn_backend.Prelude.{
  ℕ, ◌+◌, ◌≡◌, ◌≢◌, refl, sym, ap, true, List, [], ◌∷◌, Option, none, some, inl, inr, Bool-cases,
}
use spawn_backend.Prelude.Outcome.{ok}
use spawn_backend.Common.Decimal.{Text}
use spawn_backend.Common.Texts.{same_text, same_text-eq, to_lower_case}
use spawn_backend.Infrastructure.WalletAuth.{
  IssuedNonce, AuthSession, AuthLibraries, is_wallet, is_nonce, is_issued_to, get_nonce,
  delete_nonce, sign_session, session_ttl_seconds, is_signed_by, verify_stored, verify,
}

-- A nonce that is deleted is not found at any time.
deleted_none :
    (later : ℕ) (wallet nonce : Text) (issued : List IssuedNonce)
    → get_nonce later wallet nonce (delete_nonce wallet nonce issued) ≡ none
unfolding get_nonce delete_nonce
deleted_none later wallet nonce [] = refl
deleted_none later wallet nonce (n ∷ ns) = elim (Bool-cases (is_issued_to wallet nonce n)) [
  | inl this ↦ rw this (deleted_none later wallet nonce ns)
  | inr other ↦ rw (other, other) (deleted_none later wallet nonce ns)
]

-- What a sign-in that succeeds had and leaves: the nonce was issued to the wallet with this very
-- message and has not expired, and the wallet signed the message.
pub record IsSignedIn (lib : AuthLibraries) (now : ℕ) (secret wallet nonce signature message : Text)
    (issued left : List IssuedNonce) (session : AuthSession) : Type 0 where
  pub stored : IssuedNonce
  pub found : get_nonce now wallet nonce issued ≡ some stored
  pub as_issued : message ≡ stored.message
  pub signed : is_signed_by lib wallet message signature ≡ true
  pub answered : session ≡ record {
    token = sign_session lib now wallet (now + session_ttl_seconds) secret;
    wallet = wallet;
    expires_in = session_ttl_seconds;
  }
  pub used : left ≡ delete_nonce wallet nonce issued

verify_stored_lem :
    (lib : AuthLibraries) (now : ℕ) (secret wallet nonce signature message : Text)
    (o : Option IssuedNonce) (issued left : List IssuedNonce) (session : AuthSession)
    → get_nonce now wallet nonce issued ≡ o
    → verify_stored lib now secret wallet nonce signature message o issued ≡ (ok session, left)
    → IsSignedIn lib now secret wallet nonce signature message issued left session
unfolding verify_stored
verify_stored_lem lib now secret wallet nonce signature message none issued left session found e =
    cc
verify_stored_lem lib now secret wallet nonce signature message (some stored) issued left session
      found e =
    elim (Bool-cases (same_text message stored.message)) [
      | inr differs ↦ (let h = rw differs at e in cc)
      | inl same ↦ elim (Bool-cases (is_signed_by lib wallet message signature)) [
        | inr forged ↦ (let h = rw (same, forged) at e in cc)
        | inl signed ↦
            let h = rw (same, signed) at e in
            let s = ap (λ r. r.0) h in
            record {
              stored = stored;
              found = found;
              as_issued = same_text-eq message stored.message same;
              signed = signed;
              answered = cc;
              used = sym (ap (λ r. r.1) h);
            }
      ]
    ]

verify-IsSignedIn :
    (lib : AuthLibraries) (now : ℕ) (secret address nonce signature message : Text)
    (issued left : List IssuedNonce) (session : AuthSession)
    → verify lib now secret address nonce signature message issued ≡ (ok session, left)
    → IsSignedIn lib now secret (to_lower_case address) nonce signature message issued left session
unfolding verify
verify-IsSignedIn lib now secret address nonce signature message issued left session e =
    let wallet = to_lower_case address in
    elim (Bool-cases (is_wallet wallet)) [
      | inr bad ↦ (let h = ap (λ r. r.0) (rw bad at e) in cc)
      | inl good ↦ elim (Bool-cases (is_nonce nonce)) [
        | inr malformed ↦ (let h = ap (λ r. r.0) (rw (good, malformed) at e) in cc)
        | inl formed ↦
            verify_stored_lem lib now secret wallet nonce signature message
              (get_nonce now wallet nonce issued) issued left session refl (rw (good, formed) at e)
      ]
    ]

-- No session comes of a nonce that is not found.
verify-missing :
    (lib : AuthLibraries) (now : ℕ) (secret address nonce signature message : Text)
    (issued : List IssuedNonce) (session : AuthSession)
    → get_nonce now (to_lower_case address) nonce issued ≡ none
    → (verify lib now secret address nonce signature message issued).0 ≢ ok session
unfolding verify verify_stored
verify-missing lib now secret address nonce signature message issued session missing e =
    let wallet = to_lower_case address in
    elim (Bool-cases (is_wallet wallet)) [
      | inr bad ↦ (let h = rw bad at e in cc)
      | inl good ↦ elim (Bool-cases (is_nonce nonce)) [
        | inr malformed ↦ (let h = rw (good, malformed) at e in cc)
        | inl formed ↦ (let h = rw (good, formed, missing) at e in cc)
      ]
    ]

-- When a sign-in gives a session: the nonce had been issued to this wallet with exactly this message
-- and had not expired, the signature of the message is the wallet's, the session's token is signed for
-- this wallet, the nonce is deleted, and no sign-in on the nonces that are left gives a session for this
-- wallet and nonce again, at any time and with any signature and message.
pub verify-once :
    (lib : AuthLibraries) (now : ℕ) (secret address nonce signature message : Text)
    (issued left : List IssuedNonce) (session : AuthSession)
    → verify lib now secret address nonce signature message issued ≡ (ok session, left)
    → IsSignedIn lib now secret (to_lower_case address) nonce signature message issued left session
      × ((later : ℕ) (signature' message' : Text) (session' : AuthSession)
          → (verify lib later secret address nonce signature' message' left).0 ≢ ok session')
verify-once lib now secret address nonce signature message issued left session e =
    let wallet = to_lower_case address in
    let signed =
      verify-IsSignedIn lib now secret address nonce signature message issued left session e in
    (
      signed,
      λ later signature' message' session'.
          verify-missing lib later secret address nonce signature' message' left session'
            (rw signed.used (deleted_none later wallet nonce issued)),
    )
