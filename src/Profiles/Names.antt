-- ===== src/Profiles/Names.antt =====
-- No two wallets have the same name, in whatever case: updates of profiles in
-- src/modules/profiles/profiles.service.ts.
use spawn_backend.Prelude.{
  ℕ, ◌==◌, ◌&&◌, not, ◌≡◌, refl, sym, ap, ◌∙◌, true, false, List, [], ◌∷◌, Option, none, some, inl,
  inr, ◌⊎◌, Bool-cases, Option-cases, arith,
}
use spawn_backend.Common.Decimal.{Text}
use spawn_backend.Common.Texts.{same_text}
use spawn_backend.Profiles.{
  Profile, ProfileUpdate, Change, folded, changed_folded, changed, find_profile, same_name,
  is_taken, update_row, row_or_new, put_profile, update_profile,
}

find_profile-wallet :
    (wallet : ℕ) (ps : List Profile) {p : Profile}
    → find_profile wallet ps ≡ some p
    → p.wallet_address ≡ wallet
unfolding find_profile
find_profile-wallet wallet [] h = cc
find_profile-wallet wallet (q ∷ ps) {p = p} h = elim (Bool-cases (q.wallet_address == wallet)) [
  | inl same ↦
      let e : q ≡ p = (let h' = rw same at h in cc) in
      let w : q.wallet_address ≡ wallet = ground arith in ap (λ r. r.wallet_address) (sym e) ∙ w
  | inr other ↦ find_profile-wallet wallet ps (rw other at h)
]

same_wallet : (n : ℕ) → (n == n) ≡ true
same_wallet n = ground arith

find_profile-put_profile :
    (row : Profile) (ps : List Profile)
    → find_profile row.wallet_address (put_profile row ps) ≡ some row
unfolding find_profile put_profile
find_profile-put_profile row [] = rw (same_wallet row.wallet_address) refl
find_profile-put_profile row (p ∷ ps) = elim (Bool-cases (p.wallet_address == row.wallet_address)) [
  | inl same ↦ rw (same, same_wallet row.wallet_address) refl
  | inr other ↦ rw (other, other) (find_profile-put_profile row ps)
]

find_profile-put_profile_other :
    (row : Profile) (ps : List Profile) (wallet : ℕ)
    → (row.wallet_address == wallet) ≡ false
    → find_profile wallet (put_profile row ps) ≡ find_profile wallet ps
unfolding find_profile put_profile
find_profile-put_profile_other row [] wallet ne = rw ne refl
find_profile-put_profile_other row (p ∷ ps) wallet ne =
    elim (Bool-cases (p.wallet_address == row.wallet_address)) [
      | inl same ↦
          let other : (p.wallet_address == wallet) ≡ false = ground arith in
          rw (same, ne, other) refl
      | inr differs ↦ rw (differs, find_profile-put_profile_other row ps wallet ne) refl
    ]

-- A name that is not taken is the name of no other wallet.
is_taken-find_profile :
    (wallet other : ℕ) (name : Option Text) (ps : List Profile) {q : Profile}
    → is_taken wallet name ps ≡ false
    → (other == wallet) ≡ false
    → find_profile other ps ≡ some q
    → same_name name q.username_folded ≡ false
unfolding is_taken find_profile
is_taken-find_profile wallet other name [] free ne h = cc
is_taken-find_profile wallet other name (p ∷ ps) {q = q} free ne h =
    elim (Bool-cases (not (p.wallet_address == wallet) && same_name name p.username_folded)) [
      | inl taken ↦ (let free' = rw taken at free in cc)
      | inr untaken ↦ elim (Bool-cases (p.wallet_address == other)) [
        | inl same ↦
            let e : p ≡ q = (let h' = rw same at h in cc) in
            let differs : (p.wallet_address == wallet) ≡ false = ground arith in
            rw (← e) (rw differs at untaken)
        | inr elsewhere ↦
            is_taken-find_profile wallet other name ps (rw untaken at free) ne (rw elsewhere at h)
      ]
    ]

same_text_comm : (xs ys : Text) → same_text xs ys ≡ same_text ys xs
unfolding same_text
same_text_comm [] [] = refl
same_text_comm [] (y ∷ ys) = refl
same_text_comm (x ∷ xs) [] = refl
same_text_comm (x ∷ xs) (y ∷ ys) =
    let e : (x == y) ≡ (y == x) = ground arith in rw (e, same_text_comm xs ys) refl

same_name_comm : (a b : Option Text) → same_name a b ≡ same_name b a
unfolding same_name
same_name_comm none none = refl
same_name_comm none (some b) = refl
same_name_comm (some a) none = refl
same_name_comm (some a) (some b) = same_text_comm a b

-- Each profile that is found is the wallet's own, with its name in lower case behind it, and has the
-- name of no other wallet's profile.
record AreNamed (ps : List Profile) : Type 0 where
  in_lower_case :
      (wallet : ℕ) (p : Profile)
      → find_profile wallet ps ≡ some p
      → p.username_folded ≡ folded p.username
  apart :
      (a b : ℕ) (p q : Profile)
      → (a == b) ≡ false
      → find_profile a ps ≡ some p
      → find_profile b ps ≡ some q
      → same_name p.username_folded q.username_folded ≡ false

-- A profile found behind a write is the row that was written, or was there before.
find_profile-cases :
    (row : Profile) (ps : List Profile) (wallet : ℕ) {p : Profile}
    → find_profile wallet (put_profile row ps) ≡ some p
    → ((row.wallet_address ≡ wallet) × (row ≡ p))
      ⊎ (((row.wallet_address == wallet) ≡ false) × (find_profile wallet ps ≡ some p))
find_profile-cases row ps wallet {p = p} found = elim (Bool-cases (row.wallet_address == wallet)) [
  | inl own ↦
      let e : row.wallet_address ≡ wallet = ground arith in
      let same : some row ≡ some p =
        sym (find_profile-put_profile row ps)
        ∙ (ap (λ w. find_profile w (put_profile row ps)) e ∙ found) in
      inl (e, cc)
  | inr other ↦ inr (other, sym (find_profile-put_profile_other row ps wallet other) ∙ found)
]

module _ (row : Profile) (ps : List Profile)
    (free : is_taken row.wallet_address row.username_folded ps ≡ false) (named : AreNamed ps) where
  put_profile_apart :
      (a b : ℕ) (p q : Profile)
      → (a == b) ≡ false
      → find_profile a (put_profile row ps) ≡ some p
      → find_profile b (put_profile row ps) ≡ some q
      → same_name p.username_folded q.username_folded ≡ false
  put_profile_apart a b p q ne fa fb = elim (find_profile-cases row ps a fa) [
    | inl (ea, rp) ↦ elim (find_profile-cases row ps b fb) [
      | inl (eb, rq) ↦ let same : a ≡ b = sym ea ∙ eb in absurd (ground arith)
      | inr (other, old) ↦
          let ne' : (b == row.wallet_address) ≡ false = ground arith in
          rw (← rp) (is_taken-find_profile row.wallet_address b row.username_folded ps free ne' old)
    ]
    | inr (other, old) ↦ elim (find_profile-cases row ps b fb) [
      | inl (eb, rq) ↦
          let ne' : (a == row.wallet_address) ≡ false = ground arith in
          rw (← rq) (
            same_name_comm p.username_folded row.username_folded
            ∙ is_taken-find_profile row.wallet_address a row.username_folded ps free ne' old)
      | inr (other', old') ↦ named.apart a b p q ne old old'
    ]
  ]

  put_profile-AreNamed : row.username_folded ≡ folded row.username → AreNamed (put_profile row ps)
  put_profile-AreNamed lower = record {
    in_lower_case = λ wallet p found. elim (find_profile-cases row ps wallet found) [
      | inl (e, same) ↦ rw (← same) lower
      | inr (other, old) ↦ named.in_lower_case wallet p old
    ];
    apart = put_profile_apart;
  }

-- An update keeps the name in lower case behind the name.
changed_folded-folded :
    (c : Change) (username folded_name : Option Text)
    → folded_name ≡ folded username
    → changed_folded c folded_name ≡ folded (changed c username)
unfolding changed_folded
changed_folded-folded Change.keep username folded_name h = h
changed_folded-folded (Change.set_to value) username folded_name h = refl

row_or_new_lem :
    (wallet now : ℕ) (ps : List Profile)
    → AreNamed ps
    → let old = row_or_new wallet now (find_profile wallet ps) in
      (old.wallet_address ≡ wallet) × (old.username_folded ≡ folded old.username)
unfolding folded
row_or_new_lem wallet now ps named = elim (Option-cases (find_profile wallet ps)) [
  | inl absent ↦ rw absent (refl, refl)
  | inr (p, found) ↦
      rw found (find_profile-wallet wallet ps found, named.in_lower_case wallet p found)
]

update_profile-AreNamed :
    (wallet now : ℕ) (u : ProfileUpdate) (ps : List Profile)
    → AreNamed ps
    → AreNamed (update_profile wallet now u ps).1
unfolding update_profile
update_profile-AreNamed wallet now u ps named =
    let old = row_or_new wallet now (find_profile wallet ps) in
    let row = update_row u old in
    let (own, lower) = row_or_new_lem wallet now ps named in
    elim (Bool-cases (is_taken wallet row.username_folded ps)) [
      | inl taken ↦ rw taken named
      | inr free ↦
          let free' : is_taken row.wallet_address row.username_folded ps ≡ false =
            ap (λ w. is_taken w row.username_folded ps) own ∙ free in
          rw free (
            put_profile-AreNamed row ps free' named
              (changed_folded-folded u.username old.username old.username_folded lower))
    ]

abbrev pub update_all : List (ℕ × ℕ × ProfileUpdate) → List Profile → List Profile
update_all [] ps = ps
update_all ((wallet, now, u) ∷ updates) ps = update_all updates (update_profile wallet now u ps).1

update_all-AreNamed :
    (updates : List (ℕ × ℕ × ProfileUpdate)) (ps : List Profile)
    → AreNamed ps
    → AreNamed (update_all updates ps)
update_all-AreNamed [] ps named = named
update_all-AreNamed ((wallet, now, u) ∷ updates) ps named =
    update_all-AreNamed updates (update_profile wallet now u ps).1
      (update_profile-AreNamed wallet now u ps named)

-- After any updates of an empty table, the profile found for a wallet is the wallet's own, and two
-- different wallets whose profiles have a name have different ones, also in lower case.
pub update_all-apart :
    (updates : List (ℕ × ℕ × ProfileUpdate)) (a b : ℕ) (p q : Profile)
    → (a == b) ≡ false
    → find_profile a (update_all updates []) ≡ some p
    → find_profile b (update_all updates []) ≡ some q
    → (p.wallet_address ≡ a) × (same_name (folded p.username) (folded q.username) ≡ false)
unfolding find_profile
update_all-apart updates a b p q ne fa fb =
    let none_yet : AreNamed [] = record {
      in_lower_case = λ wallet p h. cc;
      apart = λ a b p q ne fa fb. cc;
    } in
    let named = update_all-AreNamed updates [] none_yet in
    (
      find_profile-wallet a (update_all updates []) fa,
      rw (← named.in_lower_case a p fa, ← named.in_lower_case b q fb)
          (named.apart a b p q ne fa fb),
    )
