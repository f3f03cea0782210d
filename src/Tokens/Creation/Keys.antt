-- ===== src/Tokens/Creation/Keys.antt =====
-- Creations that interleave: a key of a creator makes at most one token.
use spawn_backend.Prelude.{
  ℕ, ◌+◌, ◌≤◌, ◌≡◌, ◌⊎◌, refl, sym, false, ◌==◌, ◌&&◌, not, if◌then◌else◌, List, [], ◌∷◌, ◌++◌,
  Option, none, some, inl, inr, Bool-cases, Option-cases, arith,
}
use spawn_backend.Prelude.Outcome.{Outcome, ok, err}
use spawn_backend.Common.Decimal.{Text}
use spawn_backend.Tokens.Creation.{
  CreateTokenInput, StoredMetadata, CreationRequest, TokenRow, CreationStore, CreationStart, Commit,
  is_creation_of, find_creation, start_with, create_start, reserve_creation, release,
  complete_creation, create_finish,
}

-- The store, and the creator and key of the creations that have reserved and not finished.
pub record CreationSystem : Type 0 where
  pub store : CreationStore
  pub in_flight : List (ℕ × ℕ)

-- A creation reserves, or finishes with some result of the upload and the commit.
pub data CreationStep : CreationSystem → CreationSystem → Type 0 where
  reserves :
      (hash creator key : ℕ) (s : CreationStore) (flight : List (ℕ × ℕ))
      → create_start hash creator key s ≡ CreationStart.reserves
      → CreationStep
          (record { store = s; in_flight = flight })
          (record {
            store = reserve_creation hash creator key s;
            in_flight = (creator, key) ∷ flight;
          })
  finishes :
      (hash key id : ℕ) (input : CreateTokenInput) (upload : Outcome Text StoredMetadata)
      (commit : Commit) (s : CreationStore) (before after : List (ℕ × ℕ))
      → CreationStep
          (record { store = s; in_flight = before ++ (input.creator_wallet_address, key) ∷ after })
          (record {
            store = (create_finish hash input key id upload commit s).1;
            in_flight = before ++ after;
          })

pub data CreationRun : CreationSystem → CreationSystem → Type 0 where
  done : (x : CreationSystem) → CreationRun x x
  then : (x y z : CreationSystem) → CreationRun x y → CreationStep y z → CreationRun x z

one_of : ℕ → ℕ → ℕ → ℕ → ℕ
one_of creator key a b = if a == creator && b == key then 1 else 0

-- The tokens that a creator's key has made.
unfoldable pub made_by : ℕ → ℕ → List TokenRow → ℕ
unfolding one_of
made_by creator key [] = 0
made_by creator key (t ∷ ts) = one_of creator key t.creator t.key + made_by creator key ts

under_way : ℕ → ℕ → List (ℕ × ℕ) → ℕ
under_way creator key [] = 0
under_way creator key ((a, b) ∷ rest) = one_of creator key a b + under_way creator key rest

reserved_for : ℕ → ℕ → List CreationRequest → ℕ
reserved_for creator key [] = 0
reserved_for creator key (r ∷ rs) =
    let rest = reserved_for creator key rs in if is_creation_of creator key r then 1 else rest

under_way-append :
    (creator key : ℕ) (xs ys : List (ℕ × ℕ))
    → under_way creator key (xs ++ ys) ≡ under_way creator key xs + under_way creator key ys
unfolding under_way
under_way-append creator key [] ys = omega arith
under_way-append creator key (x ∷ xs) ys = omega (arith, under_way-append creator key xs ys)

-- The same creator and key, or not.
one_of_cases :
    (creator key a b : ℕ)
    → (one_of creator key a b ≡ 0) ⊎ ((one_of creator key a b ≡ 1) × (a ≡ creator) × (b ≡ key))
unfolding one_of
one_of_cases creator key a b = elim (Bool-cases (a == creator)) [
  | inr other ↦ inl (rw other refl)
  | inl same ↦ elim (Bool-cases (b == key)) [
    | inr other ↦ inl (rw (same, other) refl)
    | inl alike ↦ inr (rw (same, alike) refl, ground arith, ground arith)
  ]
]

reserved_for_le : (creator key : ℕ) (rs : List CreationRequest) → reserved_for creator key rs ≤ 1
unfolding reserved_for
reserved_for_le creator key [] = omega arith
reserved_for_le creator key (r ∷ rs) = ground (arith, reserved_for_le creator key rs)

reserved_for-none :
    (creator key : ℕ) (rs : List CreationRequest)
    → find_creation creator key rs ≡ none
    → reserved_for creator key rs ≡ 0
unfolding find_creation reserved_for
reserved_for-none creator key [] e = refl
reserved_for-none creator key (r ∷ rs) e = elim (Bool-cases (is_creation_of creator key r)) [
  | inl mine ↦ (let h = rw mine at e in cc)
  | inr other ↦ rw other (reserved_for-none creator key rs (rw other at e))
]

reserved_for_complete :
    (creator key a b id : ℕ) (rs : List CreationRequest)
    → reserved_for creator key (complete_creation id a b rs) ≡ reserved_for creator key rs
unfolding complete_creation reserved_for
reserved_for_complete creator key a b id [] = refl
reserved_for_complete creator key a b id (r ∷ rs) = elim (Bool-cases (is_creation_of a b r)) [
  | inl mine ↦ rw (mine, reserved_for_complete creator key a b id rs) refl
  | inr other ↦ rw (other, reserved_for_complete creator key a b id rs) refl
]

reserved_for-release :
    (creator key hash a b : ℕ) (rs : List CreationRequest)
    → one_of creator key a b ≡ 0
    → reserved_for creator key (release hash a b rs) ≡ reserved_for creator key rs
unfolding release reserved_for one_of
reserved_for-release creator key hash a b [] other = refl
reserved_for-release creator key hash a b (r ∷ rs) other =
    let ih = reserved_for-release creator key hash a b rs other in
    elim (Bool-cases (is_creation_of a b r && r.request_hash == hash && not r.completed)) [
      | inl gone ↦
          let that : is_creation_of creator key r ≡ false = ground arith in rw (gone, that) ih
      | inr stays ↦ rw (stays, ih) refl
    ]

start_reserves :
    (hash : ℕ) (tokens : List TokenRow) (o : Option CreationRequest)
    → start_with hash tokens o ≡ CreationStart.reserves
    → o ≡ none
unfolding start_with
start_reserves hash tokens none e = refl
start_reserves hash tokens (some existing) e = cc

-- What a finish does to the tokens and the requests of a creator and key.
finish_counts :
    (creator key hash k id : ℕ) (input : CreateTokenInput) (upload : Outcome Text StoredMetadata)
    (commit : Commit) (s : CreationStore)
    → let s' = (create_finish hash input k id upload commit s).1 in
      let mine = one_of creator key input.creator_wallet_address k in
      ((mine ≡ 0)
        × (made_by creator key s'.tokens ≡ made_by creator key s.tokens)
        × (reserved_for creator key s'.requests ≡ reserved_for creator key s.requests))
      ⊎ ((mine ≡ 1) × (made_by creator key s'.tokens ≡ made_by creator key s.tokens))
      ⊎ ((made_by creator key s'.tokens ≤ mine + made_by creator key s.tokens)
          × (reserved_for creator key s'.requests ≡ reserved_for creator key s.requests))
unfolding create_finish made_by
finish_counts creator key hash k id input (err m) commit s =
    elim (one_of_cases creator key input.creator_wallet_address k) [
      | inl other ↦ inl (
        other,
        refl,
        reserved_for-release creator key hash input.creator_wallet_address k s.requests other,
      )
      | inr (one, ea, ek) ↦ inr (inl (one, refl))
    ]
finish_counts creator key hash k id input (ok metadata) Commit.committed s =
    elim (Option-cases (find_creation input.creator_wallet_address k s.requests)) [
      | inl missing ↦ rw missing (inr (inr (omega arith, refl)))
      | inr (row, there) ↦ rw there (
          inr (
            inr (
              omega arith,
              reserved_for_complete creator key input.creator_wallet_address k id s.requests,
            )))
    ]
finish_counts creator key hash k id input (ok metadata) Commit.unique_violation s =
    elim (Option-cases (find_creation input.creator_wallet_address k s.requests)) [
      | inl missing ↦ rw missing (inr (inr (omega arith, refl)))
      | inr (row, there) ↦ rw there (inr (inr (omega arith, refl)))
    ]
finish_counts creator key hash k id input (ok metadata) Commit.failed s =
    elim (Option-cases (find_creation input.creator_wallet_address k s.requests)) [
      | inl missing ↦ rw missing (inr (inr (omega arith, refl)))
      | inr (row, there) ↦ rw there (inr (inr (omega arith, refl)))
    ]

-- What a creator's key has made or may still make is covered by its request.
record IsReserved (x : CreationSystem) : Type 0 where
  reserved :
      (creator key : ℕ)
      → under_way creator key x.in_flight + made_by creator key x.store.tokens
        ≤ reserved_for creator key x.store.requests

CreationStep-IsReserved : (x y : CreationSystem) → CreationStep x y → IsReserved x → IsReserved y
unfolding create_start reserve_creation under_way reserved_for one_of
CreationStep-IsReserved x y (CreationStep.reserves hash creator key s flight e) c = record {
  reserved = λ a k. reserves_lem a k (c.reserved a k);
}
  where
    free : find_creation creator key s.requests ≡ none
    free = start_reserves hash s.tokens (find_creation creator key s.requests) e

    reserves_lem :
        (a k : ℕ)
        → under_way a k flight + made_by a k s.tokens ≤ reserved_for a k s.requests
        → under_way a k ((creator, key) ∷ flight) + made_by a k s.tokens
          ≤ reserved_for a k (reserve_creation hash creator key s).requests
    reserves_lem a k h = elim (one_of_cases a k creator key) [
      | inl other ↦ ground arith
      | inr (one, ea, ek) ↦
          let z : reserved_for a k s.requests ≡ 0 =
            reserved_for-none a k s.requests (rw (sym ea, sym ek) free) in
          ground arith
    ]
CreationStep-IsReserved x y (CreationStep.finishes hash key id input upload commit s before after)
      c =
    record {
      reserved = λ a k.
          let counts = finish_counts a k hash key id input upload commit s in
          let there = under_way-append a k before ((input.creator_wallet_address, key) ∷ after) in
          let left = under_way-append a k before after in
          let least = reserved_for_le a k s.requests in
          let h = c.reserved a k in
          elim counts [
            | inl (none_of, made, rows) ↦ omega (arith, none_of, made, rows, there, left, h)
            | inr (inl (one, made)) ↦ omega (arith, one, made, there, left, least, h)
            | inr (inr (made, rows)) ↦ omega (arith, made, rows, there, left, h)
          ];
    }

CreationRun-IsReserved : (x y : CreationSystem) → CreationRun x y → IsReserved x → IsReserved y
CreationRun-IsReserved x y (CreationRun.done x') c = c
CreationRun-IsReserved x y (CreationRun.then x' m y' run step) c =
    CreationStep-IsReserved m y step (CreationRun-IsReserved x m run c)

-- However creations interleave and whatever uploads and commits give, from a store without tokens and a
-- system with no creation under way: an idempotency key of a creator makes at most one token.
pub one_token :
    (s : CreationStore) (y : CreationSystem) (creator key : ℕ)
    → s.tokens ≡ []
    → CreationRun (record { store = s; in_flight = [] }) y
    → made_by creator key y.store.tokens ≤ 1
unfolding under_way made_by
one_token s y creator key nothing run =
    let first : IsReserved (record { store = s; in_flight = [] }) = record {
      reserved = λ a k. rw nothing (omega arith);
    } in
    let c = CreationRun-IsReserved (record { store = s; in_flight = [] }) y run first in
    omega (arith, c.reserved creator key, reserved_for_le creator key y.store.requests)
