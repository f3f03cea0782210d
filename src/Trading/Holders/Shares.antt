-- ===== src/Trading/Holders/Shares.antt =====
-- The shares of the greatest holders: `holders` of src/modules/trading/trading.service.ts.
use native.Mathlib.Nat.{mul-div-le, mul-le-mul_left}
use spawn_backend.Prelude.{
  ℕ, zero, suc, ◌+◌, ◌*◌, ◌≤◌, ◌<◌, ◌≡◌, refl, ◌==◌, ltb, leb, lt→ltb, false, List, [], ◌∷◌, map,
  take, length, length-take, inl, inr, Bool-cases, arith, tests, min,
}
use spawn_backend.Trading.Holders.{
  Transfer, Holder, Holders, fold_transfers, positive_balances, total_balance, insert_holder,
  sort_holders, share_of, holders_of_transfers,
}

-- The shares of holders together, in hundredths of a percent.
pub total_share : List Holder → ℕ
total_share [] = 0
total_share (h ∷ hs) = h.share_bps + total_share hs

total_balance-insert_holder :
    (entry : ℕ × ℕ) (xs : List (ℕ × ℕ))
    → total_balance (insert_holder entry xs) ≡ entry.1 + total_balance xs
unfolding total_balance insert_holder
total_balance-insert_holder entry [] = refl
total_balance-insert_holder entry (x ∷ xs) = elim (Bool-cases (ltb entry.1 x.1)) [
  | inl less ↦ rw less (omega (arith, total_balance-insert_holder entry xs))
  | inr more ↦ rw more refl
]

total_balance-sort_holders :
    (xs : List (ℕ × ℕ)) → total_balance (sort_holders xs) ≡ total_balance xs
unfolding total_balance sort_holders
total_balance-sort_holders [] = refl
total_balance-sort_holders (x ∷ xs) =
    omega (arith, total_balance-insert_holder x (sort_holders xs), total_balance-sort_holders xs)

total_balance-take : (n : ℕ) (xs : List (ℕ × ℕ)) → total_balance (take n xs) ≤ total_balance xs
unfolding total_balance
total_balance-take zero xs = omega arith
total_balance-take (suc n) [] = omega arith
total_balance-take (suc n) (x ∷ xs) = omega (arith, total_balance-take n xs)

-- Rounded down, the shares together are at most the share of the balances together.
total_share-le :
    (total : ℕ) (xs : List (ℕ × ℕ))
    → 0 < total
    → total * total_share (map (share_of total) xs) ≤ total_balance xs * 10_000
unfolding total_balance share_of total_share
total_share-le total [] pt = omega arith
total_share-le total ((address, balance) ∷ xs) pt =
    rw (lt→ltb 0 total pt)
      (omega (arith, mul-div-le (balance * 10_000) total, total_share-le total xs pt))

total_share-none : (xs : List (ℕ × ℕ)) → total_share (map (share_of 0) xs) ≡ 0
unfolding share_of total_share
total_share-none [] = refl
total_share-none ((address, balance) ∷ xs) = omega (arith, total_share-none xs)

cancel-le : (t s n : ℕ) → 0 < t → t * s ≤ t * n → s ≤ n
cancel-le t s n pt h = elim (Bool-cases (leb s n)) [
  | inl le ↦ omega tests
  | inr more ↦
      let above : n + 1 ≤ s = ground arith in
      let product : t * (n + 1) ≤ t * s = mul-le-mul_left t above in absurd (omega arith)
]

top_share-le :
    (entries : List (ℕ × ℕ))
    → total_share (map (share_of (total_balance entries)) (take 10 (sort_holders entries))) ≤ 10_000
top_share-le entries =
    let top = take 10 (sort_holders entries) in
    elim (Bool-cases (total_balance entries == 0)) [
      | inl none_held ↦
          let e : total_balance entries ≡ 0 = ground arith in
          rw e (omega (arith, total_share-none top))
      | inr held ↦
          let pt : 0 < total_balance entries = ground arith in
          let within : total_balance top ≤ total_balance entries = omega (
            arith,
            total_balance-take 10 (sort_holders entries),
            total_balance-sort_holders entries,
          ) in
          cancel-le (total_balance entries)
            (total_share (map (share_of (total_balance entries)) top)) 10_000 pt
            (omega (arith, total_share-le (total_balance entries) top pt))
    ]

length-insert_holder :
    (entry : ℕ × ℕ) (xs : List (ℕ × ℕ)) → length (insert_holder entry xs) ≡ suc (length xs)
unfolding insert_holder
length-insert_holder entry [] = refl
length-insert_holder entry (x ∷ xs) = elim (Bool-cases (ltb entry.1 x.1)) [
  | inl less ↦ rw less (omega (arith, length-insert_holder entry xs))
  | inr more ↦ rw more refl
]

length-sort_holders : (xs : List (ℕ × ℕ)) → length (sort_holders xs) ≡ length xs
unfolding sort_holders
length-sort_holders [] = refl
length-sort_holders (x ∷ xs) =
    omega (arith, length-insert_holder x (sort_holders xs), length-sort_holders xs)

length-map_share : (total : ℕ) (xs : List (ℕ × ℕ)) → length (map (share_of total) xs) ≡ length xs
length-map_share total [] = refl
length-map_share total (x ∷ xs) = omega (arith, length-map_share total xs)

-- Where the transfers of a token give an answer, it shows as many holders as it counts, but at most
-- ten, and their shares together are at most 100 %.
pub holders_of_transfers-IsBounded :
    (logs : List Transfer) {count : ℕ} {shown : List Holder}
    → holders_of_transfers logs ≡ Holders.available count shown false
    → (length shown ≡ min 10 count) × (total_share shown ≤ 10_000)
unfolding holders_of_transfers
holders_of_transfers-IsBounded logs {count = count} {shown = shown} h =
    let entries = positive_balances (fold_transfers logs []) in
    elim (Bool-cases (ltb 20_000 (length logs))) [
      | inl many ↦ (let h' = rw many at h in cc)
      | inr few ↦
          let h' = rw few at h in
          let counted : length entries ≡ count = cc in
          let listed : map (share_of (total_balance entries)) (take 10 (sort_holders entries))
              ≡ shown =
            cc in
          rw (← counted, ← listed)
            (
              omega (
                arith,
                length-map_share (total_balance entries) (take 10 (sort_holders entries)),
                length-take 10 (sort_holders entries),
                length-sort_holders entries,
              ),
              top_share-le entries,
            )
    ]
