-- ===== src/Trading/Holders/Balances.antt =====
-- The balances that the transfers of a token leave: `holders` of src/modules/trading/trading.service.ts.
use spawn_backend.Prelude.{
  ℕ, ◌+◌, ◌==◌, ◌≡◌, refl, ap, ◌∙◌, true, false, if◌then◌else◌, List, [], ◌∷◌, inl, inr, Bool-cases,
  arith,
}
use spawn_backend.Prelude.Int.{ℤ, pos, ◌+ℤ◌, ◌-ℤ◌, int_laws}
use spawn_backend.Common.Dict.{Dict, find, find-put, find-put_other}
use spawn_backend.Trading.Holders.{
  Transfer, balance_of, change_balance, apply_transfer, fold_transfers,
}

-- What an address has received, and what it has sent.
pub received : ℕ → List Transfer → ℕ
received address [] = 0
received address (t ∷ ts) = (if t.to == address then t.value else 0) + received address ts

pub sent : ℕ → List Transfer → ℕ
sent address [] = 0
sent address (t ∷ ts) = (if t.from == address then t.value else 0) + sent address ts

abbrev balance_in : ℕ → Dict ℤ → ℤ
balance_in address balances = balance_of (find balances address)

balance-change_balance :
    (change : ℤ → ℤ) (changed address : ℕ) (balances : Dict ℤ)
    → (address == 0) ≡ false
    → balance_in address (change_balance change changed balances) ≡ (
        if changed == address
        then change (balance_in address balances)
        else balance_in address balances)
unfolding change_balance balance_of
balance-change_balance change changed address balances ne = elim (Bool-cases (changed == address)) [
  | inl same ↦
      let e : changed ≡ address = ground arith in
      let own : (address == address) ≡ true = ground arith in
      rw e
        (rw (ne, find-put balances address (change (balance_of (find balances address))), own) refl)
  | inr other ↦ elim (Bool-cases (changed == 0)) [
    | inl zero_address ↦ rw (zero_address, other) refl
    | inr some_address ↦
        rw (some_address, other, find-put_other balances changed address _ other) refl
  ]
]

balance-apply_transfer :
    (t : Transfer) (address : ℕ) (balances : Dict ℤ)
    → (address == 0) ≡ false
    → balance_in address (apply_transfer t balances)
      ≡ balance_in address balances
        +ℤ pos (if t.to == address then t.value else 0)
        -ℤ pos (if t.from == address then t.value else 0)
unfolding apply_transfer
balance-apply_transfer t address balances ne =
    let lowered = change_balance (λ b. b -ℤ pos t.value) t.from balances in
    let to_step = balance-change_balance (λ b. b +ℤ pos t.value) t.to address lowered ne in
    let from_step = balance-change_balance (λ b. b -ℤ pos t.value) t.from address balances ne in
    elim (Bool-cases (t.to == address)) [
      | inl to ↦ elim (Bool-cases (t.from == address)) [
        | inl from ↦
            rw (to, from)
              (rw to at to_step
                ∙ (ap (λ b. b +ℤ pos t.value) (rw from at from_step) ∙ omega int_laws))
        | inr from ↦
            rw (to, from)
              (rw to at to_step
                ∙ (ap (λ b. b +ℤ pos t.value) (rw from at from_step) ∙ omega int_laws))
      ]
      | inr to ↦ elim (Bool-cases (t.from == address)) [
        | inl from ↦ rw (to, from) (rw to at to_step ∙ (rw from at from_step ∙ omega int_laws))
        | inr from ↦ rw (to, from) (rw to at to_step ∙ (rw from at from_step ∙ omega int_laws))
      ]
    ]

balance-fold_transfers :
    (ts : List Transfer) (address : ℕ) (balances : Dict ℤ)
    → (address == 0) ≡ false
    → balance_in address (fold_transfers ts balances)
      ≡ balance_in address balances +ℤ pos (received address ts) -ℤ pos (sent address ts)
unfolding fold_transfers received sent
balance-fold_transfers [] address balances ne = omega int_laws
balance-fold_transfers (t ∷ ts) address balances ne =
    let ih = balance-fold_transfers ts address (apply_transfer t balances) ne in
    let step = balance-apply_transfer t address balances ne in
    ih ∙ (ap (λ b. b +ℤ pos (received address ts) -ℤ pos (sent address ts)) step ∙ omega int_laws)

-- Behind all transfers of a token the balance of every address but the zero address, which is nothing
-- where the map has no entry, is what it has received less what it has sent, also where it has sent
-- to itself.
pub fold_transfers-eq-received :
    (ts : List Transfer) (address : ℕ)
    → (address == 0) ≡ false
    → balance_of (find (fold_transfers ts []) address)
      ≡ pos (received address ts) -ℤ pos (sent address ts)
unfolding find balance_of
fold_transfers-eq-received ts address ne = balance-fold_transfers ts address [] ne ∙ omega int_laws
