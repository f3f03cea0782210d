-- ===== src/Launch/Prepare/Plan.antt =====
-- The payout plans that `validatePayoutPlan` lets pass.
use native.Mathlib.Nat.{zero-div}
use spawn_backend.Prelude.{
  ℕ, zero, suc, ◌+◌, ◌^◌, ◌≤◌, ◌<◌, ◌≡◌, ◌↔◌, ◌⊎◌, refl, sym, ◌∙◌, ltb, leb, ◌==◌, true, false,
  if◌then◌else◌, List, [], ◌∷◌, length, All, inl, inr, Bool-cases, arith,
}
use spawn_backend.Prelude.Outcome.{ok}
use spawn_backend.Launch.Prepare.{
  RegistryEntry, selects_bit, plan_bits, check_entries, validate_payout_plan,
}

-- A number summed over the indices from `i` on that the plan selects.
unfoldable pub sum_selected : (ℕ → ℕ) → ℕ → ℕ → ℕ → ℕ
sum_selected weight zero i plan = 0
sum_selected weight (suc left) i plan =
    (if selects_bit plan i then weight i else 0) + sum_selected weight left (i + 1) plan

-- An entry that is not suspended and has the role of a payout, which is 1.
pub record IsPayout (e : RegistryEntry) : Type 0 where
  pub live : e.suspended ≡ false
  pub payout : e.role ≡ 1

-- At most 8 indices are selected, each of a payout entry, and their takes are at most one whole.
pub record IsPayable (entry : ℕ → RegistryEntry) (plan : ℕ) : Type 0 where
  pub few : sum_selected (λ i. 1) 256 0 plan ≤ 8
  pub payouts : (i : ℕ) → i < 256 → selects_bit plan i ≡ true → IsPayout (entry i)
  pub whole : sum_selected (λ i. (entry i).take_wad) 256 0 plan ≤ 10 ^ 18

-- The selected indices, all of them.
selected : ℕ → ℕ → ℕ → List ℕ
selected zero i plan = []
selected (suc left) i plan =
    let rest = selected left (i + 1) plan in if selects_bit plan i then i ∷ rest else rest

takes_of : (ℕ → RegistryEntry) → List ℕ → ℕ
takes_of entry [] = 0
takes_of entry (i ∷ rest) = (entry i).take_wad + takes_of entry rest

takes_of-selected :
    (entry : ℕ → RegistryEntry) (left i plan : ℕ)
    → takes_of entry (selected left i plan) ≡ sum_selected (λ j. (entry j).take_wad) left i plan
unfolding takes_of selected sum_selected
takes_of-selected entry zero i plan = refl
takes_of-selected entry (suc left) i plan =
    let ih = takes_of-selected entry left (i + 1) plan in
    elim (Bool-cases (selects_bit plan i)) [
      | inl set ↦ rw (set, ih) refl
      | inr clear ↦ rw (clear, ih) (omega arith)
    ]

-- The loop stops early only behind 8 bits.
plan_bits_lem :
    (left i found plan : ℕ)
    → found ≤ 9
    → ((found + sum_selected (λ j. 1) left i plan ≤ 8)
        × (plan_bits left i found plan ≡ selected left i plan)
        × (found + length (plan_bits left i found plan) ≤ 8))
      ⊎ ((8 < found + sum_selected (λ j. 1) left i plan)
          × (8 < found + length (plan_bits left i found plan)))
unfolding plan_bits selected sum_selected
plan_bits_lem zero i found plan h = elim (Bool-cases (leb found 8)) [
  | inl few ↦ inl (ground arith, refl, ground arith)
  | inr many ↦ inr (ground arith, ground arith)
]
plan_bits_lem (suc left) i found plan h = elim (Bool-cases (leb found 8)) [
  | inr many ↦ rw many (inr (ground arith, ground arith))
  | inl few ↦ elim (Bool-cases (selects_bit plan i)) [
    | inl set ↦ elim (plan_bits_lem left (i + 1) (found + 1) plan (ground arith)) [
      | inl (a, b, c) ↦ rw (few, set, b) (inl (omega (arith, a), refl, omega (arith, rw b at c)))
      | inr (a, b) ↦ rw (few, set) (inr (omega (arith, a), omega (arith, b)))
    ]
    | inr clear ↦ elim (plan_bits_lem left (i + 1) found plan h) [
      | inl (a, b, c) ↦ rw (few, clear, b) (inl (omega (arith, a), refl, omega (arith, rw b at c)))
      | inr (a, b) ↦ rw (few, clear) (inr (omega (arith, a), omega (arith, b)))
    ]
  ]
]

selected_one :
    (P : ℕ → Type 0) (left i plan : ℕ)
    → All P (selected left i plan)
    → (j : ℕ) → i ≤ j
    → j < i + left
    → selects_bit plan j ≡ true
    → P j
unfolding selected
selected_one P zero i plan h j low high set = absurd (omega arith)
selected_one P (suc left) i plan h j low high set = elim (Bool-cases (i == j)) [
  | inl here ↦
      let e : i ≡ j = ground arith in
      let set' : selects_bit plan i ≡ true = rw e set in
      let h' : All P (i ∷ selected left (i + 1) plan) = rw set' at h in rw (sym e) h'.0
  | inr later ↦ elim (Bool-cases (selects_bit plan i)) [
    | inl first ↦
        let h' : All P (i ∷ selected left (i + 1) plan) = rw first at h in
        selected_one P left (i + 1) plan h'.1 j (ground arith) (omega arith) set
    | inr clear ↦
        let h' : All P (selected left (i + 1) plan) = rw clear at h in
        selected_one P left (i + 1) plan h' j (ground arith) (omega arith) set
  ]
]

selected_each :
    (P : ℕ → Type 0) (left i plan : ℕ)
    → ((j : ℕ) → i ≤ j → j < i + left → selects_bit plan j ≡ true → P j)
    → All P (selected left i plan)
unfolding selected
selected_each P zero i plan h = tt
selected_each P (suc left) i plan h =
    let ih =
      selected_each P left (i + 1) plan
        (λ j low high. h j (omega (arith, low)) (omega (arith, high))) in
    elim (Bool-cases (selects_bit plan i)) [
      | inl set ↦ rw set (h i (omega arith) (omega arith) set, ih)
      | inr clear ↦ rw clear ih
    ]

check_entries-passes :
    (entry : ℕ → RegistryEntry) (takes : ℕ) (bits : List ℕ)
    → check_entries entry takes bits ≡ ok tt
    → All (λ i. IsPayout (entry i)) bits × (takes + takes_of entry bits ≤ 10 ^ 18)
unfolding check_entries takes_of
check_entries-passes entry takes [] e = elim (Bool-cases (ltb (10 ^ 18) takes)) [
  | inl above ↦ (let h = rw above at e in cc)
  | inr within ↦ (tt, ground arith)
]
check_entries-passes entry takes (i ∷ rest) e = elim (Bool-cases (entry i).suspended) [
  | inl off ↦ (let h = rw off at e in cc)
  | inr live ↦ elim (Bool-cases ((entry i).role == 1)) [
    | inr other ↦ (let h = rw (live, other) at e in cc)
    | inl payout ↦
        let (all, sum) =
          check_entries-passes entry (takes + (entry i).take_wad) rest (rw (live, payout) at e) in
        ((record { live = live; payout = ground arith }, all), omega (arith, sum))
  ]
]

passes-check_entries :
    (entry : ℕ → RegistryEntry) (takes : ℕ) (bits : List ℕ)
    → All (λ i. IsPayout (entry i)) bits
    → takes + takes_of entry bits ≤ 10 ^ 18
    → check_entries entry takes bits ≡ ok tt
unfolding check_entries takes_of
passes-check_entries entry takes [] all sum =
    let within : ltb (10 ^ 18) takes ≡ false = ground arith in rw within refl
passes-check_entries entry takes (i ∷ rest) (first, all) sum =
    let role : ((entry i).role == 1) ≡ true = rw first.payout refl in
    rw (first.live, role)
      (passes-check_entries entry (takes + (entry i).take_wad) rest all (omega (arith, sum)))

no_bits : (i : ℕ) → selects_bit 0 i ≡ false
unfolding selects_bit
no_bits i = rw (zero-div (2 ^ i)) refl

sum_selected_none : (weight : ℕ → ℕ) (left i : ℕ) → sum_selected weight left i 0 ≡ 0
unfolding sum_selected
sum_selected_none weight zero i = refl
sum_selected_none weight (suc left) i =
    rw (no_bits i) (omega (arith, sum_selected_none weight left (i + 1)))

payable-validate :
    (entry : ℕ → RegistryEntry) (plan : ℕ)
    → IsPayable entry plan
    → validate_payout_plan entry plan ≡ ok tt
unfolding validate_payout_plan
payable-validate entry plan p = elim (Bool-cases (plan == 0)) [
  | inl empty ↦ rw empty refl
  | inr some_bits ↦ elim (plan_bits_lem 256 0 0 plan (omega arith)) [
    | inr (many, long) ↦ absurd (omega (arith, many, p.few))
    | inl (few, same, short) ↦
        let fits : ltb 8 (length (plan_bits 256 0 0 plan)) ≡ false = ground arith in
        rw (some_bits, fits, same)
          (passes-check_entries entry 0 (selected 256 0 plan)
            (selected_each (λ i. IsPayout (entry i)) 256 0 plan
              (λ j low high set. p.payouts j high set))
            (omega (arith, takes_of-selected entry 256 0 plan, p.whole)))
  ]
]

validate-IsPayable :
    (entry : ℕ → RegistryEntry) (plan : ℕ)
    → validate_payout_plan entry plan ≡ ok tt
    → IsPayable entry plan
unfolding validate_payout_plan
validate-IsPayable entry plan e = elim (Bool-cases (plan == 0)) [
  | inl empty ↦
      let none_set : plan ≡ 0 = ground arith in
      rw none_set (record {
        few = omega (arith, sum_selected_none (λ i. 1) 256 0);
        payouts = λ i low set. (let h = sym (no_bits i) ∙ set in cc);
        whole = omega (arith, sum_selected_none (λ i. (entry i).take_wad) 256 0);
      })
  | inr some_bits ↦ elim (plan_bits_lem 256 0 0 plan (omega arith)) [
    | inr (many, long) ↦
        let above : ltb 8 (length (plan_bits 256 0 0 plan)) ≡ true = ground arith in
        (let h = rw (some_bits, above) at e in cc)
    | inl (few, same, short) ↦
        let fits : ltb 8 (length (plan_bits 256 0 0 plan)) ≡ false = ground arith in
        let checked : check_entries entry 0 (selected 256 0 plan) ≡ ok tt =
          rw (some_bits, fits, same) at e in
        let (all, sum) = check_entries-passes entry 0 (selected 256 0 plan) checked in
        record {
          few = omega (arith, few);
          payouts = λ i low set.
              selected_one (λ j. IsPayout (entry j)) 256 0 plan all i (omega arith)
                (omega (arith, low)) set;
          whole = omega (arith, sum, takes_of-selected entry 256 0 plan);
        }
  ]
]

-- `validatePayoutPlan` returns without an error exactly when the plan is payable: at most 8 of the 256
-- indices are selected, every selected entry of the registry is not suspended and has the payout role,
-- and the takes of the selected entries add up to at most one whole, 10^18.
pub validate_payout_plan_iff :
    (entry : ℕ → RegistryEntry) (plan : ℕ)
    → (validate_payout_plan entry plan ≡ ok tt) ↔ IsPayable entry plan
validate_payout_plan_iff entry plan = (validate-IsPayable entry plan, payable-validate entry plan)
