-- ===== src/Lsps2/Fees/Choice.antt =====
-- What `selectCheapestParams` of src/ldk/lsps2/types.ts chooses.
use browser_wallet.Prelude.{
  ◌≡◌, refl, ◌⊎◌, inl, inr, true, false, Bool-cases, Option, none, some, List, [], ◌∷◌, ◌++◌, All,
  arith,
}
use browser_wallet.Prelude.BigInt.{ℤ}
use browser_wallet.Prelude.Int.{◌≤ℤ◌, ◌<ℤ◌, ltb_ℤ}
use browser_wallet.Lsps2.Fees.{
  OpeningFeeParams, Fee, ok, err, FeeError, calculate_opening_fee, select_cheapest_params, outside,
}

module _ (payment : ℤ) where
  -- An entry whose range holds the payment, with a fee that leaves some of it.
  pub record Accepts (p : OpeningFeeParams) : Type 0 where
    pub at_least : p.min_payment_size_msat ≤ℤ payment
    pub at_most : payment ≤ℤ p.max_payment_size_msat
    pub fee : ℤ
    pub computed : calculate_opening_fee payment p ≡ ok fee
    pub leaves : fee <ℤ payment

  -- An entry that is passed over.
  abbrev pub Rejects : OpeningFeeParams → Type 0
  Rejects p =
      (payment <ℤ p.min_payment_size_msat)
      ⊎ (p.max_payment_size_msat <ℤ payment)
      ⊎ ((fee : ℤ) × (calculate_opening_fee payment p ≡ ok fee) × (payment ≤ℤ fee))

  -- An entry in range whose fee overflows.
  pub record Overflows (e : FeeError) (p : OpeningFeeParams) : Type 0 where
    pub low : p.min_payment_size_msat ≤ℤ payment
    pub high : payment ≤ℤ p.max_payment_size_msat
    pub thrown : calculate_opening_fee payment p ≡ err e

  -- The first entry of the menu for which `P` holds, all before it being rejected.
  abbrev FirstOf : List OpeningFeeParams → (OpeningFeeParams → Type 0) → OpeningFeeParams → Type 0
  FirstOf menu P p =
      (before : List OpeningFeeParams) × (after : List OpeningFeeParams) × (menu
        ≡ before ++ p ∷ after)
      × All Rejects before
      × P p

  abbrev pub Choice : List OpeningFeeParams → Fee (Option OpeningFeeParams) → Type 0
  Choice menu (ok none) = All Rejects menu
  Choice menu (ok (some p)) = FirstOf menu Accepts p
  Choice menu (err e) = (p : OpeningFeeParams) × FirstOf menu (Overflows e) p

  Choice-cons :
      (p : OpeningFeeParams) (menu : List OpeningFeeParams) (r : Fee (Option OpeningFeeParams))
      → Rejects p
      → Choice menu r
      → Choice (p ∷ menu) r
  Choice-cons p menu (ok none) h c = (h, c)
  Choice-cons p menu (ok (some q)) h (before, after, e, rs, a) = (p ∷ before, after, cc, (h, rs), a)
  Choice-cons p menu (err x) h (q, (before, after, e, rs, a)) =
      (q, (p ∷ before, after, cc, (h, rs), a))

  outside-Rejects : (p : OpeningFeeParams) → outside payment p ≡ true → Rejects p
  outside-Rejects p h = ground arith

  inside :
      (p : OpeningFeeParams)
      → outside payment p ≡ false
      → (p.min_payment_size_msat ≤ℤ payment) × (payment ≤ℤ p.max_payment_size_msat)
  inside p h = ground arith

  Fee-cases : (x : Fee ℤ) → ((a : ℤ) × (x ≡ ok a)) ⊎ ((e : FeeError) × (x ≡ err e))
  Fee-cases (ok a) = inl (a, refl)
  Fee-cases (err e) = inr (e, refl)

  -- The result is the first entry of the menu whose size range holds the payment and whose fee is
  -- below it, `null` if there is none, and an exception if a fee overflows before one is found.
  pub select_cheapest_params-Choice :
      (menu : List OpeningFeeParams) → Choice menu (select_cheapest_params menu payment)
  unfolding select_cheapest_params
  select_cheapest_params-Choice [] = tt
  select_cheapest_params-Choice (p ∷ menu) =
      let ih = select_cheapest_params-Choice menu in
      elim (Bool-cases (outside payment p)) [
        | inl out ↦ rw out (Choice-cons p menu _ (outside-Rejects p out) ih)
        | inr within ↦
            let (low, high) = inside p within in
            elim (Fee-cases (calculate_opening_fee payment p)) [
              | inl (fee, e) ↦ elim (Bool-cases (ltb_ℤ fee payment)) [
                | inl l ↦
                    rw (within, e)
                      (rw l (
                        [],
                        menu,
                        refl,
                        tt,
                        record {
                          at_least = low;
                          at_most = high;
                          fee = fee;
                          computed = e;
                          leaves = ground arith;
                        },
                      ))
                | inr l ↦
                    rw (within, e)
                      (rw l (Choice-cons p menu _ (inr (inr (fee, e, ground arith))) ih))
              ]
              | inr (x, e) ↦
                  rw (within, e)
                    (p, ([], menu, refl, tt, record { low = low; high = high; thrown = e }))
            ]
      ]
