-- ===== src/Lsps2/Fees/Tests.antt =====
-- Fees and choices at concrete menus.
use browser_wallet.Prelude.{◌≡◌, refl, some, [], ◌∷◌, ◌*◌}
use browser_wallet.Prelude.BigInt.{pos}
use browser_wallet.Prelude.Int.{◌+ℤ◌, ◌*ℤ◌, div_ℤ}
use browser_wallet.Lsps2.Fees.{OpeningFeeParams, ok, calculate_opening_fee, select_cheapest_params}
use browser_wallet.Lsps2.Fees.Exact.{FeeSpec, calculate_opening_fee-FeeSpec}
use browser_wallet.Lsps2.Fees.Choice.{Choice, select_cheapest_params-Choice}

abbrev offer : OpeningFeeParams
offer = record {
  min_fee_msat = pos 1000;
  proportional = pos 5000;
  valid_until = "2026-01-01T00:00:00Z";
  min_lifetime = pos 1008;
  max_client_to_self_delay = pos 2016;
  min_payment_size_msat = pos 10000;
  max_payment_size_msat = pos 1000000000;
  promise = "p";
}

abbrev large_only : OpeningFeeParams
large_only = record offer { min_payment_size_msat = pos 500000000 }

rounded_up : calculate_opening_fee (pos 1000001) offer ≡ ok (pos 5001)
unfolding calculate_opening_fee ◌*ℤ◌ ◌+ℤ◌ div_ℤ
rounded_up = refl

second_chosen : select_cheapest_params (large_only ∷ offer ∷ []) (pos 1000000) ≡ ok (some offer)
unfolding select_cheapest_params calculate_opening_fee ◌*ℤ◌ ◌+ℤ◌ div_ℤ
second_chosen = refl

calculate_opening_fee-FeeSpec_example :
    FeeSpec (1000001 * 5000) 1000 (calculate_opening_fee (pos 1000001) offer)
calculate_opening_fee-FeeSpec_example =
    calculate_opening_fee-FeeSpec 1000001 5000 1000 offer refl refl

select_cheapest_params-Choice_example :
    Choice
      (pos 1000000)
      (large_only ∷ offer ∷ [])
      (select_cheapest_params (large_only ∷ offer ∷ []) (pos 1000000))
select_cheapest_params-Choice_example =
    select_cheapest_params-Choice (pos 1000000) (large_only ∷ offer ∷ [])
