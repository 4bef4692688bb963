-- ===== src/Lsps2/Fees/Exact.antt =====
-- What `calculateOpeningFee` of src/ldk/lsps2/types.ts computes.
use browser_wallet.Prelude.{ℕ, ◌+◌, ◌*◌, ◌^◌, ◌≤◌, ◌<◌, ◌≡◌, ◌⊎◌, arith}
use browser_wallet.Prelude.BigInt.{ℤ, pos, negsuc}
use browser_wallet.Prelude.Int.{◌+ℤ◌, ◌*ℤ◌, div_ℤ}
use browser_wallet.Lsps2.Fees.{
  OpeningFeeParams, Fee, ok, err, product_exceeds_u64, sum_exceeds_u64, calculate_opening_fee,
}

-- The fee of bLIP-52: the proportional part rounded up, but at least the minimum.
pub record IsFee (product least fee : ℕ) : Type 0 where
  pub minimum : least ≤ fee
  pub covers : product ≤ fee * 1_000_000
  pub tight : (fee ≡ least) ⊎ (fee * 1_000_000 < product + 1_000_000)

abbrev pub FeeSpec : ℕ → ℕ → Fee ℤ → Type 0
FeeSpec product least (ok (pos fee)) = (product + 999_999 < 2 ^ 64) × IsFee product least fee
FeeSpec product least (ok (negsuc n)) = ⊥
FeeSpec product least (err product_exceeds_u64) = 2 ^ 64 ≤ product
FeeSpec product least (err sum_exceeds_u64) = (product < 2 ^ 64) × (2 ^ 64 ≤ product + 999_999)

-- For amounts that are not negative: the fee is the least number of millisatoshis that is no less
-- than the minimum and than payment * proportional / 1000000. It is refused exactly if the product,
-- or the sum with the rounding term, does not fit 64 bits.
pub calculate_opening_fee-FeeSpec :
    (payment rate least : ℕ) (params : OpeningFeeParams)
    → params.proportional ≡ pos rate
    → params.min_fee_msat ≡ pos least
    → FeeSpec (payment * rate) least (calculate_opening_fee (pos payment) params)
unfolding calculate_opening_fee ◌*ℤ◌ ◌+ℤ◌ div_ℤ
calculate_opening_fee-FeeSpec payment rate least params p q = rw (p, q) (ground arith)
