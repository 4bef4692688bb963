-- ===== src/Lsps2/Fees.antt =====
-- src/ldk/lsps2/types.ts: the fee of a channel purchase, and the choice from the LSP's menu.
pub mod Exact
pub mod Choice
mod Tests
use browser_wallet.Prelude.{
  ℕ, ◌-◌, ◌^◌, String, Bool, true, false, Option, none, some, List, [], ◌∷◌, if◌then◌else◌,
}
use browser_wallet.Prelude.BigInt.{ℤ, pos}
use browser_wallet.Prelude.Int.{◌+ℤ◌, ◌*ℤ◌, div_ℤ, ltb_ℤ}

-- `proportional` is a JavaScript number in the source; here it is an integer, as the protocol says.
pub record OpeningFeeParams : Type 0 where
  pub min_fee_msat : ℤ
  pub proportional : ℤ
  pub valid_until : String
  pub min_lifetime : ℤ
  pub max_client_to_self_delay : ℤ
  pub min_payment_size_msat : ℤ
  pub max_payment_size_msat : ℤ
  pub promise : String

pub data FeeError : Type 0 where
  product_exceeds_u64 sum_exceeds_u64 : FeeError

-- A value, or the exception thrown.
pub data Fee {ℓ} (A : Type ℓ) : Type ℓ where
  ok : A → Fee A
  err : FeeError → Fee A

infixl 5 ◌>>=◌
abbrev pub ◌>>=◌ {ℓ κ} : {A : Type ℓ} {B : Type κ} → Fee A → (A → Fee B) → Fee B
ok a >>= f = f a
err e >>= f = err e

abbrev pub u64_max : ℤ
u64_max = pos (2 ^ 64 - 1)

-- `if (n > U64_MAX) throw`
abbrev pub within_u64 : ℤ → FeeError → Fee ℤ
within_u64 n e = if ltb_ℤ u64_max n then err e else ok n

pub calculate_opening_fee : ℤ → OpeningFeeParams → Fee ℤ
calculate_opening_fee payment_size_msat params = do
  product ← within_u64 (payment_size_msat *ℤ params.proportional) product_exceeds_u64
  sum ← within_u64 (product +ℤ pos 999_999) sum_exceeds_u64
  let proportional_fee = div_ℤ sum 1_000_000
  ok (if ltb_ℤ proportional_fee params.min_fee_msat then params.min_fee_msat else proportional_fee)

-- Whether the payment lies in the size range of an entry, and whether the fee leaves something.
abbrev pub outside : ℤ → OpeningFeeParams → Bool
outside payment_size_msat params =
    if ltb_ℤ payment_size_msat params.min_payment_size_msat
    then true
    else ltb_ℤ params.max_payment_size_msat payment_size_msat

pub select_cheapest_params : List OpeningFeeParams → ℤ → Fee (Option OpeningFeeParams)
select_cheapest_params [] payment_size_msat = ok none
select_cheapest_params (params ∷ menu) payment_size_msat =
    let rest = select_cheapest_params menu payment_size_msat in
    let chosen = (do
      fee ← calculate_opening_fee payment_size_msat params
      if ltb_ℤ fee payment_size_msat then ok (some params) else rest) in
    if outside payment_size_msat params then rest else chosen
