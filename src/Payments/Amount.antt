-- ===== src/Payments/Amount.antt =====
-- `btcStringToSats` and `satsToBtcString` of src/onchain/bip321.ts: amounts in bitcoin as texts, with
-- fixed-point arithmetic on satoshis. Texts are lists of UTF-16 code units.
pub mod Exact
use browser_wallet.Prelude.{
  ℕ, zero, suc, ◌+◌, ◌-◌, ◌*◌, ◌/◌, ◌%◌, ◌^◌, Option, none, some, List, [], ◌∷◌, ◌++◌, length,
}
use browser_wallet.Prelude.Decimal.{decimal, read_digits}
use browser_wallet.Prelude.BigInt.{ℤ, pos, negsuc, trim, split}

infixl 5 ◌>>=◌
abbrev pub ◌>>=◌ : {A B : Type 0} → Option A → (A → Option B) → Option B
none >>= f = none
some a >>= f = f a

unfoldable pub replicate : ℕ → ℕ → List ℕ
replicate zero c = []
replicate (suc n) c = c ∷ replicate n c

-- `slice(0, n)`
pub take : ℕ → List ℕ → List ℕ
take zero cs = []
take (suc n) [] = []
take (suc n) (c ∷ cs) = c ∷ take n cs

-- `padStart(n, '0')`
unfoldable pub pad_start : ℕ → List ℕ → List ℕ
unfolding replicate
pad_start n cs = replicate (n - length cs) b'0' ++ cs

-- One digit at least, and what `BigInt` makes of them.
abbrev pub digits : List ℕ → Option ℕ
digits [] = none
digits (c ∷ cs) = read_digits 0 (c ∷ cs)

-- The parts around the point, by /^\d+(\.\d+)?$/, and the amount.
pub from_parts : List (List ℕ) → Option ℕ
unfolding take replicate
from_parts (whole ∷ []) = do w ← digits whole; some (w * 10 ^ 8)
from_parts (whole ∷ frac ∷ []) = do
  w ← digits whole
  fits ← digits frac
  f ← read_digits 0 (take 8 (frac ++ replicate 8 b'0'))
  some (w * 10 ^ 8 + f)
from_parts _ = none

pub btc_string_to_sats : List ℕ → Option ℕ
unfolding from_parts
btc_string_to_sats btc = from_parts (split b'.' (trim btc))

-- `none` is the RangeError.
unfoldable pub sats_to_btc_string : ℤ → Option (List ℕ)
unfolding pad_start
sats_to_btc_string (negsuc n) = none
sats_to_btc_string (pos n) =
    some (decimal (n / 10 ^ 8) ++ b'.' ∷ pad_start 8 (decimal (n % 10 ^ 8)))
