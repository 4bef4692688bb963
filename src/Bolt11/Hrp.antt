-- ===== src/Bolt11/Hrp.antt =====
-- `buildHrp` of src/ldk/lsps2/bolt11-encoder.ts: the amount in an invoice's human readable part.
use browser_wallet.Prelude.{
  ℕ, zero, suc, ◌+◌, ◌-◌, ◌*◌, ◌/◌, ◌%◌, ◌≡◌, refl, List, [], ◌∷◌, ◌++◌, Option, none, some,
  Bool-cases, inl, inr, ◌==◌, if◌then◌else◌, arith,
}
use browser_wallet.Prelude.Decimal.{is_digit, decimal, read_digits, read_digits-decimal}
use browser_wallet.Prelude.BigInt.{ℤ, pos, negsuc}

-- "lnbc"
abbrev pub invoice_prefix : List ℕ
invoice_prefix = b'l' ∷ b'n' ∷ b'b' ∷ b'c' ∷ []

abbrev amount_part : ℕ → List ℕ
amount_part pico =
    if pico % 1_000_000_000 == 0
    then decimal (pico / 1_000_000_000) ++ b'm' ∷ []
    else if pico % 1_000_000 == 0
    then decimal (pico / 1_000_000) ++ b'u' ∷ []
    else if pico % 1_000 == 0
    then decimal (pico / 1_000) ++ b'n' ∷ []
    else decimal pico ++ b'p' ∷ []

pub build_hrp : ℤ → List ℕ
build_hrp (negsuc n) = invoice_prefix
build_hrp (pos zero) = invoice_prefix
build_hrp (pos (suc n)) = invoice_prefix ++ amount_part (suc n * 10)

-- How BOLT 11 reads an amount: digits, then a multiplier, in pico-bitcoin.
abbrev multiplier : ℕ → Option ℕ
multiplier c =
    if c == b'm'
    then some 1_000_000_000
    else if c == b'u'
    then some 1_000_000
    else if c == b'n'
    then some 1_000
    else if c == b'p'
    then some 1
    else none

abbrev times : Option ℕ → ℕ → Option ℕ
times none n = none
times (some m) n = some (n * m)

pub read_amount : ℕ → List ℕ → Option ℕ
read_amount n [] = none
read_amount n (c ∷ []) = times (multiplier c) n
read_amount n (c ∷ d ∷ cs) =
    let rest = read_amount (n * 10 + (c - 48)) (d ∷ cs) in if is_digit c then rest else none

read_amount-append :
    (n m : ℕ) (cs : List ℕ) (c : ℕ)
    → read_digits n cs ≡ some m
    → read_amount n (cs ++ c ∷ []) ≡ times (multiplier c) m
unfolding read_amount read_digits
read_amount-append n m [] c h = ground arith
read_amount-append n m (d ∷ []) c h = ground arith
read_amount-append n m (d ∷ e ∷ cs) c h = elim (Bool-cases (is_digit d)) [
  | inl p ↦ rw p (read_amount-append (n * 10 + (d - 48)) m (e ∷ cs) c (rw p at h))
  | inr p ↦ cc (rw p at h)
]

read-decimal : (n c : ℕ) → read_amount 0 (decimal n ++ c ∷ []) ≡ times (multiplier c) n
read-decimal n c = read_amount-append 0 n (decimal n) c (read_digits-decimal n)

-- A reader of BOLT 11 finds exactly the amount that was asked for, ten pico-bitcoin to the
-- millisatoshi, whichever multiplier was chosen.
pub read-build_hrp :
    (msat : ℕ)
    → (text : List ℕ) × (build_hrp (pos (suc msat)) ≡ invoice_prefix ++ text)
      × (read_amount 0 text ≡ some (suc msat * 10))
unfolding build_hrp
read-build_hrp msat = (amount_part (suc msat * 10), refl, reads (suc msat * 10))
  where
    reads : (pico : ℕ) → read_amount 0 (amount_part pico) ≡ some pico
    reads pico = ground (
      arith,
      read-decimal (pico / 1_000_000_000) b'm',
      read-decimal (pico / 1_000_000) b'u',
      read-decimal (pico / 1_000) b'n',
      read-decimal pico b'p',
    )
