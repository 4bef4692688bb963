-- ===== src/Payments/Amount/Exact.antt =====
-- No satoshi is lost between amounts and texts (src/onchain/bip321.ts).
use browser_wallet.Prelude.{
  ℕ, zero, suc, ◌+◌, ◌-◌, ◌*◌, ◌/◌, ◌%◌, ◌^◌, ◌<◌, ◌≤◌, ◌≡◌, refl, ap, sym, ◌∙◌, some, List, [],
  ◌∷◌, ◌++◌, length, length-append, All, All-append, arith, Bool-cases, inl, inr,
}
use native.Mathlib.Nat.{mul_assoc, pow-succ'}
use browser_wallet.Prelude.Decimal.{
  IsDigit, is_digit, decimal, decimal-All, decimal_nonempty, length-decimal, read_digits,
  read_digits-decimal,
}
use browser_wallet.Prelude.BigInt.{pos, trim, split, is_space}
use browser_wallet.Prelude.BigInt.Laws.{
  NoSpace, digits-NoSpace, trim_same, digits-Lacks, split_from-append, split_from_last,
}
use browser_wallet.Payments.Amount.{
  replicate, take, pad_start, digits, from_parts, btc_string_to_sats, sats_to_btc_string,
}

read_digits-append :
    (n m : ℕ) (xs ys : List ℕ)
    → read_digits n xs ≡ some m
    → read_digits n (xs ++ ys) ≡ read_digits m ys
unfolding read_digits
read_digits-append n m [] ys e = ground arith
read_digits-append n m (c ∷ xs) ys e = elim (Bool-cases (is_digit c)) [
  | inl p ↦ rw p (read_digits-append (n * 10 + (c - 48)) m xs ys (rw p at e))
  | inr p ↦ cc (rw p at e)
]

read_digits-zeros : (k m : ℕ) → read_digits m (replicate k b'0') ≡ some (m * 10 ^ k)
unfolding read_digits replicate is_digit
read_digits-zeros zero m = ground arith
read_digits-zeros (suc k) m =
    let shift : m * 10 + 0 ≡ m * 10 = omega arith in
    read_digits-zeros k (m * 10 + 0)
    ∙ ap some (
        ap (λ x. x * 10 ^ k) shift
        ∙ mul_assoc m 10 (10 ^ k)
        ∙ ap (λ x. m * x) (sym (pow-succ' 10 k)))

leading_zeros : (k : ℕ) (cs : List ℕ) → read_digits 0 (replicate k b'0' ++ cs) ≡ read_digits 0 cs
unfolding read_digits replicate is_digit
leading_zeros zero cs = refl
leading_zeros (suc k) cs = leading_zeros k cs

length-replicate : (k c : ℕ) → length (replicate k c) ≡ k
unfolding replicate
length-replicate zero c = refl
length-replicate (suc k) c = ap suc (length-replicate k c)

zeros-All : (k : ℕ) → All IsDigit (replicate k b'0')
unfolding replicate
zeros-All zero = tt
zeros-All (suc k) = (omega arith, zeros-All k)

take-replicate : (n k c : ℕ) → n ≤ k → take n (replicate k c) ≡ replicate n c
unfolding take replicate
take-replicate zero k c h = refl
take-replicate (suc n) zero c h = absurd (omega arith)
take-replicate (suc n) (suc k) c h = ap (λ cs. c ∷ cs) (take-replicate n k c (omega arith))

take-padded :
    (n k j : ℕ) (cs : List ℕ)
    → length cs + j ≡ n
    → n ≤ k
    → take n (cs ++ replicate k b'0') ≡ cs ++ replicate j b'0'
unfolding take
take-padded n k j [] e l =
    let same : n ≡ j = omega arith in rw same (take-replicate j k b'0' (omega arith))
take-padded zero k j (c ∷ cs) e l = absurd (omega arith)
take-padded (suc n) k j (c ∷ cs) e l =
    ap (λ t. c ∷ t) (take-padded n k j cs (omega arith) (omega arith))

-- The text of an amount: digits, a point, digits.
abbrev pub pointed : List ℕ → List ℕ → List ℕ
pointed whole frac = whole ++ b'.' ∷ frac

split-pointed :
    (whole frac : List ℕ)
    → All IsDigit whole
    → All IsDigit frac
    → split b'.' (trim (pointed whole frac)) ≡ whole ∷ frac ∷ []
unfolding split is_space
split-pointed whole frac h k =
    let spaceless : All NoSpace (pointed whole frac) =
      All-append NoSpace whole (b'.' ∷ frac) (digits-NoSpace whole h)
        (refl, digits-NoSpace frac k) in
    rw (trim_same (pointed whole frac) spaceless) (
      split_from-append b'.' [] whole frac (digits-Lacks b'.' whole (λ d. omega arith) h)
      ∙ ap (λ ps. whole ∷ ps)
          (split_from_last b'.' [] frac (digits-Lacks b'.' frac (λ d. omega arith) k)))

digits-read : (cs : List ℕ) → 0 < length cs → digits cs ≡ read_digits 0 cs
digits-read [] h = absurd (omega arith)
digits-read (c ∷ cs) h = refl

-- Up to eight decimals count for what they are: whole bitcoins, and tenths, hundredths and so on down
-- to satoshis.
pub btc_string_to_sats-pointed :
    (whole frac : List ℕ) (w v j : ℕ)
    → All IsDigit whole
    → All IsDigit frac
    → 0 < length whole
    → 0 < length frac
    → read_digits 0 whole ≡ some w
    → read_digits 0 frac ≡ some v
    → length frac + j ≡ 8
    → btc_string_to_sats (pointed whole frac) ≡ some (w * 10 ^ 8 + v * 10 ^ j)
unfolding btc_string_to_sats from_parts
btc_string_to_sats-pointed whole frac w v j hw hf nw nf ew ev e =
    rw (split-pointed whole frac hw hf) (
      rw (digits-read whole nw ∙ ew) (
        rw (digits-read frac nf ∙ ev) (
          rw (take-padded 8 8 j frac e (omega arith))
            (rw (read_digits-append 0 v frac (replicate j b'0') ev ∙ read_digits-zeros j v) refl))))

pad-length : (n : ℕ) (cs : List ℕ) → length cs ≤ n → length (pad_start n cs) ≡ n
unfolding pad_start
pad-length n cs h = omega (
  arith,
  length-append (replicate (n - length cs) b'0') cs,
  length-replicate (n - length cs) b'0',
)

pad-All : (n : ℕ) (cs : List ℕ) → All IsDigit cs → All IsDigit (pad_start n cs)
unfolding pad_start
pad-All n cs h =
    All-append IsDigit (replicate (n - length cs) b'0') cs (zeros-All (n - length cs)) h

pad-read : (n r : ℕ) → read_digits 0 (pad_start n (decimal r)) ≡ some r
unfolding pad_start
pad-read n r = leading_zeros (n - length (decimal r)) (decimal r) ∙ read_digits-decimal r

printed :
    (n : ℕ)
    → btc_string_to_sats (pointed (decimal (n / 10 ^ 8)) (pad_start 8 (decimal (n % 10 ^ 8))))
      ≡ some n
printed n =
    let w = n / 10 ^ 8 in
    let r = n % 10 ^ 8 in
    let eight : length (pad_start 8 (decimal r)) ≡ 8 =
      pad-length 8 (decimal r) (length-decimal 7 r (omega arith)) in
    btc_string_to_sats-pointed (decimal w) (pad_start 8 (decimal r)) w r 0 (decimal-All w)
      (pad-All 8 (decimal r) (decimal-All r)) (decimal_nonempty w) (omega arith)
      (read_digits-decimal w) (pad-read 8 r) (omega arith)
    ∙ ap some (omega arith)

-- The text of any amount that is not negative is read back as the same number of satoshis.
pub btc_string_to_sats-printed :
    (n : ℕ) (text : List ℕ)
    → sats_to_btc_string (pos n) ≡ some text
    → btc_string_to_sats text ≡ some n
unfolding sats_to_btc_string
btc_string_to_sats-printed n text e =
    let same : text ≡ pointed (decimal (n / 10 ^ 8)) (pad_start 8 (decimal (n % 10 ^ 8))) = cc in
    rw same (printed n)
