-- ===== src/Peers/Text.antt =====
-- What the address code uses of JavaScript's texts: `indexOf` and `lastIndexOf` with the two slices
-- around the place, `parseInt(text, 10)`, and tests of every character.
use browser_wallet.Prelude.{
  ℕ, ◌≡◌, ◌≢◌, ap, refl, Bool, true, false, ◌&&◌, Option, none, some, List, [], ◌∷◌, ◌++◌, ◌==◌,
  if◌then◌else◌, arith, All, ◌∙◌, length, ◌<◌,
}
use browser_wallet.Prelude.Decimal.{
  is_digit, IsDigit, read_digits, decimal, decimal-All, decimal_nonempty, read_digits-decimal,
}
use browser_wallet.Prelude.BigInt.{ℤ, pos, negated, trim_start}
use browser_wallet.Prelude.BigInt.Laws.{Lacks, trim_start_digits}

abbrev in_front : ℕ → Option (List ℕ × List ℕ) → Option (List ℕ × List ℕ)
in_front c none = none
in_front c (some (a, b)) = some (c ∷ a, b)

-- The texts in front of the first `sep` and behind it.
pub cut_first : ℕ → List ℕ → Option (List ℕ × List ℕ)
cut_first sep [] = none
cut_first sep (c ∷ cs) =
    let rest = in_front c (cut_first sep cs) in if c == sep then some ([], cs) else rest

-- The texts in front of the last `sep` and behind it.
pub cut_last : ℕ → List ℕ → Option (List ℕ × List ℕ)
cut_last sep [] = none
cut_last sep (c ∷ cs) = elim (cut_last sep cs) [
  | none ↦ if c == sep then some ([], cs) else none
  | some (a, b) ↦ some (c ∷ a, b)
]

-- The longest run of digits at the start.
pub digits_prefix : List ℕ → List ℕ
digits_prefix [] = []
digits_prefix (c ∷ cs) = let rest = digits_prefix cs in if is_digit c then c ∷ rest else []

-- The number that the digits at the start stand for; `none` (NaN) where there is none.
abbrev number_of : List ℕ → Option ℕ
number_of [] = none
number_of (d ∷ ds) = read_digits 0 (d ∷ ds)

pub leading_number : List ℕ → Option ℕ
leading_number cs = number_of (digits_prefix cs)

pub signed_number : List ℕ → Option ℤ
signed_number [] = none
signed_number (c ∷ cs) =
    if c == b'-'
    then elim (leading_number cs) [ none ↦ none | some n ↦ some (negated n) ]
    else elim (leading_number (if c == b'+' then cs else c ∷ cs)) [
      | none ↦ none
      | some n ↦ some (pos n)
    ]

-- `parseInt(text, 10)`
pub parse_int : List ℕ → Option ℤ
parse_int cs = signed_number (trim_start cs)

unfoldable pub all : (ℕ → Bool) → List ℕ → Bool
all test [] = true
all test (c ∷ cs) = test c && all test cs

pub all-Lacks :
    (test : ℕ → Bool) (sep : ℕ) (cs : List ℕ) → test sep ≡ false → all test cs ≡ true → Lacks sep cs
unfolding all
all-Lacks test sep [] h a = tt
all-Lacks test sep (c ∷ cs) h a =
    let here : test c ≡ true = ground arith in
    let there : all test cs ≡ true = ground arith in
    let other : c ≢ sep = λ e. cc (ap test e) in (other, all-Lacks test sep cs h there)

pub cut_first-append :
    (sep : ℕ) (a b : List ℕ) → Lacks sep a → cut_first sep (a ++ sep ∷ b) ≡ some (a, b)
unfolding cut_first
cut_first-append sep [] b h = ground arith
cut_first-append sep (c ∷ a) b (n, h) = ground (arith, cut_first-append sep a b h)

pub cut_last-none : (sep : ℕ) (b : List ℕ) → Lacks sep b → cut_last sep b ≡ none
unfolding cut_last
cut_last-none sep [] h = refl
cut_last-none sep (c ∷ b) (n, h) = rw (cut_last-none sep b h) (ground arith)

pub cut_last-append :
    (sep : ℕ) (a b : List ℕ) → Lacks sep b → cut_last sep (a ++ sep ∷ b) ≡ some (a, b)
unfolding cut_last
cut_last-append sep [] b h = rw (cut_last-none sep b h) (ground arith)
cut_last-append sep (c ∷ a) b h = rw (cut_last-append sep a b h) refl

digits_prefix_self : (cs : List ℕ) → All IsDigit cs → digits_prefix cs ≡ cs
unfolding digits_prefix is_digit
digits_prefix_self [] h = refl
digits_prefix_self (c ∷ cs) (d, h) = ground (arith, digits_prefix_self cs h)

leading_number_digits :
    (c : ℕ) (cs : List ℕ) → All IsDigit (c ∷ cs) → leading_number (c ∷ cs) ≡ read_digits 0 (c ∷ cs)
unfolding leading_number
leading_number_digits c cs h = ap number_of (digits_prefix_self (c ∷ cs) h)

signed_number_digits :
    (cs : List ℕ) (n : ℕ)
    → All IsDigit cs
    → 0 < length cs
    → read_digits 0 cs ≡ some n
    → signed_number cs ≡ some (pos n)
unfolding signed_number
signed_number_digits [] n h k e = absurd (omega arith)
signed_number_digits (c ∷ cs) n h k e =
    let minus : (c == b'-') ≡ false = ground (arith, h.0) in
    let plus : (c == b'+') ≡ false = ground (arith, h.0) in
    rw minus (rw plus (rw (leading_number_digits c cs h ∙ e) refl))

pub parse_int-decimal : (n : ℕ) → parse_int (decimal n) ≡ some (pos n)
unfolding parse_int
parse_int-decimal n = rw (trim_start_digits (decimal n) (decimal-All n)) (
    signed_number_digits (decimal n) n (decimal-All n) (decimal_nonempty n) (read_digits-decimal n))
