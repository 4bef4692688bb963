-- ===== src/Prelude/Decimal.antt =====
-- `toString` of a non-negative `bigint`, in character codes, and the reading of digits.
use Prim.Native.Nat.{ℕ, zero, suc, ◌+◌, ◌-◌, ◌*◌, ◌/◌, ◌%◌, ◌≤◌, ◌<◌, ◌^◌}
use mathlib.Core.Path.{◌≡◌, refl, ◌∙◌}
use mathlib.Core.Bool.{Bool, true, ◌&&◌}
use mathlib.Core.Logic.{dite}
use mathlib.Core.Option.{Option, none, some}
use mathlib.Core.List.{List, [], ◌∷◌}
use mathlib.Core.WellFounded.{Acc, WellFounded}
use native.Mathlib.Omega.{arith}
use native.Mathlib.Decide.{dec_lt}
use browser_wallet.Prelude.Tests.{leb, if◌then◌else◌}
use browser_wallet.Prelude.Lists.{All, length}

Acc-below : (k n : ℕ) → n < k → Acc ◌<◌ n
Acc-below zero n h = absurd (omega arith)
Acc-below (suc k) n h = Acc.intro n (λ m hm. Acc-below k m (omega arith))

unfoldable pub lt_wf : WellFounded ◌<◌
unfolding Acc-below
lt_wf = record { apply = λ n. Acc-below (suc n) n (omega arith) }

abbrev pub IsDigit : ℕ → Type 0
IsDigit c = (48 ≤ c) × (c ≤ 57)

unfoldable pub is_digit : ℕ → Bool
is_digit c = leb 48 c && leb c 57

pub tenth_lt : (n : ℕ) → 9 < n → n / 10 < n
tenth_lt n h = omega arith

-- The digits of `n` in front of `rest`.
unfoldable pub digits_acc : (n : ℕ) → Acc ◌<◌ n → List ℕ → List ℕ
digits_acc n (Acc.intro _ smaller) rest =
    let out = (48 + n % 10) ∷ rest in
    dite (dec_lt 9 n) (λ h. digits_acc (n / 10) (smaller (n / 10) (tenth_lt n h)) out) (λ _. out)

unfoldable pub decimal : ℕ → List ℕ
unfolding digits_acc lt_wf dec_lt
decimal n = digits_acc n (lt_wf.apply n) []

-- Digits read from the left, behind the value of those before.
unfoldable pub read_digits : ℕ → List ℕ → Option ℕ
unfolding is_digit
read_digits n [] = some n
read_digits n (c ∷ cs) = if is_digit c then read_digits (n * 10 + (c - 48)) cs else none

is_digit_of_lt : (d : ℕ) → d < 10 → is_digit (48 + d) ≡ true
unfolding is_digit
is_digit_of_lt d h = ground arith

read_digits-cons :
    (m d n : ℕ) (rest : List ℕ)
    → d < 10
    → m * 10 + d ≡ n
    → read_digits m ((48 + d) ∷ rest) ≡ read_digits n rest
unfolding read_digits
read_digits-cons m d n rest h e =
    let value : m * 10 + (48 + d - 48) ≡ n = omega arith in rw (is_digit_of_lt d h) (rw value)

-- The digits of `n` read as `n`, whatever digits follow.
digits_acc-read :
    (n : ℕ) (w : Acc ◌<◌ n) (rest : List ℕ)
    → read_digits 0 (digits_acc n w rest) ≡ read_digits n rest
unfolding digits_acc
digits_acc-read n (Acc.intro _ smaller) rest =
    let out = (48 + n % 10) ∷ rest in
    elim (dec_lt 9 n)
      as (λ d.
        read_digits 0
          (dite d (λ h. digits_acc (n / 10) (smaller (n / 10) (tenth_lt n h)) out) (λ _. out))
        ≡ read_digits n rest) [
          | yes h ↦
              digits_acc-read (n / 10) (smaller (n / 10) (tenth_lt n h)) out
              ∙ read_digits-cons (n / 10) (n % 10) n rest (omega arith) (omega arith)
          | no h ↦ read_digits-cons 0 (n % 10) n rest (omega arith) (omega arith)
        ]

digits_acc-All :
    (n : ℕ) (w : Acc ◌<◌ n) (rest : List ℕ) → All IsDigit rest → All IsDigit (digits_acc n w rest)
unfolding digits_acc
digits_acc-All n (Acc.intro _ smaller) rest p =
    let out = (48 + n % 10) ∷ rest in
    let here : IsDigit (48 + n % 10) = omega arith in
    elim (dec_lt 9 n)
      as (λ d.
        All IsDigit
          (dite d (λ h. digits_acc (n / 10) (smaller (n / 10) (tenth_lt n h)) out) (λ _. out))) [
            | yes h ↦ digits_acc-All (n / 10) (smaller (n / 10) (tenth_lt n h)) out (here, p)
            | no h ↦ (here, p)
          ]

-- A decimal is at least one digit long.
digits_acc-length :
    (n : ℕ) (w : Acc ◌<◌ n) (rest : List ℕ) → length rest < length (digits_acc n w rest)
unfolding digits_acc
digits_acc-length n (Acc.intro _ smaller) rest =
    let out = (48 + n % 10) ∷ rest in
    elim (dec_lt 9 n)
      as (λ d.
        length rest
        < length
            (dite d (λ h. digits_acc (n / 10) (smaller (n / 10) (tenth_lt n h)) out) (λ _. out))) [
              | yes h ↦
                  omega (arith, digits_acc-length (n / 10) (smaller (n / 10) (tenth_lt n h)) out)
              | no h ↦ omega arith
            ]

digits_acc_short :
    (k n : ℕ) (w : Acc ◌<◌ n) (rest : List ℕ)
    → n < 10 ^ suc k
    → length (digits_acc n w rest) ≤ suc k + length rest
unfolding digits_acc
digits_acc_short zero n (Acc.intro _ smaller) rest small =
    let out = (48 + n % 10) ∷ rest in
    elim (dec_lt 9 n)
      as (λ d.
        length (dite d (λ h. digits_acc (n / 10) (smaller (n / 10) (tenth_lt n h)) out) (λ _. out))
        ≤ 1 + length rest) [ yes h ↦ absurd (omega arith) | no h ↦ omega arith ]
digits_acc_short (suc k) n (Acc.intro _ smaller) rest small =
    let out = (48 + n % 10) ∷ rest in
    elim (dec_lt 9 n)
      as (λ d.
        length (dite d (λ h. digits_acc (n / 10) (smaller (n / 10) (tenth_lt n h)) out) (λ _. out))
        ≤ suc (suc k) + length rest) [
          | yes h ↦
              (let less : n / 10 < 10 ^ suc k = omega arith in
                omega
                  (arith, digits_acc_short k (n / 10) (smaller (n / 10) (tenth_lt n h)) out less))
          | no h ↦ omega arith
        ]

-- A number below 10 ^ (k + 1) has at most k + 1 digits.
pub length-decimal : (k n : ℕ) → n < 10 ^ suc k → length (decimal n) ≤ suc k
unfolding decimal
length-decimal k n h = omega (arith, digits_acc_short k n (lt_wf.apply n) [] h)

pub read_digits-decimal : (n : ℕ) → read_digits 0 (decimal n) ≡ some n
unfolding decimal
read_digits-decimal n = digits_acc-read n (lt_wf.apply n) [] ∙ (unfold read_digits in refl)

pub decimal-All : (n : ℕ) → All IsDigit (decimal n)
unfolding decimal
decimal-All n = digits_acc-All n (lt_wf.apply n) [] tt

pub decimal_nonempty : (n : ℕ) → 0 < length (decimal n)
unfolding decimal
decimal_nonempty n = digits_acc-length n (lt_wf.apply n) []

decimal_1204 : decimal 1204 ≡ 49 ∷ 50 ∷ 48 ∷ 52 ∷ []
unfolding decimal
decimal_1204 = refl
