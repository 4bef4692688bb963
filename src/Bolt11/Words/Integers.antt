-- ===== src/Bolt11/Words/Integers.antt =====
-- `intToWords`, the timestamp and `bigintToBytes` of src/ldk/lsps2/bolt11-encoder.ts.
use browser_wallet.Prelude.{
  ℕ, zero, suc, ◌+◌, ◌*◌, ◌/◌, ◌%◌, ◌^◌, ◌<◌, ◌≡◌, refl, ◌∙◌, ap, ◌↔◌, List, [], ◌∷◌, arith, length,
  length-append, All, All-append, ltb, if◌then◌else◌, ◌==◌, Bool-cases, inl, inr, false,
}
use browser_wallet.Prelude.Decimal.{lt_wf}
use browser_wallet.Bolt11.Words.{
  int_words, int_to_words, shift_five, shift_five_shrinks, timestamp_words, big_endian, value_from,
  value_of,
}
use browser_wallet.Bolt11.Words.Values.{value_from-append}
use browser_wallet.Bolt11.Words.Regroup.{IsWord, IsByte}
use mathlib.Core.Logic.{dite}
use mathlib.Core.WellFounded.{Acc}
use native.Mathlib.Decide.{dec_lt}
use native.Mathlib.Nat.{pow-suc}

-- The number that the words of `intToWords` stand for.
abbrev pub int_value : ℕ → ℕ
int_value n = shift_five n * 32 + n % 32

int_words-value :
    (n : ℕ) (w : Acc ◌<◌ n) (words : List ℕ)
    → n < 2 ^ 31
    → value_of 32 (int_words n w words) ≡ value_from 32 n words
unfolding int_words
int_words-value n (Acc.intro _ smaller) words h =
    elim (dec_lt 0 n)
      as (λ d.
        value_of 32 (
          dite d
            (λ h.
              int_words (shift_five n) (smaller (shift_five n) (shift_five_shrinks n h))
                ((n % 32) ∷ words))
            (λ _. words))
        ≡ value_from 32 n words) [
          | yes p ↦
              int_words-value (shift_five n) (smaller (shift_five n) (shift_five_shrinks n p))
                ((n % 32) ∷ words) (ground arith)
              ∙ ap (λ (m : ℕ). value_from 32 m words) (ground arith)
          | no p ↦ ap (λ (m : ℕ). value_from 32 m words) (omega arith)
        ]

-- One round of the loop, on a positive number.
int_words_step :
    (n : ℕ) (w : Acc ◌<◌ n)
    → 0 < n
    → (v : Acc ◌<◌ (shift_five n)) × (int_words n w [] ≡ int_words (shift_five n) v ((n % 32) ∷ []))
unfolding int_words
int_words_step n (Acc.intro _ smaller) h =
    elim (dec_lt 0 n)
      as (λ d.
        (v : Acc ◌<◌ (shift_five n)) × (dite d
            (λ h.
              int_words (shift_five n) (smaller (shift_five n) (shift_five_shrinks n h))
                ((n % 32) ∷ []))
            (λ _. [])
          ≡ int_words (shift_five n) v ((n % 32) ∷ []))) [
            | yes p ↦ (smaller (shift_five n) (shift_five_shrinks n p), refl)
            | no p ↦ absurd (p h)
          ]

shift_five-lt : (n : ℕ) → shift_five n < 2 ^ 31
shift_five-lt n = ground arith

int_to_words_value : (n : ℕ) → value_of 32 (int_to_words n) ≡ int_value n
unfolding int_to_words
int_to_words_value zero = refl
int_to_words_value (suc m) =
    let n = suc m in
    let (v, e) = int_words_step n (lt_wf.apply n) (omega arith) in
    let other : (suc m == 0) ≡ false = ground arith in
    rw other (rw e (int_words-value (shift_five n) v ((n % 32) ∷ []) (shift_five-lt n)))

-- The words stand for the number exactly if it is below 2 ^ 31; above, high bits are lost.
pub int_to_words-value_iff : (n : ℕ) → (value_of 32 (int_to_words n) ≡ n) ↔ (n < 2 ^ 31)
int_to_words-value_iff n =
    (λ e. ground (arith, int_to_words_value n), λ h. int_to_words_value n ∙ ground arith)

-- The time that a reader of the 35 bits sees in the words for `t`.
abbrev pub seen_time : ℕ → ℕ
seen_time t = if ltb (t % 2 ^ 32) (2 ^ 31) then t % 2 ^ 32 else t % 2 ^ 32 + 7 * 2 ^ 32

-- For every number of seconds, a reader of the 35 bits sees its lower 32 bits if bit 31 is not set,
-- and these and 7 * 2 ^ 32 more if it is, since `>>` repeats the sign bit. In particular the time is
-- exact below 2 ^ 31 seconds (up to 2038-01-19), and 7 * 2 ^ 32 seconds too late from there to
-- 2 ^ 32 seconds (up to 2106).
pub timestamp_words-value : (t : ℕ) → value_of 32 (timestamp_words t) ≡ seen_time t
unfolding timestamp_words
timestamp_words-value t = elim (Bool-cases (ltb (t % 2 ^ 32) (2 ^ 31))) [
  | inl p ↦ rw p (ground arith)
  | inr p ↦ rw p (ground arith)
]

pub length-timestamp_words : (t : ℕ) → length (timestamp_words t) ≡ 7
unfolding timestamp_words
length-timestamp_words t = refl

pub timestamp_words-All : (t : ℕ) → All IsWord (timestamp_words t)
unfolding timestamp_words
timestamp_words-All t = omega arith

pub length-big_endian : (v n : ℕ) → length (big_endian v n) ≡ n
unfolding big_endian
length-big_endian v zero = refl
length-big_endian v (suc n) =
    omega (
      arith,
      length-append (big_endian (v / 256) n) ((v % 256) ∷ []),
      length-big_endian (v / 256) n,
    )

pub big_endian-All : (v n : ℕ) → All IsByte (big_endian v n)
unfolding big_endian
big_endian-All v zero = tt
big_endian-All v (suc n) = All-append IsByte _ _ (big_endian-All (v / 256) n) (omega arith)

-- The bytes of a number that fits are read back as that number.
pub big_endian-value : (v n : ℕ) → v < 256 ^ n → value_of 256 (big_endian v n) ≡ v
unfolding big_endian
big_endian-value v zero h = omega arith
big_endian-value v (suc n) h =
    value_from-append 256 0 (big_endian (v / 256) n) ((v % 256) ∷ [])
    ∙ omega (arith, big_endian-value (v / 256) n (omega (arith, pow-suc 256 n)))
