-- ===== src/Bolt11/Words.antt =====
-- Bytes, 5-bit words and machine integers of src/ldk/lsps2/bolt11-encoder.ts. JavaScript's `&`,
-- `<<`, `>>` and `>>>` work on 32-bit patterns: a value that they touch is its pattern below
-- 2 ^ 32. A mask of the low k bits is `% 2 ^ k`, and `|` on disjoint bits is `+`.
pub mod Values
pub mod Regroup
pub mod Integers
use browser_wallet.Prelude.{
  ℕ, zero, suc, ◌+◌, ◌-◌, ◌*◌, ◌/◌, ◌%◌, ◌^◌, ◌<◌, ◌≡◌, List, [], ◌∷◌, ◌++◌, ltb, leb,
  if◌then◌else◌, ◌==◌, arith,
}
use browser_wallet.Prelude.Decimal.{lt_wf}
use mathlib.Core.Logic.{dite}
use mathlib.Core.WellFounded.{Acc}
use native.Mathlib.Decide.{dec_lt}

abbrev pub pattern_mod : ℕ
pattern_mod = 2 ^ 32

-- `x >> s` on a pattern, which keeps the sign: the pattern is read with 64 bits.
abbrev pub shift_right : ℕ → ℕ → ℕ
shift_right x s = if ltb x (2 ^ 31) then x / 2 ^ s else (x + (2 ^ 64 - 2 ^ 32)) / 2 ^ s

-- `while (bits >= 8) { bits -= 8; result.push((value >>> bits) & 0xff) }`, on fuel.
pub flush : ℕ → ℕ → ℕ → List ℕ → ℕ × List ℕ
flush zero bits value out = (bits, out)
flush (suc fuel) bits value out =
    let more = flush fuel (bits - 8) value (out ++ (value / 2 ^ (bits - 8) % 256) ∷ []) in
    if leb 8 bits then more else (bits, out)

-- The loop over the words, and the padding behind it. Each round of `flush` takes eight bits, so
-- that `bits` rounds are enough.
pub words_from : List ℕ → ℕ → ℕ → List ℕ → List ℕ
words_from [] bits value out =
    if ltb 0 bits then out ++ (value * 2 ^ (8 - bits) % pattern_mod % 256) ∷ [] else out
words_from (word ∷ words) bits value out =
    let value' = value * 32 % pattern_mod + word % 32 in
    let flushed = flush (bits + 5) (bits + 5) value' out in
    words_from words flushed.0 value' flushed.1

-- `wordsToBuffer`
pub words_to_buffer : List ℕ → List ℕ
words_to_buffer words = words_from words 0 0 []

-- `remaining >>= 5`. A negative result ends the loop of `intToWords`, as 0 does.
abbrev pub shift_five : ℕ → ℕ
shift_five n = if ltb (n % pattern_mod) (2 ^ 31) then n % pattern_mod / 32 else 0

pub shift_five_shrinks : (n : ℕ) → 0 < n → shift_five n < n
shift_five_shrinks n h = ground arith

int_words : (n : ℕ) → Acc ◌<◌ n → List ℕ → List ℕ
int_words n (Acc.intro _ smaller) words =
    dite (dec_lt 0 n)
      (λ h.
        int_words (shift_five n) (smaller (shift_five n) (shift_five_shrinks n h))
          ((n % 32) ∷ words))
      (λ _. words)

-- `intToWords`
pub int_to_words : ℕ → List ℕ
int_to_words n = if n == 0 then 0 ∷ [] else int_words n (lt_wf.apply n) []

-- `const ts = timestamp & 0x1ffffffff` (the mask is -1 as a 32-bit number, and changes no bit of
-- the pattern), then `(ts >> (i * 5)) & 0x1f` for i = 6, …, 0.
timestamp_from : ℕ → ℕ → List ℕ
timestamp_from zero ts = []
timestamp_from (suc i) ts = (shift_right ts (i * 5) % 32) ∷ timestamp_from i ts

pub timestamp_words : ℕ → List ℕ
unfolding timestamp_from
timestamp_words timestamp = timestamp_from 7 (timestamp % pattern_mod)

-- `bigintToBytes`, and `(value >> 8 * i) & 0xff` for i = count - 1, …, 0.
pub big_endian : ℕ → ℕ → List ℕ
big_endian value zero = []
big_endian value (suc i) = big_endian (value / 256) i ++ (value % 256) ∷ []

-- What digits mean in a base, the first being the highest.
abbrev pub value_from : ℕ → ℕ → List ℕ → ℕ
value_from base acc [] = acc
value_from base acc (d ∷ ds) = value_from base (acc * base + d) ds

abbrev pub value_of : ℕ → List ℕ → ℕ
value_of base ds = value_from base 0 ds
