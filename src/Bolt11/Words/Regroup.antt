-- ===== src/Bolt11/Words/Regroup.antt =====
-- `wordsToBuffer` of src/ldk/lsps2/bolt11-encoder.ts keeps the bits, although it works on 32-bit
-- patterns.
use browser_wallet.Prelude.{
  ℕ, zero, suc, ◌+◌, ◌-◌, ◌*◌, ◌/◌, ◌%◌, ◌^◌, ◌<◌, ◌≡◌, refl, lt→ltb, ◌∙◌, ap, List, [], ◌∷◌, ◌++◌,
  arith, length, length-append, All, All-append,
}
use browser_wallet.Bolt11.Words.{
  flush, words_from, words_to_buffer, value_from, value_of, pattern_mod,
}
use browser_wallet.Bolt11.Words.Values.{value_from-append, below_eight}

abbrev pub IsByte : ℕ → Type 0
IsByte b = b < 256

abbrev pub IsWord : ℕ → Type 0
IsWord w = w < 32

-- `flush` keeps the bits of the bytes and of the value's low end.
record Flushed (bits value : ℕ) (out : List ℕ) (x : ℕ × List ℕ) : Type 0 where
  fewer : x.0 < 8
  count : length x.1 * 8 + x.0 ≡ length out * 8 + bits
  same :
      value_of 256 x.1 * 2 ^ x.0 + value % 2 ^ x.0 ≡ value_of 256 out * 2 ^ bits + value % 2 ^ bits
  bytes : All IsByte out → All IsByte x.1

kept : (b value : ℕ) (out : List ℕ) → b < 3 → Flushed (b + 5) value out (b + 5, out)
kept b value out h = record { fewer = omega arith; count = refl; same = refl; bytes = λ p. p }

abbrev SplitsAt : ℕ → Type 0
SplitsAt b =
    (n value : ℕ)
    → (n * 256 + value / 2 ^ b % 256) * 2 ^ b + value % 2 ^ b
      ≡ n * 2 ^ (b + 8) + value % 2 ^ (b + 8)

splits_at : (b : ℕ) → b < 8 → SplitsAt b
splits_at =
    below_eight SplitsAt (λ n v. omega arith) (λ n v. omega arith) (λ n v. omega arith)
      (λ n v. omega arith) (λ n v. omega arith) (λ n v. omega arith) (λ n v. omega arith)
      (λ n v. omega arith)

taken :
    (b value : ℕ) (out : List ℕ)
    → b < 5
    → Flushed (b + 8) value out (b, out ++ (value / 2 ^ b % 256) ∷ [])
taken b value out h = record {
  fewer = omega arith;
  count = omega (arith, length-append out ((value / 2 ^ b % 256) ∷ []));
  same =
      rw (value_from-append 256 0 out ((value / 2 ^ b % 256) ∷ []))
        (splits_at b (omega arith) (value_of 256 out) value);
  bytes = λ p. All-append IsByte out _ p (omega arith);
}

flush_round :
    (bits value : ℕ) (out : List ℕ)
    → bits < 8
    → Flushed (bits + 5) value out (flush (bits + 5) (bits + 5) value out)
unfolding flush
flush_round bits value out h =
    below_eight (λ b. Flushed (b + 5) value out (flush (b + 5) (b + 5) value out))
      (kept 0 value out (omega arith)) (kept 1 value out (omega arith))
      (kept 2 value out (omega arith)) (taken 0 value out (omega arith))
      (taken 1 value out (omega arith)) (taken 2 value out (omega arith))
      (taken 3 value out (omega arith)) (taken 4 value out (omega arith)) bits h

-- One more word in the value: the pattern keeps the twelve bits that are still needed.
abbrev TakesWord : ℕ → Type 0
TakesWord b =
    (n value w : ℕ)
    → w < 32
    → n * 2 ^ (b + 5) + (value * 32 % pattern_mod + w % 32) % 2 ^ (b + 5)
      ≡ (n * 2 ^ b + value % 2 ^ b) * 32 + w

takes_word : (b : ℕ) → b < 8 → TakesWord b
takes_word =
    below_eight TakesWord (λ n v w h. omega arith) (λ n v w h. omega arith) (λ n v w h. omega arith)
      (λ n v w h. omega arith) (λ n v w h. omega arith) (λ n v w h. omega arith)
      (λ n v w h. omega arith) (λ n v w h. omega arith)

-- The padding of the last byte.
abbrev Pads : ℕ → Type 0
Pads b =
    (n value : ℕ)
    → n * 256 + value * 2 ^ (8 - b) % pattern_mod % 256 ≡ (n * 2 ^ b + value % 2 ^ b) * 2 ^ (8 - b)

pads : (b : ℕ) → b < 8 → Pads b
pads =
    below_eight Pads (λ n v. omega arith) (λ n v. omega arith) (λ n v. omega arith)
      (λ n v. omega arith) (λ n v. omega arith) (λ n v. omega arith) (λ n v. omega arith)
      (λ n v. omega arith)

-- `pad` bits follow the words.
record Regrouped (bits value : ℕ) (out words result : List ℕ) (pad : ℕ) : Type 0 where
  short : pad < 8
  total : length result * 8 ≡ length out * 8 + bits + length words * 5 + pad
  worth :
      value_of 256 result
      ≡ value_from 32 (value_of 256 out * 2 ^ bits + value % 2 ^ bits) words * 2 ^ pad
  octets : All IsByte out → All IsByte result

words_from_end :
    (bits value : ℕ) (out : List ℕ)
    → bits < 8
    → (pad : ℕ) × Regrouped bits value out [] (words_from [] bits value out) pad
unfolding words_from
words_from_end zero value out h =
    (0, record { short = omega arith; total = omega arith; worth = omega arith; octets = λ p. p })
words_from_end (suc b) value out h = rw (lt→ltb 0 (suc b) (omega arith)) (
  8 - suc b,
  record {
    short = omega arith;
    total = omega (arith, length-append out ((value * 2 ^ (8 - suc b) % pattern_mod % 256) ∷ []));
    worth =
        rw (value_from-append 256 0 out ((value * 2 ^ (8 - suc b) % pattern_mod % 256) ∷ []))
          (pads (suc b) h (value_of 256 out) value);
    octets = λ p. All-append IsByte out _ p (omega arith);
  },
)

words_from-Regrouped :
    (words : List ℕ) (bits value : ℕ) (out : List ℕ)
    → bits < 8
    → All IsWord words
    → (pad : ℕ) × Regrouped bits value out words (words_from words bits value out) pad
unfolding words_from
words_from-Regrouped [] bits value out h p = words_from_end bits value out h
words_from-Regrouped (w ∷ words) bits value out h (here, p) =
    let value' = value * 32 % pattern_mod + w % 32 in
    let x = flush (bits + 5) (bits + 5) value' out in
    let f = flush_round bits value' out h in
    let (pad, q) = words_from-Regrouped words x.0 value' x.1 f.fewer p in
    (
      pad,
      record {
        short = q.short;
        total = omega (arith, q.total, f.count);
        worth =
            q.worth
            ∙ ap (λ (n : ℕ). value_from 32 n words * 2 ^ pad)
                (f.same ∙ takes_word bits h (value_of 256 out) value w here);
        octets = λ o. q.octets (f.bytes o);
      },
    )

-- Words of five bits become bytes with the same bits, followed by fewer than eight zero bits: the
-- bytes count 5 bits for each word and the padding, and as one binary number they are that of the
-- words, shifted by the padding.
pub words_to_buffer-value :
    (words : List ℕ)
    → All IsWord words
    → (pad : ℕ) × (pad < 8)
      × (length (words_to_buffer words) * 8 ≡ length words * 5 + pad)
      × (value_of 256 (words_to_buffer words) ≡ value_of 32 words * 2 ^ pad)
      × All IsByte (words_to_buffer words)
unfolding words_to_buffer
words_to_buffer-value words p =
    let (pad, q) = words_from-Regrouped words 0 0 [] (omega arith) p in
    (pad, q.short, omega (arith, q.total), q.worth, q.octets tt)
