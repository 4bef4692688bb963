-- ===== src/Bolt11/Scid.antt =====
-- `parseLsps2Scid` of src/ldk/lsps2/bolt11-encoder.ts: the short channel id that the LSP sends.
use browser_wallet.Prelude.{
  ℕ, ◌+◌, ◌*◌, ◌/◌, ◌%◌, ◌^◌, ◌<◌, ◌≡◌, refl, ap, ◌∙◌, List, [], ◌∷◌, ◌++◌, Option, none, some, ltb,
  if◌then◌else◌, arith,
}
use browser_wallet.Prelude.Decimal.{decimal}
use browser_wallet.Prelude.BigInt.{ℤ, pos, negsuc, split, trim, big_int}
use browser_wallet.Prelude.BigInt.Laws.{
  big_int-decimal, decimal-Lacks, split_from-append, split_from_last, trim_digits,
}
use browser_wallet.Prelude.Decimal.{decimal-All}

-- The exceptions, in the order of the tests; `syntax_error` is that of `BigInt`.
pub data ScidError : Type 0 where
  bad_format syntax_error block_range tx_range output_range : ScidError

pub data Parsed (A : Type 0) : Type 0 where
  ok : A → Parsed A
  err : ScidError → Parsed A

infixl 5 ◌>>=◌
abbrev ◌>>=◌ : {A B : Type 0} → Parsed A → (A → Parsed B) → Parsed B
ok a >>= f = f a
err e >>= f = err e

abbrev parsed : Option ℤ → Parsed ℤ
parsed none = err syntax_error
parsed (some n) = ok n

abbrev integer : List ℕ → Parsed ℤ
integer text = parsed (big_int (trim text))

-- `if (v < 0n || v >= limit) throw`
abbrev below : ℕ → ScidError → ℤ → Parsed ℕ
below limit e (negsuc n) = err e
below limit e (pos n) = if ltb n limit then ok n else err e

-- `(block << 40n) | (tx << 16n) | output`, whose bits are disjoint once the ranges hold.
abbrev assemble : ℤ → ℤ → ℤ → Parsed ℕ
assemble block tx output = do
  b ← below (2 ^ 24) block_range block
  t ← below (2 ^ 24) tx_range tx
  o ← below (2 ^ 16) output_range output
  ok (b * 2 ^ 40 + t * 2 ^ 16 + o)

from_parts : List (List ℕ) → Parsed ℕ
from_parts (p ∷ q ∷ r ∷ []) = do
  block ← integer p
  tx ← integer q
  output ← integer r
  assemble block tx output
from_parts _ = err bad_format

unfoldable pub parse_lsps2_scid : List ℕ → Parsed ℕ
unfolding from_parts
parse_lsps2_scid scid = from_parts (split b'x' scid)

-- "block x tx x output", as LSPs write it.
abbrev pub scid_text : ℕ → ℕ → ℕ → List ℕ
scid_text block tx output = decimal block ++ b'x' ∷ (decimal tx ++ b'x' ∷ decimal output)

split-scid_text :
    (b t o : ℕ) → split b'x' (scid_text b t o) ≡ decimal b ∷ decimal t ∷ decimal o ∷ []
unfolding split
split-scid_text b t o =
    split_from-append b'x' [] (decimal b) _ (decimal-Lacks b'x' b (λ d. omega arith))
    ∙ ap (λ ps. decimal b ∷ ps)
        (split_from-append b'x' [] (decimal t) _ (decimal-Lacks b'x' t (λ d. omega arith))
          ∙ ap (λ ps. decimal t ∷ ps)
              (split_from_last b'x' [] (decimal o) (decimal-Lacks b'x' o (λ d. omega arith))))

integer-decimal : (n : ℕ) → integer (decimal n) ≡ ok (pos n)
integer-decimal n =
    ap (λ cs. parsed (big_int cs)) (trim_digits (decimal n) (decimal-All n))
    ∙ ap parsed (big_int-decimal n)

-- A printed id is parsed to the number that BOLT 7 assigns: 24 bits of block, 24 bits of
-- transaction, 16 bits of output. The first part that is out of its range is refused.
pub parse-scid_text :
    (b t o : ℕ)
    → parse_lsps2_scid (scid_text b t o) ≡ (
        if ltb b (2 ^ 24)
        then (if ltb t (2 ^ 24)
            then (if ltb o (2 ^ 16) then ok (b * 2 ^ 40 + t * 2 ^ 16 + o) else err output_range)
            else err tx_range)
        else err block_range)
unfolding parse_lsps2_scid
parse-scid_text b t o = rw (split-scid_text b t o) (simp integer-decimal (ground arith))

-- What an accepted text is: three parts, in which `BigInt` reads the three fields of the id.
pub record IsScid (parts : List (List ℕ)) (v : ℕ) : Type 0 where
  pub block : List ℕ
  pub tx : List ℕ
  pub output : List ℕ
  pub three : parts ≡ block ∷ tx ∷ output ∷ []
  pub fits : v < 2 ^ 64
  pub block_bits : big_int (trim block) ≡ some (pos (v / 2 ^ 40))
  pub tx_bits : big_int (trim tx) ≡ some (pos (v / 2 ^ 16 % 2 ^ 24))
  pub output_bits : big_int (trim output) ≡ some (pos (v % 2 ^ 16))

from_parts-IsScid : (parts : List (List ℕ)) (v : ℕ) → from_parts parts ≡ ok v → IsScid parts v
unfolding from_parts
from_parts-IsScid (p ∷ q ∷ r ∷ []) v e = record {
  block = p;
  tx = q;
  output = r;
  three = refl;
  fits = ground arith;
  block_bits = ground arith;
  tx_bits = ground arith;
  output_bits = ground arith;
}
from_parts-IsScid [] v e = cc
from_parts-IsScid (p ∷ []) v e = cc
from_parts-IsScid (p ∷ q ∷ []) v e = cc
from_parts-IsScid (p ∷ q ∷ r ∷ s ∷ ps) v e = cc

-- Whatever the text, an id that is returned fits 64 bits, and its three fields are the numbers that
-- `BigInt` reads in the three parts of the text.
pub parse-IsScid :
    (scid : List ℕ) (v : ℕ) → parse_lsps2_scid scid ≡ ok v → IsScid (split b'x' scid) v
unfolding parse_lsps2_scid
parse-IsScid scid v e = from_parts-IsScid (split b'x' scid) v e
