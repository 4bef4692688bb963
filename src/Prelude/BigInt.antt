-- ===== src/Prelude/BigInt.antt =====
-- JavaScript's `bigint` of either sign, `trim`, `split` at one character, and `BigInt(text)`, over
-- lists of UTF-16 code units.
pub mod Laws
use Prim.Native.Nat.{ℕ, zero, suc, ◌+◌, ◌-◌, ◌*◌, ◌<◌}
use mathlib.Core.Bool.{Bool, true, false, ◌&&◌, ◌||◌}
use mathlib.Core.Option.{Option, none, some}
use mathlib.Core.List.{List, [], ◌∷◌, ◌++◌, reverse}
use browser_wallet.Prelude.Tests.{ltb, leb, ◌==◌, if◌then◌else◌}
use browser_wallet.Prelude.Decimal.{is_digit, read_digits}

-- `negsuc n` is -(n + 1).
pub data ℤ : Type 0 where
  pos : ℕ → ℤ
  negsuc : ℕ → ℤ

-- The integer -n.
abbrev pub negated : ℕ → ℤ
negated zero = pos 0
negated (suc n) = negsuc n

-- White space and line ends of ECMAScript.
unfoldable pub is_space : ℕ → Bool
is_space c =
    (leb 9 c && leb c 13)
    || c == 32
    || c == 160
    || c == 0x1680
    || (leb 0x2000 c && leb c 0x200a)
    || c == 0x2028
    || c == 0x2029
    || c == 0x202f
    || c == 0x205f
    || c == 0x3000
    || c == 0xfeff

unfoldable pub trim_start : List ℕ → List ℕ
unfolding is_space
trim_start [] = []
trim_start (c ∷ cs) = let rest = trim_start cs in if is_space c then rest else c ∷ cs

unfoldable pub trim : List ℕ → List ℕ
unfolding trim_start
trim cs = reverse (trim_start (reverse (trim_start cs)))

-- The parts in front of, between and behind the separators; `part` is the current one.
unfoldable pub split_from : ℕ → List ℕ → List ℕ → List (List ℕ)
split_from sep part [] = part ∷ []
split_from sep part (c ∷ cs) =
    let closed = part ∷ split_from sep [] cs in
    let longer = split_from sep (part ++ c ∷ []) cs in if c == sep then closed else longer

unfoldable pub split : ℕ → List ℕ → List (List ℕ)
unfolding split_from
split sep cs = split_from sep [] cs

-- The value of a hexadecimal digit; 16 for any other character.
unfoldable pub digit_value : ℕ → ℕ
digit_value c =
    if leb 48 c && leb c 57
    then c - 48
    else if leb 65 c && leb c 70
    then c - 55
    else if leb 97 c && leb c 102
    then c - 87
    else 16

unfoldable pub read_radix : ℕ → ℕ → List ℕ → Option ℕ
unfolding digit_value
read_radix base n [] = some n
read_radix base n (c ∷ cs) =
    if ltb (digit_value c) base then read_radix base (n * base + digit_value c) cs else none

-- One digit at least.
abbrev pub nonempty {ℓ} : {A : Type ℓ} → (List ℕ → Option A) → List ℕ → Option A
nonempty f [] = none
nonempty f (c ∷ cs) = f (c ∷ cs)

abbrev pub as_pos : Option ℕ → Option ℤ
as_pos none = none
as_pos (some n) = some (pos n)

abbrev pub as_negated : Option ℕ → Option ℤ
as_negated none = none
as_negated (some n) = some (negated n)

-- A text behind a leading zero: another radix may follow.
unfoldable pub read_behind_zero : List ℕ → Option ℤ
unfolding read_radix read_digits
read_behind_zero [] = some (pos 0)
read_behind_zero (c ∷ cs) =
    if c == b'x' || c == b'X'
    then as_pos (nonempty (read_radix 16 0) cs)
    else if c == b'o' || c == b'O'
    then as_pos (nonempty (read_radix 8 0) cs)
    else if c == b'b' || c == b'B'
    then as_pos (nonempty (read_radix 2 0) cs)
    else as_pos (read_digits 0 (c ∷ cs))

unfoldable pub read_trimmed : List ℕ → Option ℤ
unfolding read_behind_zero read_digits
read_trimmed [] = some (pos 0)
read_trimmed (c ∷ cs) =
    if c == 48
    then read_behind_zero cs
    else if c == b'+'
    then as_pos (nonempty (read_digits 0) cs)
    else if c == b'-'
    then as_negated (nonempty (read_digits 0) cs)
    else as_pos (read_digits 0 (c ∷ cs))

-- `BigInt(text)`; `none` is its SyntaxError.
unfoldable pub big_int : List ℕ → Option ℤ
unfolding read_trimmed trim
big_int cs = read_trimmed (trim cs)
