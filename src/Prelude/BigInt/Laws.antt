-- ===== src/Prelude/BigInt/Laws.antt =====
-- `BigInt` reads what `toString` prints; splitting a text that was joined.
use Prim.Native.Nat.{ℕ, suc, ◌<◌}
use mathlib.Core.Path.{◌≡◌, refl, sym, ap, ◌∙◌}
use mathlib.Core.Logic.{◌≢◌}
use mathlib.Core.Bool.{false}
use mathlib.Core.Option.{some}
use mathlib.Core.List.{
  List, [], ◌∷◌, ◌++◌, reverse, reverse-reverse, reverse_aux, append_assoc, append-nil,
}
use native.Mathlib.Omega.{arith}
use browser_wallet.Prelude.Lists.{All, length}
use browser_wallet.Prelude.Decimal.{
  decimal_nonempty, IsDigit, read_digits, decimal, decimal-All, read_digits-decimal,
}
use browser_wallet.Prelude.BigInt.{
  pos, negsuc, as_negated, nonempty, is_space, trim_start, trim, split_from, read_behind_zero,
  read_trimmed, big_int, as_pos,
}

digit_no_space : (c : ℕ) → IsDigit c → is_space c ≡ false
unfolding is_space
digit_no_space c h = ground arith

abbrev pub NoSpace : ℕ → Type 0
NoSpace c = is_space c ≡ false

trim_start_same : (cs : List ℕ) → All NoSpace cs → trim_start cs ≡ cs
unfolding trim_start
trim_start_same [] h = refl
trim_start_same (c ∷ cs) (h, _) = rw h

All-reverse_aux :
    (xs ys : List ℕ) → All NoSpace xs → All NoSpace ys → All NoSpace (reverse_aux xs ys)
All-reverse_aux [] ys h k = k
All-reverse_aux (x ∷ xs) ys (p, h) k = All-reverse_aux xs (x ∷ ys) h (p, k)

-- A text without white space is not changed.
pub trim_same : (cs : List ℕ) → All NoSpace cs → trim cs ≡ cs
unfolding trim
trim_same cs h =
    rw (trim_start_same cs h)
      (rw (trim_start_same (reverse cs) (All-reverse_aux cs [] h tt)) (reverse-reverse cs))

pub digits-NoSpace : (cs : List ℕ) → All IsDigit cs → All NoSpace cs
digits-NoSpace [] h = tt
digits-NoSpace (c ∷ cs) (d, h) = (digit_no_space c d, digits-NoSpace cs h)

pub trim_start_digits : (cs : List ℕ) → All IsDigit cs → trim_start cs ≡ cs
trim_start_digits cs h = trim_start_same cs (digits-NoSpace cs h)

pub trim_digits : (cs : List ℕ) → All IsDigit cs → trim cs ≡ cs
trim_digits cs h = trim_same cs (digits-NoSpace cs h)

read_behind_zero_digits :
    (cs : List ℕ) → All IsDigit cs → read_behind_zero cs ≡ as_pos (read_digits 0 cs)
unfolding read_behind_zero
read_behind_zero_digits [] h = refl
read_behind_zero_digits (c ∷ cs) (h, _) = ground arith

read_trimmed_digits : (cs : List ℕ) → All IsDigit cs → read_trimmed cs ≡ as_pos (read_digits 0 cs)
unfolding read_trimmed
read_trimmed_digits [] h = refl
read_trimmed_digits (c ∷ cs) (h, hs) = ground (arith, read_behind_zero_digits cs hs)

pub big_int-decimal : (n : ℕ) → big_int (decimal n) ≡ some (pos n)
unfolding big_int
big_int-decimal n =
    rw (trim_digits (decimal n) (decimal-All n))
      (read_trimmed_digits (decimal n) (decimal-All n) ∙ ap as_pos (read_digits-decimal n))

read_trimmed_minus :
    (cs : List ℕ) → read_trimmed (b'-' ∷ cs) ≡ as_negated (nonempty (read_digits 0) cs)
unfolding read_trimmed
read_trimmed_minus cs = refl

nonempty-read : (cs : List ℕ) → 0 < length cs → nonempty (read_digits 0) cs ≡ read_digits 0 cs
nonempty-read [] h = absurd (omega arith)
nonempty-read (c ∷ cs) h = refl

pub big_int-negated : (n : ℕ) → big_int (b'-' ∷ decimal (suc n)) ≡ some (negsuc n)
unfolding big_int is_space
big_int-negated n =
    rw
      (trim_same (b'-' ∷ decimal (suc n))
        (refl, digits-NoSpace (decimal (suc n)) (decimal-All (suc n))))
      (read_trimmed_minus (decimal (suc n))
        ∙ ap as_negated (
            nonempty-read (decimal (suc n)) (decimal_nonempty (suc n))
            ∙ read_digits-decimal (suc n)))

abbrev pub Lacks : ℕ → List ℕ → Type 0
Lacks sep [] = Unit
Lacks sep (c ∷ cs) = (c ≢ sep) × Lacks sep cs

-- A part that lacks the separator is taken whole.
pub split_from_last :
    (sep : ℕ) (part cs : List ℕ) → Lacks sep cs → split_from sep part cs ≡ (part ++ cs) ∷ []
unfolding split_from
split_from_last sep part [] h = ap (λ p. p ∷ []) (sym (append-nil part))
split_from_last sep part (c ∷ cs) (p, h) =
    ground (arith, split_from_last sep (part ++ c ∷ []) cs h, append_assoc part (c ∷ []) cs)

pub split_from-append :
    (sep : ℕ) (part cs rest : List ℕ)
    → Lacks sep cs
    → split_from sep part (cs ++ sep ∷ rest) ≡ (part ++ cs) ∷ split_from sep [] rest
unfolding split_from
split_from-append sep part [] rest h = ground (arith, append-nil part)
split_from-append sep part (c ∷ cs) rest (p, h) =
    ground (arith, split_from-append sep (part ++ c ∷ []) cs rest h, append_assoc part (c ∷ []) cs)

pub digits-Lacks : (sep : ℕ) (cs : List ℕ) → ¬ IsDigit sep → All IsDigit cs → Lacks sep cs
digits-Lacks sep [] h p = tt
digits-Lacks sep (c ∷ cs) h (d, p) =
    let other : c ≢ sep = λ e. h (omega arith) in (other, digits-Lacks sep cs h p)

pub decimal-Lacks : (sep n : ℕ) → ¬ IsDigit sep → Lacks sep (decimal n)
decimal-Lacks sep n h = digits-Lacks sep (decimal n) h (decimal-All n)
