-- ===== src/Payments/Keypad/Shape.antt =====
-- What the keypad of src/components/numpad-reducer.ts can show.
use browser_wallet.Prelude.{
  ℕ, ◌≤◌, ◌<◌, ◌≡◌, ◌≢◌, false, ◌&&◌, List, [], ◌∷◌, ◌++◌, length, length-append, All, All-append,
  arith, leb, ◌==◌, Bool-cases, inl, inr,
}
use browser_wallet.Prelude.Decimal.{IsDigit}
use browser_wallet.Prelude.Hex.{list_eq}
use browser_wallet.Payments.Keypad.{
  NumpadKey, digit, backspace, drop_last, zero_text, numpad_digit_reducer, press,
}

-- Nothing, a zero, or a number without leading zeros.
abbrev pub Canonical : List ℕ → Type 0
Canonical [] = Unit
Canonical (c ∷ []) = Unit
Canonical (c ∷ d ∷ cs) = c ≢ b'0'

pub record IsAmount (max_digits : ℕ) (text : List ℕ) : Type 0 where
  pub short : length text ≤ max_digits
  pub numeric : All IsDigit text
  pub canonical : Canonical text

abbrev pub IsKey : NumpadKey → Type 0
IsKey (digit c) = IsDigit c
IsKey backspace = Unit

drop-length : (cs : List ℕ) → length (drop_last cs) ≤ length cs
unfolding drop_last
drop-length [] = omega arith
drop-length (c ∷ []) = omega arith
drop-length (c ∷ d ∷ cs) = omega (arith, drop-length (d ∷ cs))

drop-All : (cs : List ℕ) → All IsDigit cs → All IsDigit (drop_last cs)
unfolding drop_last
drop-All [] h = tt
drop-All (c ∷ []) h = tt
drop-All (c ∷ d ∷ cs) (p, h) = (p, drop-All (d ∷ cs) h)

drop-Canonical : (cs : List ℕ) → Canonical cs → Canonical (drop_last cs)
unfolding drop_last
drop-Canonical [] h = tt
drop-Canonical (c ∷ []) h = tt
drop-Canonical (c ∷ d ∷ []) h = tt
drop-Canonical (c ∷ d ∷ e ∷ cs) h = h

append-Canonical :
    (cs : List ℕ) (key : ℕ)
    → list_eq cs zero_text ≡ false
    → Canonical cs
    → Canonical (cs ++ key ∷ [])
unfolding list_eq
append-Canonical [] key n h = tt
append-Canonical (c ∷ []) key n h = ground arith
append-Canonical (c ∷ d ∷ cs) key n h = h

step-IsAmount :
    (m : ℕ) (k : NumpadKey) (text : List ℕ)
    → 0 < m
    → IsKey k
    → IsAmount m text
    → IsAmount m (numpad_digit_reducer text k m)
unfolding numpad_digit_reducer
step-IsAmount m backspace text pos p h = record {
  short = omega (arith, h.short, drop-length text);
  numeric = drop-All text h.numeric;
  canonical = drop-Canonical text h.canonical;
}
step-IsAmount m (digit c) text pos p h = elim (Bool-cases (leb m (length text))) [
  | inl full ↦ rw full h
  | inr room ↦ elim (Bool-cases (list_eq text zero_text && c == b'0')) [
    | inl z ↦ rw room (rw z h)
    | inr z ↦ elim (Bool-cases (list_eq text [] && c == b'0')) [
      | inl e ↦ rw room (
          rw z (rw e (record { short = omega arith; numeric = (omega arith, tt); canonical = tt })))
      | inr e ↦ elim (Bool-cases (list_eq text zero_text)) [
        | inl o ↦
            rw room (
              rw z
                (rw e (rw o (record { short = omega arith; numeric = (p, tt); canonical = tt }))))
        | inr o ↦ rw room (
            rw z (
              rw e (
                rw o (record {
                  short = ground (arith, length-append text (c ∷ []));
                  numeric = All-append IsDigit text (c ∷ []) h.numeric (p, tt);
                  canonical = append-Canonical text c o h.canonical;
                }))))
      ]
    ]
  ]
]

press-from :
    (m : ℕ) (ks : List NumpadKey) (text : List ℕ)
    → 0 < m
    → All IsKey ks
    → IsAmount m text
    → IsAmount m (press ks text m)
unfolding press
press-from m [] text pos ps h = h
press-from m (k ∷ ks) text pos (p, ps) h =
    press-from m ks (numpad_digit_reducer text k m) pos ps (step-IsAmount m k text pos p h)

-- Whatever keys are pressed, from the empty text on: the text has at most the allowed number of digits,
-- and it is empty, a zero, or a number without leading zeros.
pub press-IsAmount :
    (m : ℕ) (ks : List NumpadKey) → 0 < m → All IsKey ks → IsAmount m (press ks [] m)
press-IsAmount m ks pos ps =
    press-from m ks [] pos ps (record { short = omega arith; numeric = tt; canonical = tt })
