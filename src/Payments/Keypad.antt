-- ===== src/Payments/Keypad.antt =====
-- `numpadDigitReducer` of src/components/numpad-reducer.ts: the text of an amount as keys are pressed.
pub mod Shape
use browser_wallet.Prelude.{
  ℕ, Bool, true, false, ◌&&◌, List, [], ◌∷◌, ◌++◌, length, leb, ◌==◌, if◌then◌else◌,
}
use browser_wallet.Prelude.Hex.{list_eq}

pub data NumpadKey : Type 0 where
  digit : ℕ → NumpadKey
  backspace : NumpadKey

-- `slice(0, -1)`
pub drop_last : List ℕ → List ℕ
drop_last [] = []
drop_last (c ∷ []) = []
drop_last (c ∷ d ∷ cs) = c ∷ drop_last (d ∷ cs)

abbrev pub zero_text : List ℕ
zero_text = b'0' ∷ []

pub numpad_digit_reducer : List ℕ → NumpadKey → ℕ → List ℕ
unfolding drop_last
numpad_digit_reducer prev backspace max_digits = drop_last prev
numpad_digit_reducer prev (digit key) max_digits =
    if leb max_digits (length prev)
    then prev
    else if list_eq prev zero_text && key == b'0'
    then prev
    else if list_eq prev [] && key == b'0'
    then zero_text
    else if list_eq prev zero_text
    then key ∷ []
    else prev ++ key ∷ []

-- The text after a sequence of keys.
pub press : List NumpadKey → List ℕ → ℕ → List ℕ
unfolding numpad_digit_reducer
press [] text max_digits = text
press (k ∷ ks) text max_digits = press ks (numpad_digit_reducer text k max_digits) max_digits
