-- ===== src/Payments/Tests.antt =====
-- Amounts at concrete values.
use browser_wallet.Prelude.{◌≡◌, refl, some, [], ◌∷◌}
use browser_wallet.Prelude.Decimal.{decimal, digits_acc, lt_wf}
use native.Mathlib.Decide.{dec_lt}
use browser_wallet.Prelude.{List}
use browser_wallet.Payments.Keypad.{NumpadKey, digit, backspace}
use browser_wallet.Payments.Amount.{replicate, pad_start, btc_string_to_sats, sats_to_btc_string}
use browser_wallet.Payments.Amount.Exact.{pointed, btc_string_to_sats-printed}

-- "21.005"
btc_string_to_sats-printed_example :
    btc_string_to_sats
      (pointed (b'0' ∷ []) (b'0' ∷ b'0' ∷ b'0' ∷ b'0' ∷ b'2' ∷ b'1' ∷ b'0' ∷ b'0' ∷ []))
    ≡ some 2100
btc_string_to_sats-printed_example =
    btc_string_to_sats-printed 2100 _
      (unfold sats_to_btc_string pad_start replicate decimal digits_acc lt_wf dec_lt in refl)

-- 0, 0, 5, backspace, 7, 0.
abbrev keys : List NumpadKey
keys = digit 48 ∷ digit 48 ∷ digit 53 ∷ backspace ∷ digit 55 ∷ digit 48 ∷ []
