-- ===== src/Payments.antt =====
-- What the user asks to pay, and how requests are written: src/onchain/bip321.ts, and the keypad for
-- amounts, src/components/numpad-reducer.ts.
pub mod Amount
pub mod Keypad
mod Tests
