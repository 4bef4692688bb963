-- ===== src/Bolt11.antt =====
-- src/ldk/lsps2/bolt11-encoder.ts: the encoder of BOLT 11 invoices.
pub mod Words
pub mod Fields
pub mod Scid
pub mod Hrp
mod Tests
