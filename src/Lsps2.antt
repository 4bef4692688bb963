-- ===== src/Lsps2.antt =====
-- src/ldk/lsps2: the LSPS2 client side, which buys a channel from an LSP.
pub mod Fees
pub mod Json
pub mod Handler
