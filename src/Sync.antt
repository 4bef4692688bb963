-- ===== src/Sync.antt =====
-- Following the chain: src/ldk/sync/chain-sync.ts.
pub mod Esplora
pub mod Once
pub mod Loop
