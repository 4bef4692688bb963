-- ===== src/Peers.antt =====
-- The connections to Lightning peers: src/ldk/peers.
pub mod Text
pub mod Address
pub mod Connection
mod Tests
