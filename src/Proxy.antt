-- ===== src/Proxy.antt =====
-- The proxy between the wallet's WebSockets and the peers' TCP ports: proxy/src.
pub mod Path
pub mod Target
pub mod Gate
mod Tests
