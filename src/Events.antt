-- ===== src/Events.antt =====
-- LDK's events: src/ldk/traits/event-handler.ts, with the payment history that it writes,
-- src/ldk/storage/payment-history.ts.
pub mod Reasons
pub mod Sockets
pub mod History
pub mod Node
pub mod Sound
pub mod Outcomes
pub mod Channels
pub mod Handler
