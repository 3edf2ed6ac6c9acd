-- ===== src/Worker.antt =====
-- apps/worker/src: the maintenance of trades and settlements.
pub mod TradeMaintenance
pub mod Settlement
pub mod Effects
pub mod Keeps
pub mod Outbox
pub mod Drained
pub mod Repeated
