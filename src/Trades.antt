-- ===== src/Trades.antt =====
-- apps/api/src/trades/trade.service.ts: each method is an action on the database, and each
-- `prisma.$transaction` is one `transaction`.
pub mod Model
pub mod Request
pub mod Transitions
pub mod Atomic
pub mod Effects
pub mod Exclusive
pub mod Audit
pub mod Competition
pub mod Reads
