-- ===== src/Payments.antt =====
-- apps/api/src/payments/payment.service.ts: orders, their confirmation and their reversal.
pub mod Model
pub mod Orders
pub mod Confirm
pub mod Reverse
pub mod Effects
pub mod Outcomes
pub mod Escrow
pub mod Keeps
pub mod Idempotency
pub mod Booking
pub mod Capture
pub mod Webhook
pub mod Toss
