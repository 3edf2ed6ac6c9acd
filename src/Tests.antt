-- ===== src/Tests.antt =====
-- A small market, and the theorems at it.
pub mod Data
pub mod Examples
pub mod Payments
pub mod Jobs
pub mod Webhooks
pub mod Products
pub mod Toss
pub mod Safety
pub mod Chats
pub mod Accounts
pub mod Admin
pub mod Sessions
