-- ===== src/Services.antt =====
-- The services of the application layer (backend/app/application).
mod Fixtures
pub mod Debts
pub mod Idempotency
pub mod Transactions
pub mod Planning
pub mod Transfers
pub mod Corrections
