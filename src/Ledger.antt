-- ===== src/Ledger.antt =====
-- The domain of the ledger (backend/app/domain/ledger).
pub mod Enums
pub mod Balance
pub mod Classification
pub mod Policies
pub mod Reconciliation
pub mod Reallocation
pub mod Transfer
mod Tests
