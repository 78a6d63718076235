-- ===== src/Ledger/Tests.antt =====
-- Runs of the ledger's domain at concrete inputs.
mod Transfers
mod Balances
pub mod Data
