-- ===== src/Services/Transfers.antt =====
-- `TransferService` (backend/app/application/transfers.py). A method that raises leaves the database
-- as it was.
pub mod Evaluate
pub mod Commit
pub mod Moved
pub mod Committed
mod Tests
