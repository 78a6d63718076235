-- ===== src/Services/Transactions.antt =====
-- `TransactionService` (backend/app/application/transactions.py): its checks, and a module for each
-- of drafts, posting and reversal. A method that raises leaves the database as it was.
pub mod Checks
pub mod Purchases
pub mod Drafts
pub mod Posting
pub mod Reversal
pub mod Effect
pub mod Reversed
pub mod Drafted
pub mod Marked
pub mod Balances
pub mod History
pub mod Neutral
pub mod Covered
pub mod Undone
mod Tests
