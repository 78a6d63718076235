-- ===== src/Services/Planning.antt =====
-- `PlanningService` (backend/app/application/planning.py): the rules of recurring transactions, the
-- occurrences that fall due, and goals. A method that raises leaves the database as it was.
pub mod Rules
pub mod Due
pub mod Processed
pub mod Scheduled
pub mod Occurrence
pub mod Goals
pub mod Funded
pub mod Allocated
pub mod Progress
mod Tests
mod GoalTests
