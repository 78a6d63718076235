-- ===== src/Lib.antt =====
-- PlanIT is a personal-finance application. This library models the core of its Python backend
-- (backend/app): the domain rules on money, ledger, debts, accounts, purchases and the catalog,
-- and the services that keep transactions, transfers, reconciliations, debts, recurring rules
-- and goals in the database and answer retried requests.
--
-- The parts and how they interact. Every amount is a `Money`, a decimal at a fixed scale with a
-- currency. The ledger's pure functions compute balances from movements and preview transfers,
-- reallocations and reconciliations from positions of accounts. A service reads rows of the
-- database, checks them with the domain rules and writes new rows in one transaction; a posting
-- service adds a movement, and the balance of an account is the sum of its movements.
--
-- - Common: tests into Bool, lists, whole numbers with laws, texts, times, and `Error` and
--   `Result` for exceptions: the codes of backend/app/domain/errors.py, and the other exceptions
--   that the code lets through.
-- - Decimal: the operations of Python's decimal module that the source uses, in a context of a
--   given precision and rounding half to even; Decimal/Rounding has the laws of that rounding.
-- - Money: backend/app/domain/money.py. `plus`, `minus` and `negate` compute in ten-thousandths;
--   Money/Exact relates them to the decimals of the source; Money/Bounds is about the range.
-- - Ledger: backend/app/domain/ledger. Enums, Balance, Classification, Policies
--   (transactions.py), Reconciliation, Reallocation and Transfer carry the names of their files,
--   and the functions in them those of the source; the modules below each prove its laws.
-- - Debts, Accounts, Purchases, Catalog: the enums and policies of the domain packages of those
--   names; `normalize_account_name` and `normalize_catalog_name` are their two `normalize`
--   functions for names.
-- - Store: the rows of backend/app/db/models and the queries of the repositories. Rows has the
--   rows that classify transactions, Totals and Overdraft are about sums and checks of balances,
--   Table is a table with a primary key, Balance the query for a balance and the checks on
--   accounts, Movement the posting of a movement (backend/app/application/ledger_posting.py)
--   with the unique constraints of transactions, Debts the tables of people, debts and payments,
--   Planning those of rules, occurrences and goals, Ordered and Batch the selection of due
--   rules, Snapshot the query for a balance against the calculation in the domain.
-- - Services/Debts: `DebtService` of backend/app/application/debts.py: `create`, `repay` and
--   `cancel` are `create_in_transaction`, `repay_in_transaction` and `cancel_in_transaction`. A
--   method takes the store and returns the store after it; one that raises has no store, as its
--   transaction is rolled back.
-- - Services/Transactions: `TransactionService` of backend/app/application/transactions.py:
--   `create_draft`, `update_draft`, `post` and `reverse_transaction` are its methods with names
--   in `_in_transaction`. Checks has the private checks, Purchases those of shops and lines, and
--   Drafts, Posting and Reversal a method each with its checks and its writes; the modules below
--   are about what one call does and what sequences of calls keep.
-- - Planning: backend/app/domain/planning. Dates has the calendar, Recurrence the laws of due
--   dates, Iterated those of `advance_due` one run after the other.
-- - Services/Planning: `PlanningService` of backend/app/application/planning.py. Rules has
--   `create_rule` and `update_rule`, Due `process_due`, `draft_occurrence` (the method
--   `record_occurrence_in_transaction`) and `skip_occurrence`, Goals the three methods on goals.
-- - Services/Transfers: `TransferService` of backend/app/application/transfers.py. Evaluate
--   reads the accounts and previews the transfer with Ledger/Transfer, Commit writes its
--   movements.
-- - Services/Corrections: reconciliations of `CorrectionService` of
--   backend/app/application/corrections.py, with the preview of Ledger/Reconciliation.
-- - Services/Idempotency: `execute_idempotent` of backend/app/application/idempotency.py, around
--   any operation on the other tables.
--
-- Choices of the model. An amount is a whole number of ten-thousandths, and a decimal a
-- coefficient with an exponent, so that the sign of a zero is lost. The limits of the context on
-- exponents are left out. Texts are code points below 128. A datetime is a number of
-- microseconds with its offset, without the limits on years. Identifiers are numbers. SHA-256,
-- over the parts of a fingerprint or a request, uuid5, the text of a time and the time zones are
-- parameters and no property depends on what they return, except that due dates need a zone that
-- keeps dates. The recursion of `Decimal.digits` is on fuel, the number itself, which has more
-- units than digits; no other definition has fuel. Columns that no modelled operation reads or
-- writes are left out of the rows, and so are the JSON images of audit events and the snapshots
-- that methods return.
--
-- Not modelled: CHECK constraints and triggers of the database, locks and concurrent
-- transactions, the commit of reallocations, the other services and their domain rules (sharing,
-- accounts, analytics, the catalog's records, identity, purchases, media, privacy), the HTTP
-- interface, configuration and logging, which are glue over libraries, the migrations and the
-- mobile application.
pub mod Common
pub mod Decimal
pub mod Money
pub mod Ledger
pub mod Debts
pub mod Accounts
pub mod Purchases
pub mod Catalog
pub mod Planning
pub mod Store
pub mod Services
