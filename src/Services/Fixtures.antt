-- ===== src/Services/Fixtures.antt =====
-- A database with an account, a category and a tag, for the tests of the services.
use plan_it.Common.{◌∷◌, none, [], false, ℕ, Option}
use plan_it.Common.Text.{text}
use plan_it.Common.Int.{pos}
use plan_it.Store.{AccountModel, Store, AuditAction, AuditEventModel}
use plan_it.Store.Rows.{CategoryModel}
use plan_it.Catalog.{CategoryKind}
use plan_it.Ledger.Enums.{AccountStatus}

abbrev pub purse : AccountModel
purse = record {
  id = 1;
  user_id = 7;
  name = text "Purse";
  currency = text "USD";
  opening_balance = pos 1_000_000;
  opened_at = pos 0;
  allow_negative = false;
  status = AccountStatus.active;
  version = 1;
}

abbrev pub food : CategoryModel
food = record { id = 4; user_id = 7; kind = CategoryKind.expense; archived_at = none }

abbrev pub opened : Store
opened = record {
  accounts = purse ∷ [];
  transactions = [];
  people = [];
  debts = [];
  payments = [];
  categories = food ∷ [];
  tags = record { id = 9; user_id = 7; archived_at = none } ∷ [];
  transaction_tags = [];
  merchants = [];
  locations = [];
  products = [];
  items = [];
  transfers = [];
  reconciliations = [];
  rules = [];
  occurrences = [];
  goals = [];
  allocations = [];
  audit = [];
}

abbrev pub logged : AuditAction → ℕ → Option ℕ → AuditEventModel
logged action entity operation = record {
  user_id = 7;
  action = action;
  entity_id = entity;
  client_operation_id = operation;
}
