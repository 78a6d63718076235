-- ===== src/Services/Transfers/Evaluate.antt =====
-- The accounts and the preview of a transfer: `_evaluate`.
use plan_it.Common.{
  if◌then◌else◌, ◌>>◌, ◌>>=◌, ◌∷◌, some, none, [], ok, err, Error, Result, not, ℕ, filter, List,
  Option, dedup, ◌==◌, raise_if, leb, ◌&&◌, mem, length,
}
use plan_it.Common.Time.{Instant, Datetime, max_instant}
use plan_it.Common.Text.{Text}
use plan_it.Common.Int.{◌+ℤ◌, ltb_ℤ, pos}
use plan_it.Money.{in_range, Money}
use plan_it.Store.{AccountModel, Store}
use plan_it.Ledger.Reallocation.{FingerprintPart, account_position, AccountPosition}
use plan_it.Ledger.Transfer.{TransferFee, preview_transfer, TransferPreview}
use plan_it.Decimal.{Number}
use plan_it.Ledger.Policies.{normalize_timestamp, require_not_future}
use plan_it.Ledger.Enums.{is_active}
use plan_it.Store.Balance.{status_code, movement_total}

pub record TransferPreviewCommand : Type 0 where
  pub source_account_id : ℕ
  pub destination_account_id : ℕ
  pub source_amount : Money
  pub destination_amount : Option Money
  pub fx_rate : Option Number
  pub fee_account_id : Option ℕ
  pub fee_amount : Option Money
  pub occurred_at : Datetime

pub record CommitTransferCommand : Type 0 where
  pub id : ℕ
  pub client_operation_id : ℕ
  pub source_transaction_id : ℕ
  pub destination_transaction_id : ℕ
  pub fee_transaction_id : Option ℕ
  pub preview : TransferPreviewCommand
  pub source_fingerprint : Text
  pub note : Option Text

-- `ORDER BY id`.
unfoldable pub insert_account : AccountModel → List AccountModel → List AccountModel
insert_account a [] = a ∷ []
insert_account a (b ∷ bs) =
    let rest = insert_account a bs in if leb a.id b.id then a ∷ (b ∷ bs) else b ∷ rest

unfoldable pub sort_accounts : List AccountModel → List AccountModel
unfolding insert_account
sort_accounts [] = []
sort_accounts (a ∷ rest) = insert_account a (sort_accounts rest)

-- `AccountRepository.get_owned_many`.
unfoldable pub get_owned_many : List ℕ → ℕ → Store → List AccountModel
unfolding filter sort_accounts
get_owned_many ids user s =
    sort_accounts (filter (λ a. a.user_id == user && mem a.id ids) s.accounts)

-- `accounts[account_id]`.
unfoldable pub account_of : ℕ → List AccountModel → Result AccountModel
account_of k [] = err Error.value_error
account_of k (a ∷ rest) = if a.id == k then ok a else account_of k rest

abbrev pub listed : Option ℕ → List ℕ
listed none = []
listed (some k) = k ∷ []

-- The set of the accounts of a transfer.
abbrev pub transfer_accounts : TransferPreviewCommand → List ℕ
transfer_accounts command =
    dedup
      (command.source_account_id ∷ (command.destination_account_id ∷ listed command.fee_account_id))

-- The loop on the accounts.
unfoldable pub check_open : Instant → List AccountModel → Result (Unit {0})
check_open occurred_at [] = ok tt
check_open occurred_at (a ∷ rest) = do
  raise_if (not (is_active a.status)) (status_code a.status)
  raise_if (ltb_ℤ occurred_at a.opened_at) Error.transaction_before_account_opened
  check_open occurred_at rest

-- `AccountRepository.get_snapshots`, as the positions that the preview takes.
unfoldable pub positions_of :
    ℕ → Instant → Store → List AccountModel → Result (List AccountPosition)
unfolding in_range account_position
positions_of user as_of s [] = ok []
positions_of user as_of s (a ∷ rest) = do
  balance ← in_range (a.opening_balance +ℤ movement_total user a.id as_of s.transactions) a.currency
  position ← account_position a.id balance a.allow_negative (pos a.version)
  others ← positions_of user as_of s rest
  ok (position ∷ others)

-- Both of the fee's parts, or none.
unfoldable pub fee_of : Option ℕ → Option Money → Result (Option TransferFee)
fee_of none none = ok none
fee_of (some account) (some amount) = ok (some (record { account_id = account; amount = amount }))
fee_of _ _ = err Error.invalid_transfer_fee

-- `SHA-256` and `uuid5` are parameters.
module _ (digest : List FingerprintPart → Text) (uuid5 : ℕ → Text → ℕ) (now : Instant)
    (user : ℕ) where
  -- `_evaluate`.
  unfoldable pub evaluate :
      TransferPreviewCommand → Store → Result (List AccountModel × TransferPreview Text)
  unfolding normalize_timestamp require_not_future fee_of get_owned_many check_open positions_of
      preview_transfer dedup
  evaluate command s = do
    occurred_at ← normalize_timestamp command.occurred_at
    require_not_future occurred_at now
    fee ← fee_of command.fee_account_id command.fee_amount
    let ids = transfer_accounts command
    let models = get_owned_many ids user s
    raise_if (not (length models == length ids)) Error.account_not_found
    check_open occurred_at models
    positions ← positions_of user (max_instant now occurred_at) s models
    preview ←
        preview_transfer digest positions command.source_account_id command.destination_account_id
          command.source_amount command.destination_amount command.fx_rate fee
    ok (models, preview)
