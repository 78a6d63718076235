-- ===== src/Services/Idempotency.antt =====
-- `execute_idempotent` (backend/app/application/idempotency.py): one write and the record of its
-- response in the same transaction. Bodies are documents in the normal form that
-- `normalize_json_object` gives them. The advisory lock makes the calls for one key run one after
-- the other.
pub mod Replay
mod Tests
use plan_it.Common.{
  if◌then◌else◌, ◌>>◌, ◌>>=◌, ◌∷◌, ◌≡◌, arith, refl, ◌+◌, some, none, [], ok, err, true, false,
  zero, suc, inl, inr, Error, Result, not, ℕ, raise_if, Bool, List, Option, ◌==◌, ltb, ◌&&◌,
  or_raise, ◌||◌, length, any,
}
use plan_it.Common.Text.{Text, text_eq, text}
use plan_it.Common.Time.{Instant}
use plan_it.Common.Int.{ℤ, leb_ℤ, pos, ◌+ℤ◌}

pub record OperationResponse (Body : Type 0) : Type 0 where
  pub status_code : ℕ
  pub body : Body

pub record IdempotencyResult (Body : Type 0) : Type 0 where
  pub status_code : ℕ
  pub body : Body
  pub replayed : Bool

pub record IdempotencyKeyModel (Body : Type 0) : Type 0 where
  pub user_id : ℕ
  pub scope : Text
  pub key : ℕ
  pub request_hash : ℕ
  pub response_status : Option ℕ
  pub response_json : Option Body
  pub expires_at : Instant

-- What an operation does to the other tables: it returns, raises, or is refused by a constraint.
pub data Outcome (Body : Type 0) (Tables : Type 0) : Type 0 where
  returned : OperationResponse Body → Tables → Outcome Body Tables
  raised : Error → Outcome Body Tables
  refused : Text → Outcome Body Tables

pub record Session (Body : Type 0) (Tables : Type 0) : Type 0 where
  pub keys : List (IdempotencyKeyModel Body)
  pub tables : Tables
  pub in_transaction : Bool

abbrev pub financial_integrity_constraints : List Text
financial_integrity_constraints =
    text "debt_origin_coherent"
    ∷ text "debt_origin_link_required"
    ∷ text "debt_overpayment"
    ∷ text "debt_payment_coherent"
    ∷ text "debt_payment_link_required"
    ∷ text "debt_status_coherent"
    ∷ text "financial_group_immutable"
    ∷ text "fx_transfer_coherent"
    ∷ text "reallocation_session_coherent"
    ∷ text "reallocation_transfer_coherent"
    ∷ text "reconciliation_adjustment_coherent"
    ∷ text "reconciliation_adjustment_link_required"
    ∷ text "recoverable_expense_required"
    ∷ text "refund_exceeds_remaining"
    ∷ text "refund_parent_required"
    ∷ text "refund_transaction_coherent"
    ∷ text "same_currency_transfer_coherent"
    ∷ text "shared_expense_cap"
    ∷ text "shared_expense_debt_coherent"
    ∷ text "transfer_destination_transaction_required"
    ∷ text "transfer_fee_coherent"
    ∷ text "transfer_fee_link_required"
    ∷ text "transfer_in_link_required"
    ∷ text "transfer_out_link_required"
    ∷ text "transfer_pair_coherent"
    ∷ text "transfer_source_transaction_required"
    ∷ text "transfer_status_coherent"
    ∷ []

-- The exception for an `IntegrityError` of a constraint.
unfoldable pub integrity_code : Text → Error
unfolding text_eq
integrity_code name =
    if any (text_eq name) financial_integrity_constraints
    then Error.financial_integrity_conflict
    else Error.integrity_error

module _ {Body : Type 0} where
  abbrev pub is_record_of : ℕ → Text → ℕ → IdempotencyKeyModel Body → Bool
  is_record_of user scope key r = r.user_id == user && (text_eq r.scope scope && r.key == key)

  unfoldable pub find_record :
      ℕ → Text → ℕ → List (IdempotencyKeyModel Body) → Option (IdempotencyKeyModel Body)
  find_record user scope key [] = none
  find_record user scope key (r ∷ rs) =
      if is_record_of user scope key r then some r else find_record user scope key rs

  unfoldable pub delete_record :
      ℕ → Text → ℕ → List (IdempotencyKeyModel Body) → List (IdempotencyKeyModel Body)
  delete_record user scope key [] = []
  delete_record user scope key (r ∷ rs) =
      let rest = delete_record user scope key rs in
      if is_record_of user scope key r then rest else r ∷ rest

  -- The record that answers, once an expired one is deleted, and the records left.
  unfoldable pub keep_live :
      Instant
      → ℕ
      → Text
      → ℕ
      → List (IdempotencyKeyModel Body)
      → Option (IdempotencyKeyModel Body)
      → Option (IdempotencyKeyModel Body) × List (IdempotencyKeyModel Body)
  unfolding delete_record
  keep_live now user scope key rs none = (none, rs)
  keep_live now user scope key rs (some r) =
      if leb_ℤ r.expires_at now then (none, delete_record user scope key rs) else (some r, rs)

  unfoldable pub replay : ℕ → IdempotencyKeyModel Body → Result (IdempotencyResult Body)
  replay hash r = do
    raise_if (not (r.request_hash == hash)) Error.idempotency_conflict
    status ← or_raise r.response_status Error.runtime_error
    body ← or_raise r.response_json Error.runtime_error
    ok (record { status_code = status; body = body; replayed = true })

  abbrev pub new_record :
      ℕ → Text → ℕ → ℕ → Instant → OperationResponse Body → IdempotencyKeyModel Body
  new_record user scope key hash expires_at response = record {
    user_id = user;
    scope = scope;
    key = key;
    request_hash = hash;
    response_status = some response.status_code;
    response_json = some response.body;
    expires_at = expires_at;
  }

-- `hash_request` is SHA-256 of the canonical JSON, `check_commit` a constraint that the database
-- checks only when the transaction commits.
module _ {Body : Type 0} {Request : Type 0} {Tables : Type 0} (hash_request : Request → ℕ)
    (check_commit : Tables → Option Text) where
  unfoldable pub commit :
      Option Text
      → OperationResponse Body
      → List (IdempotencyKeyModel Body)
      → Tables
      → Result (IdempotencyResult Body × Session Body Tables)
  commit (some name) response rs tables = err (integrity_code name)
  commit none response rs tables = ok (
    record { status_code = response.status_code; body = response.body; replayed = false },
    record { keys = rs; tables = tables; in_transaction = false },
  )

  unfoldable pub store_response :
      (OperationResponse Body → IdempotencyKeyModel Body)
      → List (IdempotencyKeyModel Body)
      → Outcome Body Tables
      → Result (IdempotencyResult Body × Session Body Tables)
  unfolding commit
  store_response record_of rs (raised code) = err code
  store_response record_of rs (refused name) = err (integrity_code name)
  store_response record_of rs (returned response tables) = do
    raise_if (ltb response.status_code 200 || ltb 599 response.status_code) Error.value_error
    commit (check_commit tables) response (record_of response ∷ rs) tables

  -- The response of a record that is alive; else the operation runs and its response is stored.
  unfoldable pub answer :
      Option (IdempotencyKeyModel Body) × List (IdempotencyKeyModel Body)
      → ℕ
      → (OperationResponse Body → IdempotencyKeyModel Body)
      → (Tables → Outcome Body Tables)
      → Tables
      → Result (IdempotencyResult Body × Session Body Tables)
  unfolding replay store_response
  answer (some r, rs) hash record_of operation tables = do
    result ← replay hash r
    ok (result, record { keys = rs; tables = tables; in_transaction = false })
  answer (none, rs) hash record_of operation tables = store_response record_of rs (operation tables)

  unfoldable pub execute_idempotent :
      (now : Instant) (user : ℕ) (scope : Text) (key : ℕ)
      → Request
      → (Tables → Outcome Body Tables)
      → ℤ
      → Session Body Tables
      → Result (IdempotencyResult Body × Session Body Tables)
  unfolding find_record keep_live answer
  execute_idempotent now user scope key request operation ttl s = do
    raise_if (length scope == 0 || ltb 80 (length scope)) Error.value_error
    raise_if (leb_ℤ ttl (pos 0)) Error.value_error
    raise_if s.in_transaction Error.runtime_error
    answer (keep_live now user scope key s.keys (find_record user scope key s.keys))
        (hash_request request) (new_record user scope key (hash_request request) (now +ℤ ttl))
        operation s.tables
