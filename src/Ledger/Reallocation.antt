-- ===== src/Ledger/Reallocation.antt =====
-- `AccountPosition` and `preview_reallocation` (backend/app/domain/ledger/reallocation.py).
pub mod Sums
pub mod Laws
use plan_it.Common.{
  if◌then◌else◌, ◌>>◌, ◌>>=◌, ◌∷◌, [], ok, false, Error, Result, not, ℕ, List, map, get_or, ◌==◌,
  raise_if, Bool, leb, mem, ltb, lookup, length, ◌||◌, ◌&&◌, is_some, any,
}
use plan_it.Common.Text.{Text, text_eq}
use plan_it.Common.Int.{ℤ, leb_ℤ, ltb_ℤ, pos}
use plan_it.Money.{Money, zero_money, plus, money_eq, minus}

pub record AccountPosition : Type 0 where
  pub account_id : ℕ
  pub balance : Money
  pub allow_negative : Bool
  pub version : ℤ

-- The constructor, with `__post_init__`.
unfoldable pub account_position : ℕ → Money → Bool → ℤ → Result AccountPosition
account_position account_id balance allow_negative version = do
  raise_if (leb_ℤ version (pos 0)) Error.invalid_version
  ok (record {
    account_id = account_id;
    balance = balance;
    allow_negative = allow_negative;
    version = version;
  })

pub record ReallocationLine : Type 0 where
  pub account_id : ℕ
  pub before : Money
  pub target : Money
  pub delta : Money

pub record ReallocationPreview (D : Type 0) : Type 0 where
  pub fixed_total : Money
  pub balancing_account_id : ℕ
  pub lines : List ReallocationLine
  pub source_fingerprint : D

-- One part of the text that is hashed: an account with its version and balance.
abbrev pub FingerprintPart : Type 0
FingerprintPart = ℕ × ℤ × ℤ

abbrev insert_position : AccountPosition → List AccountPosition → List AccountPosition
insert_position p [] = p ∷ []
insert_position p (q ∷ qs) =
    if leb p.account_id q.account_id then p ∷ q ∷ qs else q ∷ insert_position p qs

-- `sorted(positions, key=str(account_id))`: the texts of identifiers have one length and stand in
-- the order of the identifiers.
abbrev sort_positions : List AccountPosition → List AccountPosition
sort_positions [] = []
sort_positions (p ∷ ps) = insert_position p (sort_positions ps)

abbrev fingerprint_part : AccountPosition → FingerprintPart
fingerprint_part p = (p.account_id, p.version, p.balance.amount)

abbrev pub ids : List AccountPosition → List ℕ
ids [] = []
ids (p ∷ ps) = p.account_id ∷ ids ps

-- `len(by_id) != len(positions)`: some identifier occurs twice.
abbrev pub has_duplicate : List ℕ → Bool
has_duplicate [] = false
has_duplicate (k ∷ ks) = mem k ks || has_duplicate ks

abbrev pub Requests : Type 0
Requests = List (ℕ × Money)

-- `set(requested_balances) - set(by_id)` is not empty.
abbrev has_unknown : Requests → List ℕ → Bool
has_unknown [] known = false
has_unknown ((k, _) ∷ rs) known = not (mem k known) || has_unknown rs known

abbrev foreign_position : Text → AccountPosition → Bool
foreign_position c p = not (text_eq p.balance.currency c)

abbrev foreign_request : Text → ℕ × Money → Bool
foreign_request c (_, m) = not (text_eq m.currency c)

-- The loop that adds up the balances.
pub total_from : Money → List AccountPosition → Result Money
total_from total [] = ok total
total_from total (p ∷ ps) = do next ← plus total p.balance; total_from next ps

-- `requested_balances.get(position.account_id, position.balance)`.
abbrev pub requested_target : Requests → AccountPosition → Money
requested_target requested p = get_or (lookup p.account_id requested) p.balance

-- The loop that adds up the targets of all accounts but the balancing one.
pub non_balancing_from : ℕ → Requests → Money → List AccountPosition → Result Money
non_balancing_from balancing requested total [] = ok total
non_balancing_from balancing requested total (p ∷ ps) =
    if p.account_id == balancing then non_balancing_from balancing requested total ps else do
      next ← plus total (requested_target requested p)
      non_balancing_from balancing requested next ps

-- `targets[position.account_id]`, where identifiers are unique.
abbrev pub target_for : ℕ → Requests → Money → AccountPosition → Money
target_for balancing requested derived p =
    if p.account_id == balancing then derived else requested_target requested p

unfoldable pub reallocation_line : Money → AccountPosition → Result ReallocationLine
reallocation_line target p = do
  raise_if (ltb_ℤ target.amount (pos 0) && not p.allow_negative) Error.negative_balance_not_allowed
  delta ← minus target p.balance
  ok (record { account_id = p.account_id; before = p.balance; target = target; delta = delta })

-- The loop that makes the lines.
pub lines_for : ℕ → Requests → Money → List AccountPosition → Result (List ReallocationLine)
lines_for balancing requested derived [] = ok []
lines_for balancing requested derived (p ∷ ps) = do
  line ← reallocation_line (target_for balancing requested derived p) p
  rest ← lines_for balancing requested derived ps
  ok (line ∷ rest)

-- The checks on the arguments, in the order of the source.
unfoldable pub check_reallocation : List AccountPosition → Money → ℕ → Requests → Result (Unit {0})
check_reallocation positions fixed_total balancing requested = do
  raise_if (ltb (length positions) 2) Error.reallocation_requires_multiple_accounts
  raise_if (has_duplicate (ids positions)) Error.duplicate_account
  raise_if (not (mem balancing (ids positions))) Error.balancing_account_required
  raise_if (is_some (lookup balancing requested)) Error.balancing_account_is_derived
  raise_if (has_unknown requested (ids positions)) Error.unauthorized_entity
  raise_if (any (foreign_position fixed_total.currency) positions) Error.currency_mismatch
  raise_if (any (foreign_request fixed_total.currency) requested) Error.currency_mismatch

-- `digest` stands for the text of the parts, its UTF-8 bytes and their SHA-256.
module _ {D : Type 0} (digest : List FingerprintPart → D) where
  unfoldable pub fingerprint_positions : List AccountPosition → D
  fingerprint_positions positions = digest (map fingerprint_part (sort_positions positions))

  unfoldable pub preview_reallocation :
      List AccountPosition → Money → ℕ → Requests → Result (ReallocationPreview D)
  unfolding check_reallocation zero_money total_from money_eq non_balancing_from minus lines_for
      fingerprint_positions
  preview_reallocation positions fixed_total balancing requested = do
    check_reallocation positions fixed_total balancing requested
    nothing ← zero_money fixed_total.currency
    current_total ← total_from nothing positions
    raise_if (not (money_eq current_total fixed_total)) Error.stale_balance
    non_balancing_total ← non_balancing_from balancing requested nothing positions
    derived ← minus fixed_total non_balancing_total
    lines ← lines_for balancing requested derived positions
    ok (record {
      fixed_total = fixed_total;
      balancing_account_id = balancing;
      lines = lines;
      source_fingerprint = fingerprint_positions positions;
    })
