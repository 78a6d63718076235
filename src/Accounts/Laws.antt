-- ===== src/Accounts/Laws.antt =====
-- The life of an account as a state machine.
use plan_it.Common.{◌∷◌, ◌≡◌, arith, refl, [], ok, true, inl, inr, List, ◌⊎◌, ◌↔◌, ◌≢◌}
use plan_it.Accounts.{validate_account_edit, AccountField, only_status}
use plan_it.Ledger.Enums.{AccountStatus}

-- An edit is accepted exactly when the account is active, or when it changes the status alone: to
-- active, or of an archived account to closed.
pub validate_account_edit_iff :
    (current requested : AccountStatus) (fields : List AccountField)
    → (validate_account_edit current requested fields ≡ ok tt) ↔ (
        (current ≡ AccountStatus.active)
        ⊎ ((only_status fields ≡ true)
            × ((requested ≡ AccountStatus.active)
                ⊎ ((current ≡ AccountStatus.archived) × (requested ≡ AccountStatus.closed)))))
unfolding validate_account_edit
validate_account_edit_iff current requested fields = ground arith

-- One accepted edit takes an account from a status to the requested one; a trail lists the statuses
-- that a sequence of edits passes, the latest first.
pub data Edit (s : AccountStatus) (t : AccountStatus) : Type 0 where
  edit : (fields : List AccountField) → validate_account_edit s t fields ≡ ok tt → Edit s t

pub data Edits (s : AccountStatus) : AccountStatus → List AccountStatus → Type 0 where
  start : Edits s s (s ∷ [])
  next :
      {t u : AccountStatus} {seen : List AccountStatus}
      → Edits s t seen
      → Edit t u
      → Edits s u (u ∷ seen)

abbrev pub WasActive : List AccountStatus → Type 0
WasActive [] = ⊥
WasActive (s ∷ seen) = (s ≡ AccountStatus.active) ⊎ WasActive seen

next_of_closed :
    (t u : AccountStatus) → Edit t u → t ≡ AccountStatus.closed → u ≡ AccountStatus.active
next_of_closed t u (edit fields h) e =
    let accepted = (validate_account_edit_iff t u fields).0 h in ground arith

closed_or_active :
    {t : AccountStatus} {seen : List AccountStatus}
    → Edits AccountStatus.closed t seen
    → (t ≡ AccountStatus.closed) ⊎ WasActive seen
closed_or_active start = inl refl
closed_or_active (next {t} {u} {seen} trail last) = elim (closed_or_active trail) [
  | inl closed ↦ inr (inl (next_of_closed t u last closed))
  | inr active ↦ inr (inr active)
]

-- A sequence of accepted edits that takes a closed account to another status has passed through
-- active.
pub closed-WasActive :
    (t : AccountStatus) (seen : List AccountStatus)
    → Edits AccountStatus.closed t seen
    → t ≢ AccountStatus.closed
    → WasActive seen
closed-WasActive t seen trail left = elim (closed_or_active trail) [
  | inl closed ↦ absurd (left closed)
  | inr active ↦ active
]
