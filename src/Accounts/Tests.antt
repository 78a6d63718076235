-- ===== src/Accounts/Tests.antt =====
-- Edits of accounts at concrete inputs.
use plan_it.Common.{◌∷◌, ◌≡◌, refl, [], ok, true, ◌↔◌, ◌⊎◌, List}
use plan_it.Accounts.{validate_account_edit, AccountField, only_status}
use plan_it.Ledger.Enums.{AccountStatus}
use plan_it.Accounts.Laws.{validate_account_edit_iff, WasActive, closed-WasActive, Edits, Edit}

reopened :
    validate_account_edit AccountStatus.closed AccountStatus.active (AccountField.status ∷ [])
    ≡ ok tt
unfolding validate_account_edit
reopened = refl

validate_account_edit_iff_example :
    (validate_account_edit AccountStatus.closed AccountStatus.active (AccountField.status ∷ [])
      ≡ ok tt)
    ↔ ((AccountStatus.closed ≡ AccountStatus.active)
        ⊎ ((only_status (AccountField.status ∷ []) ≡ true)
            × ((AccountStatus.active ≡ AccountStatus.active)
                ⊎ ((AccountStatus.closed ≡ AccountStatus.archived)
                    × (AccountStatus.active ≡ AccountStatus.closed)))))
validate_account_edit_iff_example =
    validate_account_edit_iff AccountStatus.closed AccountStatus.active (AccountField.status ∷ [])

abbrev trail : List AccountStatus
trail = AccountStatus.archived ∷ AccountStatus.active ∷ AccountStatus.closed ∷ []

archived_later : validate_account_edit AccountStatus.active AccountStatus.archived [] ≡ ok tt
unfolding validate_account_edit
archived_later = refl

closed-WasActive_example : WasActive trail
closed-WasActive_example =
    closed-WasActive AccountStatus.archived trail
      (Edits.next (Edits.next Edits.start (Edit.edit _ reopened)) (Edit.edit _ archived_later))
      (λ e. cc)
