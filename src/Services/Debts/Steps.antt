-- ===== src/Services/Debts/Steps.antt =====
-- What `create` and `cancel` write to the table of debts.
use plan_it.Common.{
  if◌then◌else◌, ◌∷◌, ◌≡◌, refl, some, none, ok, true, false, Error, not, ℕ, Option, Bool, is_some,
  raise_if-eq-ok, ap, subst, sym, any, ◌&&◌, >>=-eq-ok, ok-injective, ◌∙◌, or_raise, ◌==◌,
  or_raise-eq-ok,
}
use plan_it.Common.Text.{Text, text}
use plan_it.Common.Time.{Instant, Datetime}
use plan_it.Common.Int.{ltb_ℤ}
use plan_it.Store.{
  AccountModel, add_audit_event, DebtModel, TransactionModel, Store, AuditAction, PersonModel,
  debt_key,
}
use plan_it.Store.Debts.{insert_debt, with_debt, get_debt, repeats_debt, get_person}
use plan_it.Services.Debts.{
  create, cancel, post_origin, CreateDebtCommand, flush_movement, CancelDebtCommand, cancelled_debt,
  is_settled, is_cash_origin, origin_effect, new_debt, origin_kind,
}
use plan_it.Store.Table.{find, put}
use plan_it.Store.Movement.{with_account, bump_account, build_posted_movement}
use plan_it.Ledger.Policies.{
  normalize_timestamp, require_not_future, normalize_optional_text, TextField,
}
use plan_it.Money.{require_positive}
use plan_it.Services.Debts.Effect.{flush_movement-eq-ok}
use plan_it.Debts.{require_origin_direction}
use plan_it.Store.Balance.{require_account, require_projected_balance}

cancelled_lem :
    (now : Instant) (user operation : ℕ) (d : DebtModel) (reason : Text) (s : Store) {t : Store}
    → ok (
        add_audit_event user AuditAction.cancel_debt d.id operation
          (with_debt (cancelled_debt now d reason) s))
      ≡ ok t
    → t.debts ≡ put debt_key (cancelled_debt now d reason) s.debts
unfolding add_audit_event
cancelled_lem now user operation d reason s h = ap (λ u. u.debts) (sym (ok-injective h))

module _ (uuid5 : ℕ → Text → ℕ) (now : Instant) (user : ℕ) where
  pub cancel-eq-ok :
      (debt_id : ℕ) (command : CancelDebtCommand) (operation : ℕ) (s : Store) {t : Store}
      → cancel uuid5 now user debt_id command operation s ≡ ok t
      → (debt : DebtModel) × (reason : Text) × (get_debt debt_id user s ≡ some debt)
        × (is_settled debt.status ≡ false)
        × (t.debts ≡ put debt_key (cancelled_debt now debt reason) s.debts)
  unfolding cancel
  cancel-eq-ok debt_id command operation s {t} h =
      let (debt, found, h₁) =
        >>=-eq-ok (or_raise (get_debt debt_id user s) Error.debt_not_found) _ h in
      let (_, h₂) = raise_if-eq-ok (not (debt.version == command.version)) _ _ h₁ in
      let (open_still, h₃) = raise_if-eq-ok (is_settled debt.status) _ _ h₂ in
      let (cleaned, _, h₄) =
        >>=-eq-ok (normalize_optional_text (some command.reason) TextField.other_text 1000) _ h₃ in
      let (reason, _, h₅) = >>=-eq-ok (or_raise cleaned Error.cancellation_reason_required) _ h₄ in
      (
        debt,
        reason,
        or_raise-eq-ok _ _ found,
        open_still,
        cancelled_lem now user operation debt reason s h₅,
      )

absent_lem : (r : Option DebtModel) → is_some r ≡ false → r ≡ none
absent_lem none h = refl
absent_lem (some d) h = cc

insert_debt-debts :
    (d : DebtModel) (s : Store) {t : Store}
    → insert_debt d s ≡ ok t
    → (find debt_key d.id s.debts ≡ none) × (t.debts ≡ d ∷ s.debts)
unfolding insert_debt
insert_debt-debts d s h =
    let (fresh, h₁) = raise_if-eq-ok (is_some (find debt_key d.id s.debts)) _ _ h in
    let (_, done) =
      raise_if-eq-ok (any (repeats_debt d.user_id d.client_operation_id) s.debts) _ _ h₁ in
    (absent_lem _ fresh, ap (λ u. u.debts) (sym (ok-injective done)))

posted_origin :
    (a : AccountModel) (m : TransactionModel) (id : ℕ) (s : Store) {flushed : Store}
    {r : Store × Option ℕ}
    → flush_movement m s ≡ ok flushed
    → ok (with_account (bump_account a) flushed, some id) ≡ ok r
    → r.0.debts ≡ s.debts
posted_origin a m id s {flushed} {r} moved done =
    ap (λ (q : Store × Option ℕ). q.0.debts) (sym (ok-injective done))
    ∙ ap (λ u. u.debts) (sym (flush_movement-eq-ok m s moved))

module _ (uuid5 : ℕ → Text → ℕ) (now : Instant) (user : ℕ) where
  post_origin-debts :
      (command : CreateDebtCommand) (person : PersonModel) (account transaction : Option ℕ)
      (time : Option Datetime) (s : Store) {r : Store × Option ℕ}
      → post_origin uuid5 now user command person account transaction time s ≡ ok r
      → r.0.debts ≡ s.debts
  unfolding post_origin
  post_origin-debts command person none _ _ s h = cc
  post_origin-debts command person (some _) none _ s h = cc
  post_origin-debts command person (some _) (some _) none s h = cc
  post_origin-debts command person (some account_id) (some transaction_id) (some time) s h =
      let effect = origin_effect command.origin_type in
      let (occurred_at, _, h₁) = >>=-eq-ok (normalize_timestamp time) _ h in
      let (_, _, h₂) = >>=-eq-ok (require_not_future occurred_at now) _ h₁ in
      let (a, _, h₃) = >>=-eq-ok (require_account account_id user command.amount s) _ h₂ in
      let (_, h₄) = raise_if-eq-ok (ltb_ℤ occurred_at a.opened_at) _ _ h₃ in
      let (_, _, h₅) =
        >>=-eq-ok (require_projected_balance a user command.amount effect occurred_at now s) _ h₄ in
      let (note, _, h₆) =
        >>=-eq-ok (normalize_optional_text command.note TextField.other_text 2000) _ h₅ in
      let m =
        build_posted_movement transaction_id user a (origin_kind command.origin_type) effect
          command.amount occurred_at (some person.name) note
          (uuid5 command.client_operation_id (text "debt-origin")) in
      let (flushed, moved, h₇) = >>=-eq-ok (flush_movement m s) _ h₆ in
      posted_origin a m transaction_id s moved h₇

  chosen_origin :
      (cash : Bool) (command : CreateDebtCommand) (person : PersonModel) (s : Store)
      {r : Store × Option ℕ}
      → (if cash
          then post_origin uuid5 now user command person command.account_id command.transaction_id
              command.occurred_at s
          else ok (s, none))
        ≡ ok r
      → r.0.debts ≡ s.debts
  chosen_origin true command person s h =
      post_origin-debts command person command.account_id command.transaction_id command.occurred_at
        s h
  chosen_origin false command person s h =
      ap (λ (q : Store × Option ℕ). q.0.debts) (sym (ok-injective h))

  stored_lem :
      (row : DebtModel) (id operation : ℕ) (s posted : Store) {stored t : Store}
      → posted.debts ≡ s.debts
      → insert_debt row posted ≡ ok stored
      → ok (add_audit_event user AuditAction.create_debt id operation stored) ≡ ok t
      → (find debt_key row.id s.debts ≡ none) × (t.debts ≡ row ∷ s.debts)
  unfolding add_audit_event
  stored_lem row id operation s posted {stored} {t} same inserted done =
      let (fresh, added) = insert_debt-debts row posted inserted in
      (
        subst (λ ds. find debt_key row.id ds ≡ none) same fresh,
        ap (λ u. u.debts) (sym (ok-injective done)) ∙ (added ∙ ap (λ ds. row ∷ ds) same),
      )

  pub create-eq-ok :
      (command : CreateDebtCommand) (s : Store) {t : Store}
      → create uuid5 now user command s ≡ ok t
      → (row : DebtModel) × (find debt_key row.id s.debts ≡ none) × (t.debts ≡ row ∷ s.debts)
  unfolding create
  create-eq-ok command s {t} h =
      let cash = is_cash_origin command.origin_type in
      let given =
        is_some command.account_id
        && (is_some command.transaction_id && is_some command.occurred_at) in
      let (_, _, h₁) = >>=-eq-ok (require_positive command.amount Error.non_positive_amount) _ h in
      let (_, _, h₂) =
        >>=-eq-ok (require_origin_direction command.origin_type command.direction) _ h₁ in
      let (person, _, h₃) =
        >>=-eq-ok (or_raise (get_person command.person_id user s) Error.person_not_found) _ h₂ in
      let (_, h₄) = raise_if-eq-ok (is_some person.archived_at) _ _ h₃ in
      let (_, h₅) = raise_if-eq-ok (if cash then not given else given) _ _ h₄ in
      let ((posted, origin), chosen, h₆) =
        >>=-eq-ok
          (if cash
            then post_origin uuid5 now user command person command.account_id command.transaction_id
                command.occurred_at s
            else ok (s, none))
          _ h₅ in
      let (note, _, h₇) =
        >>=-eq-ok (normalize_optional_text command.note TextField.other_text 2000) _ h₆ in
      let row = new_debt user command person origin note in
      let (stored, inserted, h₈) = >>=-eq-ok (insert_debt row posted) _ h₇ in
      let (fresh, after) =
        stored_lem row command.id command.client_operation_id s posted
          (chosen_origin cash command person s chosen) inserted h₈ in
      (row, fresh, after)
