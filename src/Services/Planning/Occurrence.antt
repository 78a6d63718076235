-- ===== src/Services/Planning/Occurrence.antt =====
-- The state machine of an occurrence.
use plan_it.Common.{
  ◌≡◌, arith, refl, some, ok, err, Error, not, ℕ, Option, >>=-eq-ok, or_raise, ap, sym,
  ok-injective, ◌∙◌, or_raise-eq-ok, subst, raise_if-eq-ok,
}
use plan_it.Common.Text.{Text}
use plan_it.Common.Time.{Instant}
use plan_it.Planning.{Zone}
use plan_it.Services.Planning.Due.{
  record_due, create_occurrence_draft, draft_id, draft_occurrence, skip_occurrence, draft_from,
  is_due_status,
}
use plan_it.Store.Planning.{get_occurrence, occurrence_key, get_rule}
use plan_it.Store.{Store, add_batch_event}
use plan_it.Store.Rows.{RecurringOccurrenceModel, OccurrenceStatus}
use plan_it.Store.Table.{put, find, find-key, find-put}

module _ (name_of : ℕ → Text → ℕ) (isoformat : Instant → Text)
    (zone_info : Text → Option Zone) where
  get_occurrence-find :
      (id user : ℕ) (s : Store) {o : RecurringOccurrenceModel}
      → get_occurrence id user s ≡ some o
      → (find occurrence_key id s.occurrences ≡ some o) × (o.user_id ≡ user) × (o.id ≡ id)
  unfolding get_occurrence
  get_occurrence-find id user s {o} h =
      let held : find occurrence_key id s.occurrences ≡ some o = ground arith in
      let owner : o.user_id ≡ user = ground arith in
      (held, owner, find-key occurrence_key id s.occurrences held)

  record IsDrafted (id user : ℕ) (t : Store) : Type 0 where
    row : RecurringOccurrenceModel
    owned : get_occurrence id user t ≡ some row
    drafted : row.status ≡ OccurrenceStatus.draft_created

  -- A row of the user that is put is found.
  get_occurrence-put :
      (id user : ℕ) (row : RecurringOccurrenceModel) (s t : Store)
      → t.occurrences ≡ put occurrence_key row s.occurrences
      → row.id ≡ id
      → row.user_id ≡ user
      → get_occurrence id user t ≡ some row
  unfolding get_occurrence
  get_occurrence-put id user row s t after same owner =
      let held : find occurrence_key id t.occurrences ≡ some row =
        ap (find occurrence_key id) after
        ∙ (find-put occurrence_key row s.occurrences id ∙ ground arith) in
      ground arith

  record_due-IsDrafted :
      (id user : ℕ) (o : RecurringOccurrenceModel) (s : Store) {t : Store}
      → o.id ≡ id
      → o.user_id ≡ user
      → record_due name_of isoformat zone_info user o s ≡ ok t
      → IsDrafted id user t
  unfolding record_due add_batch_event
  record_due-IsDrafted id user o s {t} same owner h =
      let (rule, found, h₁) =
        >>=-eq-ok (or_raise (get_rule o.rule_id user s) Error.recurring_rule_not_found) _ h in
      let (made, drafted, h₂) =
        >>=-eq-ok (create_occurrence_draft name_of isoformat zone_info rule o.id o.scheduled_for s)
          _ h₁ in
      let row = record o {
        transaction_id = some (draft_id name_of isoformat zone_info o.id);
        status = OccurrenceStatus.draft_created;
      } in
      record {
        row = row;
        owned =
            get_occurrence-put id user row made t (ap (λ u. u.occurrences) (sym (ok-injective h₂)))
              same owner;
        drafted = refl;
      }

  draft_from-IsDrafted :
      (status : OccurrenceStatus) (id user : ℕ) (o : RecurringOccurrenceModel) (s : Store)
      {t : Store}
      → o.status ≡ status
      → get_occurrence id user s ≡ some o
      → draft_from name_of isoformat zone_info status user o s ≡ ok t
      → IsDrafted id user t
  unfolding draft_from
  draft_from-IsDrafted OccurrenceStatus.draft_created id user o s is owned h =
      subst (IsDrafted id user) (ok-injective h) (record { row = o; owned = owned; drafted = is })
  draft_from-IsDrafted OccurrenceStatus.due id user o s is owned h =
      let (_, owner, same) = get_occurrence-find id user s owned in
      record_due-IsDrafted id user o s same owner h
  draft_from-IsDrafted OccurrenceStatus.recorded id user o s is owned h = cc
  draft_from-IsDrafted OccurrenceStatus.skipped id user o s is owned h = cc

  -- Recording an occurrence again, after it has succeeded, succeeds and changes nothing.
  pub draft_occurrence-again :
      (user id : ℕ) (s : Store) {t : Store}
      → draft_occurrence name_of isoformat zone_info user id s ≡ ok t
      → draft_occurrence name_of isoformat zone_info user id t ≡ ok t
  unfolding draft_occurrence draft_from
  draft_occurrence-again user id s {t} h =
      let (o, found, h₁) =
        >>=-eq-ok (or_raise (get_occurrence id user s) Error.occurrence_not_found) _ h in
      let d = draft_from-IsDrafted o.status id user o s refl (or_raise-eq-ok _ _ found) h₁ in
      let owned = d.owned in let drafted = d.drafted in rw (owned, drafted) refl

  -- An occurrence that has been skipped is neither recorded nor skipped again.
  pub skip_occurrence-final :
      (user id : ℕ) (s : Store) {t : Store}
      → skip_occurrence user id s ≡ ok t
      → (draft_occurrence name_of isoformat zone_info user id t
          ≡ err Error.occurrence_not_recordable)
        × (skip_occurrence user id t ≡ err Error.occurrence_not_skippable)
  unfolding skip_occurrence draft_occurrence draft_from add_batch_event
  skip_occurrence-final user id s {t} h =
      let (o, found, h₁) =
        >>=-eq-ok (or_raise (get_occurrence id user s) Error.occurrence_not_found) _ h in
      let (_, h₂) = raise_if-eq-ok (not (is_due_status o.status)) _ _ h₁ in
      let (_, owner, same) = get_occurrence-find id user s (or_raise-eq-ok _ _ found) in
      let row = record o { status = OccurrenceStatus.skipped } in
      let owned =
        get_occurrence-put id user row s t (ap (λ u. u.occurrences) (sym (ok-injective h₂))) same
          owner in
      (rw owned refl, rw owned refl)
