-- ===== src/Services/Planning/Processed.antt =====
-- What processing a due rule writes to the table of occurrences.
use plan_it.Common.{
  ◌∷◌, ◌≡◌, arith, refl, some, [], ok, true, false, inl, inr, ℕ, List, Option, raise_if-eq-ok,
  >>=-eq-ok, Bool-cases, any, ap, sym, ok-injective, subst, ◌∙◌, ◌++◌, All,
}
use plan_it.Common.Text.{Text}
use plan_it.Common.Time.{Instant, Datetime}
use plan_it.Common.Int.{pos}
use plan_it.Store.Rows.{RecurringOccurrenceModel, RecurringRuleModel, OccurrenceStatus}
use plan_it.Store.Planning.{occurrence_for}
use plan_it.Planning.{Zone, advance_due}
use plan_it.Services.Planning.Due.{
  create_occurrence_draft, insert_occurrence, new_occurrence, is_auto_draft, collides, process_rule,
  ensure_occurrence, add_drafted, add_reminder, draft_command, draft_id,
}
use plan_it.Store.{add_batch_event, Store}
use plan_it.Money.{money, scale}
use plan_it.Decimal.{finite, dec}
use plan_it.Services.Transactions.Drafted.{create_draft-IsCreated}

-- No two rows have the same rule and time.
abbrev pub IsUnique : List RecurringOccurrenceModel → Type 0
IsUnique [] = Unit
IsUnique (o ∷ os) = (occurrence_for o.rule_id o.scheduled_for os ≡ false) × IsUnique os

module _ (name_of : ℕ → Text → ℕ) (isoformat : Instant → Text)
    (zone_info : Text → Option Zone) where
  create_occurrence_draft-occurrences :
      (rule : RecurringRuleModel) (occurrence : ℕ) (at : Instant) (s : Store) {t : Store}
      → create_occurrence_draft name_of isoformat zone_info rule occurrence at s ≡ ok t
      → t.occurrences ≡ s.occurrences
  unfolding create_occurrence_draft
  create_occurrence_draft-occurrences rule occurrence at s h =
      let (amount, _, h₁) = >>=-eq-ok (money (finite (dec rule.amount scale)) rule.currency) _ h in
      (create_draft-IsCreated rule.user_id
        (draft_command name_of isoformat zone_info rule occurrence at amount) s
        h₁).occurrences_after

  insert_occurrence-occurrences :
      (o : RecurringOccurrenceModel) (s : Store) {t : Store}
      → insert_occurrence o s ≡ ok t
      → t.occurrences ≡ o ∷ s.occurrences
  unfolding insert_occurrence
  insert_occurrence-occurrences o s h =
      let (_, h₁) = raise_if-eq-ok (any (collides o) s.occurrences) _ _ h in
      ap (λ u. u.occurrences) (sym (ok-injective h₁))

  -- The row that is added for a rule.
  record IsAdded (rule : RecurringRuleModel) (s : Store) (t : Store) : Type 0 where
    row : RecurringOccurrenceModel
    of_rule : row.rule_id ≡ rule.id
    at_time : row.scheduled_for ≡ rule.next_due_at
    occurrences_after : t.occurrences ≡ row ∷ s.occurrences

  add_drafted-IsAdded :
      (user : ℕ) (rule : RecurringRuleModel) (s : Store) {t : Store}
      → add_drafted name_of isoformat zone_info user rule s ≡ ok t
      → IsAdded rule s t
  unfolding add_drafted add_batch_event
  add_drafted-IsAdded user rule s h =
      let o : RecurringOccurrenceModel = new_occurrence name_of isoformat zone_info user rule in
      let row : RecurringOccurrenceModel = record o {
        transaction_id = some (draft_id name_of isoformat zone_info o.id);
        status = OccurrenceStatus.draft_created;
      } in
      let (drafted, made, h₁) =
        >>=-eq-ok (create_occurrence_draft name_of isoformat zone_info rule o.id rule.next_due_at s)
          _ h in
      let (added, inserted, h₂) = >>=-eq-ok (insert_occurrence row drafted) _ h₁ in
      record {
        row = row;
        of_rule = refl;
        at_time = refl;
        occurrences_after =
            ap (λ u. u.occurrences) (sym (ok-injective h₂))
            ∙ (insert_occurrence-occurrences row drafted inserted
                ∙ ap (λ os. row ∷ os)
                    (create_occurrence_draft-occurrences rule o.id rule.next_due_at s made));
      }

  add_reminder-IsAdded :
      (user : ℕ) (rule : RecurringRuleModel) (s : Store) {t : Store}
      → add_reminder name_of isoformat zone_info user rule s ≡ ok t
      → IsAdded rule s t
  unfolding add_reminder add_batch_event
  add_reminder-IsAdded user rule s h =
      let o : RecurringOccurrenceModel = new_occurrence name_of isoformat zone_info user rule in
      let (added, inserted, h₁) = >>=-eq-ok (insert_occurrence o s) _ h in
      record {
        row = o;
        of_rule = refl;
        at_time = refl;
        occurrences_after =
            ap (λ u. u.occurrences) (sym (ok-injective h₁))
            ∙ insert_occurrence-occurrences o s inserted;
      }

  -- What one round leaves in the table.
  pub record IsScheduled (rule : RecurringRuleModel) (before : List RecurringOccurrenceModel)
      (after : List RecurringOccurrenceModel) : Type 0 where
    pub present : occurrence_for rule.id rule.next_due_at after ≡ true
    pub kept :
        (k : ℕ) (at : Instant)
        → occurrence_for k at before ≡ true
        → occurrence_for k at after ≡ true
    pub unique : IsUnique before → IsUnique after
    pub added : List RecurringOccurrenceModel
    pub grown : after ≡ added ++ before
    pub scheduled : All (λ o. (o.rule_id ≡ rule.id) × (o.scheduled_for ≡ rule.next_due_at)) added

  occurrence_for-own :
      (k : ℕ) (at : Instant) (o : RecurringOccurrenceModel) (os : List RecurringOccurrenceModel)
      → o.rule_id ≡ k
      → o.scheduled_for ≡ at
      → occurrence_for k at (o ∷ os) ≡ true
  unfolding occurrence_for
  occurrence_for-own k at o os e f = ground arith

  occurrence_for-later :
      (k : ℕ) (at : Instant) (o : RecurringOccurrenceModel) (os : List RecurringOccurrenceModel)
      → occurrence_for k at os ≡ true
      → occurrence_for k at (o ∷ os) ≡ true
  unfolding occurrence_for
  occurrence_for-later k at o os h = ground arith

  IsAdded-IsScheduled :
      (rule : RecurringRuleModel) (s t : Store)
      → IsAdded rule s t
      → occurrence_for rule.id rule.next_due_at s.occurrences ≡ false
      → IsScheduled rule s.occurrences t.occurrences
  IsAdded-IsScheduled rule s t a new =
      subst (IsScheduled rule s.occurrences) (sym a.occurrences_after) (record {
        present =
            occurrence_for-own rule.id rule.next_due_at a.row s.occurrences a.of_rule a.at_time;
        kept = λ k at h. occurrence_for-later k at a.row s.occurrences h;
        unique = λ known. (
          ap (λ k. occurrence_for k a.row.scheduled_for s.occurrences) a.of_rule
              ∙ (ap (λ at. occurrence_for rule.id at s.occurrences) a.at_time ∙ new),
          known,
        );
        added = a.row ∷ [];
        grown = refl;
        scheduled = ((a.of_rule, a.at_time), tt);
      })

  ensure_occurrence-IsScheduled :
      (user : ℕ) (rule : RecurringRuleModel) (s : Store) {t : Store}
      → ensure_occurrence name_of isoformat zone_info user rule s ≡ ok t
      → IsScheduled rule s.occurrences t.occurrences
  unfolding ensure_occurrence
  ensure_occurrence-IsScheduled user rule s {t} h =
      elim (Bool-cases (occurrence_for rule.id rule.next_due_at s.occurrences)) [
        | inl e ↦
            let same : s ≡ t = ok-injective (rw e at h) in
            subst (λ u. IsScheduled rule s.occurrences u.occurrences) same
              (record {
                present = e;
                kept = λ k at j. j;
                unique = λ known. known;
                added = [];
                grown = refl;
                scheduled = tt;
              })
        | inr e ↦ elim (Bool-cases (is_auto_draft rule.mode)) [
          | inl f ↦
              IsAdded-IsScheduled rule s t (add_drafted-IsAdded user rule s (rw (e, f) at h)) e
          | inr f ↦
              IsAdded-IsScheduled rule s t (add_reminder-IsAdded user rule s (rw (e, f) at h)) e
        ]
      ]

  pub process_rule-IsScheduled :
      (user : ℕ) (rule : RecurringRuleModel) (s : Store) {t : Store}
      → process_rule name_of isoformat zone_info user rule s ≡ ok t
      → IsScheduled rule s.occurrences t.occurrences
  unfolding process_rule
  process_rule-IsScheduled user rule s h =
      let (created, ensured, h₁) =
        >>=-eq-ok (ensure_occurrence name_of isoformat zone_info user rule s) _ h in
      let (next, _, h₂) =
        >>=-eq-ok
          (advance_due zone_info (Datetime.aware rule.next_due_at (pos 0)) rule.frequency
            rule.timezone (some rule.anchor_day))
          _ h₁ in
      subst (λ u. IsScheduled rule s.occurrences u.occurrences) (ok-injective h₂)
        (ensure_occurrence-IsScheduled user rule s ensured)
