-- ===== src/Services/Planning/Scheduled.antt =====
-- What processing the due rules and drafting an occurrence promise.
use mathlib.Core.List.{append_assoc}
use plan_it.Common.{
  ◌∷◌, ◌≡◌, [], ok, true, ℕ, List, Option, All, subst, >>=-eq-ok, ok-injective, refl, inl, inr,
  ◌++◌, ◌∙◌, ap, ◌⊎◌, sym, length,
}
use plan_it.Common.Text.{Text}
use plan_it.Common.Time.{Instant, Datetime, to_utc}
use plan_it.Common.Int.{◌≤ℤ◌}
use plan_it.Store.Rows.{RecurringRuleModel, RecurringOccurrenceModel}
use plan_it.Planning.{Zone, RecurringStatus}
use plan_it.Services.Planning.Due.{process_rules, process_due, process_rule}
use plan_it.Store.Planning.{occurrence_for, due_rules}
use plan_it.Store.{Store}
use plan_it.Services.Planning.Processed.{IsUnique, process_rule-IsScheduled}
use plan_it.Store.Ordered.{Among, All-Among}
use plan_it.Store.Batch.{Among-due_rules, due_rules-Among}

-- The row is of one of the rules, for the time at which it was due.
abbrev Stems : List RecurringRuleModel → RecurringOccurrenceModel → Type 0
Stems rules o =
    (r : RecurringRuleModel) × Among r rules
    × (o.rule_id ≡ r.id)
    × (o.scheduled_for ≡ r.next_due_at)

All-Stems :
    (rule : RecurringRuleModel) (rules : List RecurringRuleModel)
    (os : List RecurringOccurrenceModel)
    → All (λ o. (o.rule_id ≡ rule.id) × (o.scheduled_for ≡ rule.next_due_at)) os
    → All (Stems (rule ∷ rules)) os
All-Stems rule rules [] h = tt
All-Stems rule rules (o ∷ os) ((a, b), h) = ((rule, inl refl, a, b), All-Stems rule rules os h)

All-later_Stems :
    (rule : RecurringRuleModel) (rules : List RecurringRuleModel)
    (os ps : List RecurringOccurrenceModel)
    → All (Stems rules) os
    → All (Stems (rule ∷ rules)) ps
    → All (Stems (rule ∷ rules)) (os ++ ps)
All-later_Stems rule rules [] ps _ h = h
All-later_Stems rule rules (o ∷ os) ps ((r, held, a, b), h) k =
    ((r, inr held, a, b), All-later_Stems rule rules os ps h k)

-- The row is of an active rule of the user, for the time at which it was due.
abbrev pub IsOfDueRule : ℕ → Instant → List RecurringRuleModel → RecurringOccurrenceModel → Type 0
IsOfDueRule user current rules o =
    (r : RecurringRuleModel) × Among r rules
    × (r.user_id ≡ user)
    × (r.status ≡ RecurringStatus.active_rule)
    × (r.next_due_at ≤ℤ current)
    × (o.rule_id ≡ r.id)
    × (o.scheduled_for ≡ r.next_due_at)

All-IsOfDueRule :
    (user : ℕ) (current : Instant) (limit : ℕ) (rules : List RecurringRuleModel)
    (os : List RecurringOccurrenceModel)
    → All (Stems (due_rules user current limit rules)) os
    → All (IsOfDueRule user current rules) os
All-IsOfDueRule user current limit rules [] h = tt
All-IsOfDueRule user current limit rules (o ∷ os) ((r, taken, a, b), h) =
    let (held, owner, active, come) = Among-due_rules user current limit r rules taken in
    ((r, held, owner, active, come, a, b), All-IsOfDueRule user current limit rules os h)

-- What the loop leaves in the table.
record IsBatch (rules : List RecurringRuleModel) (before : List RecurringOccurrenceModel)
    (after : List RecurringOccurrenceModel) : Type 0 where
  present : All (λ r. occurrence_for r.id r.next_due_at after ≡ true) rules
  kept :
      (k : ℕ) (at : Instant) → occurrence_for k at before ≡ true → occurrence_for k at after ≡ true
  unique : IsUnique before → IsUnique after
  added : List RecurringOccurrenceModel
  grown : after ≡ added ++ before
  scheduled : All (Stems rules) added

module _ (name_of : ℕ → Text → ℕ) (isoformat : Instant → Text)
    (zone_info : Text → Option Zone) where
  process_rules-IsBatch :
      (user : ℕ) (rules : List RecurringRuleModel) (s : Store) {t : Store}
      → process_rules name_of isoformat zone_info user rules s ≡ ok t
      → IsBatch rules s.occurrences t.occurrences
  unfolding process_rules
  process_rules-IsBatch user [] s h =
      subst (λ u. IsBatch [] s.occurrences u.occurrences) (ok-injective h)
        (record {
          present = tt;
          kept = λ k at j. j;
          unique = λ known. known;
          added = [];
          grown = refl;
          scheduled = tt;
        })
  process_rules-IsBatch user (rule ∷ rules) s h =
      let (next, done, h₁) = >>=-eq-ok (process_rule name_of isoformat zone_info user rule s) _ h in
      let first = process_rule-IsScheduled name_of isoformat zone_info user rule s done in
      let rest = process_rules-IsBatch user rules next h₁ in
      record {
        present = (rest.kept rule.id rule.next_due_at first.present, rest.present);
        kept = λ k at j. rest.kept k at (first.kept k at j);
        unique = λ known. rest.unique (first.unique known);
        added = rest.added ++ first.added;
        grown =
            rest.grown
            ∙ (ap (λ os. rest.added ++ os) first.grown
                ∙ sym (append_assoc rest.added first.added s.occurrences));
        scheduled =
            All-later_Stems rule rules rest.added first.added rest.scheduled
              (All-Stems rule rules first.added first.scheduled);
      }

  -- Take any active rule of the user whose time has come, at the moment of the batch at the latest.
  -- After a batch that succeeds it has an occurrence for the time at which it was due, or the batch
  -- was full: then it took as many rules as its limit, each fell due no later than this one, and
  -- each has its occurrence.
  pub process_due-present :
      (user : ℕ) (now : Datetime) (limit : ℕ) (s : Store) {t : Store} {current : Instant}
      (r : RecurringRuleModel)
      → process_due name_of isoformat zone_info user now limit s ≡ ok t
      → to_utc now ≡ ok current
      → Among r s.rules
      → r.user_id ≡ user
      → r.status ≡ RecurringStatus.active_rule
      → r.next_due_at ≤ℤ current
      → (occurrence_for r.id r.next_due_at t.occurrences ≡ true)
        ⊎ ((length (due_rules user current limit s.rules) ≡ limit)
            × All (λ q. q.next_due_at ≤ℤ r.next_due_at) (due_rules user current limit s.rules)
            × All
                (λ q. occurrence_for q.id q.next_due_at t.occurrences ≡ true)
                (due_rules user current limit s.rules))
  unfolding process_due
  process_due-present user now limit s {t} {current} r h read held owner active come =
      let (moment, read', h₁) = >>=-eq-ok (to_utc now) _ h in
      let same : moment ≡ current = ok-injective (sym read' ∙ read) in
      let present : All (λ q. occurrence_for q.id q.next_due_at t.occurrences ≡ true)
          (due_rules user current limit s.rules) =
        subst
          (λ m.
            All (λ q. occurrence_for q.id q.next_due_at t.occurrences ≡ true)
              (due_rules user m limit s.rules))
          same (process_rules-IsBatch user (due_rules user moment limit s.rules) s h₁).present in
      elim (due_rules-Among user current limit r s.rules held owner active come) [
        | inl taken ↦ inl (
            All-Among (λ q. occurrence_for q.id q.next_due_at t.occurrences ≡ true) r _ present
              taken)
        | inr (full, earlier) ↦ inr (full, earlier, present)
      ]

  -- A batch that succeeds leaves the occurrences from before it as they were and in place, and each
  -- one that it adds is of an active rule of the user, for the time at which that rule was due, which
  -- is at the latest the moment of the batch.
  pub process_due-occurrences :
      (user : ℕ) (now : Datetime) (limit : ℕ) (s : Store) {t : Store}
      → process_due name_of isoformat zone_info user now limit s ≡ ok t
      → (current : Instant) × (to_utc now ≡ ok current)
        × ((added : List RecurringOccurrenceModel) × (t.occurrences ≡ added ++ s.occurrences)
            × All (IsOfDueRule user current s.rules) added)
  unfolding process_due
  process_due-occurrences user now limit s h =
      let (current, read, h₁) = >>=-eq-ok (to_utc now) _ h in
      let rules = due_rules user current limit s.rules in
      let batch = process_rules-IsBatch user rules s h₁ in
      (
        current,
        read,
        (
          batch.added,
          batch.grown,
          All-IsOfDueRule user current limit s.rules batch.added batch.scheduled,
        ),
      )

  -- A batch that succeeds keeps at most one occurrence for a rule and a time.
  pub process_due-IsUnique :
      (user : ℕ) (now : Datetime) (limit : ℕ) (s : Store) {t : Store}
      → process_due name_of isoformat zone_info user now limit s ≡ ok t
      → IsUnique s.occurrences
      → IsUnique t.occurrences
  unfolding process_due
  process_due-IsUnique user now limit s h =
      let (current, _, h₁) = >>=-eq-ok (to_utc now) _ h in
      (process_rules-IsBatch user (due_rules user current limit s.rules) s h₁).unique
