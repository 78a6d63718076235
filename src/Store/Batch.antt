-- ===== src/Store/Batch.antt =====
-- The rules that a batch takes, `PlanningRepository.due_rules`.
use plan_it.Common.{
  ◌∷◌, ◌≡◌, arith, refl, [], true, zero, suc, inl, inr, ℕ, List, take, ◌⊎◌, length, All, filter, ap,
}
use plan_it.Common.Time.{Instant}
use plan_it.Common.Int.{◌≤ℤ◌}
use plan_it.Store.Planning.{due_rules, is_due, sort_rules}
use plan_it.Store.Rows.{RecurringRuleModel}
use plan_it.Store.Ordered.{
  IsOrdered, Among, Among-filter, sort_rules-IsOrdered, All-Among, Among-sort_rules,
  sort_rules-Among, filter-Among,
}
use plan_it.Planning.{RecurringStatus}

-- What a limit leaves out comes after as many rules as the limit.
take-Among :
    (n : ℕ) (r : RecurringRuleModel) (qs : List RecurringRuleModel)
    → IsOrdered qs
    → Among r qs
    → Among r (take n qs)
      ⊎ ((length (take n qs) ≡ n) × All (λ q. q.next_due_at ≤ℤ r.next_due_at) (take n qs))
take-Among n r [] h found = absurd found
take-Among zero r (q ∷ qs) h found = inr (refl, tt)
take-Among (suc n) r (q ∷ qs) (least, h) (inl e) = inl (inl e)
take-Among (suc n) r (q ∷ qs) (least, h) (inr later) = elim (take-Among n r qs h later) [
  | inl taken ↦ inl (inr taken)
  | inr (full, ps) ↦
      inr (ap suc full, (All-Among (λ x. q.next_due_at ≤ℤ x.next_due_at) r qs least later, ps))
]

Among-take :
    (n : ℕ) (r : RecurringRuleModel) (qs : List RecurringRuleModel)
    → Among r (take n qs)
    → Among r qs
Among-take zero r qs h = absurd h
Among-take (suc n) r [] h = h
Among-take (suc n) r (q ∷ qs) (inl e) = inl e
Among-take (suc n) r (q ∷ qs) (inr later) = inr (Among-take n r qs later)

-- An active rule of the user whose time has come is in the batch, or the batch is full of rules that
-- fell due no later.
pub due_rules-Among :
    (user : ℕ) (current : Instant) (limit : ℕ) (r : RecurringRuleModel)
    (rules : List RecurringRuleModel)
    → Among r rules
    → r.user_id ≡ user
    → r.status ≡ RecurringStatus.active_rule
    → r.next_due_at ≤ℤ current
    → Among r (due_rules user current limit rules)
      ⊎ ((length (due_rules user current limit rules) ≡ limit)
          × All (λ q. q.next_due_at ≤ℤ r.next_due_at) (due_rules user current limit rules))
unfolding due_rules
due_rules-Among user current limit r rules held owner active come =
    let due : is_due user current r ≡ true = ground arith in
    let sorted = sort_rules (filter (is_due user current) rules) in
    take-Among limit r sorted (sort_rules-IsOrdered (filter (is_due user current) rules)) (
      sort_rules-Among r (filter (is_due user current) rules)
        (filter-Among (is_due user current) r rules due held))

-- A batch has active rules of the user whose time has come only.
pub Among-due_rules :
    (user : ℕ) (current : Instant) (limit : ℕ) (r : RecurringRuleModel)
    (rules : List RecurringRuleModel)
    → Among r (due_rules user current limit rules)
    → Among r rules
      × (r.user_id ≡ user)
      × (r.status ≡ RecurringStatus.active_rule)
      × (r.next_due_at ≤ℤ current)
unfolding due_rules
Among-due_rules user current limit r rules found =
    let kept = filter (is_due user current) rules in
    let (held, due) =
      Among-filter (is_due user current) r rules
        (Among-sort_rules r kept (Among-take limit r (sort_rules kept) found)) in
    let (a, b, c) = due_facts user current r due in (held, a, b, c)
  where
    due_facts :
        (user : ℕ) (current : Instant) (r : RecurringRuleModel)
        → is_due user current r ≡ true
        → (r.user_id ≡ user) × (r.status ≡ RecurringStatus.active_rule) × (r.next_due_at ≤ℤ current)
    due_facts user current r h = (ground arith, ground arith, ground arith)
