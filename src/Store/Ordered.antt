-- ===== src/Store/Ordered.antt =====
-- Rules that are filtered and ordered by the time at which they fall due.
use plan_it.Common.{
  if◌then◌else◌, ◌∷◌, ◌≡◌, arith, refl, [], true, false, inl, inr, filter, List, Bool, All, ◌⊎◌, ap,
  subst, ◌∙◌, sym,
}
use plan_it.Common.Int.{◌≤ℤ◌, int_laws}
use plan_it.Common.Time.{Instant}
use plan_it.Store.Planning.{insert_rule, sort_rules, is_before}
use plan_it.Store.Rows.{RecurringRuleModel}

-- Membership of rows.
abbrev pub Among : RecurringRuleModel → List RecurringRuleModel → Type 0
Among r [] = ⊥
Among r (q ∷ qs) = (r ≡ q) ⊎ Among r qs

pub All-Among :
    (P : RecurringRuleModel → Type 0) (r : RecurringRuleModel) (qs : List RecurringRuleModel)
    → All P qs
    → Among r qs
    → P r
All-Among P r [] _ h = absurd h
All-Among P r (q ∷ qs) (p, ps) (inl e) = subst P (sym e) p
All-Among P r (q ∷ qs) (p, ps) (inr later) = All-Among P r qs ps later

if_lem :
    (P : List RecurringRuleModel → Type 0) (b : Bool) {xs ys : List RecurringRuleModel}
    → (b ≡ true → P xs)
    → (b ≡ false → P ys)
    → P (if b then xs else ys)
if_lem P true yes_part no_part = yes_part refl
if_lem P false yes_part no_part = no_part refl

from_if :
    (r : RecurringRuleModel) (b : Bool) (xs ys : List RecurringRuleModel)
    → Among r (if b then xs else ys)
    → (Among r xs × (b ≡ true)) ⊎ Among r ys
from_if r true xs ys h = inl (h, refl)
from_if r false xs ys h = inr h

pub filter-Among :
    (p : RecurringRuleModel → Bool) (r : RecurringRuleModel) (qs : List RecurringRuleModel)
    → p r ≡ true
    → Among r qs
    → Among r (filter p qs)
unfolding filter
filter-Among p r [] h found = absurd found
filter-Among p r (q ∷ qs) h (inl e) =
    if_lem (Among r) (p q) (λ _. inl e) (λ n. let here : p q ≡ true = ap p (sym e) ∙ h in cc)
filter-Among p r (q ∷ qs) h (inr later) =
    let rest = filter-Among p r qs h later in if_lem (Among r) (p q) (λ _. inr rest) (λ _. rest)

pub Among-filter :
    (p : RecurringRuleModel → Bool) (r : RecurringRuleModel) (qs : List RecurringRuleModel)
    → Among r (filter p qs)
    → Among r qs × (p r ≡ true)
unfolding filter
Among-filter p r [] found = absurd found
Among-filter p r (q ∷ qs) found = elim (from_if r (p q) _ _ found) [
  | inl (inl same, e) ↦ (inl same, ap p same ∙ e)
  | inl (inr later, e) ↦ let (held, h) = Among-filter p r qs later in (inr held, h)
  | inr later ↦ let (held, h) = Among-filter p r qs later in (inr held, h)
]

insert_rule-Among :
    (r q : RecurringRuleModel) (qs : List RecurringRuleModel)
    → (r ≡ q) ⊎ Among r qs
    → Among r (insert_rule q qs)
unfolding insert_rule
insert_rule-Among r q [] h = h
insert_rule-Among r q (x ∷ xs) (inl e) =
    if_lem (Among r) (is_before q x) (λ _. inl e) (λ _. inr (insert_rule-Among r q xs (inl e)))
insert_rule-Among r q (x ∷ xs) (inr (inl e)) =
    if_lem (Among r) (is_before q x) (λ _. inr (inl e)) (λ _. inl e)
insert_rule-Among r q (x ∷ xs) (inr (inr later)) =
    if_lem (Among r) (is_before q x) (λ _. inr (inr later))
      (λ _. inr (insert_rule-Among r q xs (inr later)))

Among-insert_rule :
    (r q : RecurringRuleModel) (qs : List RecurringRuleModel)
    → Among r (insert_rule q qs)
    → (r ≡ q) ⊎ Among r qs
unfolding insert_rule
Among-insert_rule r q [] h = h
Among-insert_rule r q (x ∷ xs) found = elim (from_if r (is_before q x) _ _ found) [
  | inl (h, _) ↦ h
  | inr (inl e) ↦ inr (inl e)
  | inr (inr later) ↦ elim (Among-insert_rule r q xs later) [ inl e ↦ inl e | inr h ↦ inr (inr h) ]
]

pub sort_rules-Among :
    (r : RecurringRuleModel) (qs : List RecurringRuleModel) → Among r qs → Among r (sort_rules qs)
unfolding sort_rules
sort_rules-Among r [] h = h
sort_rules-Among r (q ∷ qs) (inl e) = insert_rule-Among r q (sort_rules qs) (inl e)
sort_rules-Among r (q ∷ qs) (inr later) =
    insert_rule-Among r q (sort_rules qs) (inr (sort_rules-Among r qs later))

pub Among-sort_rules :
    (r : RecurringRuleModel) (qs : List RecurringRuleModel) → Among r (sort_rules qs) → Among r qs
unfolding sort_rules
Among-sort_rules r [] h = h
Among-sort_rules r (q ∷ qs) h = elim (Among-insert_rule r q (sort_rules qs) h) [
  | inl e ↦ inl e
  | inr later ↦ inr (Among-sort_rules r qs later)
]

-- Each rule falls due no later than the ones after it.
abbrev pub IsOrdered : List RecurringRuleModel → Type 0
IsOrdered [] = Unit
IsOrdered (q ∷ qs) = All (λ x. q.next_due_at ≤ℤ x.next_due_at) qs × IsOrdered qs

All-insert_rule :
    (P : RecurringRuleModel → Type 0) (q : RecurringRuleModel) (qs : List RecurringRuleModel)
    → P q
    → All P qs
    → All P (insert_rule q qs)
unfolding insert_rule
All-insert_rule P q [] p ps = (p, tt)
All-insert_rule P q (x ∷ xs) p (h, ps) =
    if_lem (All P) (is_before q x) (λ _. (p, (h, ps))) (λ _. (h, All-insert_rule P q xs p ps))

All-later :
    (a b : Instant) (qs : List RecurringRuleModel)
    → a ≤ℤ b
    → All (λ x. b ≤ℤ x.next_due_at) qs
    → All (λ x. a ≤ℤ x.next_due_at) qs
All-later a b [] h ps = tt
All-later a b (q ∷ qs) h (p, ps) = (omega int_laws, All-later a b qs h ps)

is_before-le : (q x : RecurringRuleModel) → is_before q x ≡ true → q.next_due_at ≤ℤ x.next_due_at
is_before-le q x h = ground arith

is_before-not : (q x : RecurringRuleModel) → is_before q x ≡ false → x.next_due_at ≤ℤ q.next_due_at
is_before-not q x h = ground arith

insert_rule-IsOrdered :
    (q : RecurringRuleModel) (qs : List RecurringRuleModel)
    → IsOrdered qs
    → IsOrdered (insert_rule q qs)
unfolding insert_rule
insert_rule-IsOrdered q [] h = (tt, tt)
insert_rule-IsOrdered q (x ∷ xs) (least, h) =
    if_lem IsOrdered (is_before q x)
      (λ e.
        let le = is_before-le q x e in
        ((le, All-later q.next_due_at x.next_due_at xs le least), (least, h)))
      (λ e. (
        All-insert_rule (λ y. x.next_due_at ≤ℤ y.next_due_at) q xs (is_before-not q x e) least,
        insert_rule-IsOrdered q xs h,
      ))

pub sort_rules-IsOrdered : (qs : List RecurringRuleModel) → IsOrdered (sort_rules qs)
unfolding sort_rules
sort_rules-IsOrdered [] = tt
sort_rules-IsOrdered (q ∷ qs) = insert_rule-IsOrdered q (sort_rules qs) (sort_rules-IsOrdered qs)
