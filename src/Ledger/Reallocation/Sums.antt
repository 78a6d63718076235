-- ===== src/Ledger/Reallocation/Sums.antt =====
-- What the three loops of `preview_reallocation` compute.
use plan_it.Common.{
  if◌then◌else◌, ◌>>=◌, ◌∷◌, ◌≡◌, arith, refl, [], ok, true, false, inl, inr, ℕ, List, ◌⊎◌,
  >>=-eq-ok, Bool-cases, ◌∙◌, ◌==◌, ap, mem, subst, ap₂,
}
use plan_it.Common.Int.{
  ◌-ℤ◌, ◌+ℤ◌, ℤ, +ℤ--ℤ, +ℤ-zero, pos, ◌≤ℤ◌, +ℤ_assoc, int_laws, +ℤ_interchange, +ℤ_swap,
}
use plan_it.Common.Text.{text_eq_iff}
use plan_it.Ledger.Reallocation.{
  total_from, reallocation_line, lines_for, Requests, non_balancing_from, ReallocationLine,
  AccountPosition, target_for, requested_target, ids, has_duplicate,
}
use plan_it.Money.{Money, minus, plus}

abbrev pub sum_balances : List AccountPosition → ℤ
sum_balances [] = pos 0
sum_balances (p ∷ ps) = p.balance.amount +ℤ sum_balances ps

abbrev pub sum_requested : ℕ → Requests → List AccountPosition → ℤ
sum_requested balancing requested [] = pos 0
sum_requested balancing requested (p ∷ ps) =
    if p.account_id == balancing
    then sum_requested balancing requested ps
    else (requested_target requested p).amount +ℤ sum_requested balancing requested ps

abbrev pub sum_before : List ReallocationLine → ℤ
sum_before [] = pos 0
sum_before (l ∷ ls) = l.before.amount +ℤ sum_before ls

abbrev pub sum_target : List ReallocationLine → ℤ
sum_target [] = pos 0
sum_target (l ∷ ls) = l.target.amount +ℤ sum_target ls

abbrev pub sum_delta : List ReallocationLine → ℤ
sum_delta [] = pos 0
sum_delta (l ∷ ls) = l.delta.amount +ℤ sum_delta ls

pub plus-amount :
    (a b : Money) {m : Money}
    → plus a b ≡ ok m
    → (m.amount ≡ a.amount +ℤ b.amount) × (m.currency ≡ a.currency) × (b.currency ≡ a.currency)
unfolding plus
plus-amount a b h = ground (arith, text_eq_iff a.currency b.currency)

pub minus-amount :
    (a b : Money) {m : Money}
    → minus a b ≡ ok m
    → (m.amount ≡ a.amount -ℤ b.amount) × (m.currency ≡ a.currency) × (b.currency ≡ a.currency)
unfolding minus
minus-amount a b h = ground (arith, text_eq_iff a.currency b.currency)

pub total_from-amount :
    (t : Money) (ps : List AccountPosition) {r : Money}
    → total_from t ps ≡ ok r
    → r.amount ≡ t.amount +ℤ sum_balances ps
unfolding total_from
total_from-amount t [] h = ground (arith, +ℤ-zero t.amount)
total_from-amount t (p ∷ ps) h =
    let (next, step, rest) = >>=-eq-ok (plus t p.balance) (λ n. total_from n ps) h in
    total_from-amount next ps rest
    ∙ ap (λ a. a +ℤ sum_balances ps) (plus-amount t p.balance step).0
    ∙ +ℤ_assoc t.amount p.balance.amount (sum_balances ps)

pub non_balancing_from-amount :
    (k : ℕ) (rs : Requests) (t : Money) (ps : List AccountPosition) {r : Money}
    → non_balancing_from k rs t ps ≡ ok r
    → r.amount ≡ t.amount +ℤ sum_requested k rs ps
unfolding non_balancing_from
non_balancing_from-amount k rs t [] h = ground (arith, +ℤ-zero t.amount)
non_balancing_from-amount k rs t (p ∷ ps) h = elim (Bool-cases (p.account_id == k)) [
  | inl own ↦ rw own (non_balancing_from-amount k rs t ps (rw own at h))
  | inr other ↦
      let target = requested_target rs p in
      let (next, step, rest) =
        >>=-eq-ok (plus t target) (λ n. non_balancing_from k rs n ps) (rw other at h) in
      rw other (
        non_balancing_from-amount k rs next ps rest
        ∙ ap (λ a. a +ℤ sum_requested k rs ps) (plus-amount t target step).0
        ∙ +ℤ_assoc t.amount target.amount (sum_requested k rs ps))
]

-- A line is made for a position: it keeps the account and the balance, aims at the target, and its
-- delta leads there; a negative target needs leave.
pub record IsLine (target : Money) (p : AccountPosition) (l : ReallocationLine) : Type 0 where
  pub same_account : l.account_id ≡ p.account_id
  pub same_balance : l.before ≡ p.balance
  pub same_target : l.target ≡ target
  pub reaches : l.before.amount +ℤ l.delta.amount ≡ l.target.amount
  pub allowed : (p.allow_negative ≡ true) ⊎ (pos 0 ≤ℤ l.target.amount)

pub reallocation_line-IsLine :
    (target : Money) (p : AccountPosition) {l : ReallocationLine}
    → reallocation_line target p ≡ ok l
    → IsLine target p l
unfolding reallocation_line minus
reallocation_line-IsLine target p h = ground (arith, +ℤ--ℤ p.balance.amount target.amount)

-- One line for each position, in the order of the positions.
abbrev pub AreLines : ℕ → Requests → Money → List AccountPosition → List ReallocationLine → Type 0
AreLines k rs derived [] [] = Unit
AreLines k rs derived [] (l ∷ ls) = ⊥
AreLines k rs derived (p ∷ ps) [] = ⊥
AreLines k rs derived (p ∷ ps) (l ∷ ls) =
    IsLine (target_for k rs derived p) p l × AreLines k rs derived ps ls

pub lines_for-AreLines :
    (k : ℕ) (rs : Requests) (derived : Money) (ps : List AccountPosition)
    {ls : List ReallocationLine}
    → lines_for k rs derived ps ≡ ok ls
    → AreLines k rs derived ps ls
unfolding lines_for
lines_for-AreLines k rs derived [] {ls} h =
    let e : [] ≡ ls = cc in subst (AreLines k rs derived []) e tt
lines_for-AreLines k rs derived (p ∷ ps) {ls} h =
    let target = target_for k rs derived p in
    let (l, made, more) =
      >>=-eq-ok (reallocation_line target p)
        (λ line. do rest ← lines_for k rs derived ps; ok (line ∷ rest)) h in
    let (tail, others, done) = >>=-eq-ok (lines_for k rs derived ps) (λ rest. ok (l ∷ rest)) more in
    let e : l ∷ tail ≡ ls = cc in
    subst (AreLines k rs derived (p ∷ ps)) e
      (reallocation_line-IsLine target p made, lines_for-AreLines k rs derived ps others)

-- Line by line, the deltas lead from the balances to the targets.
pub sum_delta-reaches :
    (k : ℕ) (rs : Requests) (derived : Money) (ps : List AccountPosition)
    (ls : List ReallocationLine)
    → AreLines k rs derived ps ls
    → (sum_before ls ≡ sum_balances ps) × (sum_before ls +ℤ sum_delta ls ≡ sum_target ls)
sum_delta-reaches k rs derived [] [] h = (refl, omega int_laws)
sum_delta-reaches k rs derived [] (l ∷ ls) h = absurd h
sum_delta-reaches k rs derived (p ∷ ps) [] h = absurd h
sum_delta-reaches k rs derived (p ∷ ps) (l ∷ ls) (line, lines) =
    let (same, rest) = sum_delta-reaches k rs derived ps ls lines in
    (
      ap₂ (λ m t. m +ℤ t) (ap (λ m. m.amount) line.same_balance) same,
      +ℤ_interchange l.before.amount (sum_before ls) l.delta.amount (sum_delta ls)
          ∙ ap₂ (λ m t. m +ℤ t) line.reaches rest,
    )

-- Without the balancing account among the positions, the targets are those of the requests.
sum_target-others :
    (k : ℕ) (rs : Requests) (derived : Money) (ps : List AccountPosition)
    (ls : List ReallocationLine)
    → AreLines k rs derived ps ls
    → mem k (ids ps) ≡ false
    → sum_target ls ≡ sum_requested k rs ps
sum_target-others k rs derived [] [] h e = refl
sum_target-others k rs derived [] (l ∷ ls) h e = absurd h
sum_target-others k rs derived (p ∷ ps) [] h e = absurd h
sum_target-others k rs derived (p ∷ ps) (l ∷ ls) (line, lines) e =
    let other : (p.account_id == k) ≡ false = ground arith in
    let beyond : mem k (ids ps) ≡ false = ground arith in
    rw other (
      ap₂ (λ m t. m +ℤ t) (ap (λ m. m.amount) (rw other at line.same_target))
        (sum_target-others k rs derived ps ls lines beyond))

-- If identifiers are unique and the balancing account is among them, it alone takes the derived
-- target.
pub sum_target-balancing :
    (k : ℕ) (rs : Requests) (derived : Money) (ps : List AccountPosition)
    (ls : List ReallocationLine)
    → AreLines k rs derived ps ls
    → mem k (ids ps) ≡ true
    → has_duplicate (ids ps) ≡ false
    → sum_target ls ≡ derived.amount +ℤ sum_requested k rs ps
sum_target-balancing k rs derived [] ls h e u = cc
sum_target-balancing k rs derived (p ∷ ps) [] h e u = absurd h
sum_target-balancing k rs derived (p ∷ ps) (l ∷ ls) (line, lines) e u =
    elim (Bool-cases (p.account_id == k)) [
      | inl own ↦
          let once : mem k (ids ps) ≡ false = ground arith in
          rw own (
            ap₂ (λ m t. m +ℤ t) (ap (λ m. m.amount) (rw own at line.same_target))
              (sum_target-others k rs derived ps ls lines once))
      | inr other ↦
          let rest = sum_target-balancing k rs derived ps ls lines (ground arith) (ground arith) in
          rw other (
            ap₂ (λ m t. m +ℤ t) (ap (λ m. m.amount) (rw other at line.same_target)) rest
            ∙ +ℤ_swap _ derived.amount (sum_requested k rs ps))
    ]
