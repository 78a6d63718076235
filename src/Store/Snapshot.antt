-- ===== src/Store/Snapshot.antt =====
-- The query for a balance against the domain's calculation of one.
use plan_it.Common.{
  if◌then◌else◌, ◌∷◌, ◌≡◌, arith, refl, some, [], ok, false, inl, inr, ℕ, List, ◌==◌, ◌&&◌,
  Bool-cases, Option, ap, ◌≤◌, ◌∙◌, sym, subst, ltb, ok-injective, >>=-eq-ok,
}
use plan_it.Common.Time.{Instant, to_utc, Datetime}
use plan_it.Common.Text.{Text}
use plan_it.Common.Int.{magnitude, ◌+ℤ◌, pos, zero-+ℤ, ℤ, -ℤ-zero}
use plan_it.Ledger.Balance.{add_movement, add_movements, LedgerMovement, calculate_account_balance}
use plan_it.Money.{plus, in_range, Money, max_abs}
use plan_it.Store.{TransactionModel, Store, AccountModel}
use plan_it.Store.Balance.{movement_total, get_balance, get_account}
use plan_it.Ledger.Balance.Sum.{net_movement, contribution, add_movements-eq}

-- The movements of an account, as the domain sees the rows.
abbrev pub movement_of : TransactionModel → LedgerMovement
movement_of t = record {
  amount = record { amount = t.amount; currency = t.currency };
  effect = t.effect;
  kind = t.kind;
  status = t.status;
  occurred_at = t.occurred_at;
}

abbrev pub movements_of : ℕ → ℕ → List TransactionModel → List LedgerMovement
movements_of user account [] = []
movements_of user account (t ∷ ts) =
    let rest = movements_of user account ts in
    if t.user_id == user && t.account_id == account then movement_of t ∷ rest else rest

net_movement-eq :
    (user account : ℕ) (as_of : Instant) (ts : List TransactionModel)
    → net_movement (some as_of) (movements_of user account ts)
      ≡ movement_total user account as_of ts
unfolding movement_total
net_movement-eq user account as_of [] = refl
net_movement-eq user account as_of (t ∷ ts) =
    let ih = net_movement-eq user account as_of ts in
    elim (Bool-cases (t.user_id == user && t.account_id == account)) [
      | inl e ↦ rw e (ap (λ n. contribution (some as_of) (movement_of t) +ℤ n) ih)
      | inr e ↦ rw e (ih ∙ sym (zero-+ℤ _))
    ]

in_range-fits :
    (units : ℤ) (currency : Text) (b : Money)
    → b.amount ≡ units
    → b.currency ≡ currency
    → magnitude b.amount ≤ max_abs
    → in_range units currency ≡ ok b
unfolding in_range
in_range-fits units currency b e f small =
    let fits : magnitude units ≤ max_abs = subst (λ u. magnitude u ≤ max_abs) e small in
    let passed : ltb max_abs (magnitude units) ≡ false = ground arith in
    rw passed (
      ap (λ u. ok (record { amount = u; currency = currency })) (sym e)
      ∙ ap (λ c. ok (record { amount = b.amount; currency = c })) (sym f))

add_movement-small :
    (c : Text) (as_of : Option Instant) (b : Money) (m : LedgerMovement) {n : Money}
    → add_movement c as_of b m ≡ ok n
    → magnitude b.amount ≤ max_abs
    → magnitude n.amount ≤ max_abs
unfolding add_movement plus in_range
add_movement-small c as_of b m h small = ground arith

add_movements-small :
    (c : Text) (as_of : Option Instant) (b : Money) (ms : List LedgerMovement) {n : Money}
    → add_movements c as_of b ms ≡ ok n
    → magnitude b.amount ≤ max_abs
    → magnitude n.amount ≤ max_abs
unfolding add_movements
add_movements-small c as_of b [] h small =
    subst (λ (x : Money). magnitude x.amount ≤ max_abs) (ok-injective h) small
add_movements-small c as_of b (m ∷ ms) h small =
    let (next, step, rest) =
      >>=-eq-ok (add_movement c as_of b m) (λ n. add_movements c as_of n ms) h in
    add_movements-small c as_of next ms rest (add_movement-small c as_of b m step small)

-- The balance that the query computes is the one that the domain calculates: where the calculation
-- over the rows of an account of the user succeeds, from an opening balance in range, the query
-- finds exactly its result.
pub get_balance-refines :
    (id user : ℕ) (as_of : Instant) (s : Store) {a : AccountModel} {b : Money}
    → get_account id user s ≡ some a
    → magnitude a.opening_balance ≤ max_abs
    → calculate_account_balance
        (record { amount = a.opening_balance; currency = a.currency })
        (movements_of user id s.transactions)
        (some (Datetime.aware as_of (pos 0)))
      ≡ ok b
    → get_balance id user as_of s ≡ ok (some b)
unfolding get_balance calculate_account_balance in_range to_utc
get_balance-refines id user as_of s {a} {b} owned small h =
    let opening : Money = record { amount = a.opening_balance; currency = a.currency } in
    let ms = movements_of user id s.transactions in
    let run : add_movements a.currency (some as_of) opening ms ≡ ok b =
      subst (λ k. add_movements a.currency (some k) opening ms ≡ ok b) (-ℤ-zero as_of) h in
    let (amount, code) = add_movements-eq a.currency (some as_of) opening ms run in
    let total =
      amount ∙ ap (λ n. a.opening_balance +ℤ n) (net_movement-eq user id as_of s.transactions) in
    let fits =
      in_range-fits (a.opening_balance +ℤ movement_total user id as_of s.transactions) a.currency b
        total code (add_movements-small a.currency (some as_of) opening ms run small) in
    rw (owned, get_balance) (rw fits refl)
