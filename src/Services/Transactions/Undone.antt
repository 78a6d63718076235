-- ===== src/Services/Transactions/Undone.antt =====
-- A posting and its reversal, with any calls between them.
use plan_it.Common.{
  if◌then◌else◌, ◌≡◌, arith, refl, some, ok, true, false, not, ℕ, ap, ◌∙◌, ◌==◌, ◌&&◌, ==_iff,
  subst, Bool, sym, ok-injective,
}
use plan_it.Common.Time.{Instant}
use plan_it.Common.Int.{ℤ, ◌≤ℤ◌, ltb_ℤ, ◌+ℤ◌, pos, neg, int_laws}
use plan_it.Store.{TransactionModel, Store, transaction_key}
use plan_it.Services.Transactions.Posting.{PostTransactionCommand, post, posted_row}
use plan_it.Services.Transactions.History.{Records, Calls, history-Kept}
use plan_it.Services.Transactions.Reversal.{ReverseTransactionCommand, reverse_transaction}
use plan_it.Services.Transactions.Effect.{IsPosted, post-IsPosted, get_transaction-find}
use plan_it.Store.Table.{find, find-put, find-key}
use plan_it.Ledger.Policies.{normalize_timestamp}
use plan_it.Store.Balance.{movement_total, signed_amount}
use plan_it.Services.Transactions.Balances.{post-movement_total, reverse_transaction-movement_total}
use plan_it.Ledger.Enums.{is_inflow}

-- The row of a posting is in the table after it.
post-find :
    (now : Instant) (user id : ℕ) (s : Store) {t : Store}
    → (p : IsPosted now user id s t)
    → find transaction_key p.model.id t.transactions ≡ some (posted_row p.model)
post-find now user id s p =
    ap (find transaction_key p.model.id) p.transactions_after
    ∙ (find-put transaction_key (posted_row p.model) s.transactions p.model.id
        ∙ rw ((==_iff p.model.id p.model.id).1 refl) refl)

same_row : {a b : TransactionModel} → some a ≡ some b → a ≡ b
same_row h = cc

no_earlier : (a b c : ℤ) → ltb_ℤ a b ≡ false → c ≤ℤ b → ltb_ℤ a c ≡ false
no_earlier a b c h k = ground arith

cancelled :
    (before later x : ℤ) (counts : Bool)
    → (later +ℤ (if counts && true then neg x else pos 0))
        +ℤ (before +ℤ (if counts && true then x else pos 0))
      ≡ later +ℤ before
cancelled before later x true = omega int_laws
cancelled before later x false = omega int_laws

-- What a posting has added to a sum, the reversal of the same row takes away.
taken_back :
    (before posted later undone : ℤ) (m q : TransactionModel) (account : ℕ) (at as_of : Instant)
    → Records (posted_row m) q
    → q.occurred_at ≤ℤ at
    → ltb_ℤ as_of at ≡ false
    → posted
      ≡ before
        +ℤ (if m.account_id == account && not (ltb_ℤ as_of m.occurred_at)
            then signed_amount m
            else pos 0)
    → undone
      ≡ later
        +ℤ (if q.account_id == account && not (ltb_ℤ as_of at)
            then neg (signed_amount q)
            else pos 0)
    → undone +ℤ posted ≡ later +ℤ before
taken_back before posted later undone m q account at as_of kept follows reached e f =
    let (_, _, _, account_kept, effect_kept, amount_kept, _, moment_kept) = kept in
    let before_reversal : ltb_ℤ as_of m.occurred_at ≡ false =
      (let after : m.occurred_at ≤ℤ at = subst (λ x. x ≤ℤ at) moment_kept follows in
        no_earlier as_of at m.occurred_at reached after) in
    let signed : signed_amount q ≡ signed_amount m =
      ap (λ x. if is_inflow x then q.amount else neg q.amount) effect_kept
      ∙ ap (λ x. if is_inflow m.effect then x else neg x) amount_kept in
    let place : (q.account_id == account) ≡ (m.account_id == account) =
      ap (λ k. k == account) account_kept in
    rw (f, e, place, signed, reached, before_reversal)
      (cancelled before later (signed_amount m) (m.account_id == account))

module _ (user : ℕ) where
  -- Posting a draft, then any calls that succeed, then the reversal of the same transaction: from
  -- the moment of the reversal on, the two leave no trace in any sum of movements, and only the
  -- calls between them do. With no calls between them each such sum is what it was before the
  -- posting.
  pub reverse_transaction-post :
      (now : Instant) (id : ℕ) (command : PostTransactionCommand) (operation : ℕ) (s : Store)
      {t u v : Store} (later : Instant) (undo : ReverseTransactionCommand) (at : Instant)
      → post now user id command operation s ≡ ok t
      → Calls user t u
      → reverse_transaction later user id undo u ≡ ok v
      → normalize_timestamp undo.occurred_at ≡ ok at
      → (account : ℕ) (as_of : Instant) → ltb_ℤ as_of at ≡ false
      → movement_total user account as_of v.transactions
          +ℤ movement_total user account as_of t.transactions
        ≡ movement_total user account as_of u.transactions
          +ℤ movement_total user account as_of s.transactions
  reverse_transaction-post now id command operation s {t} {u} {v} later undo at h calls g dated
        account as_of reached =
      let p = post-IsPosted now user id command operation s h in
      let (q, kept, facts) =
        history-Kept user (posted_row p.model) calls (post-find now user id s p) refl in
      let (model, owned, _, added) = post-movement_total now user id command operation s h in
      let (o, time, held, _, dated', follows, undone) =
        reverse_transaction-movement_total later user id undo u g in
      let place =
        find-key transaction_key id s.transactions (get_transaction-find id user s p.owned).0 in
      let row : q ≡ o = same_row (
        sym kept
        ∙ subst (λ k. find transaction_key k u.transactions ≡ some o) (sym place)
            (get_transaction-find id user u held).0) in
      let same : p.model ≡ model = same_row (sym p.owned ∙ owned) in
      let moment : time ≡ at = ok-injective (sym dated' ∙ dated) in
      let recorded : Records (posted_row model) o =
        subst (λ m. Records (posted_row m) o) same
          (subst (Records (posted_row p.model)) row facts) in
      taken_back (movement_total user account as_of s.transactions)
        (movement_total user account as_of t.transactions)
        (movement_total user account as_of u.transactions)
        (movement_total user account as_of v.transactions) model o account at as_of recorded
        (subst (λ m. o.occurred_at ≤ℤ m) moment follows) reached (added account as_of)
        (subst
          (λ x.
            movement_total user account as_of v.transactions
            ≡ movement_total user account as_of u.transactions
              +ℤ (if o.account_id == account && not (ltb_ℤ as_of x)
                  then neg (signed_amount o)
                  else pos 0))
          moment (undone account as_of))
