-- ===== src/Ledger/Reallocation/Laws.antt =====
-- A reallocation moves money between accounts and neither makes nor loses any.
use plan_it.Common.{
  ◌≡◌, arith, refl, none, ok, true, false, not, ℕ, List, ◌≤◌, length, mem, lookup, >>=-eq-ok,
  raise_if-eq-ok, subst, ap, ◌∙◌, sym,
}
use plan_it.Common.Int.{with_sign, pos, ◌+ℤ◌, ◌-ℤ◌, zero-+ℤ, -ℤ-+ℤ, +ℤ_right_zero}
use plan_it.Common.Text.{Text}
use plan_it.Ledger.Reallocation.{
  check_reallocation, FingerprintPart, AccountPosition, preview_reallocation, Requests,
  ReallocationPreview, has_duplicate, ids, total_from, non_balancing_from, lines_for,
  ReallocationLine, fingerprint_positions,
}
use plan_it.Money.{zero_money, money, Money, coerce_exact, money_eq, minus}
use plan_it.Decimal.{rescale}
use plan_it.Ledger.Reallocation.Sums.{
  AreLines, sum_before, sum_target, sum_delta, lines_for-AreLines, total_from-amount,
  non_balancing_from-amount, sum_balances, minus-amount, sum_requested, sum_delta-reaches,
  sum_target-balancing,
}

pub zero_money-amount : (c : Text) {m : Money} → zero_money c ≡ ok m → m.amount ≡ pos 0
unfolding zero_money money rescale with_sign coerce_exact
zero_money-amount c h = ground arith

-- What the checks leave to rely on.
check_reallocation-passed :
    (ps : List AccountPosition) (total : Money) (k : ℕ) (rs : Requests)
    → check_reallocation ps total k rs ≡ ok tt
    → (2 ≤ length ps)
      × (has_duplicate (ids ps) ≡ false)
      × (mem k (ids ps) ≡ true)
      × (lookup k rs ≡ none)
unfolding check_reallocation
check_reallocation-passed ps total k rs h = ground arith

not_stale : (a b : Money) → not (money_eq a b) ≡ false → a.amount ≡ b.amount
unfolding money_eq
not_stale a b h = ground arith

assemble :
    (ps : List AccountPosition) (k : ℕ) (rs : Requests) (total start current others derived : Money)
    (ls : List ReallocationLine)
    → start.amount ≡ pos 0
    → current.amount ≡ start.amount +ℤ sum_balances ps
    → current.amount ≡ total.amount
    → others.amount ≡ start.amount +ℤ sum_requested k rs ps
    → derived.amount ≡ total.amount -ℤ others.amount
    → AreLines k rs derived ps ls
    → has_duplicate (ids ps) ≡ false
    → mem k (ids ps) ≡ true
    → (sum_before ls ≡ total.amount) × (sum_target ls ≡ total.amount) × (sum_delta ls ≡ pos 0)
assemble ps k rs total start current others derived ls z c t o d lines unique present =
    let (same, reached) = sum_delta-reaches k rs derived ps ls lines in
    let aimed = sum_target-balancing k rs derived ps ls lines present unique in
    let none_added = ap (λ a. a +ℤ sum_balances ps) z ∙ zero-+ℤ (sum_balances ps) in
    let before = same ∙ sym none_added ∙ sym c ∙ t in
    let others_sum = o ∙ ap (λ a. a +ℤ sum_requested k rs ps) z ∙ zero-+ℤ (sum_requested k rs ps) in
    let after =
      aimed
      ∙ ap (λ a. a +ℤ sum_requested k rs ps) (d ∙ ap (λ a. total.amount -ℤ a) others_sum)
      ∙ -ℤ-+ℤ total.amount (sum_requested k rs ps) in
    (before, after, +ℤ_right_zero (sum_before ls) (sum_delta ls) (reached ∙ after ∙ sym before))

module _ {D : Type 0} (digest : List FingerprintPart → D) where
  abbrev result : List AccountPosition → Money → ℕ → List ReallocationLine → ReallocationPreview D
  result ps total k ls = record {
    fixed_total = total;
    balancing_account_id = k;
    lines = ls;
    source_fingerprint = fingerprint_positions digest ps;
  }

  -- What a successful preview promises for positions, a captured total and requests.
  pub record IsReallocation (ps : List AccountPosition) (total : Money) (k : ℕ) (rs : Requests)
      (v : ReallocationPreview D) : Type 0 where
    pub derived : Money
    pub described : AreLines k rs derived ps v.lines
    pub total_before : sum_before v.lines ≡ total.amount
    pub total_after : sum_target v.lines ≡ total.amount
    pub nothing_lost : sum_delta v.lines ≡ pos 0
    pub kept_total : v.fixed_total ≡ total
    pub kept_account : v.balancing_account_id ≡ k

  -- A preview that succeeds has one line for each account, in order, which starts at the balance of
  -- the account and leads to the requested balance, or the unchanged one where none is requested, or
  -- the derived one at the balancing account; a negative target is only for an account that allows
  -- it; the balances and the targets both add up to the captured total, and the deltas to nothing.
  pub preview_reallocation_balances :
      (ps : List AccountPosition) (total : Money) (k : ℕ) (rs : Requests)
      {v : ReallocationPreview D}
      → preview_reallocation digest ps total k rs ≡ ok v
      → IsReallocation ps total k rs v
  unfolding preview_reallocation
  preview_reallocation_balances ps total k rs {v} h =
      let (_, passed, h₁) = >>=-eq-ok (check_reallocation ps total k rs) _ h in
      let (start, e₀, h₂) = >>=-eq-ok (zero_money total.currency) _ h₁ in
      let (current, e₁, h₃) = >>=-eq-ok (total_from start ps) _ h₂ in
      let (fresh, h₄) = raise_if-eq-ok (not (money_eq current total)) _ _ h₃ in
      let (others, e₂, h₅) = >>=-eq-ok (non_balancing_from k rs start ps) _ h₄ in
      let (derived, e₃, h₆) = >>=-eq-ok (minus total others) _ h₅ in
      let (lines, e₄, h₇) = >>=-eq-ok (lines_for k rs derived ps) _ h₆ in
      let (_, unique, present, _) = check_reallocation-passed ps total k rs passed in
      let described = lines_for-AreLines k rs derived ps e₄ in
      let (before, after, moved) =
        assemble ps k rs total start current others derived lines
          (zero_money-amount total.currency e₀) (total_from-amount start ps e₁)
          (not_stale current total fresh) (non_balancing_from-amount k rs start ps e₂)
          (minus-amount total others e₃).0 described unique present in
      let done : result ps total k lines ≡ v = cc in
      subst (IsReallocation ps total k rs) done (record {
        derived = derived;
        described = described;
        total_before = before;
        total_after = after;
        nothing_lost = moved;
        kept_total = refl;
        kept_account = refl;
      })
