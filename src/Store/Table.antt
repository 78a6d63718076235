-- ===== src/Store/Table.antt =====
-- A table with a primary key.
use plan_it.Common.{if◌then◌else◌, ◌∷◌, ◌≡◌, arith, refl, some, none, [], ℕ, List, Option, ◌==◌}

module _ {ℓ} {Row : Type ℓ} (key : Row → ℕ) where
  unfoldable pub find : ℕ → List Row → Option Row
  find k [] = none
  find k (r ∷ rs) = if key r == k then some r else find k rs

  -- Replaces the row with the key of `r`; without one, adds `r`.
  unfoldable pub put : Row → List Row → List Row
  put r [] = r ∷ []
  put r (q ∷ qs) = if key q == key r then r ∷ qs else q ∷ put r qs

  pub find-put :
      (r : Row) (rs : List Row) (k : ℕ)
      → find k (put r rs) ≡ (if key r == k then some r else find k rs)
  unfolding find put
  find-put r [] k = refl
  find-put r (q ∷ qs) k = ground (arith, find-put r qs k)

  pub find-key : (k : ℕ) (rs : List Row) {r : Row} → find k rs ≡ some r → key r ≡ k
  unfolding find
  find-key k [] h = cc
  find-key k (q ∷ qs) {r} h = ground (arith, find-key k qs {r = r})
