-- ===== src/Common/Dict/Sums.antt =====
-- Sums over the values of a dictionary, `sum(f(v) for v in d.values())`, under its updates.
use danta.Common.Eq.{Eq}
use danta.Common.Int.{ℤ, pos, ◌+ℤ◌, ◌≤ℤ◌, int_laws}
use danta.Common.Dict.{Dict, lookup, insert, erase}
use mathlib.Core.Path.{◌≡◌}
use mathlib.Core.Option.{none, some}
use mathlib.Core.List.{[], ◌∷◌}

module _ {ℓ κ} {K : Type ℓ} {V : Type κ} where
  unfoldable pub sum_values : (V → ℤ) → Dict K V → ℤ
  sum_values f [] = pos 0
  sum_values f (x ∷ d) = f x.1 +ℤ sum_values f d

  pub sum_values_nonneg :
      (f : V → ℤ) (d : Dict K V) → ((v : V) → pos 0 ≤ℤ f v) → pos 0 ≤ℤ sum_values f d
  unfolding sum_values
  sum_values_nonneg f [] h = omega int_laws
  sum_values_nonneg f (x ∷ d) h = omega (int_laws, h x.1, sum_values_nonneg f d h)

module _ {ℓ κ} {K : Type ℓ} {V : Type κ} ⦃e : Eq K⦄ (f : V → ℤ) (k : K) where
  pub sum-insert_new :
      (v : V) (d : Dict K V)
      → lookup k d ≡ none
      → sum_values f (insert k v d) ≡ sum_values f d +ℤ f v
  unfolding sum_values lookup insert
  sum-insert_new v [] h = omega int_laws
  sum-insert_new v (x ∷ d) h = grind (int_laws, sum-insert_new v d)

  pub sum-insert :
      (v old : V) (d : Dict K V)
      → lookup k d ≡ some old
      → sum_values f (insert k v d) +ℤ f old ≡ sum_values f d +ℤ f v
  unfolding sum_values lookup insert
  sum-insert v old [] h = cc
  sum-insert v old (x ∷ d) h = grind (int_laws, sum-insert v old d)

  pub sum-erase :
      (old : V) (d : Dict K V)
      → lookup k d ≡ some old
      → sum_values f (erase k d) +ℤ f old ≡ sum_values f d
  unfolding sum_values lookup erase
  sum-erase old [] h = cc
  sum-erase old (x ∷ d) h = grind (int_laws, sum-erase old d)
