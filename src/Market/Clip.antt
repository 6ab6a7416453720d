-- ===== src/Market/Clip.antt =====
-- Decimals kept within bounds, as `_clip` of src/danta/services/market_signal.py does.
use danta.Common.{◌≡◌, refl, true, false, arith, Bool-cases, inl, inr, if◌then◌else◌}
use danta.Common.Int.{pos}
use danta.Common.Decimal.{Decimals, lt}
use danta.Market.{zero_dec, one_dec, outside_unit}

module _ (D : Decimals) where
  -- `min(a, b)` and `max(a, b)`, which return the first of two equal arguments
  abbrev pub min_of : D.Decimal → D.Decimal → D.Decimal
  min_of a b = if lt D b a then b else a

  abbrev pub max_of : D.Decimal → D.Decimal → D.Decimal
  max_of a b = if lt D a b then b else a

  -- `_clip`
  unfoldable pub clip : D.Decimal → D.Decimal
  clip value = min_of (one_dec D) (max_of (zero_dec D) value)

  zero-le-one : D.le (zero_dec D) (one_dec D) ≡ true
  zero-le-one = D.le-of_int (pos 0) (pos 1)

  pub le_self : (a : D.Decimal) → D.le a a ≡ true
  le_self a = elim (Bool-cases (D.le a a)) [ inl h ↦ h | inr h ↦ D.le_total a a h ]

  above_max : (low x : D.Decimal) → D.le low (max_of low x) ≡ true
  unfolding lt
  above_max low x = ground (arith, le_self low, D.le_total x low)

  below_min : (high x : D.Decimal) → D.le (min_of high x) high ≡ true
  unfolding lt
  below_min high x = ground (arith, le_self high, D.le_total high x)

  min_above :
      (low high x : D.Decimal)
      → D.le low high ≡ true
      → D.le low x ≡ true
      → D.le low (min_of high x) ≡ true
  unfolding lt
  min_above low high x h k = ground arith

  pub clamped :
      (x : D.Decimal) → outside_unit D (min_of (one_dec D) (max_of (zero_dec D) x)) ≡ false
  unfolding lt
  clamped x =
      let m = max_of (zero_dec D) x in
      rw (min_above (zero_dec D) (one_dec D) m zero-le-one (above_max (zero_dec D) x), below_min)
        refl

  pub clip_in_unit : (x : D.Decimal) → outside_unit D (clip x) ≡ false
  unfolding clip
  clip_in_unit x = clamped x
