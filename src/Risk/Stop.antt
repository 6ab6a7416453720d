-- ===== src/Risk/Stop.antt =====
-- The hard stop: the integer stop price against the exact 93% of the average entry price.
use danta.Common.{◌≡◌, refl, sym, Bool, false, ◌||◌, Option, none, some, arith}
use danta.Common.Int.{ℤ, pos, negsuc, ◌*ℤ◌}
use danta.Common.Result.{ok}
use danta.Common.Decimal.{Decimals}
use danta.Market.{zero_dec}
use danta.Risk.{RiskObservation, hard_stop_price, hard_stop_triggered, bid_at_most, return_at_most}

*ℤ_one : (a : ℤ) → a *ℤ pos 1 ≡ a
unfolding ◌*ℤ◌
*ℤ_one a = ground arith

module _ (D : Decimals) where
  -- 93% of an average price
  abbrev pub stop_level : D.Decimal → D.Decimal
  stop_level average = D.mul average (D.lit (pos 93) 2)

  -- a quoted price at or below a level
  abbrev pub quoted_at_most : Option ℤ → D.Decimal → Bool
  quoted_at_most none level = false
  quoted_at_most (some price) level = D.le (D.of_int price) level

  -- a reported return of -7.0% or less
  abbrev pub returned_at_most_minus_seven : Option D.Decimal → Bool
  returned_at_most_minus_seven none = false
  returned_at_most_minus_seven (some pct) = D.le pct (D.lit (negsuc 69) 1)

  return_at_most_lem :
      (pct : Option D.Decimal) → return_at_most D pct ≡ returned_at_most_minus_seven pct
  return_at_most_lem none = refl
  return_at_most_lem (some pct) = refl

  hard_stop_price-floor :
      (average : D.Decimal)
      → D.le average (zero_dec D) ≡ false
      → hard_stop_price D average (pos 1) ≡ ok (D.floor (stop_level average))
  unfolding hard_stop_price
  hard_stop_price-floor average h = rw (h, D.one_sub_hundredths 7 (omega arith), D.div_one, *ℤ_one)

  bid-floor :
      (bid : Option ℤ) (level : D.Decimal)
      → bid_at_most D bid (D.floor level) ≡ quoted_at_most bid level
  bid-floor none level = refl
  bid-floor (some price) level = sym (D.le-floor price level)

  -- For a positive average price the stop price at a tick of one exists, and the stop fires exactly if
  -- the last price or the bid is at most 93% of the average, or the broker reports a return of at most
  -- -7.0%: rounding the stop price down to an integer loses no trigger and adds none.
  pub hard_stop_exact :
      (average : D.Decimal) (o : RiskObservation D)
      → D.le average (zero_dec D) ≡ false
      → (stop : ℤ) × (hard_stop_price D average (pos 1) ≡ ok stop)
        × (hard_stop_triggered D stop o ≡ (
            D.le (D.of_int o.last_price) (stop_level average)
            || (quoted_at_most o.best_bid (stop_level average)
                || returned_at_most_minus_seven o.broker_return_pct)))
  unfolding hard_stop_triggered
  hard_stop_exact average o h = (
    D.floor (stop_level average),
    hard_stop_price-floor average h,
    rw (D.le-floor, bid-floor, return_at_most_lem o.broker_return_pct),
  )
