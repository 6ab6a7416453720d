-- ===== src/Tests/Values.antt =====
-- src/danta/domain/price_tick.py and src/danta/domain/mandate.py at small numbers.
use danta.Common.{ℕ, ◌+◌, ◌%◌, ◌<◌, ◌≡◌, ◌↔◌, refl, none, List, [], ◌∷◌, true, arith}
use danta.Common.Int.{ℤ, pos, negsuc, ◌≤ℤ◌, ◌<ℤ◌}
use danta.Common.Result.{ok}
use danta.Common.Decimal.FixedPoint.{fixed_point}
use danta.PriceTick.{kospi_tick_size, floor_kospi_price}
use danta.PriceTick.Rounding.{floor_kospi_price_bounds}
use danta.Mandate.{EntrySelection, EntryMandate, PlannedEntry, plan_entries, validate_invariants}
use danta.Mandate.Consistent.{IsConsistent, validate_invariants-IsConsistent}
use danta.Mandate.Plans.{PlansEach, plan_entries-PlansEach}

floor_kospi_price_bounds_example :
    (q : ℕ) × (floor_kospi_price (pos 70_080) ≡ ok (pos q))
    × (q % 100 ≡ 0)
    × (0 < q)
    × (pos q ≤ℤ pos 70_080)
    × (pos 70_080 <ℤ pos (q + 100))
    × (kospi_tick_size (pos q) ≡ ok 100)
unfolding kospi_tick_size
floor_kospi_price_bounds_example = floor_kospi_price_bounds (pos 70_080) 100 refl

abbrev selection : EntrySelection fixed_point
selection = record {
  rank = pos 1;
  symbol = "005930";
  name = "Samsung";
  entry_target_price_krw = pos 70_000;
  entry_price_source = "USER_EDITED";
  allocation_pct = fixed_point.lit (pos 50) 0;
  selection_basis = "QUANTITATIVE_OPPORTUNITY";
  ai_grade = none;
  box_low = fixed_point.lit (pos 60_000) 0;
  box_high = fixed_point.lit (pos 80_000) 0;
}

abbrev mandate : EntryMandate fixed_point
mandate = record {
  report_data_as_of = record { is_aware = true; micros = pos 0 };
  window_days = pos 7;
  total_allocation_pct = fixed_point.lit (pos 50) 0;
  unallocated_cash_pct = fixed_point.lit (pos 50) 0;
  selected_symbol_count = pos 1;
  hard_stop_pct = fixed_point.lit (negsuc 69) 1;
  selections = selection ∷ [];
  request = "buy";
}

abbrev pub plan : PlannedEntry fixed_point
plan = record {
  symbol = "005930";
  target_price = pos 70_000;
  allocation_pct = fixed_point.lit (pos 50) 0;
  allocated_cash = pos 500_000;
  quantity = pos 7;
  idempotency_key = "m:005930:BUY";
}

plan_entries-PlansEach_example : PlansEach fixed_point (pos 1_000_000) (selection ∷ []) (plan ∷ [])
unfolding plan_entries danta.Mandate.plan_all danta.Mandate.plan_of danta.Mandate.int_div
    danta.Common.Int.floor_div danta.Capital.cap_of danta.Common.Decimal.FixedPoint.fp_trunc
    danta.Common.Decimal.FixedPoint.fp_div danta.Common.Decimal.FixedPoint.fp_lit
    danta.Common.Int.◌*ℤ◌ danta.Common.Decimal.FixedPoint.fp_mul
    danta.Common.Decimal.FixedPoint.fp_of_int
plan_entries-PlansEach_example =
    plan_entries-PlansEach fixed_point (pos 1_000_000) (λ _. "m") mandate (plan ∷ [])
      (omega arith, tt) refl

validate_invariants-IsConsistent_example :
    (validate_invariants fixed_point mandate ≡ ok mandate)
    ↔ (IsConsistent fixed_point mandate × (mandate ≡ mandate))
validate_invariants-IsConsistent_example =
    validate_invariants-IsConsistent fixed_point mandate mandate
