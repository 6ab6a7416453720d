-- ===== src/Tests/Journals.antt =====
-- src/danta/services/sql_order_journal.py: one intent, its order and a fill.
use danta.Common.{String, ◌≡◌, refl, Bool, true, false, some, [], ◌∷◌, List, arith}
use danta.Common.Int.{ℤ, pos, ◌+ℤ◌, ◌≤ℤ◌}
use danta.Common.Decimal.FixedPoint.{fixed_point}
use danta.Ledger.{
  IntentRow, OrderRow, FillRow, Tables, new_row, new_order, mark_submitting, mark_submitted,
  mark_failed, mark_unknown,
}
use danta.Ledger.Booking.{recorded_quantity, Report, apply_broker_status}
use danta.Ledger.Watermark.{IsLedger, apply_broker_status-IsLedger}
use danta.Ledger.Claims.{mark_submitting_exclusive}
use danta.Tests.Sending.{buy_order}
use danta.Tests.Decisions.{noon}

abbrev empty : Tables
empty = record { intents = []; orders = []; fills = [] }

abbrev claimed : Tables
claimed = (mark_submitting "i1" buy_order empty).1

abbrev unknown : Tables
unknown = mark_unknown buy_order "TimeoutError" claimed

abbrev submitted : Tables
submitted = (mark_submitted "o1" buy_order "77" noon claimed).1

mark_submitting_exclusive_example :
    (mark_submitting "i2" buy_order claimed ≡ (false, claimed))
    × (mark_submitting "i2" buy_order unknown ≡ (false, unknown))
    × (mark_submitting "i2" buy_order submitted ≡ (false, submitted))
    × ((mark_submitting "i2" buy_order (mark_failed buy_order "TimeoutError" claimed)).0 ≡ true)
unfolding mark_submitting danta.Ledger.intent_row
mark_submitting_exclusive_example =
    mark_submitting_exclusive "i1" "i2" "o1" "77" "TimeoutError" buy_order buy_order noon empty refl
      refl

-- the prices here are whole numbers
abbrev half_up : fixed_point.Decimal → ℤ
half_up d = fixed_point.trunc d

abbrev two_filled : Report fixed_point half_up
two_filled = record {
  id = "f1";
  idempotency_key = "k";
  broker_order_no = "77";
  symbol = "005930";
  ordered_quantity = pos 3;
  cumulative_filled_quantity = pos 2;
  average_fill_price = fixed_point.of_int (pos 69_000);
  remaining_quantity = pos 1;
  filled_at = noon;
}

abbrev filled : Tables
filled = (apply_broker_status fixed_point half_up two_filled submitted).1

apply_broker_status-IsLedger_example :
    (pos 0 ≤ℤ pos 2)
    × (recorded_quantity "o1" submitted.fills +ℤ pos 2 ≡ pos 2)
    × (recorded_quantity "o1" filled.fills ≡ pos 2)
    × IsLedger "o1" filled.fills
unfolding danta.Ledger.Booking.validate_report danta.Common.Decimal.FixedPoint.fp_of_int
    danta.Common.Int.◌*ℤ◌ danta.Ledger.intent_row mark_submitted mark_submitting
    danta.Ledger.latest_order apply_broker_status danta.Common.Int.◌-ℤ◌
    danta.Common.Decimal.FixedPoint.fp_mul danta.Common.Int.floor_div
apply_broker_status-IsLedger_example =
    apply_broker_status-IsLedger fixed_point half_up two_filled "o1" submitted (pos 2) refl refl
      refl refl
