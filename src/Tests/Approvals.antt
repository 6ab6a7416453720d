-- ===== src/Tests/Approvals.antt =====
-- src/danta/domain/approval.py at an approval of half a million won.
use danta.Common.{◌≡◌, ◌↔◌, none, some, true, false}
use danta.Common.Int.{pos}
use danta.Common.Result.{ok}
use danta.Approval.{OrderType, BuyApproval, validate_for_order}
use danta.Approval.Granted.{Covers, validate_for_order-Covers}
use danta.Common.Time.{Datetime}

abbrev approval : BuyApproval
approval = record {
  approval_id = "a";
  symbol = "005930";
  max_amount_krw = pos 500_000;
  order_type = OrderType.limit;
  expires_at = record { is_aware = true; micros = pos 10 };
  max_holding_days = pos 5;
  limit_price = some (pos 70_000);
  max_acceptable_price = none;
}

abbrev early : Datetime
early = record { is_aware = true; micros = pos 5 }

validate_for_order-Covers_example :
    (validate_for_order approval early "005930" (pos 490_000) (pos 70_000) true false ≡ ok tt)
    ↔ Covers approval early "005930" (pos 490_000) (pos 70_000) true false
validate_for_order-Covers_example =
    validate_for_order-Covers approval early "005930" (pos 490_000) (pos 70_000) true false
