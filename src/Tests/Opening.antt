-- ===== src/Tests/Opening.antt =====
-- src/danta/domain/premarket.py: a position that both venues see at a loss, under pressure.
use danta.Common.{◌↔◌, ◌≡◌, refl, Bool, true, not, ◌&&◌, ◌||◌, some, if◌then◌else◌}
use danta.Common.Int.{ℤ, pos, negsuc, leb_ℤ}
use danta.Common.Decimal.FixedPoint.{fixed_point}
use danta.Market.{MarketRisk}
use danta.Risk.{ExitUrgency}
use danta.Premarket.{
  PremarketAction, PremarketPolicy, PremarketSnapshot, PremarketDecision, is_exit, to_exit_decision,
  lowest_return, insufficient, exits, evaluate_premarket,
}
use danta.Premarket.Justified.{IsJustified, evaluate_premarket_justified}
use danta.Tests.Decisions.{noon}

abbrev opening_rules : PremarketPolicy fixed_point
opening_rules = record {
  version = "premarket-v1";
  approved = true;
  minimum_nxt_trade_samples = pos 3;
  maximum_snapshot_age_seconds = pos 60;
  early_loss_pct = fixed_point.lit (negsuc 1) 0;
  strong_loss_pct = fixed_point.lit (negsuc 3) 0;
  sell_pressure_threshold = fixed_point.lit (pos 6) 1;
  market_stress_threshold = fixed_point.lit (pos 6) 1;
}

-- 97 and 96 for 100
abbrev falling : PremarketSnapshot fixed_point
falling = record {
  symbol = "005930";
  generation = pos 1;
  average_entry_price = fixed_point.of_int (pos 100);
  sellable_quantity = pos 7;
  nxt_price = pos 97;
  nxt_trade_samples = pos 5;
  nxt_sell_pressure = fixed_point.lit (pos 7) 1;
  krx_expected_open_price = some (pos 96);
  market_stress_score = fixed_point.of_int (pos 0);
  market_risk = MarketRisk.normal;
  observed_at = noon;
  data_fresh = true;
}

abbrev planned : PremarketDecision
planned =
    exits fixed_point falling opening_rules noon ExitUrgency.protective "PREMARKET_STRONG_DEFENSE"

evaluate_premarket_justified_example :
    ((planned.action ≡ PremarketAction.plan_full_exit)
      ↔ IsJustified fixed_point falling opening_rules noon)
    × ((to_exit_decision planned).quantity
        ≡ (if is_exit planned.action then falling.sellable_quantity else pos 0))
unfolding evaluate_premarket danta.Common.Int.◌-ℤ◌ danta.Common.Int.◌*ℤ◌ danta.Common.Decimal.lt
    danta.Premarket.return_pct danta.Common.Decimal.FixedPoint.fp_mul danta.Common.Int.floor_div
    danta.Common.Decimal.FixedPoint.fp_div danta.Common.Decimal.FixedPoint.fp_of_int
    danta.Common.Decimal.FixedPoint.fp_lit
evaluate_premarket_justified_example =
    evaluate_premarket_justified fixed_point falling opening_rules noon planned refl
