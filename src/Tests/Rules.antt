-- ===== src/Tests/Rules.antt =====
-- src/danta/domain/entry.py and src/danta/domain/risk.py: one entry and one exit.
use danta.Common.{◌≡◌, ◌↔◌, ◌⊎◌, ◌||◌, refl, some, none, [], ◌∷◌, true, false, arith}
use danta.Common.Int.{ℤ, pos, negsuc, ◌≤ℤ◌, ◌<ℤ◌}
use danta.Common.Result.{ok}
use danta.Common.Decimal.FixedPoint.{fixed_point}
use danta.Market.{MarketRisk, MarketSnapshot, is_risk_off, zero_dec}
use danta.Entry.{EntryAction, EntryPolicy, EntryDecision, evaluate_entry}
use danta.Entry.Eligible.{IsEligible, evaluate_entry-IsEligible}
use danta.Risk.{
  RiskObservation, hard_stop_price, hard_stop_triggered, ExitAction, ExitUrgency, ExitPolicy,
  PositionRiskSnapshot, ExitDecision,
}
use danta.Risk.Exit.{evaluate_exit, observation_of, sell, hold, strong_recovery}
use danta.Risk.Stop.{stop_level, quoted_at_most, returned_at_most_minus_seven, hard_stop_exact}
use danta.Risk.Priority.{
  SellsAllOrNone, IsStopSale, fires, evaluate_exit-SellsAllOrNone, evaluate_exit-hard_stop,
  evaluate_exit_unapproved, evaluate_exit_deep_loss,
}

abbrev snapshot : MarketSnapshot fixed_point
snapshot = record {
  symbol = "005930";
  observed_at = record { is_aware = true; micros = pos 0 };
  last_price = pos 70_000;
  best_bid = some (pos 69_900);
  best_ask = some (pos 70_000);
  sell_pressure_score = fixed_point.lit (pos 1) 1;
  stabilization_score = fixed_point.lit (pos 8) 1;
  buy_recovery_score = fixed_point.lit (pos 8) 1;
  weakness_score = fixed_point.lit (pos 1) 1;
  market_stress_score = fixed_point.lit (pos 1) 1;
  market_risk = MarketRisk.normal;
  box_valid = true;
  data_fresh = true;
  vwap = none;
}

abbrev pub entry_rules : EntryPolicy fixed_point
entry_rules = record {
  version = "v1";
  approved = true;
  max_snapshot_age_seconds = pos 5;
  sell_pressure_block = fixed_point.lit (pos 7) 1;
  stabilization_required = fixed_point.lit (pos 6) 1;
  buy_recovery_required = fixed_point.lit (pos 6) 1;
  max_spread_bps = fixed_point.lit (pos 50) 0;
}

evaluate_entry-IsEligible_example :
    ((d : EntryDecision) × (evaluate_entry fixed_point snapshot (pos 71_000) entry_rules true
        ≡ ok d)
      × (d.limit_price ≡ some (pos 70_000))
      × (d.action ≡ EntryAction.submit_limit_buy))
    ↔ (IsEligible fixed_point snapshot (pos 71_000) entry_rules true
        × (snapshot.best_ask ≡ some (pos 70_000))
        × (pos 70_000 ≤ℤ pos 71_000))
evaluate_entry-IsEligible_example =
    evaluate_entry-IsEligible fixed_point snapshot (pos 71_000) entry_rules true (pos 70_000)
      (omega arith)

abbrev pub exit_rules : ExitPolicy fixed_point
exit_rules = record {
  version = "v1";
  approved = true;
  early_loss_pct = fixed_point.lit (negsuc 2) 0;
  strong_loss_pct = fixed_point.lit (negsuc 4) 0;
  early_defense_score = fixed_point.lit (pos 7) 1;
  strong_sell_pressure = fixed_point.lit (pos 7) 1;
  panic_market_stress = fixed_point.lit (pos 9) 1;
  profit_arm_pct = fixed_point.lit (pos 3) 0;
  profit_giveback_pct = fixed_point.lit (pos 1) 0;
  profit_weakness_score = fixed_point.lit (pos 6) 1;
  max_holding_minutes = pos 1_000;
  strong_recovery_score = fixed_point.lit (pos 7) 1;
  strong_recovery_observation_seconds = pos 60;
  profit_early_giveback_pct = fixed_point.lit (pos 1) 0;
  profit_standard_arm_pct = fixed_point.lit (pos 5) 0;
  profit_trend_arm_pct = fixed_point.lit (pos 10) 0;
  profit_trend_giveback_pct = fixed_point.lit (pos 3) 0;
}

abbrev held : PositionRiskSnapshot fixed_point
held = record {
  symbol = "005930";
  generation = pos 0;
  average_entry_price = fixed_point.lit (pos 100_000) 0;
  quantity = pos 3;
  sellable_quantity = pos 3;
  last_price = pos 94_000;
  best_bid = some (pos 94_000);
  broker_return_pct = none;
  peak_return_pct = fixed_point.lit (pos 1) 1;
  held_minutes = pos 10;
  sell_pressure_score = fixed_point.lit (pos 1) 1;
  weakness_score = fixed_point.lit (pos 1) 1;
  market_stress_score = fixed_point.lit (pos 1) 1;
  market_risk = MarketRisk.normal;
  box_valid = true;
  data_fresh = true;
  observed_at = record { is_aware = true; micros = pos 0 };
  buy_recovery_score = fixed_point.lit (pos 8) 1;
  strong_defense_elapsed_seconds = pos 10;
}

-- a loss of more than seven percent
abbrev falling : PositionRiskSnapshot fixed_point
falling = record held { last_price = pos 92_000 }

positive_average : fixed_point.le held.average_entry_price (zero_dec fixed_point) ≡ false
unfolding danta.Common.Decimal.FixedPoint.fp_lit danta.Common.Int.floor_div danta.Common.Int.◌*ℤ◌
    danta.Common.Decimal.FixedPoint.fp_of_int
positive_average = refl

hard_stop_exact_example :
    (stop : ℤ) × (hard_stop_price fixed_point held.average_entry_price (pos 1) ≡ ok stop)
    × (hard_stop_triggered fixed_point stop (observation_of fixed_point held) ≡ (
        fixed_point.le
          (fixed_point.of_int held.last_price)
          (stop_level fixed_point held.average_entry_price)
        || (quoted_at_most fixed_point held.best_bid
              (stop_level fixed_point held.average_entry_price)
            || returned_at_most_minus_seven fixed_point held.broker_return_pct)))
hard_stop_exact_example =
    hard_stop_exact fixed_point held.average_entry_price (observation_of fixed_point held)
      positive_average

evaluate_exit-SellsAllOrNone_example :
    (d : ExitDecision) × (evaluate_exit fixed_point held exit_rules ≡ ok d)
    × SellsAllOrNone fixed_point held exit_rules d
evaluate_exit-SellsAllOrNone_example =
    evaluate_exit-SellsAllOrNone fixed_point held exit_rules positive_average

abbrev stop_sale : ExitDecision
stop_sale = sell fixed_point falling ExitUrgency.hard_stop "hard-stop-v1" "HARD_STOP_MINUS_7"

evaluate_exit-hard_stop_example :
    (IsStopSale fixed_point falling exit_rules stop_sale
      ↔ (fires fixed_point falling exit_rules ≡ true))
    × ((stop_sale.urgency ≡ ExitUrgency.hard_stop) ↔ (fires fixed_point falling exit_rules ≡ true))
unfolding evaluate_exit hard_stop_price danta.Common.Decimal.FixedPoint.fp_lit
    danta.Common.Int.floor_div danta.Common.Int.◌*ℤ◌ danta.Common.Decimal.FixedPoint.fp_of_int
    hard_stop_triggered danta.Common.Decimal.FixedPoint.fp_floor
    danta.Common.Decimal.FixedPoint.fp_div danta.Common.Decimal.FixedPoint.fp_mul
    danta.Common.Int.◌-ℤ◌
evaluate_exit-hard_stop_example =
    evaluate_exit-hard_stop fixed_point falling exit_rules stop_sale positive_average refl

evaluate_exit_unapproved_example : stop_sale.urgency ≡ ExitUrgency.hard_stop
unfolding evaluate_exit hard_stop_price danta.Common.Decimal.FixedPoint.fp_lit
    danta.Common.Int.floor_div danta.Common.Int.◌*ℤ◌ danta.Common.Decimal.FixedPoint.fp_of_int
    hard_stop_triggered danta.Common.Decimal.FixedPoint.fp_floor
    danta.Common.Decimal.FixedPoint.fp_div danta.Common.Decimal.FixedPoint.fp_mul
    danta.Common.Int.◌-ℤ◌
evaluate_exit_unapproved_example =
    evaluate_exit_unapproved fixed_point falling (record exit_rules { approved = false }) stop_sale
      positive_average refl refl refl

evaluate_exit_deep_loss_example :
    (held.box_valid ≡ true)
    × (held.data_fresh ≡ true)
    × (is_risk_off held.market_risk ≡ false)
    × (fixed_point.le exit_rules.strong_recovery_score held.buy_recovery_score ≡ true)
    × (held.strong_defense_elapsed_seconds <ℤ exit_rules.strong_recovery_observation_seconds)
unfolding danta.Risk.Exit.executable_return_pct danta.Common.Decimal.FixedPoint.fp_mul
    danta.Common.Int.floor_div danta.Common.Int.◌*ℤ◌ danta.Common.Decimal.FixedPoint.fp_div
    danta.Common.Decimal.FixedPoint.fp_lit danta.Common.Int.◌-ℤ◌
    danta.Common.Decimal.FixedPoint.fp_of_int danta.Common.Int.min_ℤ evaluate_exit hard_stop_price
    hard_stop_triggered danta.Common.Decimal.FixedPoint.fp_floor danta.Risk.Exit.soft_rules
    strong_recovery
evaluate_exit_deep_loss_example =
    evaluate_exit_deep_loss fixed_point held exit_rules
      (hold fixed_point held ExitUrgency.protective "v1" "MINUS_5_STRONG_RECOVERY_OBSERVATION")
      positive_average refl (omega arith) refl refl refl
