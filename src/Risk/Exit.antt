-- ===== src/Risk/Exit.antt =====
-- `evaluate_exit` of src/danta/domain/risk.py: the ladder of exit rules. It stands in three functions,
-- each of which ends in a call of the next.
use danta.Common.{String, Bool, not, ◌&&◌, ◌||◌, Option, none, some, [], ◌∷◌, if◌then◌else◌}
use danta.Common.Int.{ℤ, pos, leb_ℤ, ltb_ℤ, min_ℤ}
use danta.Common.Result.{Result, ok, ◌>>=◌}
use danta.Common.Decimal.{Decimals, lt}
use danta.Market.{is_risk_off, one_dec}
use danta.Risk.{
  RiskObservation, hard_stop_price, hard_stop_triggered, ExitAction, ExitUrgency, ExitPolicy,
  PositionRiskSnapshot, ExitDecision,
}

module _ (D : Decimals) where
  -- `min(a, b)` of decimals
  abbrev pub min_dec : D.Decimal → D.Decimal → D.Decimal
  min_dec a b = if lt D b a then b else a

  -- `executable_price` of a last price and a bid
  abbrev pub executable_price : ℤ → Option ℤ → ℤ
  executable_price last_price none = min_ℤ last_price last_price
  executable_price last_price (some bid) = min_ℤ last_price bid

  unfoldable pub executable_return_pct : PositionRiskSnapshot D → D.Decimal
  executable_return_pct s =
      let price = executable_price s.last_price s.best_bid in
      let calculated =
        D.mul (D.div (D.sub (D.of_int price) s.average_entry_price) s.average_entry_price)
          (D.lit (pos 100) 0) in
      elim s.broker_return_pct [ none ↦ calculated | some pct ↦ min_dec calculated pct ]

  -- a decision to sell all that can be sold
  abbrev pub sell : PositionRiskSnapshot D → ExitUrgency → String → String → ExitDecision
  sell s urgency version reason = record {
    symbol = s.symbol;
    generation = s.generation;
    action = ExitAction.sell_market;
    urgency = urgency;
    quantity = s.sellable_quantity;
    policy_version = version;
    reason_codes = reason ∷ [];
  }

  abbrev pub hold : PositionRiskSnapshot D → ExitUrgency → String → String → ExitDecision
  hold s urgency version reason = record {
    symbol = s.symbol;
    generation = s.generation;
    action = ExitAction.hold;
    urgency = urgency;
    quantity = pos 0;
    policy_version = version;
    reason_codes = reason ∷ [];
  }

  unfoldable pub profit_giveback : PositionRiskSnapshot D → ExitPolicy D → D.Decimal
  profit_giveback s policy =
      if D.le policy.profit_trend_arm_pct s.peak_return_pct
      then policy.profit_trend_giveback_pct
      else if D.le policy.profit_standard_arm_pct s.peak_return_pct
      then policy.profit_giveback_pct
      else policy.profit_early_giveback_pct

  unfoldable pub early_defense_triggered : PositionRiskSnapshot D → ExitPolicy D → Bool
  early_defense_triggered s policy =
      let local = D.div (D.add s.sell_pressure_score s.weakness_score) (D.lit (pos 2) 0) in
      D.le policy.early_defense_score local
      || (D.le policy.strong_sell_pressure s.sell_pressure_score
          || (D.le policy.panic_market_stress s.market_stress_score || is_risk_off s.market_risk))

  unfoldable pub strong_recovery : PositionRiskSnapshot D → ExitPolicy D → Bool
  strong_recovery s policy =
      let slack = D.sub (one_dec D) policy.strong_recovery_score in
      s.data_fresh
      && (not (is_risk_off s.market_risk)
          && (D.le policy.strong_recovery_score s.buy_recovery_score
              && (D.le s.sell_pressure_score slack
                  && (D.le s.weakness_score slack
                      && ltb_ℤ s.strong_defense_elapsed_seconds
                          policy.strong_recovery_observation_seconds))))

  unfoldable pub profit_exit : PositionRiskSnapshot D → ExitPolicy D → D.Decimal → Bool
  profit_exit s policy return_pct =
      D.le policy.profit_arm_pct s.peak_return_pct
      && (D.le return_pct (D.sub s.peak_return_pct (profit_giveback s policy))
          && D.le policy.profit_weakness_score s.weakness_score)

  -- from the early defense on
  unfoldable pub late_rules : PositionRiskSnapshot D → ExitPolicy D → D.Decimal → ExitDecision
  late_rules s policy return_pct =
      if D.le return_pct policy.early_loss_pct && early_defense_triggered s policy
      then sell s ExitUrgency.protective policy.version "EARLY_DEFENSE"
      else if leb_ℤ policy.max_holding_minutes s.held_minutes
      then sell s ExitUrgency.normal policy.version "MAX_HOLDING_TIME"
      else if profit_exit s policy return_pct
      then sell s ExitUrgency.normal policy.version "ADAPTIVE_PROFIT_FLOOR"
      else hold s ExitUrgency.no_urgency policy.version "NO_EXIT_CONDITION"

  -- from the test of the sellable quantity on
  unfoldable pub soft_rules : PositionRiskSnapshot D → ExitPolicy D → D.Decimal → ExitDecision
  soft_rules s policy return_pct =
      if leb_ℤ s.sellable_quantity (pos 0)
      then hold s ExitUrgency.no_urgency policy.version "NO_SELLABLE_QUANTITY"
      else if not policy.approved
      then hold s ExitUrgency.no_urgency policy.version "EXIT_POLICY_NOT_APPROVED"
      else if not s.box_valid
      then sell s ExitUrgency.protective policy.version "BOX_INVALIDATED"
      else if D.le return_pct policy.strong_loss_pct
      then (if strong_recovery s policy
          then hold s ExitUrgency.protective policy.version "MINUS_5_STRONG_RECOVERY_OBSERVATION"
          else sell s ExitUrgency.protective policy.version "HARD_DEFENSE_MINUS_5")
      else late_rules s policy return_pct

  abbrev pub observation_of : PositionRiskSnapshot D → RiskObservation D
  observation_of s = record {
    last_price = s.last_price;
    best_bid = s.best_bid;
    broker_return_pct = s.broker_return_pct;
  }

  unfoldable pub evaluate_exit : PositionRiskSnapshot D → ExitPolicy D → Result ExitDecision
  evaluate_exit s policy = do
    let return_pct = executable_return_pct s
    stop_price ← hard_stop_price D s.average_entry_price (pos 1)
    ok (
        if hard_stop_triggered D stop_price (observation_of s)
        then sell s ExitUrgency.hard_stop "hard-stop-v1" "HARD_STOP_MINUS_7"
        else soft_rules s policy return_pct)
