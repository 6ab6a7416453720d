-- ===== src/Risk.antt =====
-- src/danta/domain/risk.py: the average price of fills, the hard stop, and the types of the exit rules.
pub mod Stop
pub mod Exit
pub mod Priority
use danta.Common.{
  String, Bool, true, false, not, ◌&&◌, ◌||◌, Option, none, some, List, [], ◌∷◌, if◌then◌else◌,
}
use danta.Common.Int.{ℤ, pos, negsuc, ◌+ℤ◌, ◌*ℤ◌, leb_ℤ, ltb_ℤ, min_ℤ}
use danta.Common.Eq.{string_eq, ◌==◌}
use danta.Common.Time.{Datetime}
use danta.Common.Result.{Result, ok, err, value_error, ◌>>=◌, ◌>>◌, raise_if}
use danta.Common.Decimal.{Decimals, lt}
use danta.Market.{MarketRisk, zero_dec, one_dec, outside_unit}

-- `sum(quantity for _, quantity in fills)`, over pairs of price and quantity
unfoldable pub total_quantity : List (ℤ × ℤ) → ℤ
total_quantity [] = pos 0
total_quantity ((price, quantity) ∷ fills) = quantity +ℤ total_quantity fills

pub record RiskObservation (D : Decimals) : Type 0 where
  pub last_price : ℤ
  pub best_bid : Option ℤ
  pub broker_return_pct : Option D.Decimal

module _ (D : Decimals) where
  unfoldable pub total_value : D.Decimal → List (ℤ × ℤ) → D.Decimal
  total_value acc [] = acc
  total_value acc ((price, quantity) ∷ fills) =
      total_value (D.add acc (D.mul (D.of_int price) (D.of_int quantity))) fills

  unfoldable pub weighted_average_fill : List (ℤ × ℤ) → Result D.Decimal
  unfolding total_quantity total_value
  weighted_average_fill fills = do
    raise_if (leb_ℤ (total_quantity fills) (pos 0))
        (value_error "total fill quantity must be positive")
    ok (D.div (total_value (zero_dec D) fills) (D.of_int (total_quantity fills)))

  -- `Decimal("1") - STOP_LOSS_RATE`
  abbrev pub stop_factor : D.Decimal
  stop_factor = D.sub (one_dec D) (D.lit (pos 7) 2)

  unfoldable pub hard_stop_price : D.Decimal → ℤ → Result ℤ
  hard_stop_price average_entry_price tick_size = do
    raise_if (D.le average_entry_price (zero_dec D))
        (value_error "average entry price must be positive")
    raise_if (leb_ℤ tick_size (pos 0)) (value_error "tick_size must be positive")
    let raw = D.mul average_entry_price stop_factor
    ok (D.floor (D.div raw (D.of_int tick_size)) *ℤ tick_size)

  -- `bid is not None and bid <= stop_price`
  abbrev pub bid_at_most : Option ℤ → ℤ → Bool
  bid_at_most none stop_price = false
  bid_at_most (some bid) stop_price = leb_ℤ bid stop_price

  -- `pct is not None and pct <= Decimal("-7.0")`
  abbrev pub return_at_most : Option D.Decimal → Bool
  return_at_most none = false
  return_at_most (some pct) = D.le pct (D.lit (negsuc 69) 1)

  unfoldable pub hard_stop_triggered : ℤ → RiskObservation D → Bool
  hard_stop_triggered stop_price o =
      leb_ℤ o.last_price stop_price
      || (bid_at_most o.best_bid stop_price || return_at_most o.broker_return_pct)

pub data ExitAction : Type 0 where
  hold sell_market : ExitAction

pub data ExitUrgency : Type 0 where
  no_urgency normal protective hard_stop : ExitUrgency

pub record ExitPolicy (D : Decimals) : Type 0 where
  pub version : String
  pub approved : Bool
  pub early_loss_pct : D.Decimal
  pub strong_loss_pct : D.Decimal
  pub early_defense_score : D.Decimal
  pub strong_sell_pressure : D.Decimal
  pub panic_market_stress : D.Decimal
  pub profit_arm_pct : D.Decimal
  pub profit_giveback_pct : D.Decimal
  pub profit_weakness_score : D.Decimal
  pub max_holding_minutes : ℤ
  pub strong_recovery_score : D.Decimal
  pub strong_recovery_observation_seconds : ℤ
  pub profit_early_giveback_pct : D.Decimal
  pub profit_standard_arm_pct : D.Decimal
  pub profit_trend_arm_pct : D.Decimal
  pub profit_trend_giveback_pct : D.Decimal

pub record PositionRiskSnapshot (D : Decimals) : Type 0 where
  pub symbol : String
  pub generation : ℤ
  pub average_entry_price : D.Decimal
  pub quantity : ℤ
  pub sellable_quantity : ℤ
  pub last_price : ℤ
  pub best_bid : Option ℤ
  pub broker_return_pct : Option D.Decimal
  pub peak_return_pct : D.Decimal
  pub held_minutes : ℤ
  pub sell_pressure_score : D.Decimal
  pub weakness_score : D.Decimal
  pub market_stress_score : D.Decimal
  pub market_risk : MarketRisk
  pub box_valid : Bool
  pub data_fresh : Bool
  pub observed_at : Datetime
  pub buy_recovery_score : D.Decimal
  pub strong_defense_elapsed_seconds : ℤ

pub record ExitDecision : Type 0 where
  pub symbol : String
  pub generation : ℤ
  pub action : ExitAction
  pub urgency : ExitUrgency
  pub quantity : ℤ
  pub policy_version : String
  pub reason_codes : List String

module _ (D : Decimals) where
  -- `PositionRiskSnapshot(...)`: the value, if `__post_init__` accepts it
  unfoldable pub position_risk_snapshot : PositionRiskSnapshot D → Result (PositionRiskSnapshot D)
  position_risk_snapshot s = do
    raise_if (D.le s.average_entry_price (zero_dec D))
        (value_error "average_entry_price must be positive")
    raise_if (leb_ℤ s.quantity (pos 0) || ltb_ℤ s.sellable_quantity (pos 0))
        (value_error "position quantities are invalid")
    raise_if (ltb_ℤ s.quantity s.sellable_quantity)
        (value_error "sellable_quantity cannot exceed quantity")
    raise_if (leb_ℤ s.last_price (pos 0)) (value_error "last_price must be positive")
    raise_if (ltb_ℤ s.held_minutes (pos 0)) (value_error "held_minutes must not be negative")
    raise_if (not s.observed_at.is_aware) (value_error "observed_at must be timezone-aware")
    raise_if (outside_unit D s.sell_pressure_score)
        (value_error "sell_pressure_score must be between 0 and 1")
    raise_if (outside_unit D s.weakness_score)
        (value_error "weakness_score must be between 0 and 1")
    raise_if (outside_unit D s.market_stress_score)
        (value_error "market_stress_score must be between 0 and 1")
    raise_if (outside_unit D s.buy_recovery_score)
        (value_error "buy_recovery_score must be between 0 and 1")
    raise_if (ltb_ℤ s.strong_defense_elapsed_seconds (pos 0))
        (value_error "strong defense elapsed seconds must not be negative")
    ok s

  -- `ExitPolicy(...)`: the value, if `__post_init__` accepts it
  unfoldable pub exit_policy : ExitPolicy D → Result (ExitPolicy D)
  exit_policy p = do
    raise_if (p.version == "") (value_error "exit policy version is required")
    raise_if
        (not (
          lt D (D.lit (negsuc 6) 0) p.strong_loss_pct
          && (lt D p.strong_loss_pct p.early_loss_pct && lt D p.early_loss_pct (zero_dec D))))
        (value_error "loss thresholds must be ordered between -7 and 0")
    raise_if (outside_unit D p.early_defense_score)
        (value_error "early_defense_score must be between 0 and 1")
    raise_if (outside_unit D p.strong_sell_pressure)
        (value_error "strong_sell_pressure must be between 0 and 1")
    raise_if (outside_unit D p.panic_market_stress)
        (value_error "panic_market_stress must be between 0 and 1")
    raise_if (outside_unit D p.profit_weakness_score)
        (value_error "profit_weakness_score must be between 0 and 1")
    raise_if (outside_unit D p.strong_recovery_score)
        (value_error "strong_recovery_score must be between 0 and 1")
    raise_if (lt D p.profit_arm_pct (zero_dec D) || D.le p.profit_giveback_pct (zero_dec D))
        (value_error "profit thresholds must be non-negative")
    raise_if
        (not (
          D.le p.profit_arm_pct p.profit_standard_arm_pct
          && D.le p.profit_standard_arm_pct p.profit_trend_arm_pct))
        (value_error "profit arm thresholds must be ordered")
    raise_if
        (D.le p.profit_early_giveback_pct (zero_dec D)
          || D.le p.profit_trend_giveback_pct (zero_dec D))
        (value_error "profit giveback thresholds must be positive")
    raise_if (leb_ℤ p.strong_recovery_observation_seconds (pos 0))
        (value_error "strong recovery observation must be positive")
    raise_if (leb_ℤ p.max_holding_minutes (pos 0))
        (value_error "max_holding_minutes must be positive")
    ok p
