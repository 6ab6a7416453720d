-- ===== src/Premarket.antt =====
-- src/danta/domain/premarket.py: plans for the opening of the exchange, from the prices before it.
pub mod Justified
use danta.Common.{
  String, Bool, true, false, not, ◌&&◌, ◌||◌, Option, none, some, List, [], ◌∷◌, if◌then◌else◌,
}
use danta.Common.Int.{ℤ, pos, negsuc, ◌-ℤ◌, ◌*ℤ◌, leb_ℤ, ltb_ℤ}
use danta.Common.Eq.{string_eq, ◌==◌}
use danta.Common.Time.{Datetime}
use danta.Common.Result.{Result, ok, err, value_error, type_error, ◌>>=◌, ◌>>◌, raise_if}
use danta.Common.Decimal.{Decimals, lt}
use danta.Market.{MarketRisk, is_risk_off, zero_dec, outside_unit, nonpositive_price}
use danta.Market.Clip.{min_of}
use danta.Risk.{ExitAction, ExitUrgency, ExitDecision}

pub data PremarketAction : Type 0 where
  hold plan_full_exit : PremarketAction

pub record PremarketPolicy (D : Decimals) : Type 0 where
  pub version : String
  pub approved : Bool
  pub minimum_nxt_trade_samples : ℤ
  pub maximum_snapshot_age_seconds : ℤ
  pub early_loss_pct : D.Decimal
  pub strong_loss_pct : D.Decimal
  pub sell_pressure_threshold : D.Decimal
  pub market_stress_threshold : D.Decimal

pub record PremarketSnapshot (D : Decimals) : Type 0 where
  pub symbol : String
  pub generation : ℤ
  pub average_entry_price : D.Decimal
  pub sellable_quantity : ℤ
  pub nxt_price : ℤ
  pub nxt_trade_samples : ℤ
  pub nxt_sell_pressure : D.Decimal
  pub krx_expected_open_price : Option ℤ
  pub market_stress_score : D.Decimal
  pub market_risk : MarketRisk
  pub observed_at : Datetime
  pub data_fresh : Bool

pub record PremarketDecision : Type 0 where
  pub symbol : String
  pub generation : ℤ
  pub action : PremarketAction
  pub urgency : ExitUrgency
  pub quantity : ℤ
  pub policy_version : String
  pub reason_codes : List String
  pub decided_at : Datetime

abbrev pub is_exit : PremarketAction → Bool
is_exit PremarketAction.hold = false
is_exit PremarketAction.plan_full_exit = true

unfoldable pub to_exit_decision : PremarketDecision → ExitDecision
to_exit_decision d = record {
  symbol = d.symbol;
  generation = d.generation;
  action = if is_exit d.action then ExitAction.sell_market else ExitAction.hold;
  urgency = d.urgency;
  quantity = if is_exit d.action then d.quantity else pos 0;
  policy_version = d.policy_version;
  reason_codes = d.reason_codes;
}

module _ (D : Decimals) where
  -- `PremarketPolicy(...)`: the value, if `__post_init__` accepts it
  unfoldable pub premarket_policy : PremarketPolicy D → Result (PremarketPolicy D)
  premarket_policy p = do
    raise_if (p.version == "") (value_error "premarket policy version is required")
    raise_if (leb_ℤ p.minimum_nxt_trade_samples (pos 0))
        (value_error "minimum_nxt_trade_samples must be positive")
    raise_if (leb_ℤ p.maximum_snapshot_age_seconds (pos 0))
        (value_error "maximum_snapshot_age_seconds must be positive")
    raise_if
        (not (
          lt D (D.lit (negsuc 6) 0) p.strong_loss_pct
          && (lt D p.strong_loss_pct p.early_loss_pct && lt D p.early_loss_pct (zero_dec D))))
        (value_error "premarket loss thresholds must be ordered between -7 and 0")
    raise_if (outside_unit D p.sell_pressure_threshold)
        (value_error "sell_pressure_threshold must be between 0 and 1")
    raise_if (outside_unit D p.market_stress_threshold)
        (value_error "market_stress_threshold must be between 0 and 1")
    ok p

  -- `PremarketSnapshot(...)`: the value, if `__post_init__` accepts it
  unfoldable pub premarket_snapshot : PremarketSnapshot D → Result (PremarketSnapshot D)
  premarket_snapshot s = do
    raise_if (s.symbol == "") (value_error "symbol is required")
    raise_if (ltb_ℤ s.generation (pos 0)) (value_error "generation must not be negative")
    raise_if (D.le s.average_entry_price (zero_dec D))
        (value_error "average_entry_price must be positive")
    raise_if (ltb_ℤ s.sellable_quantity (pos 0))
        (value_error "sellable_quantity must not be negative")
    raise_if (leb_ℤ s.nxt_price (pos 0)) (value_error "nxt_price must be positive")
    raise_if (ltb_ℤ s.nxt_trade_samples (pos 0))
        (value_error "nxt_trade_samples must not be negative")
    raise_if (nonpositive_price s.krx_expected_open_price)
        (value_error "krx_expected_open_price must be positive")
    raise_if (not s.observed_at.is_aware) (value_error "observed_at must be timezone-aware")
    raise_if (outside_unit D s.nxt_sell_pressure)
        (value_error "nxt_sell_pressure must be between 0 and 1")
    raise_if (outside_unit D s.market_stress_score)
        (value_error "market_stress_score must be between 0 and 1")
    ok s

  -- The average price is positive, as `premarket_snapshot` checks.
  unfoldable pub return_pct : PremarketSnapshot D → ℤ → D.Decimal
  return_pct s price =
      D.mul (D.div (D.sub (D.of_int price) s.average_entry_price) s.average_entry_price)
        (D.lit (pos 100) 0)

  abbrev pub nxt_return_pct : PremarketSnapshot D → D.Decimal
  nxt_return_pct s = return_pct s s.nxt_price

  -- the lower one of the two returns, where the exchange has an expected price
  abbrev pub lowest_return : PremarketSnapshot D → Option ℤ → D.Decimal
  lowest_return s none = nxt_return_pct s
  lowest_return s (some price) = min_of D (nxt_return_pct s) (return_pct s price)

  abbrev pub decision :
      PremarketSnapshot D
      → PremarketPolicy D
      → Datetime
      → PremarketAction
      → ExitUrgency
      → ℤ
      → String
      → PremarketDecision
  decision s p now action urgency quantity reason_code = record {
    symbol = s.symbol;
    generation = s.generation;
    action = action;
    urgency = urgency;
    quantity = quantity;
    policy_version = p.version;
    reason_codes = reason_code ∷ [];
    decided_at = now;
  }

  abbrev pub holds : PremarketSnapshot D → PremarketPolicy D → Datetime → String → PremarketDecision
  holds s p now reason_code =
      decision s p now PremarketAction.hold ExitUrgency.no_urgency (pos 0) reason_code

  abbrev pub exits :
      PremarketSnapshot D → PremarketPolicy D → Datetime → ExitUrgency → String → PremarketDecision
  exits s p now urgency reason_code =
      decision s p now PremarketAction.plan_full_exit urgency s.sellable_quantity reason_code

  abbrev pub insufficient : PremarketSnapshot D → PremarketPolicy D → Datetime → Bool
  insufficient s p now =
      let age = now.micros -ℤ s.observed_at.micros in
      not s.data_fresh
      || (ltb_ℤ age (pos 0)
          || (ltb_ℤ (p.maximum_snapshot_age_seconds *ℤ pos 1_000_000) age
              || ltb_ℤ s.nxt_trade_samples p.minimum_nxt_trade_samples))

  abbrev pub pressure_confirmed : PremarketSnapshot D → PremarketPolicy D → Bool
  pressure_confirmed s p =
      D.le p.sell_pressure_threshold s.nxt_sell_pressure
      || (D.le p.market_stress_threshold s.market_stress_score || is_risk_off s.market_risk)

  -- from the test for an expected price on
  unfoldable pub evaluate_expected :
      PremarketSnapshot D → PremarketPolicy D → Datetime → Option ℤ → PremarketDecision
  evaluate_expected s p now none = holds s p now "KRX_EXPECTED_OPEN_REQUIRED"
  evaluate_expected s p now (some price) =
      let confirmed = pressure_confirmed s p && D.le (nxt_return_pct s) p.early_loss_pct in
      if D.le (return_pct s price) p.strong_loss_pct && confirmed
      then exits s p now ExitUrgency.protective "PREMARKET_STRONG_DEFENSE"
      else if D.le (return_pct s price) p.early_loss_pct && confirmed
      then exits s p now ExitUrgency.protective "PREMARKET_EARLY_DEFENSE"
      else holds s p now "PREMARKET_HOLD"

  unfoldable pub evaluate_premarket :
      PremarketSnapshot D → PremarketPolicy D → Datetime → Result PremarketDecision
  unfolding evaluate_expected
  evaluate_premarket s p now = do
    raise_if (not now.is_aware) (value_error "now must be timezone-aware")
    if leb_ℤ s.sellable_quantity (pos 0)
        then ok (holds s p now "NO_SELLABLE_QUANTITY")
        else if not s.observed_at.is_aware
        then err (type_error "can't subtract offset-naive and offset-aware datetimes")
        else if insufficient s p now
        then ok (holds s p now "PREMARKET_DATA_INSUFFICIENT")
        else if not p.approved
        then ok (holds s p now "PREMARKET_POLICY_NOT_APPROVED")
        else if D.le (lowest_return s s.krx_expected_open_price) (D.lit (negsuc 6) 0)
        then ok (exits s p now ExitUrgency.hard_stop "PREMARKET_HARD_STOP_MINUS_7")
        else ok (evaluate_expected s p now s.krx_expected_open_price)
