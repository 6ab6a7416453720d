-- ===== src/Entry.antt =====
-- src/danta/domain/entry.py: when a watched symbol is bought, and at what limit.
pub mod Eligible
use danta.Common.{
  String, Bool, true, false, not, ◌&&◌, ◌||◌, Option, none, some, List, [], ◌∷◌, if◌then◌else◌,
}
use danta.Common.Int.{ℤ, pos, leb_ℤ, ltb_ℤ, min_ℤ}
use danta.Common.Eq.{string_eq, ◌==◌}
use danta.Common.Result.{Result, ok, err, value_error, ◌>>=◌, ◌>>◌, raise_if}
use danta.Common.Decimal.{Decimals, lt}
use danta.Market.{MarketSnapshot, is_risk_off, spread_bps, zero_dec, outside_unit}

pub data EntryAction : Type 0 where
  wait_price wait_sell_pressure wait_stabilization : EntryAction
  submit_limit_buy invalidate_mandate block : EntryAction

pub record EntryPolicy (D : Decimals) : Type 0 where
  pub version : String
  pub approved : Bool
  pub max_snapshot_age_seconds : ℤ
  pub sell_pressure_block : D.Decimal
  pub stabilization_required : D.Decimal
  pub buy_recovery_required : D.Decimal
  pub max_spread_bps : D.Decimal

pub record EntryDecision : Type 0 where
  pub symbol : String
  pub action : EntryAction
  pub policy_version : String
  pub limit_price : Option ℤ
  pub reason_codes : List String

module _ (D : Decimals) where
  -- `EntryPolicy(...)`: the value, if `__post_init__` accepts it
  unfoldable pub entry_policy : EntryPolicy D → Result (EntryPolicy D)
  entry_policy p = do
    raise_if (p.version == "") (value_error "entry policy version is required")
    raise_if (leb_ℤ p.max_snapshot_age_seconds (pos 0))
        (value_error "max_snapshot_age_seconds must be positive")
    raise_if (outside_unit D p.sell_pressure_block)
        (value_error "sell_pressure_block must be between 0 and 1")
    raise_if (outside_unit D p.stabilization_required)
        (value_error "stabilization_required must be between 0 and 1")
    raise_if (outside_unit D p.buy_recovery_required)
        (value_error "buy_recovery_required must be between 0 and 1")
    raise_if (D.le p.max_spread_bps (zero_dec D)) (value_error "max_spread_bps must be positive")
    ok p

  -- a decision that buys nothing
  abbrev pub declined : MarketSnapshot D → EntryPolicy D → EntryAction → String → EntryDecision
  declined snapshot policy action reason = record {
    symbol = snapshot.symbol;
    action = action;
    policy_version = policy.version;
    limit_price = none;
    reason_codes = reason ∷ [];
  }

  -- `spread_bps is None or spread_bps > policy.max_spread_bps`
  abbrev pub too_wide : Option D.Decimal → D.Decimal → Bool
  too_wide none limit = true
  too_wide (some spread) limit = lt D limit spread

  -- the tests from the ask on
  unfoldable pub evaluate_ask : MarketSnapshot D → ℤ → EntryPolicy D → ℤ → EntryDecision
  evaluate_ask snapshot maximum_price policy best_ask =
      if ltb_ℤ maximum_price best_ask
      then declined snapshot policy EntryAction.wait_price "BEST_ASK_ABOVE_MAXIMUM_PRICE"
      else if too_wide (spread_bps D snapshot) policy.max_spread_bps
      then declined snapshot policy EntryAction.wait_stabilization "SPREAD_TOO_WIDE"
      else if D.le policy.sell_pressure_block snapshot.sell_pressure_score
      then declined snapshot policy EntryAction.wait_sell_pressure "SELL_PRESSURE_STRONG"
      else if lt D snapshot.stabilization_score policy.stabilization_required
      then declined snapshot policy EntryAction.wait_stabilization "PRICE_NOT_STABILIZED"
      else if lt D snapshot.buy_recovery_score policy.buy_recovery_required
      then declined snapshot policy EntryAction.wait_stabilization "BUY_PRESSURE_NOT_RECOVERED"
      else record {
        symbol = snapshot.symbol;
        action = EntryAction.submit_limit_buy;
        policy_version = policy.version;
        limit_price = some (min_ℤ best_ask maximum_price);
        reason_codes = "PRICE_ELIGIBLE" ∷ "STABILIZED" ∷ "BUY_PRESSURE_RECOVERED" ∷ [];
      }

  unfoldable pub evaluate_entry : MarketSnapshot D → ℤ → EntryPolicy D → Bool → Result EntryDecision
  unfolding evaluate_ask
  evaluate_entry snapshot maximum_price policy snapshot_is_fresh = do
    raise_if (leb_ℤ maximum_price (pos 0)) (value_error "maximum_price must be positive")
    if not policy.approved
        then ok (declined snapshot policy EntryAction.block "ENTRY_POLICY_NOT_APPROVED")
        else if not snapshot_is_fresh
        then ok (declined snapshot policy EntryAction.block "MARKET_DATA_STALE")
        else if is_risk_off snapshot.market_risk
        then ok (declined snapshot policy EntryAction.block "MARKET_RISK_OFF")
        else elim snapshot.best_ask [
          | none ↦ ok (declined snapshot policy EntryAction.block "BEST_ASK_UNAVAILABLE")
          | some best_ask ↦ ok (evaluate_ask snapshot maximum_price policy best_ask)
        ]
