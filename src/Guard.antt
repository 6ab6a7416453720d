-- ===== src/Guard.antt =====
-- src/danta/services/market_guard.py: the account-wide circuit breaker for new entries.
pub mod Confirmed
pub mod Stress
use danta.Common.{
  ℕ, zero, suc, String, Bool, true, false, not, ◌&&◌, ◌||◌, List, [], ◌∷◌, ◌++◌, ltb, if◌then◌else◌,
}
use danta.Common.Int.{ℤ, pos, negsuc, ltb_ℤ, leb_ℤ}
use danta.Common.Lists.{length, any, latest}
use danta.Common.Result.{Result, ok, err, value_error, ◌>>=◌, ◌>>◌, raise_if}
use danta.Common.Decimal.{Decimals, lt}
use danta.Market.{MarketRisk, is_risk_off, zero_dec, one_dec, outside_unit}
use danta.Market.Clip.{min_of, max_of}

-- from src/danta/domain/market_wide.py
pub data MarketWideRiskLevel : Type 0 where
  normal caution risk_off panic : MarketWideRiskLevel

abbrev pub is_panic : MarketWideRiskLevel → Bool
is_panic MarketWideRiskLevel.panic = true
is_panic _ = false

pub record MarketGuardPolicy (D : Decimals) : Type 0 where
  pub version : String
  pub caution_return_pct : D.Decimal
  pub risk_off_return_pct : D.Decimal
  pub panic_return_pct : D.Decimal
  pub caution_decline_ratio : D.Decimal
  pub risk_off_decline_ratio : D.Decimal
  pub caution_foreign_net_ratio : D.Decimal
  pub risk_off_foreign_net_ratio : D.Decimal
  pub caution_foreign_delta_5m_million : ℤ
  pub risk_off_foreign_delta_5m_million : ℤ
  -- the length of a `deque`, which is not negative
  pub confirmation_samples : ℕ

pub record MarketGuardObservation (D : Decimals) : Type 0 where
  pub kospi_return_pct : D.Decimal
  pub declining_issue_ratio : D.Decimal
  pub foreign_net_ratio : D.Decimal
  pub foreign_delta_5m : ℤ
  pub pension_net_million : ℤ
  pub program_net_million : ℤ
  pub program_delta_5m : ℤ
  pub provider_complete : Bool
  pub market_emergency : Bool

pub record MarketGuardDecision (D : Decimals) : Type 0 where
  pub risk : MarketRisk
  pub stress_score : D.Decimal
  pub reason_codes : List String
  pub level : MarketWideRiskLevel

-- `instantaneous`, `level` and `reasons`
pub record Reading : Type 0 where
  pub instantaneous : MarketRisk
  pub level : MarketWideRiskLevel
  pub reasons : List String

-- `self._history`, the latest item first
abbrev pub History : Type 0
History = List MarketRisk

module _ (D : Decimals) where
  abbrev pub default_policy : MarketGuardPolicy D
  default_policy = record {
    version = "kospi-market-guard-v3-foreign-acceleration";
    caution_return_pct = D.lit (negsuc 14) 1;
    risk_off_return_pct = D.lit (negsuc 24) 1;
    panic_return_pct = D.lit (negsuc 49) 1;
    caution_decline_ratio = D.lit (pos 65) 2;
    risk_off_decline_ratio = D.lit (pos 80) 2;
    caution_foreign_net_ratio = D.lit (negsuc 0) 2;
    risk_off_foreign_net_ratio = D.lit (negsuc 1) 2;
    caution_foreign_delta_5m_million = negsuc 99_999;
    risk_off_foreign_delta_5m_million = negsuc 299_999;
    confirmation_samples = 3;
  }

  -- `-a`
  abbrev pub negated : D.Decimal → D.Decimal
  negated a = D.sub (zero_dec D) a

  unfoldable pub flow_stress : MarketGuardObservation D → D.Decimal
  flow_stress v =
      min_of D (one_dec D)
        (max_of D (zero_dec D) (D.div (negated v.foreign_net_ratio) (D.lit (pos 3) 2)))

  -- `_stress`
  unfoldable pub stress : MarketGuardObservation D → D.Decimal
  unfolding flow_stress
  stress v =
      let drop = D.div (max_of D (zero_dec D) (negated v.kospi_return_pct)) (D.lit (pos 5) 0) in
      min_of D (one_dec D) (
        max_of D (zero_dec D)
          (D.div (D.add (D.add drop v.declining_issue_ratio) (flow_stress v)) (D.lit (pos 3) 0)))

  module _ (p : MarketGuardPolicy D) (v : MarketGuardObservation D) where
    abbrev pub is_emergency : Bool
    is_emergency =
        v.market_emergency
        || (D.le v.kospi_return_pct p.panic_return_pct
            && D.le p.risk_off_decline_ratio v.declining_issue_ratio)

    abbrev pub is_sharp_drop : Bool
    is_sharp_drop =
        (D.le v.kospi_return_pct p.risk_off_return_pct
          && D.le p.risk_off_decline_ratio v.declining_issue_ratio)
        || ((D.le v.kospi_return_pct p.caution_return_pct
              && (D.le p.caution_decline_ratio v.declining_issue_ratio
                  && D.le v.foreign_net_ratio p.risk_off_foreign_net_ratio))
            || (leb_ℤ v.foreign_delta_5m p.risk_off_foreign_delta_5m_million
                && (D.le v.kospi_return_pct p.caution_return_pct
                    || D.le p.caution_decline_ratio v.declining_issue_ratio)))

    abbrev pub is_elevated : Bool
    is_elevated =
        D.le v.kospi_return_pct p.caution_return_pct
        || (D.le p.caution_decline_ratio v.declining_issue_ratio
            || (D.le v.foreign_net_ratio p.caution_foreign_net_ratio
                || leb_ℤ v.foreign_delta_5m p.caution_foreign_delta_5m_million))

    abbrev pub accelerating : ℤ → List String
    accelerating limit =
        if leb_ℤ v.foreign_delta_5m limit then "FOREIGN_SELLING_ACCELERATING_5M" ∷ [] else []

    -- the chain of `if` and `elif`
    unfoldable pub reading : Reading
    reading =
        if not v.provider_complete
        then record {
          instantaneous = MarketRisk.risk_off;
          level = MarketWideRiskLevel.risk_off;
          reasons = "MARKET_DATA_INCOMPLETE" ∷ [];
        }
        else if is_emergency
        then record {
          instantaneous = MarketRisk.risk_off;
          level = MarketWideRiskLevel.panic;
          reasons = "MARKET_EMERGENCY" ∷ "KOSPI_PANIC_DROP" ∷ "MARKET_BREADTH_COLLAPSE" ∷ [];
        }
        else if is_sharp_drop
        then record {
          instantaneous = MarketRisk.risk_off;
          level = MarketWideRiskLevel.risk_off;
          reasons =
              "KOSPI_SHARP_DROP"
              ∷ "MARKET_BREADTH_COLLAPSE"
              ∷ accelerating p.risk_off_foreign_delta_5m_million;
        }
        else if is_elevated
        then record {
          instantaneous = MarketRisk.caution;
          level = MarketWideRiskLevel.caution;
          reasons = "MARKET_STRESS_ELEVATED" ∷ accelerating p.caution_foreign_delta_5m_million;
        }
        else record {
          instantaneous = MarketRisk.normal;
          level = MarketWideRiskLevel.normal;
          reasons = "MARKET_NORMAL" ∷ [];
        }

    -- the reasons that are added in any case
    unfoldable pub flow_reasons : List String
    flow_reasons =
        (if lt D v.foreign_net_ratio (zero_dec D)
            && (ltb_ℤ (pos 0) v.pension_net_million && lt D v.kospi_return_pct (zero_dec D))
          then "FOREIGN_OUTFLOW_PENSION_ABSORPTION_PROXY" ∷ []
          else [])
        ++ (if ltb_ℤ v.program_net_million (pos 0) && ltb_ℤ v.program_delta_5m (pos 0)
            then "PROGRAM_SELLING_ACCELERATING" ∷ []
            else [])

    -- `history` holds the new item already.
    unfoldable pub unconfirmed : Reading → History → Bool
    unconfirmed r history =
        is_risk_off r.instantaneous
        && (not (is_panic r.level)
            && (v.provider_complete
                && (ltb (length history) p.confirmation_samples
                    || any (λ item. not (is_risk_off item)) history)))

    unfoldable pub observe : History → Result (MarketGuardDecision D × History)
    unfolding reading unconfirmed flow_reasons stress
    observe history = do
      raise_if (outside_unit D v.declining_issue_ratio)
          (value_error "declining_issue_ratio must be between 0 and 1")
      let r = reading
      let history' = latest p.confirmation_samples (r.instantaneous ∷ history)
      let reasons = r.reasons ++ flow_reasons
      let waits = unconfirmed r history'
      ok (
        record {
          risk = if waits then MarketRisk.caution else r.instantaneous;
          stress_score = stress v;
          reason_codes =
              if waits then reasons ++ ("RISK_OFF_AWAITING_CONFIRMATION" ∷ []) else reasons;
          level = if waits then MarketWideRiskLevel.caution else r.level;
        },
        history',
      )
