-- ===== src/Guard/Stress.antt =====
-- The stress score stays in the unit interval.
use danta.Common.{◌≡◌, subst, false}
use danta.Common.Decimal.{Decimals}
use danta.Common.Result.{ok, raise_if, >>=-eq-ok, ok_injective}
use danta.Market.{outside_unit}
use danta.Market.Clip.{clamped}
use danta.Guard.{
  MarketGuardPolicy, MarketGuardObservation, MarketGuardDecision, History, stress, observe,
}

module _ (D : Decimals) where
  -- Whatever the observation and the history, the score of a decision is between 0 and 1.
  stress_in_unit :
      (p : MarketGuardPolicy D) (v : MarketGuardObservation D) (history history' : History)
      (d : MarketGuardDecision D)
      → observe D p v history ≡ ok (d, history')
      → outside_unit D d.stress_score ≡ false
  unfolding observe stress
  stress_in_unit p v history history' d h =
      let (_, _, decided) = >>=-eq-ok (raise_if (outside_unit D v.declining_issue_ratio) _) _ h in
      subst (λ (x : MarketGuardDecision D × History). outside_unit D x.0.stress_score ≡ false)
        (ok_injective decided) (clamped D _)
