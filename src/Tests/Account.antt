-- ===== src/Tests/Account.antt =====
-- src/danta/services/reconciliation.py and src/danta/services/market_guard.py: one position, and a
-- market that falls for three observations.
use danta.Common.{String, ◌≡◌, ◌↔◌, ◌⊎◌, refl, none, some, List, [], ◌∷◌, map, true, false}
use danta.Common.Int.{ℤ, pos, negsuc}
use danta.Common.Eq.{string_eq}
use danta.Common.Dict.{Dict, lookup}
use danta.Common.Result.{ok}
use danta.Common.Decimal.FixedPoint.{fixed_point}
use danta.Session.{SymbolState, SymbolSession, new_session}
use danta.Market.{MarketRisk, is_risk_off, outside_unit}
use danta.Reconciliation.{AccountPosition, safe_for_new_entries, by_symbol, reconcile_positions}
use danta.Reconciliation.Safe.{Known, Backed, reconcile-safe}
use danta.Guard.{
  MarketWideRiskLevel, MarketGuardObservation, MarketGuardDecision, default_policy, is_emergency,
  observe,
}
use danta.Guard.Confirmed.{Lasting, instant, history_of, observe-risk_off}

abbrev position : AccountPosition fixed_point
position = record {
  symbol = "005930";
  quantity = pos 3;
  sellable_quantity = pos 3;
  average_price = fixed_point.lit (pos 70_000) 0;
}

abbrev sessions : Dict String SymbolSession
sessions =
    ("005930", record (new_session "005930" (pos 0) SymbolState.position_open) { quantity = pos 3 })
    ∷ []

reconcile-safe_example :
    (safe_for_new_entries fixed_point (reconcile_positions fixed_point (position ∷ []) sessions)
      ≡ true)
    ↔ (((symbol : String) (p : AccountPosition fixed_point)
          → lookup symbol (by_symbol fixed_point [] (position ∷ [])) ≡ some p
          → Known fixed_point sessions symbol p)
        × ((symbol : String) (s : SymbolSession)
            → lookup symbol sessions ≡ some s
            → Backed fixed_point (by_symbol fixed_point [] (position ∷ [])) symbol s))
unfolding lookup
reconcile-safe_example = reconcile-safe fixed_point (position ∷ []) sessions (refl, tt)

abbrev falling : MarketGuardObservation fixed_point
falling = record {
  kospi_return_pct = fixed_point.lit (negsuc 2) 0;
  declining_issue_ratio = fixed_point.lit (pos 9) 1;
  foreign_net_ratio = fixed_point.lit (pos 0) 0;
  foreign_delta_5m = pos 0;
  pension_net_million = pos 0;
  program_net_million = pos 0;
  program_delta_5m = pos 0;
  provider_complete = true;
  market_emergency = false;
}

-- the decision at the third such observation
abbrev stopped : MarketGuardDecision fixed_point
stopped = record {
  risk = MarketRisk.risk_off;
  stress_score = fixed_point.lit (pos 5) 1;
  reason_codes = "KOSPI_SHARP_DROP" ∷ "MARKET_BREADTH_COLLAPSE" ∷ [];
  level = MarketWideRiskLevel.risk_off;
}

abbrev three : List MarketRisk
three = MarketRisk.risk_off ∷ MarketRisk.risk_off ∷ MarketRisk.risk_off ∷ []

third_observation :
    observe fixed_point
      (default_policy fixed_point)
      falling
      (history_of fixed_point (default_policy fixed_point) (falling ∷ falling ∷ []))
    ≡ ok (stopped, three)
unfolding observe danta.Common.Decimal.lt danta.Common.Decimal.FixedPoint.fp_of_int
    danta.Common.Int.◌*ℤ◌ danta.Common.Decimal.FixedPoint.fp_lit danta.Common.Int.floor_div
    danta.Common.Lists.latest danta.Common.Decimal.FixedPoint.fp_div history_of
    danta.Common.Int.◌+ℤ◌ danta.Common.Int.◌-ℤ◌
third_observation = refl

falling-accepted : outside_unit fixed_point falling.declining_issue_ratio ≡ false
unfolding danta.Common.Decimal.lt danta.Common.Decimal.FixedPoint.fp_of_int danta.Common.Int.◌*ℤ◌
    danta.Common.Decimal.FixedPoint.fp_lit danta.Common.Int.floor_div
falling-accepted = refl

observe-risk_off_example : (is_risk_off stopped.risk ≡ true) ↔ (
    (is_risk_off (instant fixed_point (default_policy fixed_point) falling) ≡ true)
    × ((true ≡ false)
        ⊎ ((is_emergency fixed_point (default_policy fixed_point) falling ≡ true)
            ⊎ Lasting 3 (
                map
                  (instant fixed_point (default_policy fixed_point))
                  (falling ∷ falling ∷ falling ∷ [])))))
observe-risk_off_example =
    observe-risk_off fixed_point (default_policy fixed_point) falling (falling ∷ falling ∷ [])
      stopped three (falling-accepted, (falling-accepted, tt)) third_observation
