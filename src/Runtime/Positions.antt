-- ===== src/Runtime/Positions.antt =====
-- src/danta/services/trading_runtime.py: what a market event does to the position of its symbol.
use danta.Common.{ℕ, ◌/◌, String, Option, none, some, if◌then◌else◌}
use danta.Common.Int.{ℤ, pos, ◌-ℤ◌, pos_part, leb_ℤ}
use danta.Common.Eq.{string_eq}
use danta.Common.Dict.{lookup}
use danta.Common.Time.{Datetime, incomparable}
use danta.Common.Result.{Result, ok, err, type_error, zero_division, ◌>>=◌, ◌>>◌, raise_if}
use danta.Common.Decimal.{Decimals}
use danta.Clock.{krx_regular_trading_minutes_between}
use danta.Market.{MarketRisk, MarketSnapshot, zero_dec}
use danta.Market.Clip.{max_of}
use danta.Mandate.{eq_dec}
use danta.Risk.{PositionRiskSnapshot, position_risk_snapshot}
use danta.Risk.Exit.{executable_price, evaluate_exit}
use danta.Orchestrator.{Outcome}
use danta.Orchestrator.Calls.{handle_exit_decision}
use danta.Runtime.{Core, ManagedPosition}
use danta.Runtime.Fills.{store}

-- `int((now - started).total_seconds())`, not below zero; a difference of an aware and a naive time raises
abbrev pub elapsed_seconds : Option Datetime → Datetime → Result ℤ
elapsed_seconds none now = ok (pos 0)
elapsed_seconds (some started) now = do
  raise_if (incomparable now started)
      (type_error "can't subtract offset-naive and offset-aware datetimes")
  ok (pos (pos_part (now.micros -ℤ started.micros) / 1_000_000))

module _ (D : Decimals) (show : ℤ → String) where
  -- the risk snapshot, its evaluation and the exit
  unfoldable pub exit_on : PositionRiskSnapshot D → Datetime → Core D → Outcome × Core D
  exit_on fields now c =
      elim (position_risk_snapshot D fields >>= λ s. evaluate_exit D s c.exit_policy) [
        | err e ↦ (Outcome.done (err e), c)
        | ok decision ↦
            let (r, o) = handle_exit_decision D show decision now c.orchestrator in
            (r, record c { orchestrator = o })
      ]

  abbrev pub risk_fields :
      ManagedPosition D → MarketSnapshot D → MarketRisk → ℕ → ℤ → PositionRiskSnapshot D
  risk_fields position s market_risk held_minutes elapsed = record {
    symbol = position.symbol;
    generation = position.generation;
    average_entry_price = position.average_entry_price;
    quantity = position.quantity;
    sellable_quantity = position.sellable_quantity;
    last_price = s.last_price;
    best_bid = s.best_bid;
    broker_return_pct = none;
    peak_return_pct = position.peak_return_pct;
    held_minutes = pos held_minutes;
    sell_pressure_score = s.sell_pressure_score;
    weakness_score = s.weakness_score;
    market_stress_score = s.market_stress_score;
    market_risk = market_risk;
    box_valid = s.box_valid;
    data_fresh = s.data_fresh;
    observed_at = s.observed_at;
    buy_recovery_score = s.buy_recovery_score;
    strong_defense_elapsed_seconds = elapsed;
  }

  -- the writes to the position
  unfoldable pub observe_return :
      D.Decimal → D.Decimal → Datetime → ManagedPosition D → ManagedPosition D
  observe_return current_return strong_loss_pct now position =
      let started : Datetime = elim position.strong_defense_started_at [
        | none ↦ now
        | some at ↦ at
      ] in
      record position {
        peak_return_pct = max_of D position.peak_return_pct current_return;
        strong_defense_started_at =
            if D.le current_return strong_loss_pct then some started else none;
      }

  abbrev pub times_of : ManagedPosition D → Datetime → Result (ℤ × ℕ)
  times_of position now = do
    elapsed ← elapsed_seconds position.strong_defense_started_at now
    minutes ← krx_regular_trading_minutes_between position.opened_at now
    ok (elapsed, minutes)

  -- from the computation of the elapsed seconds on, with the position as it was written
  unfoldable pub exit_position :
      ManagedPosition D → MarketSnapshot D → Datetime → Core D → Outcome × Core D
  unfolding exit_on
  exit_position position s now c = elim (times_of position now) [
    | err e ↦ (Outcome.done (err e), c)
    | ok (elapsed, minutes) ↦ exit_on (risk_fields position s c.market_risk minutes elapsed) now c
  ]

  -- from the computation of the return on; a division by zero raises
  unfoldable pub manage_position :
      ManagedPosition D → MarketSnapshot D → Datetime → String → Core D → Outcome × Core D
  unfolding observe_return exit_position
  manage_position position s now symbol c =
      let price = executable_price D s.last_price s.best_bid in
      let average = position.average_entry_price in
      let current_return =
        D.mul (D.div (D.sub (D.of_int price) average) average) (D.lit (pos 100) 0) in
      let position' = observe_return current_return c.exit_policy.strong_loss_pct now position in
      if eq_dec D average (zero_dec D)
      then (Outcome.done (err (zero_division "division by zero")), c)
      else exit_position position' s now (store D show symbol position' c)

  -- from the look-up of the position on
  unfoldable pub on_position : MarketSnapshot D → Datetime → String → Core D → Outcome × Core D
  unfolding manage_position
  on_position s now symbol c = elim (lookup symbol c.positions) [
    | none ↦ (Outcome.done (ok none), c)
    | some position ↦
        if leb_ℤ position.quantity (pos 0)
        then (Outcome.done (ok none), c)
        else manage_position position s now symbol c
  ]
