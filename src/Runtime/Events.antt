-- ===== src/Runtime/Events.antt =====
-- src/danta/services/trading_runtime.py: an event of the market data feed, and a price of the watchdog,
-- up to the order intent that they queue.
pub mod Latch
use danta.Common.{
  ℕ, ◌/◌, String, Bool, true, false, not, ◌&&◌, ◌||◌, Option, none, some, List, [], ◌∷◌,
  if◌then◌else◌,
}
use danta.Common.Int.{ℤ, pos, ◌-ℤ◌, pos_part, leb_ℤ}
use danta.Common.Eq.{string_eq, ◌==◌, member}
use danta.Common.Dict.{lookup, insert}
use danta.Common.Time.{Datetime, incomparable}
use danta.Common.Result.{
  Result, ok, err, key_error, runtime_error, type_error, zero_division, ◌>>=◌, ◌>>◌, raise_if,
  or_raise,
}
use danta.Common.Decimal.{Decimals}
use danta.Clock.{krx_regular_trading_minutes_between}
use danta.Market.{MarketRisk, MarketSnapshot, zero_dec, is_fresh}
use danta.Market.Clip.{max_of}
use danta.Realtime.{RealtimeEvent, symbol_of}
use danta.Signal.{RollingMarketSignal, update, ready, snapshot}
use danta.Mandate.{EntryMandate, PlannedEntry, eq_dec}
use danta.Entry.{EntryAction, EntryDecision, evaluate_entry}
use danta.Risk.{ExitDecision, PositionRiskSnapshot, position_risk_snapshot}
use danta.Risk.Exit.{executable_price, evaluate_exit}
use danta.Session.{SymbolState, OrderIntent, SymbolSession}
use danta.Orchestrator.{Orchestrator, Outcome, is_watching}
use danta.Orchestrator.Calls.{handle_entry_decision, handle_exit_decision}
use danta.Runtime.{Core, ManagedPosition, regular_entry_session}
use danta.Runtime.Cancellation.{request_buy_reprice, attempts_of}
use danta.Runtime.Fills.{store}
use danta.Runtime.Positions.{
  elapsed_seconds, exit_on, risk_fields, observe_return, times_of, exit_position, manage_position,
  on_position,
}

-- `{WATCHING_ENTRY, BUY_PENDING, PARTIALLY_FILLED}`
abbrev pub awaits_entry : SymbolState → Bool
awaits_entry SymbolState.watching_entry = true
awaits_entry SymbolState.buy_pending = true
awaits_entry SymbolState.partially_filled = true
awaits_entry _ = false

abbrev pub submits : EntryAction → Bool
submits EntryAction.submit_limit_buy = true
submits _ = false

abbrev pub reprice_reason : List String → String
reprice_reason [] = "ENTRY_CONDITION_DETERIORATED"
reprice_reason (code ∷ codes) = code

module _ (D : Decimals) (show : ℤ → String) (command_id : EntryMandate D → String) where
  abbrev pub entry_market_risk : Core D → MarketRisk
  entry_market_risk c =
      if not c.market_guard_initialized || c.market_entry_resume_required
      then MarketRisk.risk_off
      else c.market_risk

  -- the mandate's identifier and the decision on an entry
  unfoldable pub decide :
      MarketSnapshot D → Datetime → String → Core D → Result (String × EntryDecision)
  decide s now symbol c = do
    mandate ← or_raise c.mandate (runtime_error "entry mandate is not active")
    plan ← or_raise (lookup symbol c.plans) (key_error symbol)
    fresh ← is_fresh D s now c.entry_policy.max_snapshot_age_seconds
    decision ← evaluate_entry D s plan.target_price c.entry_policy fresh
    ok (command_id mandate, decision)

  abbrev pub enter : String → EntryDecision → Datetime → String → Core D → Outcome × Core D
  enter mandate_id decision now symbol c =
      let attempt = attempts_of D show symbol c in
      let (r, o) = handle_entry_decision D show mandate_id decision now attempt c.orchestrator in
      (r, record c { orchestrator = o })

  -- what follows the decision
  unfoldable pub on_decision :
      String
      → EntryDecision
      → Bool
      → MarketSnapshot D
      → Datetime
      → String
      → Core D
      → Outcome × Core D
  unfolding on_position
  on_decision mandate_id decision watching s now symbol c =
      if watching
      then (enter mandate_id decision now symbol c)
      else if submits decision.action
      then on_position D show s now symbol c
      else let (r, c') =
          request_buy_reprice D show symbol (reprice_reason decision.reason_codes) c in
        elim r [ err e ↦ (Outcome.done (err e), c') | ok _ ↦ on_position D show s now symbol c' ]

  -- from the look-up of the session on
  unfoldable pub on_session :
      RealtimeEvent D → MarketSnapshot D → SymbolSession → Datetime → Core D → Outcome × Core D
  unfolding decide on_decision on_position
  on_session event s session now c =
      if not (awaits_entry session.state)
      then on_position D show s now (symbol_of event) c
      else elim (regular_entry_session event now) [
        | err e ↦ (Outcome.done (err e), c)
        | ok false ↦ on_position D show s now (symbol_of event) c
        | ok true ↦ elim (decide s now (symbol_of event) c) [
          | err e ↦ (Outcome.done (err e), c)
          | ok (mandate_id, decision) ↦
              on_decision mandate_id decision (is_watching session.state) s now (symbol_of event) c
        ]
      ]

  -- the snapshot and the session
  unfoldable pub situation :
      String → RollingMarketSignal D → Datetime → Core D → Result (MarketSnapshot D × SymbolSession)
  situation symbol signal now c = do
    box_valid ← or_raise (lookup symbol c.box_valid) (key_error symbol)
    s ← snapshot D signal now (entry_market_risk c) c.market_stress_score box_valid true
    session ← or_raise (lookup symbol c.orchestrator.sessions) (key_error symbol)
    ok (s, session)

  unfoldable pub process_event : RealtimeEvent D → Datetime → Core D → Outcome × Core D
  unfolding situation on_session
  process_event event now c = elim (lookup (symbol_of event) c.signals) [
    | none ↦ (Outcome.done (ok none), c)
    | some signal ↦ elim (update D event signal) [
      | err e ↦ (Outcome.done (err e), c)
      | ok signal' ↦
          let c' : Core D = record c { signals = insert (symbol_of event) signal' c.signals } in
          if not (ready D signal')
          then (Outcome.done (ok none), c')
          else elim (situation (symbol_of event) signal' now c') [
            | err e ↦ (Outcome.done (err e), c')
            | ok (s, session) ↦ on_session event s session now c'
          ]
    ]
  ]

  abbrev pub watchdog_fields :
      ManagedPosition D → String → ℤ → Datetime → ℕ → Core D → PositionRiskSnapshot D
  watchdog_fields position symbol price observed_at held_minutes c = record {
    symbol = symbol;
    generation = position.generation;
    average_entry_price = position.average_entry_price;
    quantity = position.quantity;
    sellable_quantity = position.sellable_quantity;
    last_price = price;
    best_bid = none;
    broker_return_pct = none;
    peak_return_pct = position.peak_return_pct;
    held_minutes = pos held_minutes;
    sell_pressure_score = zero_dec D;
    weakness_score = zero_dec D;
    market_stress_score = c.market_stress_score;
    market_risk = c.market_risk;
    box_valid = true;
    data_fresh = true;
    observed_at = observed_at;
    buy_recovery_score = zero_dec D;
    strong_defense_elapsed_seconds = pos 0;
  }

  unfoldable pub watchdog_decision :
      ManagedPosition D → String → ℤ → Datetime → Core D → Result ExitDecision
  watchdog_decision position symbol price observed_at c = do
    minutes ← krx_regular_trading_minutes_between position.opened_at observed_at
    s ← position_risk_snapshot D (watchdog_fields position symbol price observed_at minutes c)
    evaluate_exit D s c.exit_policy

  unfoldable pub process_watchdog_price : String → ℤ → Datetime → Core D → Outcome × Core D
  unfolding watchdog_decision
  process_watchdog_price symbol price observed_at c = elim (lookup symbol c.positions) [
    | none ↦ (Outcome.done (ok none), c)
    | some position ↦ elim (watchdog_decision position symbol price observed_at c) [
      | err e ↦ (Outcome.done (err e), c)
      | ok decision ↦
          if not (
            member "HARD_STOP_MINUS_7" decision.reason_codes
            || member "HARD_DEFENSE_MINUS_5" decision.reason_codes)
          then (Outcome.done (ok none), c)
          else let (r, o) = handle_exit_decision D show decision observed_at c.orchestrator in
            (r, record c { orchestrator = o })
    ]
  ]
