-- ===== src/Runtime/Events/Latch.antt =====
-- Market events while no market guard is known, or while new entries are latched off.
use danta.Common.{
  String, ◌≡◌, ap, inl, inr, Bool, true, false, ◌||◌, not, none, some, arith, Option-cases,
}
use danta.Common.Int.{ℤ, pos}
use danta.Common.Eq.{string_eq}
use danta.Common.Dict.{lookup, insert}
use danta.Common.Time.{Datetime}
use danta.Common.Result.{ok, err, key_error, runtime_error, Result-cases, or_raise, ◌>>=◌}
use danta.Common.Decimal.{Decimals}
use danta.Capital as Cash
use danta.Market.{MarketRisk, MarketSnapshot, market_snapshot, is_risk_off, is_fresh}
use danta.Realtime.{RealtimeEvent, symbol_of}
use danta.Signal.{RollingMarketSignal, update, snapshot, snapshot_fields}
use danta.Mandate.{EntryMandate}
use danta.Entry.{EntryAction, EntryPolicy, EntryDecision, evaluate_entry}
use danta.Risk.{ExitDecision, PositionRiskSnapshot, position_risk_snapshot}
use danta.Risk.Exit.{executable_price, evaluate_exit}
use danta.Session.{OrderIntent, SymbolSession, order_intent, is_sell}
use danta.Scheduler.{Entry, Put, put}
use danta.Orchestrator.{Orchestrator, Outcome, is_watching}
use danta.Orchestrator.Entries.{Put-cases}
use danta.Orchestrator.Calls.{
  handle_entry_decision, decide_planned, decide_entry, handle_exit_decision, queue_exit,
  exit_intent,
}
use danta.Runtime.{Core, ManagedPosition}
use danta.Runtime.Cancellation.{request_buy_reprice, attempts_of}
use danta.Runtime.Fills.{store}
use danta.Runtime.Positions.{
  exit_on, manage_position, on_position, times_of, exit_position, risk_fields, observe_return,
}
use danta.Runtime.Events.{
  entry_market_risk, decide, on_decision, on_session, situation, process_event, reprice_reason,
}

-- An intent comes out or waits that is not a sale.
abbrev pub buys : Outcome → Bool
buys (Outcome.done (ok (some i))) = not (is_sell i.side)
buys (Outcome.waits e) = not (is_sell e.intent.side)
buys (Outcome.done (ok none)) = false
buys (Outcome.done (err e)) = false

module _ (D : Decimals) (show : ℤ → String) where
  -- the same of an orchestrator, whose cash stays as it is
  abbrev Spares : Cash.Allocator → Outcome × Orchestrator D → Type 0
  Spares budgets x = (x.1.capital_allocator ≡ budgets) × (buys x.0 ≡ false)

  put_waiting :
      (i : OrderIntent) (o : Orchestrator D) (e : Entry)
      → (put i o.scheduler).0 ≡ Put.waiting e
      → e.intent ≡ i
  unfolding put
  put_waiting i o e h = ground arith

  order_intent_same : (i j : OrderIntent) → order_intent i ≡ ok j → j ≡ i
  unfolding order_intent
  order_intent_same i j h = ground arith

  queue_exit-Spares :
      (i : OrderIntent) (session : SymbolSession) (o : Orchestrator D)
      → is_sell i.side ≡ true
      → Spares o.capital_allocator (queue_exit D show i session o)
  unfolding queue_exit
  queue_exit-Spares i session o sale = elim (Put-cases (put i o.scheduler).0) [
    | inl refused ↦ (ground arith, ground arith)
    | inr (inl queued) ↦ (ground arith, ground arith)
    | inr (inr (e, waiting)) ↦ (
      ground arith,
      ground (arith, ap (λ (j : OrderIntent). is_sell j.side) (put_waiting i o e waiting)),
    )
  ]

  handle_exit-Spares :
      (d : ExitDecision) (at : Datetime) (o : Orchestrator D)
      → Spares o.capital_allocator (handle_exit_decision D show d at o)
  unfolding handle_exit_decision
  handle_exit-Spares d at o = elim (Option-cases (lookup d.symbol o.sessions)) [
    | inl missing ↦ (ground arith, ground arith)
    | inr (session, there) ↦ elim (Result-cases (order_intent (exit_intent D show d at))) [
      | inl (e, refused) ↦ (ground arith, ground arith)
      | inr (i, made) ↦
          let sale : is_sell i.side ≡ true =
            ap (λ (j : OrderIntent). is_sell j.side)
              (order_intent_same (exit_intent D show d at) i made) in
          ground (arith, queue_exit-Spares i session o sale)
    ]
  ]

  -- A decision that blocks changes nothing.
  blocked-Spares :
      (mandate_id : String) (d : EntryDecision) (at : Datetime) (attempt : ℤ) (o : Orchestrator D)
      → d.action ≡ EntryAction.block
      → Spares o.capital_allocator (handle_entry_decision D show mandate_id d at attempt o)
  unfolding handle_entry_decision decide_planned decide_entry
  blocked-Spares mandate_id d at attempt o blocked = (ground arith, ground arith)

  evaluate_entry_risk_off :
      (s : MarketSnapshot D) (maximum : ℤ) (p : EntryPolicy D) (fresh : Bool) (d : EntryDecision)
      → is_risk_off s.market_risk ≡ true
      → evaluate_entry D s maximum p fresh ≡ ok d
      → d.action ≡ EntryAction.block
  unfolding evaluate_entry
  evaluate_entry_risk_off s maximum p fresh d off h = ground arith

  snapshot_risk :
      (signal : RollingMarketSignal D) (now : Datetime) (risk : MarketRisk) (stress : D.Decimal)
      (box_valid fresh : Bool) (s : MarketSnapshot D)
      → snapshot D signal now risk stress box_valid fresh ≡ ok s
      → s.market_risk ≡ risk
  unfolding snapshot snapshot_fields market_snapshot
  snapshot_risk signal now risk stress box_valid fresh s h = ground arith

module _ (D : Decimals) (show : ℤ → String) (command_id : EntryMandate D → String) where
  -- the same of the runtime
  abbrev Safe : Core D → Outcome × Core D → Type 0
  Safe c x =
      (x.1.orchestrator.capital_allocator ≡ c.orchestrator.capital_allocator) × (buys x.0 ≡ false)

  exit_on-Safe :
      (fields : PositionRiskSnapshot D) (now : Datetime) (c : Core D)
      → Safe c (exit_on D show fields now c)
  unfolding exit_on
  exit_on-Safe fields now c =
      elim (Result-cases
        (position_risk_snapshot D fields >>= λ s. evaluate_exit D s c.exit_policy)) [
          | inl (e, refused) ↦ (ground arith, ground arith)
          | inr (d, decided) ↦ ground (arith, handle_exit-Spares D show d now c.orchestrator)
        ]

  exit_position-Safe :
      (position : ManagedPosition D) (s : MarketSnapshot D) (now : Datetime) (c : Core D)
      → Safe c (exit_position D show position s now c)
  unfolding exit_position
  exit_position-Safe position s now c = elim (Result-cases (times_of D show position now)) [
    | inl (e, refused) ↦ (ground arith, ground arith)
    | inr ((elapsed, minutes), timed) ↦
        let fields = risk_fields D show position s c.market_risk minutes elapsed in
        ground (arith, exit_on-Safe fields now c)
  ]

  manage_position-Safe :
      (position : ManagedPosition D) (s : MarketSnapshot D) (now : Datetime) (symbol : String)
      (c : Core D)
      → Safe c (manage_position D show position s now symbol c)
  unfolding manage_position
  manage_position-Safe position s now symbol c =
      let price = executable_price D s.last_price s.best_bid in
      let average = position.average_entry_price in
      let current_return =
        D.mul (D.div (D.sub (D.of_int price) average) average) (D.lit (pos 100) 0) in
      let p = observe_return D show current_return c.exit_policy.strong_loss_pct now position in
      ground (arith, exit_position-Safe p s now (store D show symbol p c))

  on_position-Safe :
      (s : MarketSnapshot D) (now : Datetime) (symbol : String) (c : Core D)
      → Safe c (on_position D show s now symbol c)
  unfolding on_position
  on_position-Safe s now symbol c = elim (Option-cases (lookup symbol c.positions)) [
    | inl missing ↦ (ground arith, ground arith)
    | inr (p, there) ↦ ground (arith, manage_position-Safe p s now symbol c)
  ]

  decide-block :
      (s : MarketSnapshot D) (now : Datetime) (symbol : String) (c : Core D) (mandate_id : String)
      (d : EntryDecision)
      → is_risk_off s.market_risk ≡ true
      → decide D show command_id s now symbol c ≡ ok (mandate_id, d)
      → d.action ≡ EntryAction.block
  unfolding decide
  decide-block s now symbol c mandate_id d off h =
      elim (Result-cases (or_raise c.mandate (runtime_error "entry mandate is not active"))) [
        | inl (e, refused) ↦ absurd (ground arith)
        | inr (m, active) ↦
            elim (Result-cases (or_raise (lookup symbol c.plans) (key_error symbol))) [
              | inl (e, refused) ↦ absurd (ground arith)
              | inr (plan, planned) ↦
                  elim (Result-cases (is_fresh D s now c.entry_policy.max_snapshot_age_seconds)) [
                    | inl (e, refused) ↦ absurd (ground arith)
                    | inr (fresh, aged) ↦
                        evaluate_entry_risk_off D show s plan.target_price c.entry_policy fresh d
                          off (ground arith)
                  ]
            ]
      ]

  on_decision-Safe :
      (mandate_id : String) (d : EntryDecision) (watching : Bool) (s : MarketSnapshot D)
      (now : Datetime) (symbol : String) (c : Core D)
      → d.action ≡ EntryAction.block
      → Safe c (on_decision D show command_id mandate_id d watching s now symbol c)
  unfolding on_decision request_buy_reprice
  on_decision-Safe mandate_id d watching s now symbol c blocked =
      let attempt = attempts_of D show symbol c in
      let latest = insert symbol (reprice_reason d.reason_codes) c.pending_buy_cancel_reason in
      ground (
        arith,
        blocked-Spares D show mandate_id d now attempt c.orchestrator blocked,
        on_position-Safe s now symbol c,
        on_position-Safe s now symbol (record c { pending_buy_cancel_reason = latest }),
      )

  on_session-Safe :
      (event : RealtimeEvent D) (s : MarketSnapshot D) (session : SymbolSession) (now : Datetime)
      (c : Core D)
      → is_risk_off s.market_risk ≡ true
      → Safe c (on_session D show command_id event s session now c)
  unfolding on_session
  on_session-Safe event s session now c off =
      elim (Result-cases (decide D show command_id s now (symbol_of event) c)) [
        | inl (e, refused) ↦ ground (arith, on_position-Safe s now (symbol_of event) c)
        | inr ((mandate_id, d), decided) ↦ ground (
          arith,
          on_position-Safe s now (symbol_of event) c,
          on_decision-Safe mandate_id d (is_watching session.state) s now (symbol_of event) c
              (decide-block s now (symbol_of event) c mandate_id d off decided),
        )
      ]

  situation-off :
      (symbol : String) (signal : RollingMarketSignal D) (now : Datetime) (c : Core D)
      (s : MarketSnapshot D) (session : SymbolSession)
      → (not c.market_guard_initialized || c.market_entry_resume_required) ≡ true
      → situation D show command_id symbol signal now c ≡ ok (s, session)
      → is_risk_off s.market_risk ≡ true
  unfolding situation
  situation-off symbol signal now c s session latched h =
      elim (Result-cases (or_raise (lookup symbol c.box_valid) (key_error symbol))) [
        | inl (e, refused) ↦ absurd (ground arith)
        | inr (box, known) ↦
            elim (Result-cases (
              snapshot D signal now (entry_market_risk D show command_id c) c.market_stress_score
                box true)) [
                  | inl (e, refused) ↦ absurd (ground arith)
                  | inr (s', taken) ↦
                      let risk =
                        snapshot_risk D show signal now (entry_market_risk D show command_id c)
                          c.market_stress_score box true s' taken in
                      ground (arith, risk)
                ]
      ]

  -- While the market guard has not reported, or a resumption of new entries is to be confirmed, a
  -- market event queues no buy and none comes to wait for room in the queue: what it queues is a sale.
  -- The cash of the allocator stays as it is. Without a condition on the rest of the state.
  pub process_event_latched :
      (event : RealtimeEvent D) (now : Datetime) (c : Core D)
      → (not c.market_guard_initialized || c.market_entry_resume_required) ≡ true
      → let (r, c') = process_event D show command_id event now c in
        (buys r ≡ false) × (c'.orchestrator.capital_allocator ≡ c.orchestrator.capital_allocator)
  unfolding process_event
  process_event_latched event now c latched =
      elim (Option-cases (lookup (symbol_of event) c.signals)) [
        | inl missing ↦ (ground arith, ground arith)
        | inr (signal, known) ↦ elim (Result-cases (update D event signal)) [
          | inl (e, refused) ↦ (ground arith, ground arith)
          | inr (signal', updated) ↦
              let c' : Core D = record c { signals = insert (symbol_of event) signal' c.signals } in
              elim (Result-cases (situation D show command_id (symbol_of event) signal' now c')) [
                | inl (e, refused) ↦ (ground arith, ground arith)
                | inr ((s, session), seen) ↦
                    let off =
                      situation-off (symbol_of event) signal' now c' s session latched seen in
                    ground (arith, on_session-Safe event s session now c' off)
              ]
        ]
      ]
