-- ===== src/Orchestrator/Calls.antt =====
-- The handlers of src/danta/services/trading_orchestrator.py for decisions, fills and failed orders. A
-- handler runs with no other task in between.
use Prim.Native.String.{◌++◌}
use danta.Common.{String, Bool, not, ◌&&◌, ◌||◌, Option, none, some, if◌then◌else◌}
use danta.Common.Int.{ℤ, pos, ◌+ℤ◌, ◌-ℤ◌, ltb_ℤ, leb_ℤ, eqb_ℤ, max_ℤ}
use danta.Common.Eq.{string_eq, pair_eq}
use danta.Common.Dict.{lookup}
use danta.Common.Time.{Datetime}
use danta.Common.Result.{Result, ok, err, value_error, key_error}
use danta.Common.Decimal.{Decimals}
use danta.Capital as Cash
use danta.Mandate.{PlannedEntry}
use danta.Entry.{EntryAction, EntryDecision}
use danta.Risk.{ExitAction, ExitDecision}
use danta.Session.{
  OrchestratorState, SymbolState, IntentSide, OrderIntent, order_intent, SymbolSession,
}
use danta.Scheduler.{Put, put, forget}
use danta.Orchestrator.{
  Orchestrator, Outcome, is_running, is_watching, exit_priority, cause_of, write_session,
  capital_key, submit_entry,
}

module _ (D : Decimals) (show : ℤ → String) where
  -- the tests of the action and the price, for a plan and a session that watches
  unfoldable pub decide_entry :
      String
      → PlannedEntry D
      → SymbolSession
      → EntryDecision
      → Datetime
      → ℤ
      → Orchestrator D
      → Outcome × Orchestrator D
  decide_entry mandate_id plan session decision created_at attempt o = elim decision.action [
    | EntryAction.invalidate_mandate ↦ (
      Outcome.done (ok none),
      write_session D show decision.symbol (record session { state = SymbolState.invalidated }) o,
    )
    | EntryAction.submit_limit_buy ↦ elim decision.limit_price [
      | none ↦ (Outcome.done (err (value_error "entry decision violates maximum buy price")), o)
      | some limit ↦
          if ltb_ℤ plan.target_price limit
          then (Outcome.done (err (value_error "entry decision violates maximum buy price")), o)
          else submit_entry D show mandate_id plan session decision limit created_at attempt o
    ]
    | _ ↦ (Outcome.done (ok none), o)
  ]

  abbrev outside_mandate : Outcome
  outside_mandate = Outcome.done (err (value_error "entry decision is outside an active mandate"))

  -- the look-ups of the plan and the session
  unfoldable pub decide_planned :
      String
      → Option (PlannedEntry D)
      → Option SymbolSession
      → EntryDecision
      → Datetime
      → ℤ
      → Orchestrator D
      → Outcome × Orchestrator D
  unfolding decide_entry
  decide_planned mandate_id none session decision created_at attempt o = (outside_mandate, o)
  decide_planned mandate_id (some plan) none decision created_at attempt o = (outside_mandate, o)
  decide_planned mandate_id (some plan) (some session) decision created_at attempt o =
      if not (is_watching session.state)
      then (Outcome.done (ok none), o)
      else decide_entry mandate_id plan session decision created_at attempt o

  unfoldable pub handle_entry_decision :
      String → EntryDecision → Datetime → ℤ → Orchestrator D → Outcome × Orchestrator D
  unfolding decide_planned
  handle_entry_decision mandate_id decision created_at attempt o =
      if ltb_ℤ attempt (pos 0)
      then (Outcome.done (err (value_error "entry attempt must not be negative")), o)
      else if not (is_running o.state)
      then (Outcome.done (ok none), o)
      else decide_planned mandate_id (lookup (mandate_id, decision.symbol) o.plans)
          (lookup decision.symbol o.sessions) decision created_at attempt o

  abbrev pub exit_intent : ExitDecision → Datetime → OrderIntent
  exit_intent d created_at = record {
    idempotency_key =
        d.symbol
        ++ ":"
        ++ show d.generation
        ++ ":SELL:"
        ++ cause_of d.reason_codes
        ++ ":"
        ++ d.policy_version;
    symbol = d.symbol;
    generation = d.generation;
    side = IntentSide.sell;
    priority = exit_priority d.urgency;
    quantity = d.quantity;
    order_type = "MARKET";
    limit_price = none;
    cause = cause_of d.reason_codes;
    policy_version = d.policy_version;
    created_at = created_at;
    approval_id = none;
  }

  -- `put` of a sale
  unfoldable pub queue_exit :
      OrderIntent → SymbolSession → Orchestrator D → Outcome × Orchestrator D
  queue_exit intent session o =
      let (r, scheduler) = put intent o.scheduler in
      let o' = record o { scheduler = scheduler } in
      elim r [
        | Put.refused ↦ (Outcome.done (ok none), o')
        | Put.waiting e ↦ (Outcome.waits e, o')
        | Put.queued ↦ (
          Outcome.done (ok (some intent)),
          write_session D show intent.symbol
              (record session {
                state = SymbolState.sell_pending;
                active_order_key = some intent.idempotency_key;
              })
              o',
        )
      ]

  abbrev no_position : Outcome
  no_position =
      Outcome.done (err (value_error "exit decision does not match an active position generation"))

  unfoldable pub handle_exit_decision :
      ExitDecision → Datetime → Orchestrator D → Outcome × Orchestrator D
  unfolding queue_exit
  handle_exit_decision d created_at o = elim d.action [
    | ExitAction.hold ↦ (Outcome.done (ok none), o)
    | ExitAction.sell_market ↦ elim (lookup d.symbol o.sessions) [
      | none ↦ (no_position, o)
      | some session ↦
          if not (eqb_ℤ session.generation d.generation)
          then (no_position, o)
          else if leb_ℤ d.quantity (pos 0)
          then (Outcome.done (ok none), o)
          else elim (order_intent (exit_intent d created_at)) [
            | err e ↦ (Outcome.done (err e), o)
            | ok intent ↦ queue_exit intent session o
          ]
    ]
  ]

  -- the session after a fill
  unfoldable pub filled : IntentSide → ℤ → ℤ → SymbolSession → SymbolSession
  filled IntentSide.buy quantity remaining s = record s {
    quantity = s.quantity +ℤ quantity;
    sellable_quantity = s.sellable_quantity +ℤ quantity;
    state =
        if eqb_ℤ remaining (pos 0) then SymbolState.position_open else SymbolState.partially_filled;
  }
  filled IntentSide.sell quantity remaining s =
      let left = max_ℤ (pos 0) (s.quantity -ℤ quantity) in
      record s {
        quantity = left;
        sellable_quantity = max_ℤ (pos 0) (s.sellable_quantity -ℤ quantity);
        state =
            if eqb_ℤ left (pos 0) && eqb_ℤ remaining (pos 0)
            then SymbolState.closed
            else SymbolState.sell_pending;
      }
  filled IntentSide.cancel quantity remaining s = s

  unfoldable pub record_fill :
      String → IntentSide → ℤ → ℤ → Orchestrator D → Result (Unit {0}) × Orchestrator D
  unfolding filled
  record_fill symbol side filled_quantity remaining_quantity o =
      if ltb_ℤ filled_quantity (pos 0) || ltb_ℤ remaining_quantity (pos 0)
      then (err (value_error "fill quantities must not be negative"), o)
      else elim (lookup symbol o.sessions) [
        | none ↦ (err (key_error symbol), o)
        | some session ↦ (
          ok tt,
          write_session D show symbol (filled side filled_quantity remaining_quantity session) o,
        )
      ]

  -- what a failure of a known outcome does to the session and the cash
  unfoldable pub undo : OrderIntent → SymbolSession → Orchestrator D → Orchestrator D
  undo intent session o =
      let cleared = record session { active_order_key = none } in
      elim intent.side [
        | IntentSide.buy ↦
            write_session D show intent.symbol
              (record cleared { state = SymbolState.watching_entry })
              (record o {
                capital_allocator =
                    (Cash.release (capital_key D show intent.idempotency_key)
                      o.capital_allocator).1;
              })
        | IntentSide.sell ↦
            write_session D show intent.symbol
              (record cleared { state = SymbolState.position_open }) o
        | IntentSide.cancel ↦ write_session D show intent.symbol cleared o
      ]

  unfoldable pub record_order_failure :
      OrderIntent → Bool → Orchestrator D → Result (Unit {0}) × Orchestrator D
  unfolding undo
  record_order_failure intent outcome_unknown o = elim (lookup intent.symbol o.sessions) [
    | none ↦ (err (key_error intent.symbol), o)
    | some session ↦
        if outcome_unknown
        then (
          ok tt,
          record (write_session D show intent.symbol
              (record session { state = SymbolState.quarantined }) o) {
                state = OrchestratorState.entry_blocked;
              },
        )
        else let o' = undo intent session o in
          (ok tt, record o' { scheduler = forget intent.idempotency_key o'.scheduler })
  ]
