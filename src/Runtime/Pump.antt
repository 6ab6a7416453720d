-- ===== src/Runtime/Pump.antt =====
-- src/danta/services/trading_runtime.py: an iteration of `OrderPump.run`, which takes an intent from the
-- queue and has it submitted. The callbacks `on_intent_ready` and `on_error` belong to the caller and
-- do not touch the state here; a cancellation of the task ends the loop and is no iteration.
use danta.Common.{String, ◌≡◌, Bool, true, false, Option, none, some, arith}
use danta.Common.Int.{ℤ}
use danta.Common.Eq.{string_eq, member, add_member, member-add_member_self}
use danta.Common.Dict.{lookup, lookup-insert_self}
use danta.Common.Result.{Exc, Result, ok, err, unknown_outcome, runtime_error}
use danta.Common.Decimal.{Decimals}
use danta.Session.{OrchestratorState, SymbolState, OrderIntent, SymbolSession, is_cancel}
use danta.Scheduler.{Scheduler, get}
use danta.Orders.{
  BrokerOutcome, Journal, execute, find, mark_submitting, record_outcome, mark_unknown,
}
use danta.Orchestrator.Calls.{record_order_failure}
use danta.Runtime.{Core}
use danta.Runtime.Fills.{record_submission}

-- `isinstance(exc, UnknownOrderOutcome)`
abbrev pub is_unknown : Exc → Bool
is_unknown (unknown_outcome message) = true
is_unknown _ = false

module _ (D : Decimals) (show : ℤ → String) where
  -- the handler of an exception
  unfoldable pub fail : OrderIntent → Exc → Core D → Result (Unit {0}) × Core D
  fail intent e c =
      let (r, o) = record_order_failure D show intent (is_unknown e) c.orchestrator in
      (r, record c { orchestrator = o })

  unfoldable pub deliver :
      (OrderIntent → BrokerOutcome)
      → OrderIntent
      → Core D
      → Journal
      → (Result (Unit {0}) × Core D) × Journal
  unfolding fail
  deliver broker intent c j =
      let (r, j') = execute broker intent j in
      elim r [
        | err e ↦ (fail intent e c, j')
        | ok execution ↦
            let (r', c') = record_submission D show intent execution c in
            elim r' [ err e ↦ (fail intent e c', j') | ok _ ↦ ((ok tt, c'), j') ]
      ]

  -- `none`: the queue is empty, and the pump waits.
  unfoldable pub pump :
      (OrderIntent → BrokerOutcome)
      → Core D
      → Journal
      → Option ((Result (Unit {0}) × Core D) × Journal)
  unfolding deliver
  pump broker c j = elim (get c.orchestrator.scheduler) [
    | none ↦ none
    | some (intent, scheduler) ↦
        let c' : Core D = record c {
          orchestrator = record c.orchestrator { scheduler = scheduler };
        } in
        some (deliver broker intent c' j)
  ]

  -- the journal after a transport error
  abbrev unanswered : OrderIntent → String → Journal → Journal
  unanswered intent name j =
      mark_unknown intent name
        (record j { submitting = add_member intent.idempotency_key j.submitting })

  execute-unanswered :
      (broker : OrderIntent → BrokerOutcome) (intent : OrderIntent) (name : String) (j : Journal)
      → broker intent ≡ BrokerOutcome.transport_error name
      → is_cancel intent.side ≡ false
      → find intent.idempotency_key j ≡ none
      → member intent.idempotency_key j.submitting ≡ false
      → execute broker intent j ≡ (
        err (unknown_outcome "order outcome is unknown; reconcile before any retry"),
        unanswered intent name j,
      )
  unfolding execute mark_submitting record_outcome find
  execute-unanswered broker intent name j answer kept new unclaimed = ground arith

  execute-refused :
      (again : OrderIntent → BrokerOutcome) (intent : OrderIntent) (j : Journal)
      → is_cancel intent.side ≡ false
      → find intent.idempotency_key j ≡ none
      → member intent.idempotency_key j.submitting ≡ true
      → execute again intent j ≡ (err (runtime_error "order intent is already being submitted"), j)
  unfolding execute mark_submitting find
  execute-refused again intent j kept new claimed = ground arith

  claimed :
      (intent : OrderIntent) (name : String) (j : Journal)
      → member intent.idempotency_key (unanswered intent name j).submitting ≡ true
  unfolding mark_unknown
  claimed intent name j =
      member-add_member_self intent.idempotency_key (add_member intent.idempotency_key j.submitting)

  still_unknown :
      (intent : OrderIntent) (name : String) (j : Journal)
      → find intent.idempotency_key j ≡ none
      → find intent.idempotency_key (unanswered intent name j) ≡ none
  unfolding mark_unknown find
  still_unknown intent name j new = new

  fail-quarantine :
      (intent : OrderIntent) (session : SymbolSession) (message : String) (c : Core D)
      → lookup intent.symbol c.orchestrator.sessions ≡ some session
      → let (r, c') = fail intent (unknown_outcome message) c in
        (r ≡ ok tt)
        × (c'.orchestrator.state ≡ OrchestratorState.entry_blocked)
        × (lookup intent.symbol c'.orchestrator.sessions
            ≡ some (record session { state = SymbolState.quarantined }))
  unfolding fail record_order_failure
  fail-quarantine intent session message c known =
      let quarantined : SymbolSession = record session { state = SymbolState.quarantined } in
      let stored = lookup-insert_self intent.symbol quarantined c.orchestrator.sessions in
      (ground arith, ground arith, ground (arith, stored))

  deliver-unanswered :
      (broker : OrderIntent → BrokerOutcome) (intent : OrderIntent) (name message : String)
      (c : Core D) (j j' : Journal)
      → execute broker intent j ≡ (err (unknown_outcome message), j')
      → deliver broker intent c j ≡ (fail intent (unknown_outcome message) c, j')
  unfolding deliver
  deliver-unanswered broker intent name message c j j' h = ground arith

  -- If the pump takes an intent, not a cancellation, that the journal has neither executed nor marked as
  -- being submitted, of a symbol with a session, and the broker ends in a transport error, then the
  -- iteration returns, the orchestrator is blocked for new entries and the symbol's session
  -- quarantined, and an execution of the same intent next, on the journal left, is refused with the
  -- journal unchanged, whatever the broker.
  pub pump-quarantine :
      (broker again : OrderIntent → BrokerOutcome) (intent : OrderIntent) (scheduler : Scheduler)
      (session : SymbolSession) (name : String) (c : Core D) (j : Journal)
      → get c.orchestrator.scheduler ≡ some (intent, scheduler)
      → broker intent ≡ BrokerOutcome.transport_error name
      → is_cancel intent.side ≡ false
      → find intent.idempotency_key j ≡ none
      → member intent.idempotency_key j.submitting ≡ false
      → lookup intent.symbol c.orchestrator.sessions ≡ some session
      → (c' : Core D) × (j' : Journal) × (pump broker c j ≡ some ((ok tt, c'), j'))
        × (c'.orchestrator.state ≡ OrchestratorState.entry_blocked)
        × (lookup intent.symbol c'.orchestrator.sessions
            ≡ some (record session { state = SymbolState.quarantined }))
        × (execute again intent j'
            ≡ (err (runtime_error "order intent is already being submitted"), j'))
  unfolding pump
  pump-quarantine broker again intent scheduler session name c j taken answer kept new unclaimed
        known =
      let taken_from : Core D = record c {
        orchestrator = record c.orchestrator { scheduler = scheduler };
      } in
      let message : String = "order outcome is unknown; reconcile before any retry" in
      let f = fail intent (unknown_outcome message) taken_from in
      let (returned, blocked, quarantined) =
        fail-quarantine intent session message taken_from known in
      let j' = unanswered intent name j in
      let sent = execute-unanswered broker intent name j answer kept new unclaimed in
      let done = deliver-unanswered broker intent name message taken_from j j' sent in
      (
        f.1,
        j',
        ground (arith, done, returned),
        blocked,
        quarantined,
        execute-refused again intent j' kept (still_unknown intent name j new)
            (claimed intent name j),
      )
