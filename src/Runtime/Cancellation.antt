-- ===== src/Runtime/Cancellation.antt =====
-- src/danta/services/trading_runtime.py: the cancellation of a buy order and its end.
use danta.Common.{String, Bool, true, false, not, ◌&&◌, ◌||◌, none, some, if◌then◌else◌}
use danta.Common.Int.{ℤ, pos, ◌+ℤ◌, ltb_ℤ, leb_ℤ}
use danta.Common.Eq.{string_eq, ◌==◌, member, add_member}
use danta.Common.Dict.{lookup, contains, insert, erase}
use danta.Common.Result.{Result, ok, err, value_error, key_error}
use danta.Common.Decimal.{Decimals}
use danta.Capital as Cash
use danta.Broker.{KisOrderStatus}
use danta.Session.{SymbolState, OrderIntent, SymbolSession, is_buy}
use danta.Scheduler.{forget}
use danta.Orchestrator.{Orchestrator, write_session, capital_key}
use danta.Runtime.{Core, SubmittedOrder}

module _ (D : Decimals) (show : ℤ → String) where
  unfoldable pub cancellation_required : KisOrderStatus D → Core D → Result Bool
  cancellation_required status c = elim (lookup status.broker_order_no c.order_number_to_key) [
    | none ↦ ok false
    | some key ↦
        if member status.broker_order_no c.cancel_requested
        then ok false
        else elim (lookup key c.submitted) [
          | none ↦ err (key_error key)
          | some submitted ↦ ok (
              is_buy submitted.intent.side
              && (contains submitted.intent.symbol c.pending_buy_cancel_reason
                  && ltb_ℤ (pos 0) status.remaining_quantity))
        ]
  ]

  unfoldable pub record_cancellation_requested : String → Core D → Core D
  record_cancellation_requested broker_order_no c = record c {
    cancel_requested = add_member broker_order_no c.cancel_requested;
  }

  unfoldable pub request_buy_reprice : String → String → Core D → Result (Unit {0}) × Core D
  request_buy_reprice symbol reason c =
      if not (contains symbol c.plans)
      then (err (value_error "symbol is outside the active mandate"), c)
      else if reason == ""
      then (err (value_error "buy reprice reason is required"), c)
      else (
        ok tt,
        record c { pending_buy_cancel_reason = insert symbol reason c.pending_buy_cancel_reason },
      )

  -- `self.entry_attempts.get(symbol, 0)`
  abbrev pub attempts_of : String → Core D → ℤ
  attempts_of symbol c = elim (lookup symbol c.entry_attempts) [ none ↦ pos 0 | some n ↦ n ]

  -- the cash and the key of the order are given back
  abbrev pub give_back : OrderIntent → Orchestrator D → Orchestrator D
  give_back intent o = record o {
    capital_allocator =
        (Cash.release (capital_key D show intent.idempotency_key) o.capital_allocator).1;
    scheduler = forget intent.idempotency_key o.scheduler;
  }

  -- the writes to the session and to the core at the end of `finalize_buy_cancellation`
  unfoldable pub end_cancellation : KisOrderStatus D → OrderIntent → SymbolSession → Core D → Core D
  end_cancellation status intent session c =
      let cleared = record session { active_order_key = none } in
      let c' : Core D = record c {
        cancel_completed = add_member status.broker_order_no c.cancel_completed;
        pending_buy_cancel_reason = erase intent.symbol c.pending_buy_cancel_reason;
      } in
      if contains intent.symbol c.positions
      then record c' {
        orchestrator =
            write_session D show intent.symbol
              (record cleared { state = SymbolState.position_open }) c.orchestrator;
      }
      else record c' {
        entry_attempts =
            insert intent.symbol (attempts_of intent.symbol c +ℤ pos 1) c.entry_attempts;
        orchestrator =
            write_session D show intent.symbol
              (record cleared { state = SymbolState.watching_entry }) c.orchestrator;
      }

  -- from the look-up of the submitted order on
  unfoldable pub finalize_submitted :
      KisOrderStatus D → SubmittedOrder D → Core D → Result Bool × Core D
  unfolding end_cancellation
  finalize_submitted status submitted c =
      let intent = submitted.intent in
      if not (is_buy intent.side)
      then (ok false, c)
      else let c' : Core D = record c { orchestrator = give_back intent c.orchestrator } in
        elim (lookup intent.symbol c.orchestrator.sessions) [
          | none ↦ (err (key_error intent.symbol), c')
          | some session ↦ (ok true, end_cancellation status intent session c')
        ]

  unfoldable pub finalize_buy_cancellation : KisOrderStatus D → Core D → Result Bool × Core D
  unfolding finalize_submitted
  finalize_buy_cancellation status c =
      if not (member status.broker_order_no c.cancel_requested)
        || (member status.broker_order_no c.cancel_completed
            || (ltb_ℤ (pos 0) status.remaining_quantity
                || leb_ℤ status.ordered_quantity status.filled_quantity))
      then (ok false, c)
      else elim (lookup status.broker_order_no c.order_number_to_key) [
        | none ↦ (ok false, c)
        | some key ↦ elim (lookup key c.submitted) [
          | none ↦ (err (key_error key), c)
          | some submitted ↦ finalize_submitted status submitted c
        ]
      ]
