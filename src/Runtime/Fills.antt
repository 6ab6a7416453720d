-- ===== src/Runtime/Fills.antt =====
-- src/danta/services/trading_runtime.py: submitted orders, and the fills that the broker reports.
pub mod Moves
pub mod Agreement
pub mod Counting
use danta.Common.{ℕ, String, Bool, true, false, not, ◌&&◌, ◌||◌, Option, none, some, if◌then◌else◌}
use danta.Common.Int.{ℤ, pos, ◌-ℤ◌, ltb_ℤ, leb_ℤ, eqb_ℤ}
use danta.Common.Eq.{string_eq, ◌==◌, add_member}
use danta.Common.Dict.{Dict, lookup, insert, erase}
use danta.Common.Time.{Datetime}
use danta.Common.Result.{Result, ok, err, value_error, key_error, runtime_error, ◌>>=◌, ◌>>◌}
use danta.Common.Decimal.{Decimals}
use danta.Market.{zero_dec}
use danta.Broker.{KisOrderStatus}
use danta.Session.{SymbolState, IntentSide, OrderIntent, SymbolSession}
use danta.Orders.{OrderExecution}
use danta.Orchestrator.{Orchestrator, write_session}
use danta.Orchestrator.Calls.{record_fill}
use danta.Runtime.{Core, ManagedPosition, SubmittedOrder, apply_buy_fill, apply_sell_fill}

module _ (D : Decimals) (show : ℤ → String) where
  -- the number is already mapped to the key of another intent
  abbrev pub maps_elsewhere : String → String → Core D → Bool
  maps_elsewhere broker_order_no key c = elim (lookup broker_order_no c.order_number_to_key) [
    | none ↦ false
    | some existing ↦ not (existing == key)
  ]

  abbrev pub submitted_order : OrderIntent → OrderExecution → SubmittedOrder D
  submitted_order intent execution = record {
    intent = intent;
    execution = execution;
    cumulative_filled = pos 0;
    cumulative_fill_value = zero_dec D;
    last_fill_value = pos 0;
  }

  unfoldable pub record_submission :
      OrderIntent → OrderExecution → Core D → Result (Unit {0}) × Core D
  record_submission intent execution c =
      if maps_elsewhere execution.broker_order_no intent.idempotency_key c
      then (err (runtime_error "broker order number is mapped to multiple intents"), c)
      else (
        ok tt,
        record c {
          submitted = insert intent.idempotency_key (submitted_order intent execution) c.submitted;
          order_number_to_key =
              insert execution.broker_order_no intent.idempotency_key c.order_number_to_key;
        },
      )

  -- the session of a restored order
  abbrev pub resumed : OrderIntent → ℤ → SymbolSession → SymbolSession
  resumed intent cumulative_filled s =
      let active : SymbolSession = record s { active_order_key = some intent.idempotency_key } in
      elim intent.side [
        | IntentSide.buy ↦ record active {
          state =
              if ltb_ℤ (pos 0) cumulative_filled
              then SymbolState.partially_filled
              else SymbolState.buy_pending;
        }
        | IntentSide.sell ↦ record active { state = SymbolState.sell_pending }
        | IntentSide.cancel ↦ active
      ]

  -- from the end of `record_submission` on
  unfoldable pub restore_recorded :
      OrderIntent → OrderExecution → ℤ → D.Decimal → Core D → Result (Unit {0}) × Core D
  restore_recorded intent execution cumulative_filled average_fill_price c =
      let c' : Core D = record c {
        recovered_order_keys = add_member intent.idempotency_key c.recovered_order_keys;
        submitted =
            insert intent.idempotency_key
              (record (submitted_order intent execution) {
                cumulative_filled = cumulative_filled;
                cumulative_fill_value = D.mul average_fill_price (D.of_int cumulative_filled);
              })
              c.submitted;
      } in
      elim (lookup intent.symbol c.orchestrator.sessions) [
        | none ↦ (err (value_error "recovered order has no symbol session"), c')
        | some session ↦ (
          ok tt,
          record c' {
            orchestrator =
                write_session D show intent.symbol (resumed intent cumulative_filled session)
                  c.orchestrator;
          },
        )
      ]

  unfoldable pub restore_submission :
      OrderIntent → OrderExecution → ℤ → D.Decimal → Core D → Result (Unit {0}) × Core D
  unfolding record_submission restore_recorded
  restore_submission intent execution cumulative_filled average_fill_price c =
      if ltb_ℤ cumulative_filled (pos 0) || ltb_ℤ intent.quantity cumulative_filled
      then (err (value_error "recovered cumulative fill quantity is invalid"), c)
      else let (r, c') = record_submission intent execution c in
        elim r [
          | err e ↦ (err e, c')
          | ok _ ↦ restore_recorded intent execution cumulative_filled average_fill_price c'
        ]

  abbrev pub opened : OrderIntent → Datetime → ManagedPosition D
  opened intent observed_at = record {
    symbol = intent.symbol;
    generation = intent.generation;
    quantity = pos 0;
    sellable_quantity = pos 0;
    average_entry_price = zero_dec D;
    opened_at = observed_at;
    peak_return_pct = zero_dec D;
    strong_defense_started_at = none;
  }

  abbrev pub position_or_new :
      OrderIntent → Datetime → Option (ManagedPosition D) → ManagedPosition D
  position_or_new intent observed_at none = opened intent observed_at
  position_or_new intent observed_at (some p) = p

  abbrev pub store : String → ManagedPosition D → Core D → Core D
  store symbol p c = record c { positions = insert symbol p c.positions }

  -- the fill on the positions
  unfoldable pub fill_buy :
      OrderIntent → ℤ → D.Decimal → Datetime → Core D → Result (Unit {0}) × Core D
  fill_buy intent delta price observed_at c =
      let position = position_or_new intent observed_at (lookup intent.symbol c.positions) in
      elim (apply_buy_fill D delta price position) [
        | err e ↦ (err e, store intent.symbol position c)
        | ok p ↦ (ok tt, store intent.symbol p c)
      ]

  unfoldable pub fill_sell : OrderIntent → ℤ → Core D → Result (Unit {0}) × Core D
  fill_sell intent delta c = elim (lookup intent.symbol c.positions) [
    | none ↦ (err (key_error intent.symbol), c)
    | some position ↦ elim (apply_sell_fill D delta position) [
      | err e ↦ (err e, c)
      | ok p ↦ (
        ok tt,
        if eqb_ℤ p.quantity (pos 0)
            then record c { positions = erase intent.symbol c.positions }
            else store intent.symbol p c,
      )
    ]
  ]

  unfoldable pub fill_position :
      OrderIntent → ℤ → D.Decimal → Datetime → Core D → Result (Unit {0}) × Core D
  unfolding fill_buy fill_sell
  fill_position intent delta price observed_at c = elim intent.side [
    | IntentSide.buy ↦ fill_buy intent delta price observed_at c
    | IntentSide.sell ↦ fill_sell intent delta c
    | IntentSide.cancel ↦ (ok tt, c)
  ]

  -- the position, then the session
  unfoldable pub fill_both : OrderIntent → ℤ → D.Decimal → ℤ → Datetime → Core D → Result ℤ × Core D
  unfolding fill_position
  fill_both intent delta price remaining observed_at c =
      let (r, c') = fill_position intent delta price observed_at c in
      let (r', o) = record_fill D show intent.symbol intent.side delta remaining c'.orchestrator in
      elim r [ err e ↦ (err e, c') | ok _ ↦ (r' >> ok delta, record c' { orchestrator = o }) ]

  abbrev pub write_order : String → SubmittedOrder D → Core D → Core D
  write_order key order c = record c { submitted = insert key order c.submitted }

  -- from the look-up of the submitted order on
  unfoldable pub count_fill :
      String → SubmittedOrder D → KisOrderStatus D → Datetime → Core D → Result ℤ × Core D
  unfolding fill_both
  count_fill key submitted status observed_at c =
      let delta = status.filled_quantity -ℤ submitted.cumulative_filled in
      let counted : SubmittedOrder D = record submitted {
        cumulative_filled = status.filled_quantity;
      } in
      let cumulative_value = D.mul status.average_fill_price (D.of_int status.filled_quantity) in
      let incremental_value = D.sub cumulative_value submitted.cumulative_fill_value in
      if ltb_ℤ status.filled_quantity submitted.cumulative_filled
      then (err (runtime_error "broker cumulative fill quantity moved backward"), c)
      else if eqb_ℤ delta (pos 0)
      then (ok (pos 0), c)
      else if D.le status.average_fill_price (zero_dec D)
      then (
        err (runtime_error "filled order did not include an average fill price"),
        write_order key counted c,
      )
      else if D.le incremental_value (zero_dec D)
      then (
        err (runtime_error "broker cumulative fill value did not increase"),
        write_order key counted c,
      )
      else fill_both submitted.intent delta (D.div incremental_value (D.of_int delta))
          status.remaining_quantity observed_at
          (write_order key
            (record counted {
              cumulative_fill_value = cumulative_value;
              last_fill_value = D.trunc incremental_value;
            })
            c)

  unfoldable pub apply_order_status : KisOrderStatus D → Datetime → Core D → Result ℤ × Core D
  unfolding count_fill
  apply_order_status status observed_at c =
      elim (lookup status.broker_order_no c.order_number_to_key) [
        | none ↦ (ok (pos 0), c)
        | some key ↦ elim (lookup key c.submitted) [
          | none ↦ (err (key_error key), c)
          | some submitted ↦ count_fill key submitted status observed_at c
        ]
      ]
