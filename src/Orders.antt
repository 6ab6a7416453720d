-- ===== src/Orders.antt =====
-- src/danta/services/order_manager.py: the journal of order intents, and the submission of an intent to
-- the broker. The broker is not part of the repository: what it answers is an argument.
pub mod Tasks
pub mod Invariant
pub mod AtMostOnce
pub mod Solo
pub mod Settled
pub mod Cancel
use Prim.Native.String.{◌++◌ as str_append}
use danta.Common.{
  String, Bool, true, false, not, ◌&&◌, ◌||◌, Option, none, some, List, [], ◌∷◌, ◌++◌,
  if◌then◌else◌,
}
use danta.Common.Eq.{string_eq, ◌==◌, member, add_member, discard}
use danta.Common.Dict.{Dict, lookup, contains, insert}
use danta.Common.Result.{
  Exc, Result, ok, err, not_implemented, runtime_error, unknown_outcome, value_error,
}
use danta.Session.{OrderIntent, is_cancel}

pub record OrderExecution : Type 0 where
  pub idempotency_key : String
  pub broker_order_no : String
  pub status : String

-- `InMemoryOrderJournal`; each of its methods runs under its lock
pub record Journal : Type 0 where
  pub submitting : List String
  pub executions : Dict String OrderExecution
  pub failures : Dict String String

unfoldable pub find : String → Journal → Option OrderExecution
find idempotency_key j = lookup idempotency_key j.executions

unfoldable pub mark_submitting : OrderIntent → Journal → Bool × Journal
mark_submitting intent j =
    let key = intent.idempotency_key in
    if member key j.submitting || contains key j.executions
    then (false, j)
    else (true, record j { submitting = add_member key j.submitting })

abbrev pub execution_of : OrderIntent → String → OrderExecution
execution_of intent broker_order_no = record {
  idempotency_key = intent.idempotency_key;
  broker_order_no = broker_order_no;
  status = "SUBMITTED";
}

unfoldable pub mark_submitted : OrderIntent → String → Journal → OrderExecution × Journal
mark_submitted intent broker_order_no j =
    let execution = execution_of intent broker_order_no in
    (
      execution,
      record j {
        executions = insert intent.idempotency_key execution j.executions;
        submitting = discard intent.idempotency_key j.submitting;
      },
    )

unfoldable pub mark_failed : OrderIntent → String → Journal → Journal
mark_failed intent reason j = record j {
  submitting = discard intent.idempotency_key j.submitting;
  failures = insert intent.idempotency_key reason j.failures;
}

unfoldable pub mark_unknown : OrderIntent → String → Journal → Journal
mark_unknown intent reason j = record j {
  submitting = add_member intent.idempotency_key j.submitting;
  failures = insert intent.idempotency_key (str_append "UNKNOWN:" reason) j.failures;
}

-- What `submit_cash_order` does: it returns a receipt with an order number, raises one of the
-- transport errors (`httpx.RequestError`, `TimeoutError`, `OSError`), or raises anything else, a
-- cancellation of the task included. The errors carry the name of their class.
pub data BrokerOutcome : Type 0 where
  receipt : String → BrokerOutcome
  transport_error other_error : String → BrokerOutcome

-- the end of `execute`, from the answer of the broker on
unfoldable pub record_outcome :
    BrokerOutcome → OrderIntent → Journal → Result OrderExecution × Journal
unfolding mark_submitted mark_failed mark_unknown
record_outcome (BrokerOutcome.receipt broker_order_no) intent j =
    if broker_order_no == ""
    then (
      err (runtime_error "broker receipt did not include an order number"),
      mark_failed intent "RuntimeError" j,
    )
    else let (execution, j') = mark_submitted intent broker_order_no j in (ok execution, j')
record_outcome (BrokerOutcome.transport_error name) intent j = (
  err (unknown_outcome "order outcome is unknown; reconcile before any retry"),
  mark_unknown intent name j,
)
record_outcome (BrokerOutcome.other_error name) intent j =
    (err (runtime_error name), mark_failed intent name j)

-- `OrderManager.execute`, run with no other task in between
unfoldable pub execute :
    (OrderIntent → BrokerOutcome) → OrderIntent → Journal → Result OrderExecution × Journal
unfolding find mark_submitting record_outcome
execute broker intent j = elim (find intent.idempotency_key j) [
  | some existing ↦ (ok existing, j)
  | none ↦
      if is_cancel intent.side
      then (err (not_implemented "cancel execution requires a broker order number"), j)
      else let (claimed, j') = mark_submitting intent j in
        if claimed
        then record_outcome (broker intent) intent j'
        else elim (find intent.idempotency_key j') [
          | some existing ↦ (ok existing, j')
          | none ↦ (err (runtime_error "order intent is already being submitted"), j')
        ]
]
