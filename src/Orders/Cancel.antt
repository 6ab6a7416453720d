-- ===== src/Orders/Cancel.antt =====
-- `OrderManager.cancel` of src/danta/services/order_manager.py: a broker order is cancelled once. The
-- whole method runs under a lock.
use danta.Common.{
  String, ◌≡◌, inl, inr, Bool, true, false, ◌||◌, none, some, arith, if◌then◌else◌, Option-cases,
}
use danta.Common.Int.{ℤ, pos, leb_ℤ}
use danta.Common.Eq.{string_eq, ◌==◌}
use danta.Common.Dict.{Dict, lookup, insert, lookup-insert_self}
use danta.Common.Result.{Exc, Result, ok, err, value_error}

pub record CancellationExecution : Type 0 where
  pub original_broker_order_no : String
  pub cancellation_order_no : String
  pub status : String

abbrev pub Cancelled : Type 0
Cancelled = Dict String CancellationExecution

-- How a call went on: its result, the orders cancelled so far, and whether the broker was called.
-- `answer` is what `cancel_cash_order` returns, the number of its receipt, or raises.
pub record CancelCall : Type 0 where
  pub result : Result CancellationExecution
  pub cancelled : Cancelled
  pub calls_broker : Bool

unfoldable pub finish_cancel : String → Result String → Cancelled → CancelCall
finish_cancel broker_order_no (err e) cancelled = record {
  result = err e;
  cancelled = cancelled;
  calls_broker = true;
}
finish_cancel broker_order_no (ok number) cancelled =
    let execution : CancellationExecution = record {
      original_broker_order_no = broker_order_no;
      cancellation_order_no = number;
      status = "CANCEL_SUBMITTED";
    } in
    record {
      result = ok execution;
      cancelled = insert broker_order_no execution cancelled;
      calls_broker = true;
    }

abbrev refused : Exc → Cancelled → CancelCall
refused e cancelled = record { result = err e; cancelled = cancelled; calls_broker = false }

unfoldable pub cancel : String → String → ℤ → Result String → Cancelled → CancelCall
unfolding finish_cancel
cancel broker_order_no branch_no remaining_quantity answer cancelled =
    if broker_order_no == "" || branch_no == ""
    then refused (value_error "broker order number and branch number are required") cancelled
    else if leb_ℤ remaining_quantity (pos 0)
    then refused (value_error "remaining_quantity must be positive") cancelled
    else elim (lookup broker_order_no cancelled) [
      | some existing ↦ record { result = ok existing; cancelled = cancelled; calls_broker = false }
      | none ↦ finish_cancel broker_order_no answer cancelled
    ]

-- After a cancellation of an order has succeeded, the same call returns the same execution, does not
-- call the broker, and changes nothing, whatever the broker would answer.
pub cancel_again :
    (order branch : String) (quantity : ℤ) (answer later : Result String) (cancelled : Cancelled)
    (x : CancellationExecution)
    → (cancel order branch quantity answer cancelled).result ≡ ok x
    → let c = (cancel order branch quantity answer cancelled).cancelled in
      cancel order branch quantity later c
      ≡ record { result = ok x; cancelled = c; calls_broker = false }
unfolding cancel
cancel_again order branch quantity (err e) later cancelled x h =
    elim (Option-cases (lookup order cancelled)) [
      | inl fresh ↦ absurd (ground arith)
      | inr (y, known) ↦ ground arith
    ]
cancel_again order branch quantity (ok number) later cancelled x h =
    elim (Option-cases (lookup order cancelled)) [
      | inl fresh ↦ ground (arith, lookup-insert_self order x cancelled)
      | inr (y, known) ↦ ground arith
    ]
