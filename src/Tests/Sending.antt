-- ===== src/Tests/Sending.antt =====
-- src/danta/services/order_manager.py: two tasks that send the same intent.
use danta.Common.{ℕ, ◌+◌, ◌≤◌, String, ◌≡◌, refl, some, none, List, [], ◌∷◌, true, false}
use danta.Common.Int.{pos}
use danta.Common.Eq.{string_eq}
use danta.Common.Dict.{lookup}
use danta.Common.Result.{ok, err, runtime_error}
use danta.Session.{IntentSide, IntentPriority, OrderIntent}
use danta.Orders.{OrderExecution, BrokerOutcome, execution_of, execute}
use danta.Orders.Tasks.{Pc, run, start, advance, times, empty_journal}
use danta.Orders.AtMostOnce.{submit_at_most_once, one_task_per_key}
use danta.Orders.Settled.{executed_stays, unknown_never_retried}
use danta.Orders.Cancel.{CancellationExecution, cancel, cancel_again}

abbrev pub buy_order : OrderIntent
buy_order = record {
  idempotency_key = "k";
  symbol = "005930";
  generation = pos 0;
  side = IntentSide.buy;
  priority = IntentPriority.entry;
  quantity = pos 3;
  order_type = "LIMIT";
  limit_price = some (pos 70_000);
  cause = "ENTRY_CONFIRMED";
  policy_version = "v1";
  created_at = record { is_aware = true; micros = pos 0 };
  approval_id = none;
}

abbrev both : ℕ → OrderIntent
both t = buy_order

-- task 0 takes its next step, and the broker accepts
abbrev sends : ℕ × BrokerOutcome
sends = (0, BrokerOutcome.receipt "77")

abbrev other : ℕ × BrokerOutcome
other = (1, BrokerOutcome.receipt "78")

abbrev times_out : ℕ × BrokerOutcome
times_out = (0, BrokerOutcome.transport_error "TimeoutError")

-- both tasks find nothing, task 0 claims the key, is accepted, and records it
abbrev success : List (ℕ × BrokerOutcome)
success = sends ∷ other ∷ sends ∷ sends ∷ sends ∷ []

abbrev retry : List (ℕ × BrokerOutcome)
retry = other ∷ other ∷ other ∷ other ∷ []

-- task 0 waits to record a timeout
abbrev failure : List (ℕ × BrokerOutcome)
failure = times_out ∷ other ∷ times_out ∷ times_out ∷ []

submit_at_most_once_example :
    let s = run both success start in times "k" s.sent ≤ times "k" s.rejected + 1
submit_at_most_once_example = submit_at_most_once both success "k"

one_task_per_key_example : ◌≡◌ {A = ℕ} 0 0
unfolding run advance danta.Orders.Tasks.move danta.Orders.find lookup danta.Orders.mark_submitting
    danta.Common.Eq.member
one_task_per_key_example = one_task_per_key both failure 0 0 refl refl refl

executed_stays_example :
    let s = run both success start in
    let s' = run both retry s in
    (lookup "k" s'.journal.executions ≡ some (execution_of buy_order "77"))
    × (times "k" s'.sent ≡ times "k" s.sent)
unfolding lookup run advance danta.Orders.Tasks.move danta.Orders.find danta.Orders.mark_submitting
    danta.Common.Eq.member danta.Orders.record_outcome danta.Common.Dict.insert
executed_stays_example = executed_stays both "k" success retry (execution_of buy_order "77") refl

unknown_never_retried_example :
    let s = run both failure start in
    times "k" (run both retry (advance both 0 (BrokerOutcome.receipt "79") s)).sent
    ≡ times "k" s.sent
unfolding run advance danta.Orders.Tasks.move danta.Orders.find lookup danta.Orders.mark_submitting
    danta.Common.Eq.member
unknown_never_retried_example =
    unknown_never_retried both "k" failure retry 0 (BrokerOutcome.receipt "79") "TimeoutError" refl
      refl

abbrev cancellation : CancellationExecution
cancellation = record {
  original_broker_order_no = "77";
  cancellation_order_no = "80";
  status = "CANCEL_SUBMITTED";
}

cancel_again_example :
    let c = (cancel "77" "001" (pos 3) (ok "80") []).cancelled in
    cancel "77" "001" (pos 3) (err (runtime_error "down")) c
    ≡ record { result = ok cancellation; cancelled = c; calls_broker = false }
unfolding cancel lookup
cancel_again_example =
    cancel_again "77" "001" (pos 3) (ok "80") (err (runtime_error "down")) [] cancellation refl
