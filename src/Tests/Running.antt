-- ===== src/Tests/Running.antt =====
-- src/danta/services/trading_runtime.py and market_signal.py: an order with fills, and market events.
use danta.Common.{
  String, ◌≡◌, ◌≢◌, ◌↔◌, refl, Bool, true, false, not, ◌||◌, if◌then◌else◌, none, some, [], ◌∷◌,
  arith,
}
use danta.Common.Int.{ℤ, pos}
use danta.Common.Eq.{string_eq, member, ◌==◌}
use danta.Common.Dict.{lookup}
use danta.Common.Result.{ok, err, runtime_error}
use danta.Common.Decimal.FixedPoint.{fixed_point}
use danta.Market.{MarketRisk}
use danta.Broker.{KisOrderStatus}
use danta.Realtime.{MarketVenue, TradeTick, RealtimeEvent}
use danta.Signal.{RollingMarketSignal, new_signal, snapshot, snapshot_fields}
use danta.Signal.Valid.{IsQuoted, snapshot-IsQuoted}
use danta.Mandate.{EntryMandate}
use danta.Session.{OrchestratorState, SymbolState, OrderIntent}
use danta.Scheduler.Steps.{new_scheduler}
use danta.Scheduler.{Scheduler, put}
use danta.Orders.{BrokerOutcome, Journal, execution_of, find, execute}
use danta.Orchestrator.{Orchestrator}
use danta.Runtime.{Core, SubmittedOrder}
use danta.Runtime.Fills.{submitted_order, apply_order_status}
use danta.Runtime.Fills.Counting.{IsCounted, status_counts_once}
use danta.Runtime.Fills.Agreement.{Agrees, AgreesAt, apply_order_status-Agrees}
use danta.Runtime.Events.{process_event}
use danta.Runtime.Events.Latch.{buys, process_event_latched}
use danta.Runtime.Pump.{pump, pump-quarantine}
use danta.Tests.Sending.{buy_order}
use danta.Tests.Decisions.{show, watching, desk, noon}
use danta.Tests.Rules.{entry_rules, exit_rules}

abbrev waiting_buy : SubmittedOrder fixed_point
waiting_buy = submitted_order fixed_point show buy_order (execution_of buy_order "77")

abbrev core : Core fixed_point
core = record {
  orchestrator = desk;
  entry_policy = entry_rules;
  exit_policy = exit_rules;
  mandate = none;
  plans = [];
  signals = ("005930", new_signal fixed_point "005930") ∷ [];
  positions = [];
  submitted = ("k", waiting_buy) ∷ [];
  order_number_to_key = ("77", "k") ∷ [];
  cancel_requested = [];
  cancel_completed = [];
  pending_buy_cancel_reason = [];
  recovered_order_keys = [];
  entry_attempts = ("005930", pos 0) ∷ [];
  box_valid = ("005930", true) ∷ [];
  market_risk = MarketRisk.normal;
  market_stress_score = fixed_point.of_int (pos 0);
  market_guard_initialized = false;
  market_entry_resume_required = false;
}

-- two of three shares are filled
abbrev partial : KisOrderStatus fixed_point
partial = record {
  broker_order_no = "77";
  original_order_no = "";
  symbol = "005930";
  side = "BUY";
  ordered_quantity = pos 3;
  filled_quantity = pos 2;
  remaining_quantity = pos 1;
  order_price = pos 70_000;
  average_fill_price = fixed_point.of_int (pos 69_000);
  order_time = "090000";
  branch_no = "1";
}

abbrev after_fill : Core fixed_point
after_fill = (apply_order_status fixed_point show partial noon core).1

status_counts_once_example :
    IsCounted fixed_point show "k" waiting_buy partial (pos 2) core after_fill
    × (lookup "j" after_fill.submitted ≡ lookup "j" core.submitted)
    × (apply_order_status fixed_point show partial noon after_fill ≡ (ok (pos 0), after_fill))
unfolding lookup apply_order_status danta.Common.Int.◌-ℤ◌ danta.Common.Decimal.FixedPoint.fp_of_int
    danta.Common.Int.◌*ℤ◌ danta.Common.Decimal.FixedPoint.fp_mul danta.Common.Int.floor_div
    danta.Runtime.apply_buy_fill danta.Common.Decimal.FixedPoint.fp_div
    danta.Orchestrator.Calls.record_fill
status_counts_once_example =
    status_counts_once fixed_point show "k" "j" waiting_buy partial partial noon noon core (pos 2)
      refl refl refl refl refl (λ e. ground (arith, e, string_eq.beq_iff "k" "j"))

watched-Agrees : (b : Bool) → Agrees fixed_point show (if b then some watching else none) none
unfolding danta.Runtime.Fills.Moves.held danta.Runtime.Fills.Moves.sellable
watched-Agrees true = (refl, refl, omega arith)
watched-Agrees false = tt

each-Agrees : (j : String) → AgreesAt fixed_point show j core
unfolding lookup
each-Agrees j = watched-Agrees ("005930" == j)

apply_order_status-Agrees_example : AgreesAt fixed_point show "005930" after_fill
apply_order_status-Agrees_example =
    apply_order_status-Agrees fixed_point show partial noon core "005930" tt (omega arith)
      each-Agrees

abbrev tick : TradeTick fixed_point
tick = record {
  symbol = "005930";
  observed_at = noon;
  price = pos 69_000;
  best_ask = pos 69_100;
  best_bid = pos 69_000;
  trade_volume = pos 10;
  accumulated_value = pos 690_000;
  sell_trade_count = pos 4;
  buy_trade_count = pos 6;
  trade_strength = fixed_point.of_int (pos 120);
  ask_quantity = pos 100;
  bid_quantity = pos 200;
  total_ask_quantity = pos 1_000;
  total_bid_quantity = pos 3_000;
  venue = MarketVenue.krx;
  change_rate = none;
}

abbrev one_trade : RollingMarketSignal fixed_point
one_trade = record (new_signal fixed_point "005930") { trades = tick ∷ [] }

snapshot-IsQuoted_example :
    (snapshot fixed_point one_trade noon MarketRisk.normal (fixed_point.of_int (pos 0)) true true
      ≡ ok (
          snapshot_fields fixed_point one_trade tick [] noon MarketRisk.normal
            (fixed_point.of_int (pos 0))
            true
            true))
    ↔ IsQuoted fixed_point one_trade tick noon true
snapshot-IsQuoted_example =
    snapshot-IsQuoted fixed_point one_trade tick [] noon MarketRisk.normal
      (fixed_point.of_int (pos 0)) true true refl

abbrev identified : EntryMandate fixed_point → String
identified m = "m"

process_event_latched_example :
    let (r, c') = process_event fixed_point show identified (RealtimeEvent.trade tick) noon core in
    (buys r ≡ false) × (c'.orchestrator.capital_allocator ≡ core.orchestrator.capital_allocator)
process_event_latched_example =
    process_event_latched fixed_point show identified (RealtimeEvent.trade tick) noon core refl

abbrev queued : Scheduler
queued = (put buy_order (new_scheduler 8)).1

abbrev queued_core : Core fixed_point
queued_core = record core { orchestrator = record desk { scheduler = queued } }

abbrev times_out : OrderIntent → BrokerOutcome
times_out i = BrokerOutcome.transport_error "TimeoutError"

abbrev answers : OrderIntent → BrokerOutcome
answers i = BrokerOutcome.receipt "78"

abbrev no_orders : Journal
no_orders = record { submitting = []; executions = []; failures = [] }

pump-quarantine_example :
    (c' : Core fixed_point) × (j' : Journal) × (pump fixed_point show times_out queued_core
        no_orders
      ≡ some ((ok tt, c'), j'))
    × (c'.orchestrator.state ≡ OrchestratorState.entry_blocked)
    × (lookup "005930" c'.orchestrator.sessions
        ≡ some (record watching { state = SymbolState.quarantined }))
    × (execute answers buy_order j'
        ≡ (err (runtime_error "order intent is already being submitted"), j'))
unfolding danta.Scheduler.get put member find lookup
pump-quarantine_example =
    pump-quarantine fixed_point show times_out answers buy_order (record queued { queue = [] })
      watching "TimeoutError" queued_core no_orders refl refl refl refl refl refl
