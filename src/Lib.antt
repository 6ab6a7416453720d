-- ===== src/Lib.antt =====
-- Danta trades Korean shares for one account. A mandate of the user says which symbols may be bought,
-- at which price and with which share of the cash; policies decide entries and exits from snapshots
-- of the market; decisions become intents, which wait in a queue by priority and are sent to the
-- broker under an idempotency key each.
--
-- Which file models which part (paths from the root of the repository):
--   Mandate         src/danta/domain/mandate.py: `validate_invariants`, `plan_entries`
--   Approval        src/danta/domain/approval.py: `BuyApproval.validate_for_order`
--   Capital         src/danta/services/capital_allocator.py: `CapitalAllocator`, one function per method
--   Market, Entry   src/danta/domain/market.py, entry.py: snapshots, and `evaluate_entry`
--   Risk, Risk.Exit src/danta/domain/risk.py: `hard_stop_price`, and `evaluate_exit`
--   Guard           src/danta/services/market_guard.py: `MarketRegimeGuard.observe`
--   Session         src/danta/domain/trading_session.py: states, `OrderIntent`, `SymbolSession`
--   Scheduler       src/danta/services/priority_intent_scheduler.py: `PriorityIntentScheduler`
--   Orders          src/danta/services/order_manager.py: `InMemoryOrderJournal`, `OrderManager`
--   Reconciliation  src/danta/services/reconciliation.py: `reconcile_positions`
--   Orchestrator    src/danta/services/trading_orchestrator.py: `TradingOrchestrator`, its handlers in
--                   Orchestrator.Calls, each with no other task in between
--   Clock           src/danta/services/market_session.py: phases of the day and trading minutes
--   Realtime,       src/danta/adapters/kis/realtime.py and client.py: the types of market events and of
--   Broker          the status of an order
--   Signal          src/danta/services/market_signal.py: `RollingMarketSignal`, its scores and snapshot
--   Runtime         src/danta/services/trading_runtime.py: `TradingRuntimeCore`, by topic: its state and
--                   mandate, Runtime.Cancellation, Runtime.Fills (`apply_order_status`), Runtime.Events
--                   (`process_event`, `process_watchdog_price`) with Runtime.Positions;
--                   Runtime.Pump: `OrderPump.run`
--   Ledger          src/danta/services/sql_order_journal.py: `SqlOrderJournal`, each method one transaction
--                   (`apply_broker_status` in Ledger.Booking, `load_recoverable` in
--                   Ledger.Recovery), on the tables of src/danta/db/models.py that it uses
--   Premarket       src/danta/domain/premarket.py: `evaluate_premarket`
--   Coverage        src/danta/domain/intraday_coverage.py: `plan_intraday_coverage`
--   PriceTick       src/danta/domain/price_tick.py: `floor_kospi_price`
--   Common          shared types and lemmas; Tests: concrete runs
--
-- How the code is read. Python's integers are ℤ, without bounds, and `//` is floor division. A `dict`
-- is a list of entries in insertion order, a `set` a list without duplicates, a `datetime` its
-- instant and whether it is aware. `Decimal` is the interface `Decimals`, with the laws that hold of
-- Python's default context; `fixed_point` is an instance of it, on which the tests run. A pure function
-- that may raise returns a `Result`; a method returns its result beside the new state, and where the
-- code has written before it raises, the state returned is the written one. A method whose body runs
-- under one lock is one step; `OrderManager.execute`, which does not, is also cut into the steps between
-- its awaits (Orders.Tasks), and a schedule is a list of steps of any tasks, each with the answer of the
-- broker if the step calls it. The heap of `asyncio.PriorityQueue` is the list of its entries in the order
-- of `get`; a `put` on a full queue waits, and goes on or is cancelled later.
--
-- Every function is total and structurally recursive; only the doubles use fuel. The search for the next phase
-- looks at nine days because the code does. Times are counted in microseconds, and so are delays and ages,
-- which the code turns into seconds as floats to return or compare them; the trading minutes, which are a
-- sum of such floats, are computed in doubles (Common.Float), whose search for an exponent has fuel for
-- any number of seconds below 2 ^ 81. The clock in Korea is nine hours ahead of UTC, as it has been since
-- 1988: earlier offsets and the overflow of a date at the ends of the calendar are left out. `now`
-- stands for the clock that a caller may leave out.
--
-- Not modelled: the providers (adapters), the other repositories of the database, the API, the dashboards and
-- reports, which are input and output; pydantic's constraints on single fields, yaml, json and hashlib,
-- which are not part of the repository (`command_id` is a parameter); the
-- interleaving of database transactions, and the applications and campaigns that drive the runtime.
pub mod Common
pub mod PriceTick
pub mod Clock
pub mod Capital
pub mod Mandate
pub mod Approval
pub mod Market
pub mod Guard
pub mod Broker
pub mod Coverage
pub mod Ledger
pub mod Premarket
pub mod Realtime
pub mod Signal
pub mod Entry
pub mod Risk
pub mod Session
pub mod Reconciliation
pub mod Orders
pub mod Orchestrator
pub mod Runtime
pub mod Scheduler
mod Tests
