-- ===== src/Orchestrator.antt =====
-- src/danta/services/trading_orchestrator.py: mandates, decisions, fills and failures, on the sessions
-- of the symbols, the allocator and the queue. A method returns its result beside the state, which
-- keeps what was written before a raise.
pub mod Calls
pub mod Entries
pub mod Blocked
use Prim.Native.String.{◌++◌}
use danta.Common.{
  String, Bool, true, false, not, ◌||◌, Option, none, some, List, [], ◌∷◌, if◌then◌else◌,
}
use danta.Common.Int.{ℤ, pos, ◌+ℤ◌, ◌-ℤ◌, ◌*ℤ◌, ltb_ℤ, leb_ℤ, eqb_ℤ, max_ℤ}
use danta.Common.Eq.{string_eq, pair_eq}
use danta.Common.Dict.{Dict, lookup, insert}
use danta.Common.Time.{Datetime}
use danta.Common.Result.{Result, ok, err, value_error, key_error, ◌>>=◌, ◌>>◌}
use danta.Common.Decimal.{Decimals}
use danta.Capital as Cash
use danta.Mandate.{EntrySelection, EntryMandate, PlannedEntry, plan_entries}
use danta.Entry.{EntryAction, EntryDecision}
use danta.Risk.{ExitAction, ExitUrgency, ExitDecision}
use danta.Session.{
  OrchestratorState, SymbolState, IntentPriority, IntentSide, OrderIntent, order_intent,
  SymbolSession, new_session,
}
use danta.Scheduler.{Entry, Scheduler, Put, put, forget}

pub record Orchestrator (D : Decimals) : Type 0 where
  pub capital_allocator : Cash.Allocator
  pub scheduler : Scheduler
  pub max_approved_symbols : ℤ
  pub state : OrchestratorState
  pub sessions : Dict String SymbolSession
  pub mandates : Dict String (EntryMandate D)
  pub plans : Dict (String × String) (PlannedEntry D)

-- How a call went on: it returned or raised, or it waits for room in the queue with its entry, and
-- will then go on as after a `put` that found room.
pub data Outcome : Type 0 where
  done : Result (Option OrderIntent) → Outcome
  waits : Entry → Outcome

abbrev pub is_running : OrchestratorState → Bool
is_running OrchestratorState.running = true
is_running _ = false

abbrev pub is_position_open : SymbolState → Bool
is_position_open SymbolState.position_open = true
is_position_open _ = false

abbrev pub is_watching : SymbolState → Bool
is_watching SymbolState.watching_entry = true
is_watching _ = false

-- `{IDLE, CLOSED, INVALIDATED}`
abbrev pub is_inactive : SymbolState → Bool
is_inactive SymbolState.idle = true
is_inactive SymbolState.closed = true
is_inactive SymbolState.invalidated = true
is_inactive _ = false

-- `price is None or price > target`
abbrev pub above_target : Option ℤ → ℤ → Bool
above_target none target = true
above_target (some price) target = ltb_ℤ target price

abbrev pub exit_priority : ExitUrgency → IntentPriority
exit_priority ExitUrgency.hard_stop = IntentPriority.hard_stop_exit
exit_priority ExitUrgency.protective = IntentPriority.protective_exit
exit_priority ExitUrgency.normal = IntentPriority.profit_or_time_exit
exit_priority ExitUrgency.no_urgency = IntentPriority.profit_or_time_exit

abbrev pub cause_of : List String → String
cause_of [] = "EXIT"
cause_of (code ∷ codes) = code

-- `show` is Python's `str` of an integer.
module _ (D : Decimals) (show : ℤ → String) where
  -- the writes to the session object that the dictionary holds under `symbol`
  abbrev pub write_session : String → SymbolSession → Orchestrator D → Orchestrator D
  write_session symbol session o = record o { sessions = insert symbol session o.sessions }

  unfoldable pub reconcile_complete : Bool → Orchestrator D → Orchestrator D
  reconcile_complete safe_for_new_entries o = record o {
    state =
        if safe_for_new_entries then OrchestratorState.running else OrchestratorState.entry_blocked;
  }

  unfoldable pub allocations_of :
      Dict String D.Decimal → List (EntrySelection D) → Dict String D.Decimal
  allocations_of d [] = d
  allocations_of d (s ∷ selections) = allocations_of (insert s.symbol s.allocation_pct d) selections

  abbrev pub watch : String → ℤ → Orchestrator D → Orchestrator D
  watch symbol generation o = record o {
    sessions = insert symbol (new_session symbol generation SymbolState.watching_entry) o.sessions;
  }

  -- the body of the loop over the plans
  unfoldable pub open_session :
      String → PlannedEntry D → Orchestrator D → Result (Unit {0}) × Orchestrator D
  open_session mandate_id plan o =
      let o' = record o { plans = insert (mandate_id, plan.symbol) plan o.plans } in
      elim (lookup plan.symbol o.sessions) [
        | none ↦ (ok tt, watch plan.symbol (pos 0) o')
        | some session ↦
            if is_position_open session.state
            then (ok tt, o')
            else if not (is_inactive session.state)
            then (err (value_error ("symbol already has an active session: " ++ plan.symbol)), o')
            else (ok tt, watch plan.symbol (session.generation +ℤ pos 1) o')
      ]

  unfoldable pub open_sessions :
      String → List (PlannedEntry D) → Orchestrator D → Result (Unit {0}) × Orchestrator D
  unfolding open_session
  open_sessions mandate_id [] o = (ok tt, o)
  open_sessions mandate_id (plan ∷ plans) o =
      let (r, o') = open_session mandate_id plan o in
      let (r', o'') = open_sessions mandate_id plans o' in
      elim r [ err e ↦ (err e, o') | ok _ ↦ (r', o'') ]

  unfoldable pub register_mandate :
      (EntryMandate D → String)
      → EntryMandate D
      → ℤ
      → Orchestrator D
      → Result (List (PlannedEntry D)) × Orchestrator D
  unfolding open_sessions allocations_of
  register_mandate command_id m orderable_cash o =
      if ltb_ℤ o.max_approved_symbols m.selected_symbol_count
      then (err (value_error "mandate exceeds orchestrator symbol limit"), o)
      else elim (plan_entries D command_id m orderable_cash) [
        | err e ↦ (err e, o)
        | ok plans ↦
            elim (Cash.register_mandate D (command_id m) orderable_cash
              (allocations_of [] m.selections) o.capital_allocator) [
                | err e ↦ (err e, o)
                | ok (_, budgets) ↦
                    let (r, o') = open_sessions (command_id m) plans (record o {
                      capital_allocator = budgets;
                      mandates = insert (command_id m) m o.mandates;
                    }) in
                    (r >> ok plans, o')
              ]
      ]

  -- `f"{plan.idempotency_key}:A{attempt}"` and its reservation
  abbrev pub attempt_key : PlannedEntry D → ℤ → String
  attempt_key plan attempt = plan.idempotency_key ++ ":A" ++ show attempt

  abbrev pub capital_key : String → String
  capital_key key = key ++ ":CAPITAL"

  abbrev pub entry_intent :
      String → PlannedEntry D → SymbolSession → EntryDecision → ℤ → Datetime → ℤ → OrderIntent
  entry_intent mandate_id plan session decision limit created_at attempt = record {
    idempotency_key = attempt_key plan attempt;
    symbol = plan.symbol;
    generation = session.generation;
    side = IntentSide.buy;
    priority = IntentPriority.entry;
    quantity = plan.quantity;
    order_type = "LIMIT";
    limit_price = some limit;
    cause = "ENTRY_CONFIRMED";
    policy_version = decision.policy_version;
    created_at = created_at;
    approval_id = some mandate_id;
  }

  -- `put` of a buy, after which the cash is released or the session waits for the fill
  unfoldable pub queue_entry :
      String → OrderIntent → SymbolSession → Orchestrator D → Outcome × Orchestrator D
  queue_entry symbol intent session o =
      let (r, scheduler) = put intent o.scheduler in
      elim r [
        | Put.refused ↦ (
          Outcome.done (ok none),
          record o {
            capital_allocator =
                (Cash.release (capital_key intent.idempotency_key) o.capital_allocator).1;
            scheduler = scheduler;
          },
        )
        | Put.waiting e ↦ (Outcome.waits e, record o { scheduler = scheduler })
        | Put.queued ↦ (
          Outcome.done (ok (some intent)),
          write_session symbol
              (record session {
                state = SymbolState.buy_pending;
                active_order_key = some intent.idempotency_key;
              })
              (record o { scheduler = scheduler }),
        )
      ]

  -- from the test of the price on
  unfoldable pub submit_entry :
      String
      → PlannedEntry D
      → SymbolSession
      → EntryDecision
      → ℤ
      → Datetime
      → ℤ
      → Orchestrator D
      → Outcome × Orchestrator D
  unfolding queue_entry
  submit_entry mandate_id plan session decision limit created_at attempt o =
      elim (Cash.reserve mandate_id plan.symbol (plan.quantity *ℤ limit)
        (capital_key (attempt_key plan attempt)) o.capital_allocator) [
          | err e ↦ (Outcome.done (err e), o)
          | ok (_, budgets) ↦
              let o' = record o { capital_allocator = budgets } in
              elim (order_intent
                (entry_intent mandate_id plan session decision limit created_at attempt)) [
                  | err e ↦ (Outcome.done (err e), o')
                  | ok intent ↦ queue_entry decision.symbol intent session o'
                ]
        ]
