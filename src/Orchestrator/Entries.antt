-- ===== src/Orchestrator/Entries.antt =====
-- What stands behind a buy that the orchestrator queues, and what a decision that queues none leaves.
use danta.Common.{
  String, ◌≡◌, ◌≢◌, refl, ap, ◌∙◌, ◌⊎◌, inl, inr, Bool, true, false, Option, none, some, arith,
  Bool-cases, Option-cases,
}
use danta.Common.Int.{ℤ, pos, ◌*ℤ◌, ◌≤ℤ◌, ltb_ℤ}
use danta.Common.Eq.{string_eq, pair_eq}
use danta.Common.Dict.{lookup, lookup-insert_self}
use danta.Common.Time.{Datetime}
use danta.Common.Result.{Result, ok, err, value_error, Result-cases}
use danta.Common.Decimal.{Decimals}
use danta.Capital as Cash
use danta.Capital.Accounting.{release-reserve}
use danta.Mandate.{PlannedEntry}
use danta.Entry.{EntryAction, EntryDecision}
use danta.Session.{SymbolState, IntentSide, OrderIntent, order_intent, SymbolSession}
use danta.Session.Intents.{order_intent-IsWellFormed}
use danta.Scheduler.{Entry, Put, put}
use danta.Orchestrator.{
  Orchestrator, Outcome, is_running, is_watching, capital_key, attempt_key, entry_intent,
  queue_entry, submit_entry,
}
use danta.Orchestrator.Calls.{decide_entry, decide_planned, handle_entry_decision}

pub Put-cases :
    (p : Put) → (p ≡ Put.refused) ⊎ ((p ≡ Put.queued) ⊎ ((e : Entry) × (p ≡ Put.waiting e)))
Put-cases Put.refused = inl refl
Put-cases Put.queued = inr (inl refl)
Put-cases (Put.waiting e) = inr (inr (e, refl))

module _ (D : Decimals) (show : ℤ → String) where
  -- A queued buy: it is planned, at a limit within the target price, its cash is reserved in the
  -- allocator, and the session waits for it.
  pub record IsBacked (mandate_id : String) (d : EntryDecision) (attempt : ℤ)
      (o o' : Orchestrator D) (intent : OrderIntent) : Type 0 where
    pub running : is_running o.state ≡ true
    pub plan : PlannedEntry D
    pub planned : lookup (mandate_id, d.symbol) o.plans ≡ some plan
    pub side : intent.side ≡ IntentSide.buy
    pub quantity : intent.quantity ≡ plan.quantity
    pub limit : ℤ
    pub priced : intent.limit_price ≡ some limit
    pub within : limit ≤ℤ plan.target_price
    pub reservation : Cash.CapitalReservation
    pub reserved :
        Cash.reserve mandate_id plan.symbol
          (plan.quantity *ℤ limit)
          (capital_key D show intent.idempotency_key)
          o.capital_allocator
        ≡ ok (reservation, o'.capital_allocator)
    pub session : SymbolSession
    pub stored : lookup d.symbol o'.sessions ≡ some session
    pub pending : session.state ≡ SymbolState.buy_pending
    pub active : session.active_order_key ≡ some intent.idempotency_key

  queue_stage :
      (symbol : String) (i j : OrderIntent) (session : SymbolSession) (o o' : Orchestrator D)
      → queue_entry D show symbol i session o ≡ (Outcome.done (ok (some j)), o')
      → (j ≡ i)
        × (o'.capital_allocator ≡ o.capital_allocator)
        × ((s : SymbolSession) × (lookup symbol o'.sessions ≡ some s)
            × (s.state ≡ SymbolState.buy_pending)
            × (s.active_order_key ≡ some i.idempotency_key))
  unfolding queue_entry
  queue_stage symbol i j session o o' h = elim (Put-cases (put i o.scheduler).0) [
    | inl refused ↦ absurd (ground arith)
    | inr (inr (e, waiting)) ↦ absurd (ground arith)
    | inr (inl queued) ↦
        let s : SymbolSession = record session {
          state = SymbolState.buy_pending;
          active_order_key = some i.idempotency_key;
        } in
        (
          ground arith,
          ground arith,
          (s, ground (arith, lookup-insert_self symbol s o.sessions), refl, refl),
        )
  ]

  queue_none :
      (symbol : String) (i : OrderIntent) (session : SymbolSession) (o o' : Orchestrator D)
      → queue_entry D show symbol i session o ≡ (Outcome.done (ok none), o')
      → o'.capital_allocator
        ≡ (Cash.release (capital_key D show i.idempotency_key) o.capital_allocator).1
  unfolding queue_entry
  queue_none symbol i session o o' h = elim (Put-cases (put i o.scheduler).0) [
    | inl refused ↦ ground arith
    | inr (inr (e, waiting)) ↦ absurd (ground arith)
    | inr (inl queued) ↦ absurd (ground arith)
  ]

  module _ (mandate_id : String) (plan : PlannedEntry D) (session : SymbolSession)
      (d : EntryDecision) (limit : ℤ) (at : Datetime) (attempt : ℤ) (o o' : Orchestrator D) where
    abbrev buy : OrderIntent
    buy = entry_intent D show mandate_id plan session d limit at attempt

    -- a reservation that is made, and the intent that is queued for it
    submit_stage :
        (r : Result (Option OrderIntent))
        → ((e : _) → r ≢ err e)
        → submit_entry D show mandate_id plan session d limit at attempt o ≡ (Outcome.done r, o')
        → (reservation : Cash.CapitalReservation) × (budgets : Cash.Allocator) × (Cash.reserve
              mandate_id plan.symbol
              (plan.quantity *ℤ limit)
              (capital_key D show (attempt_key D show plan attempt))
              o.capital_allocator
            ≡ ok (reservation, budgets))
          × (queue_entry D show d.symbol buy session (record o { capital_allocator = budgets })
              ≡ (Outcome.done r, o'))
    unfolding submit_entry
    submit_stage r fine h =
        elim (Result-cases (
          Cash.reserve mandate_id plan.symbol (plan.quantity *ℤ limit)
            (capital_key D show (attempt_key D show plan attempt)) o.capital_allocator)) [
              | inl (e, refused) ↦ absurd (fine e (ground arith))
              | inr ((reservation, budgets), reserved) ↦ elim (Result-cases (order_intent buy)) [
                | inl (e, invalid) ↦ absurd (fine e (ground arith))
                | inr (i, valid) ↦
                    let same : i ≡ buy = ((order_intent-IsWellFormed buy i).0 valid).1 in
                    (reservation, budgets, reserved, ground arith)
              ]
            ]

  -- A call that returns has queued nothing and left the cash alone, or it has submitted a planned buy.
  module _ (mandate_id : String) (d : EntryDecision) (at : Datetime) (attempt : ℤ)
      (o o' : Orchestrator D) (r : Result (Option OrderIntent)) where
    record IsSubmitted : Type 0 where
      running : is_running o.state ≡ true
      plan : PlannedEntry D
      planned : lookup (mandate_id, d.symbol) o.plans ≡ some plan
      session : SymbolSession
      limit : ℤ
      within : ltb_ℤ plan.target_price limit ≡ false
      submitted :
          submit_entry D show mandate_id plan session d limit at attempt o ≡ (Outcome.done r, o')

    abbrev Idle : Type 0
    Idle = (r ≡ ok none) × (o'.capital_allocator ≡ o.capital_allocator)

    decide_stage :
        (plan : PlannedEntry D) (session : SymbolSession)
        → is_running o.state ≡ true
        → lookup (mandate_id, d.symbol) o.plans ≡ some plan
        → ((e : _) → r ≢ err e)
        → decide_entry D show mandate_id plan session d at attempt o ≡ (Outcome.done r, o')
        → Idle ⊎ IsSubmitted
    unfolding decide_entry
    decide_stage plan session running planned fine h = by_action d.action refl
      where
        by_action : (a : EntryAction) → d.action ≡ a → Idle ⊎ IsSubmitted
        by_action EntryAction.wait_price e = inl (ground arith, ground arith)
        by_action EntryAction.wait_sell_pressure e = inl (ground arith, ground arith)
        by_action EntryAction.wait_stabilization e = inl (ground arith, ground arith)
        by_action EntryAction.invalidate_mandate e = inl (ground arith, ground arith)
        by_action EntryAction.block e = inl (ground arith, ground arith)
        by_action EntryAction.submit_limit_buy e = elim (Option-cases d.limit_price) [
          | inl missing ↦
              absurd (fine (value_error "entry decision violates maximum buy price") (ground arith))
          | inr (limit, priced) ↦ elim (Bool-cases (ltb_ℤ plan.target_price limit)) [
            | inl above ↦
                absurd
                  (fine (value_error "entry decision violates maximum buy price") (ground arith))
            | inr within ↦ inr (record {
              running = running;
              plan = plan;
              planned = planned;
              session = session;
              limit = limit;
              within = within;
              submitted = ground arith;
            })
          ]
        ]

    handle_stage :
        ((e : _) → r ≢ err e)
        → handle_entry_decision D show mandate_id d at attempt o ≡ (Outcome.done r, o')
        → Idle ⊎ IsSubmitted
    unfolding handle_entry_decision decide_planned
    handle_stage fine h = elim (Bool-cases (ltb_ℤ attempt (pos 0))) [
      | inl negative ↦
          absurd (fine (value_error "entry attempt must not be negative") (ground arith))
      | inr counted ↦ elim (Bool-cases (is_running o.state)) [
        | inr stopped ↦ inl (ground arith, ground arith)
        | inl running ↦ elim (Option-cases (lookup (mandate_id, d.symbol) o.plans)) [
          | inl unplanned ↦
              absurd
                (fine (value_error "entry decision is outside an active mandate") (ground arith))
          | inr (plan, planned) ↦ elim (Option-cases (lookup d.symbol o.sessions)) [
            | inl unknown ↦
                absurd
                  (fine (value_error "entry decision is outside an active mandate") (ground arith))
            | inr (session, known) ↦ elim (Bool-cases (is_watching session.state)) [
              | inr busy ↦ inl (ground arith, ground arith)
              | inl watching ↦ decide_stage plan session running planned fine (ground arith)
            ]
          ]
        ]
      ]
    ]

  -- If a decision queues a buy, the orchestrator runs, the buy is planned for the mandate, its limit is
  -- within the target price, the cash for the whole quantity at that limit is reserved in the
  -- allocator, and the session waits for just that order.
  pub handle_entry_decision-IsBacked :
      (mandate_id : String) (d : EntryDecision) (at : Datetime) (attempt : ℤ)
      (o o' : Orchestrator D) (intent : OrderIntent)
      → handle_entry_decision D show mandate_id d at attempt o
        ≡ (Outcome.done (ok (some intent)), o')
      → IsBacked mandate_id d attempt o o' intent
  handle_entry_decision-IsBacked mandate_id d at attempt o o' intent h =
      elim (handle_stage mandate_id d at attempt o o' (ok (some intent))
        (λ e x. absurd (ground arith)) h) [
          | inl (idle, _) ↦ absurd (ground arith)
          | inr w ↦
              let (reservation, budgets, reserved, queued) =
                submit_stage mandate_id w.plan w.session d w.limit at attempt o o'
                  (ok (some intent)) (λ e x. absurd (ground arith)) w.submitted in
              let (same, cash, (s, stored, pending, active)) =
                queue_stage d.symbol _ intent w.session _ o' queued in
              rw same (record {
                running = w.running;
                plan = w.plan;
                planned = w.planned;
                side = refl;
                quantity = refl;
                limit = w.limit;
                priced = refl;
                within = ground arith;
                reservation = reservation;
                reserved = rw cash reserved;
                session = s;
                stored = stored;
                pending = pending;
                active = active;
              })
        ]

  -- A decision that queues no buy and returns leaves the cash of the allocator as it was, if the
  -- reservation id of its own plan, where it has one, was not in use at this attempt: a reservation
  -- whose intent the queue refuses is released.
  pub handle_entry_decision-none :
      (mandate_id : String) (d : EntryDecision) (at : Datetime) (attempt : ℤ)
      (o o' : Orchestrator D)
      → ((plan : PlannedEntry D)
          → lookup (mandate_id, d.symbol) o.plans ≡ some plan
          → Cash.find_reservation
              (capital_key D show (attempt_key D show plan attempt))
              o.capital_allocator
            ≡ none)
      → handle_entry_decision D show mandate_id d at attempt o ≡ (Outcome.done (ok none), o')
      → o'.capital_allocator ≡ o.capital_allocator
  handle_entry_decision-none mandate_id d at attempt o o' fresh h =
      elim (handle_stage mandate_id d at attempt o o' (ok none) (λ e x. absurd (ground arith)) h) [
        | inl (_, same) ↦ same
        | inr w ↦
            let (reservation, budgets, reserved, queued) =
              submit_stage mandate_id w.plan w.session d w.limit at attempt o o' (ok none)
                (λ e x. absurd (ground arith)) w.submitted in
            let released = queue_none d.symbol _ w.session _ o' queued in
            let back =
              release-reserve mandate_id w.plan.symbol (w.plan.quantity *ℤ w.limit) _ reservation
                o.capital_allocator budgets (fresh w.plan w.planned) reserved in
            released ∙ ap (λ (x : Bool × Cash.Allocator). x.1) back
      ]
