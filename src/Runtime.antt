-- ===== src/Runtime.antt =====
-- src/danta/services/trading_runtime.py: the state of the runtime, its mandate, its market guard and the
-- positions that it restores. A method returns its result beside the state, which keeps what was
-- written before a raise.
pub mod Cancellation
pub mod Fills
pub mod Positions
pub mod Events
pub mod Pump
use danta.Common.{
  ℕ, ◌/◌, ◌%◌, String, Bool, true, false, not, ◌&&◌, ◌||◌, Option, none, some, List, [], ◌∷◌, map,
  if◌then◌else◌,
}
use danta.Common.Int.{ℤ, pos, ◌+ℤ◌, ◌-ℤ◌, ltb_ℤ, leb_ℤ, eqb_ℤ, max_ℤ}
use danta.Common.Eq.{string_eq}
use danta.Common.Dict.{Dict, lookup, contains, insert, erase, fill, set_default}
use danta.Common.Time.{Datetime}
use danta.Common.Result.{
  Exc, Result, ok, err, value_error, key_error, runtime_error, ◌>>=◌, ◌>>◌, raise_if, or_raise,
}
use danta.Common.Decimal.{Decimals}
use danta.Clock.{kst, day_length, krx_open, krx_close, is_weekend, from_to}
use danta.Market.{MarketRisk, is_risk_off, zero_dec, outside_unit}
use danta.Realtime.{RealtimeEvent, is_krx, venue_of}
use danta.Signal.{RollingMarketSignal, new_signal}
use danta.Mandate.{EntrySelection, EntryMandate, PlannedEntry}
use danta.Entry.{EntryPolicy}
use danta.Risk.{ExitPolicy}
use danta.Session.{SymbolState, OrderIntent, SymbolSession}
use danta.Orders.{OrderExecution}
use danta.Orchestrator.{Orchestrator, write_session, register_mandate}

-- `regular_entry_session`
unfoldable pub regular_entry_session : {D : Decimals} → RealtimeEvent D → Datetime → Result Bool
unfolding kst
regular_entry_session event observed_at = do
  raise_if (not observed_at.is_aware) (value_error "observed_at must be timezone-aware")
  if not (is_krx (venue_of event)) then ok false else do
    local ← kst observed_at
    ok (not (is_weekend (local / day_length)) && from_to krx_open krx_close (local % day_length))

pub record ManagedPosition (D : Decimals) : Type 0 where
  pub symbol : String
  pub generation : ℤ
  pub quantity : ℤ
  pub sellable_quantity : ℤ
  pub average_entry_price : D.Decimal
  pub opened_at : Datetime
  pub peak_return_pct : D.Decimal
  pub strong_defense_started_at : Option Datetime

module _ (D : Decimals) where
  unfoldable pub apply_buy_fill : ℤ → D.Decimal → ManagedPosition D → Result (ManagedPosition D)
  apply_buy_fill quantity price p = do
    raise_if (leb_ℤ quantity (pos 0) || D.le price (zero_dec D))
        (value_error "fill must have positive quantity and price")
    let old_value = D.mul p.average_entry_price (D.of_int p.quantity)
    ok (record p {
      quantity = p.quantity +ℤ quantity;
      sellable_quantity = p.sellable_quantity +ℤ quantity;
      average_entry_price =
          D.div (D.add old_value (D.mul price (D.of_int quantity)))
            (D.of_int (p.quantity +ℤ quantity));
    })

  unfoldable pub apply_sell_fill : ℤ → ManagedPosition D → Result (ManagedPosition D)
  apply_sell_fill quantity p = do
    raise_if (leb_ℤ quantity (pos 0) || ltb_ℤ p.quantity quantity)
        (value_error "sell fill quantity is invalid")
    ok (record p {
      quantity = p.quantity -ℤ quantity;
      sellable_quantity = max_ℤ (pos 0) (p.sellable_quantity -ℤ quantity);
    })

pub record SubmittedOrder (D : Decimals) : Type 0 where
  pub intent : OrderIntent
  pub execution : OrderExecution
  pub cumulative_filled : ℤ
  pub cumulative_fill_value : D.Decimal
  pub last_fill_value : ℤ

-- `TradingRuntimeCore`
pub record Core (D : Decimals) : Type 0 where
  pub orchestrator : Orchestrator D
  pub entry_policy : EntryPolicy D
  pub exit_policy : ExitPolicy D
  pub mandate : Option (EntryMandate D)
  pub plans : Dict String (PlannedEntry D)
  pub signals : Dict String (RollingMarketSignal D)
  pub positions : Dict String (ManagedPosition D)
  pub submitted : Dict String (SubmittedOrder D)
  pub order_number_to_key : Dict String String
  pub cancel_requested : List String
  pub cancel_completed : List String
  pub pending_buy_cancel_reason : Dict String String
  pub recovered_order_keys : List String
  pub entry_attempts : Dict String ℤ
  pub box_valid : Dict String Bool
  pub market_risk : MarketRisk
  pub market_stress_score : D.Decimal
  pub market_guard_initialized : Bool
  pub market_entry_resume_required : Bool

module _ (D : Decimals) (show : ℤ → String) where
  abbrev per_selection {ℓ} :
      {V : Type ℓ} → (String → V) → List (EntrySelection D) → List (String × V)
  per_selection f selections = map (λ (s : EntrySelection D). (s.symbol, f s.symbol)) selections

  unfoldable pub activate_mandate :
      (EntryMandate D → String)
      → EntryMandate D
      → ℤ
      → Core D
      → Result (List (PlannedEntry D)) × Core D
  activate_mandate command_id m orderable_cash c =
      let (r, o) = register_mandate D show command_id m orderable_cash c.orchestrator in
      elim r [
        | err e ↦ (err e, record c { orchestrator = o })
        | ok plans ↦ (
          ok plans,
          record c {
            orchestrator = o;
            mandate = some m;
            plans = fill [] (map (λ (p : PlannedEntry D). (p.symbol, p)) plans);
            signals = fill [] (per_selection (new_signal D) m.selections);
            box_valid = fill [] (per_selection (λ _. true) m.selections);
            entry_attempts = fill [] (per_selection (λ _. pos 0) m.selections);
          },
        )
      ]

  -- the body of the loop of `restore_completed_symbols`
  unfoldable pub restore_completed : String → Core D → Result (Unit {0}) × Core D
  restore_completed symbol c =
      if contains symbol c.positions || contains symbol c.submitted
      then (err (value_error "an active position/order cannot be restored as completed"), c)
      else elim (lookup symbol c.orchestrator.sessions) [
        | none ↦ (err (value_error "completed symbol is outside the active mandate"), c)
        | some session ↦ (
          ok tt,
          record c {
            orchestrator =
                write_session D show symbol
                  (record session {
                    state = SymbolState.closed;
                    active_order_key = none;
                    quantity = pos 0;
                    sellable_quantity = pos 0;
                  })
                  c.orchestrator;
            signals = erase symbol c.signals;
            entry_attempts = erase symbol c.entry_attempts;
            box_valid = erase symbol c.box_valid;
          },
        )
      ]

  -- The set of symbols is a list in the order in which it is run through.
  unfoldable pub restore_completed_symbols : List String → Core D → Result (Unit {0}) × Core D
  unfolding restore_completed
  restore_completed_symbols [] c = (ok tt, c)
  restore_completed_symbols (symbol ∷ symbols) c =
      let (r, c') = restore_completed symbol c in
      let (r', c'') = restore_completed_symbols symbols c' in
      elim r [ err e ↦ (err e, c') | ok _ ↦ (r', c'') ]

  unfoldable pub set_market_guard : MarketRisk → D.Decimal → Core D → Result (Unit {0}) × Core D
  set_market_guard risk stress_score c =
      if outside_unit D stress_score
      then (err (value_error "stress_score must be between 0 and 1"), c)
      else (
        ok tt,
        record c {
          market_risk = risk;
          market_stress_score = stress_score;
          market_guard_initialized = true;
        },
      )

  unfoldable pub require_market_entry_resume_confirmation : Core D → Core D
  require_market_entry_resume_confirmation c = record c { market_entry_resume_required = true }

  unfoldable pub acknowledge_market_entry_resume : Core D → Result (Unit {0}) × Core D
  acknowledge_market_entry_resume c =
      if is_risk_off c.market_risk
      then (err (runtime_error "market risk is still RISK_OFF"), c)
      else (ok tt, record c { market_entry_resume_required = false })

  unfoldable pub reset_market_signals : Core D → Core D
  reset_market_signals c = record c { signals = map (λ x. (x.0, new_signal D x.0)) c.signals }

  abbrev pub is_terminal : SymbolState → Bool
  is_terminal SymbolState.closed = true
  is_terminal SymbolState.invalidated = true
  is_terminal _ = false

  -- `any(… not in terminal for …)`, up to the first session that is not terminal
  unfoldable pub has_open : List (EntrySelection D) → Dict String SymbolSession → Result Bool
  has_open [] sessions = ok false
  has_open (s ∷ selections) sessions = do
    session ← or_raise (lookup s.symbol sessions) (key_error s.symbol)
    let rest = has_open selections sessions
    if not (is_terminal session.state) then ok true else rest

  -- the last loop of `clear_terminal_mandate`
  unfoldable pub forget_symbols : List (EntrySelection D) → Core D → Core D
  forget_symbols [] c = c
  forget_symbols (s ∷ selections) c = forget_symbols selections (
      if contains s.symbol c.positions
      then c
      else record c { signals = erase s.symbol c.signals; box_valid = erase s.symbol c.box_valid })

  unfoldable pub clear_terminal_mandate : Core D → Result (Unit {0}) × Core D
  unfolding has_open forget_symbols
  clear_terminal_mandate c = elim c.mandate [
    | none ↦ (ok tt, c)
    | some m ↦ elim (has_open m.selections c.orchestrator.sessions) [
      | err e ↦ (err e, c)
      | ok true ↦ (err (runtime_error "active mandate still has non-terminal symbols"), c)
      | ok false ↦ (
        ok tt,
        forget_symbols m.selections (record c { mandate = none; plans = []; entry_attempts = [] }),
      )
    ]
  ]

  unfoldable pub restore_position : ManagedPosition D → Core D → Result (Unit {0}) × Core D
  restore_position position c = elim (lookup position.symbol c.orchestrator.sessions) [
    | none ↦ (err (value_error "orchestrator session must be restored first"), c)
    | some session ↦
        if not (eqb_ℤ session.generation position.generation)
        then (err (value_error "restored position generation does not match session"), c)
        else (
          ok tt,
          record c {
            positions = insert position.symbol position c.positions;
            signals = set_default position.symbol (new_signal D position.symbol) c.signals;
            box_valid = set_default position.symbol true c.box_valid;
          },
        )
  ]

  unfoldable pub invalidate_box : String → Core D → Result (Unit {0}) × Core D
  invalidate_box symbol c =
      if contains symbol c.box_valid
      then (ok tt, record c { box_valid = insert symbol false c.box_valid })
      else (err (value_error "symbol is outside the active mandate"), c)
