-- ===== src/Tests/Decisions.antt =====
-- src/danta/services/trading_orchestrator.py: one planned symbol, a buy, a fill and a failure.
use danta.Common.{
  String, ◌≡◌, refl, subst, inl, inr, Bool-cases, Bool, true, false, none, some, [], ◌∷◌, arith,
}
use danta.Common.Int.{ℤ, pos}
use danta.Common.Eq.{◌==◌, string_eq, pair_eq}
use danta.Common.Dict.{lookup}
use danta.Common.Time.{Datetime}
use danta.Common.Result.{ok}
use danta.Common.Decimal.FixedPoint.{fixed_point}
use danta.Entry.{EntryAction, EntryDecision}
use danta.Session.{OrchestratorState, SymbolState, IntentSide, SymbolSession, new_session}
use danta.Scheduler.Steps.{new_scheduler}
use danta.Orchestrator.{
  Orchestrator, Outcome, attempt_key, capital_key, entry_intent, reconcile_complete,
}
use danta.Capital.{find_reservation}
use danta.Mandate.{PlannedEntry}
use danta.Orchestrator.Calls.{handle_entry_decision, record_fill, record_order_failure}
use danta.Orchestrator.Entries.{
  IsBacked, handle_entry_decision-IsBacked, handle_entry_decision-none,
}
use danta.Orchestrator.Blocked.{IsSound, unknown_blocks_entries, record_fill-IsSound}
use danta.Tests.Values.{plan}
use danta.Tests.Sending.{buy_order}

abbrev pub show : ℤ → String
show n = "0"

abbrev pub watching : SymbolSession
watching = new_session "005930" (pos 0) SymbolState.watching_entry

abbrev pub desk : Orchestrator fixed_point
desk = record {
  capital_allocator =
      (
        "m",
        record {
          account_cash_snapshot = pos 1_000_000;
          symbol_caps = ("005930", pos 500_000) ∷ [];
          reservations = [];
          consumed_by_symbol = ("005930", pos 0) ∷ [];
        },
      )
      ∷ [];
  scheduler = new_scheduler 8;
  max_approved_symbols = pos 3;
  state = OrchestratorState.running;
  sessions = ("005930", watching) ∷ [];
  mandates = [];
  plans = (("m", "005930"), plan) ∷ [];
}

abbrev buy_decision : EntryDecision
buy_decision = record {
  symbol = "005930";
  action = EntryAction.submit_limit_buy;
  policy_version = "v1";
  limit_price = some (pos 69_000);
  reason_codes = [];
}

abbrev pub noon : Datetime
noon = record { is_aware = true; micros = pos 0 }

abbrev bought : Orchestrator fixed_point
bought = (handle_entry_decision fixed_point show "m" buy_decision noon (pos 0) desk).1

handle_entry_decision-IsBacked_example :
    IsBacked fixed_point show "m" buy_decision
      (pos 0)
      desk
      bought
      (entry_intent fixed_point show "m" plan watching buy_decision (pos 69_000) noon (pos 0))
unfolding handle_entry_decision lookup danta.Orchestrator.submit_entry danta.Capital.reserve
    danta.Common.Int.◌*ℤ◌ danta.Capital.reserve_new danta.Common.Int.◌+ℤ◌
    danta.Common.Dict.Sums.sum_values danta.Session.order_intent danta.Scheduler.put
    danta.Common.Eq.member
handle_entry_decision-IsBacked_example =
    handle_entry_decision-IsBacked fixed_point show "m" buy_decision noon (pos 0) desk bought
      (entry_intent fixed_point show "m" plan watching buy_decision (pos 69_000) noon (pos 0)) refl

-- The queue knows the key already, and the same attempt of another symbol has a reservation.
abbrev known_desk : Orchestrator fixed_point
known_desk = record desk {
  capital_allocator =
      (
        "m",
        record {
          account_cash_snapshot = pos 1_000_000;
          symbol_caps = ("005930", pos 500_000) ∷ ("000660", pos 500_000) ∷ [];
          reservations =
              (
                "m:000660:BUY:A0:CAPITAL",
                record {
                  reservation_id = "m:000660:BUY:A0:CAPITAL";
                  mandate_id = "m";
                  symbol = "000660";
                  amount = pos 100_000;
                },
              )
              ∷ [];
          consumed_by_symbol = ("005930", pos 0) ∷ ("000660", pos 0) ∷ [];
        },
      )
      ∷ [];
  scheduler = record (new_scheduler 8) { known_keys = "m:005930:BUY:A0" ∷ [] };
}

abbrev refused_desk : Orchestrator fixed_point
refused_desk = (handle_entry_decision fixed_point show "m" buy_decision noon (pos 0) known_desk).1

own_id_is_free :
    (p : PlannedEntry fixed_point)
    → lookup ("m", "005930") known_desk.plans ≡ some p
    → find_reservation
        (capital_key fixed_point show (attempt_key fixed_point show p (pos 0)))
        known_desk.capital_allocator
      ≡ none
unfolding lookup find_reservation
own_id_is_free p planned =
    let same : plan ≡ p = ground arith in
    subst
      (λ x.
        find_reservation (capital_key fixed_point show (attempt_key fixed_point show x (pos 0)))
          known_desk.capital_allocator
        ≡ none)
      same refl

handle_entry_decision-none_example : refused_desk.capital_allocator ≡ known_desk.capital_allocator
unfolding danta.Capital.find_reservation lookup handle_entry_decision
    danta.Orchestrator.submit_entry danta.Capital.reserve danta.Common.Int.◌*ℤ◌
    danta.Capital.reserve_new danta.Common.Int.◌+ℤ◌ danta.Common.Dict.Sums.sum_values
    danta.Session.order_intent danta.Scheduler.put danta.Common.Eq.member
handle_entry_decision-none_example =
    handle_entry_decision-none fixed_point show "m" buy_decision noon (pos 0) known_desk
      refused_desk own_id_is_free refl

unknown_blocks_entries_example :
    let o' = (record_order_failure fixed_point show buy_order true desk).1 in
    let o'' = reconcile_complete fixed_point show false o' in
    (handle_entry_decision fixed_point show "m" buy_decision noon (pos 0) o'
      ≡ (Outcome.done (ok none), o'))
    × (handle_entry_decision fixed_point show "m" buy_decision noon (pos 0) o''
        ≡ (Outcome.done (ok none), o''))
unfolding lookup
unknown_blocks_entries_example =
    unknown_blocks_entries fixed_point show buy_order watching desk "m" buy_decision noon (pos 0)
      refl (omega arith)

watching-IsSound : IsSound watching
watching-IsSound = record { sellable = omega arith; held = omega arith }

each-IsSound : (k : String) (s : SymbolSession) → lookup k desk.sessions ≡ some s → IsSound s
unfolding danta.Common.Dict.lookup
each-IsSound k s h = elim (Bool-cases ("005930" == k)) [
  | inl here ↦ let e : watching ≡ s = ground arith in subst IsSound e watching-IsSound
  | inr there ↦ absurd (ground arith)
]

abbrev holding : SymbolSession
holding = record watching {
  state = SymbolState.position_open;
  quantity = pos 7;
  sellable_quantity = pos 7;
}

record_fill-IsSound_example : IsSound holding
unfolding lookup record_fill danta.Common.Dict.insert danta.Common.Int.◌+ℤ◌
record_fill-IsSound_example =
    record_fill-IsSound fixed_point show "005930" IntentSide.buy (pos 7) (pos 0) desk each-IsSound
      "005930" holding refl
