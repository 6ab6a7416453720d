-- ===== src/Session.antt =====
-- src/danta/domain/trading_session.py: the states, intents and sessions that the services share.
pub mod Intents
use danta.Common.{
  ℕ, String, Bool, true, false, not, ◌&&◌, ◌||◌, Option, none, some, eqb, if◌then◌else◌,
}
use danta.Common.Int.{ℤ, pos, leb_ℤ, ltb_ℤ}
use danta.Common.Eq.{string_eq, ◌==◌}
use danta.Common.Time.{Datetime}
use danta.Common.Result.{Result, ok, err, value_error, ◌>>=◌, ◌>>◌, raise_if}

pub data OrchestratorState : Type 0 where
  booting reconciling running entry_blocked degraded stopping : OrchestratorState

pub data SymbolState : Type 0 where
  idle watching_entry buy_pending partially_filled position_open : SymbolState
  sell_pending closed invalidated quarantined : SymbolState

pub data IntentPriority : Type 0 where
  hard_stop_exit protective_exit profit_or_time_exit cancel reconcile entry auxiliary :
      IntentPriority

pub data IntentSide : Type 0 where
  buy sell cancel : IntentSide

-- `int(priority)`
abbrev pub priority_value : IntentPriority → ℕ
priority_value IntentPriority.hard_stop_exit = 0
priority_value IntentPriority.protective_exit = 10
priority_value IntentPriority.profit_or_time_exit = 20
priority_value IntentPriority.cancel = 30
priority_value IntentPriority.reconcile = 40
priority_value IntentPriority.entry = 50
priority_value IntentPriority.auxiliary = 60

pub record OrderIntent : Type 0 where
  pub idempotency_key : String
  pub symbol : String
  pub generation : ℤ
  pub side : IntentSide
  pub priority : IntentPriority
  pub quantity : ℤ
  pub order_type : String
  pub limit_price : Option ℤ
  pub cause : String
  pub policy_version : String
  pub created_at : Datetime
  pub approval_id : Option String

abbrev pub is_buy : IntentSide → Bool
is_buy IntentSide.buy = true
is_buy _ = false

abbrev pub is_sell : IntentSide → Bool
is_sell IntentSide.sell = true
is_sell _ = false

abbrev pub is_cancel : IntentSide → Bool
is_cancel IntentSide.cancel = true
is_cancel _ = false

-- `price is None or price <= 0`
abbrev pub no_positive_price : Option ℤ → Bool
no_positive_price none = true
no_positive_price (some p) = leb_ℤ p (pos 0)

-- `OrderIntent(...)`: the value, if `__post_init__` accepts it
unfoldable pub order_intent : OrderIntent → Result OrderIntent
order_intent i = do
  raise_if (i.idempotency_key == "") (value_error "idempotency_key is required")
  raise_if (leb_ℤ i.quantity (pos 0) && not (is_cancel i.side))
      (value_error "quantity must be positive")
  raise_if (ltb_ℤ i.generation (pos 0)) (value_error "generation must not be negative")
  raise_if (not i.created_at.is_aware) (value_error "created_at must be timezone-aware")
  raise_if (is_buy i.side && not (i.order_type == "LIMIT"))
      (value_error "buy intents must use LIMIT orders")
  raise_if (i.order_type == "LIMIT" && no_positive_price i.limit_price)
      (value_error "limit orders require a positive limit_price")
  ok i

pub record SymbolSession : Type 0 where
  pub symbol : String
  pub generation : ℤ
  pub state : SymbolState
  pub last_sequence : ℤ
  pub active_order_key : Option String
  pub quantity : ℤ
  pub sellable_quantity : ℤ

-- `SymbolSession(symbol=…, generation=…, state=…)` with the defaults of the class
abbrev pub new_session : String → ℤ → SymbolState → SymbolSession
new_session symbol generation state = record {
  symbol = symbol;
  generation = generation;
  state = state;
  last_sequence = pos 0;
  active_order_key = none;
  quantity = pos 0;
  sellable_quantity = pos 0;
}

unfoldable pub apply_sequence : SymbolSession → ℤ → Bool × SymbolSession
apply_sequence s sequence =
    if leb_ℤ sequence s.last_sequence
    then (false, s)
    else (true, record s { last_sequence = sequence })
