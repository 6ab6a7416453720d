-- ===== src/Ledger.antt =====
-- src/danta/services/sql_order_journal.py: the order journal as tables of the database. Each method is
-- one transaction, here with no other in between: it returns its result beside the tables, which
-- are those before it unless it commits. Which of several rows of the same time a query gives first is
-- not said by the code; here it is the one that was added last.
pub mod Booking
pub mod Watermark
pub mod Recovery
pub mod Claims
use Prim.Native.String.{◌++◌}
use danta.Common.{
  ℕ, zero, suc, String, Bool, true, false, not, ◌&&◌, ◌||◌, Option, none, some, List, [], ◌∷◌, map,
  eqb, if◌then◌else◌,
}
use danta.Common.Int.{ℤ, pos, ◌+ℤ◌, ◌-ℤ◌, ◌*ℤ◌, ltb_ℤ, leb_ℤ, eqb_ℤ}
use danta.Common.Lists.{any}
use danta.Common.Eq.{string_eq, ◌==◌}
use danta.Common.Time.{Datetime}
use danta.Common.Result.{
  Result, ok, err, value_error, runtime_error, ◌>>=◌, ◌>>◌, raise_if, or_raise,
}
use danta.Common.Decimal.{Decimals}
use danta.Market.{zero_dec}
use danta.Session.{OrderIntent}
use danta.Orders.{OrderExecution, execution_of}
use danta.Common.Text.{starts_with, cut}

-- `OrderIntentModel`: the columns of an intent, and its status
pub record IntentRow : Type 0 where
  pub id : String
  pub intent : OrderIntent
  pub status : String

-- `BrokerOrderModel`, without the hash, which is never set
pub record OrderRow : Type 0 where
  pub id : String
  pub order_intent_id : String
  pub broker_order_no : Option String
  pub status : String
  pub created_at : Datetime

-- `FillModel`
pub record FillRow : Type 0 where
  pub id : String
  pub broker_order_id : String
  pub symbol : String
  pub price : ℤ
  pub quantity : ℤ
  pub cumulative_quantity : ℤ
  pub filled_at : Datetime

pub record Tables : Type 0 where
  pub intents : List IntentRow
  pub orders : List OrderRow
  pub fills : List FillRow

-- the row of a key, which is unique
unfoldable pub intent_row : String → List IntentRow → Option IntentRow
intent_row key [] = none
intent_row key (row ∷ rows) =
    let rest = intent_row key rows in if row.intent.idempotency_key == key then some row else rest

-- the later of a row and the latest row of the rest
abbrev pub later_row : OrderRow → Option OrderRow → OrderRow
later_row row none = row
later_row row (some other) =
    if ltb_ℤ row.created_at.micros other.created_at.micros then other else row

-- `.where(…).order_by(BrokerOrderModel.created_at.desc())`, its first row
unfoldable pub latest_order : (OrderRow → Bool) → List OrderRow → Option OrderRow
latest_order matches [] = none
latest_order matches (row ∷ rows) =
    let rest = latest_order matches rows in if matches row then some (later_row row rest) else rest

abbrev pub of_intent : IntentRow → OrderRow → Bool
of_intent intent order = order.order_intent_id == intent.id

abbrev pub numbered : String → OrderRow → Bool
numbered broker_order_no order = elim order.broker_order_no [
  | none ↦ false
  | some number ↦ number == broker_order_no
]

-- the execution of an order row; without a number there is none
abbrev pub execution_in : String → Option OrderRow → Option OrderExecution
execution_in key none = none
execution_in key (some order) = elim order.broker_order_no [
  | none ↦ none
  | some number ↦
      some (record { idempotency_key = key; broker_order_no = number; status = order.status })
]

unfoldable pub find : String → Tables → Option OrderExecution
unfolding intent_row latest_order
find key t = elim (intent_row key t.intents) [
  | none ↦ none
  | some row ↦
      if not (row.status == "SUBMITTED")
      then none
      else execution_in key (latest_order (of_intent row) t.orders)
]

-- `row.status = status`
unfoldable pub set_status : String → String → List IntentRow → List IntentRow
set_status key status [] = []
set_status key status (row ∷ rows) =
    let rest = set_status key status rows in
    if row.intent.idempotency_key == key then record row { status = status } ∷ rows else row ∷ rest

-- a failed intent is claimed again, at its new time
unfoldable pub reclaim : OrderIntent → List IntentRow → List IntentRow
reclaim intent [] = []
reclaim intent (row ∷ rows) =
    let rest = reclaim intent rows in
    if row.intent.idempotency_key == intent.idempotency_key
    then (record row {
      status = "SUBMITTING";
      intent = record row.intent { created_at = intent.created_at };
    })
      ∷ rows
    else row ∷ rest

abbrev pub new_row : String → OrderIntent → IntentRow
new_row id intent = record { id = id; intent = intent; status = "SUBMITTING" }

-- `id` stands for `str(uuid4())`; a row with it makes the commit fail.
unfoldable pub mark_submitting : String → OrderIntent → Tables → Bool × Tables
unfolding reclaim
mark_submitting id intent t = elim (intent_row intent.idempotency_key t.intents) [
  | some existing ↦
      if starts_with "FAILED:" existing.status
      then (true, record t { intents = reclaim intent t.intents })
      else (false, t)
  | none ↦
      if any (λ (row : IntentRow). row.id == id) t.intents
      then (false, t)
      else (true, record t { intents = new_row id intent ∷ t.intents })
]

abbrev pub new_order : String → IntentRow → String → Datetime → OrderRow
new_order id row broker_order_no now = record {
  id = id;
  order_intent_id = row.id;
  broker_order_no = some broker_order_no;
  status = "SUBMITTED";
  created_at = now;
}

-- An `id` in use makes the commit raise.
unfoldable pub mark_submitted :
    String → OrderIntent → String → Datetime → Tables → Result OrderExecution × Tables
unfolding set_status
mark_submitted id intent broker_order_no now t =
    elim (intent_row intent.idempotency_key t.intents) [
      | none ↦ (err (runtime_error "submitting order intent was not found"), t)
      | some row ↦
          if any (λ (order : OrderRow). order.id == id) t.orders
          then (err (runtime_error "IntegrityError"), t)
          else (
            ok (execution_of intent broker_order_no),
            record t {
              intents = set_status intent.idempotency_key "SUBMITTED" t.intents;
              orders = new_order id row broker_order_no now ∷ t.orders;
            },
          )
    ]

unfoldable pub mark_failed : OrderIntent → String → Tables → Tables
unfolding set_status
mark_failed intent reason t = record t {
  intents = set_status intent.idempotency_key (cut 24 ("FAILED:" ++ reason)) t.intents;
}

unfoldable pub mark_unknown : OrderIntent → String → Tables → Tables
unfolding set_status
mark_unknown intent reason t = record t {
  intents = set_status intent.idempotency_key (cut 24 ("UNKNOWN:" ++ reason)) t.intents;
}
