-- ===== src/Ledger/Recovery.antt =====
-- src/danta/services/sql_order_journal.py: `load_recoverable`, the orders whose outcome still matters after
-- a restart, from the join of intents and orders, and `next_buy_attempt`. The rows of two intents of the
-- same time, which the query leaves unordered, stand one after the other here.
use danta.Common.{
  String, Bool, true, false, ◌||◌, ◌&&◌, Option, none, some, List, [], ◌∷◌, ◌++◌, map,
  if◌then◌else◌,
}
use danta.Common.Int.{ℤ, pos, ◌+ℤ◌, ltb_ℤ, max_ℤ}
use danta.Common.Eq.{string_eq, ◌==◌, member, add_member}
use danta.Common.Text.{starts_with}
use danta.Common.Time.{Datetime}
use danta.Common.Result.{Result, ok, ◌>>=◌}
use danta.Session.{OrderIntent, order_intent, is_buy}
use danta.Ledger.{IntentRow, OrderRow, Tables, of_intent}

pub record RecoveredOrder : Type 0 where
  pub intent : OrderIntent
  pub intent_status : String
  pub broker_order_no : Option String
  pub broker_status : Option String

-- `_aware`: a time without a zone is read as UTC
abbrev pub aware : Datetime → Datetime
aware value = record value { is_aware = true }

abbrev pub matters : IntentRow → Bool
matters row =
    row.status == "SUBMITTING"
    || (row.status == "SUBMITTED"
        || (row.status == "PARTIALLY_FILLED" || starts_with "UNKNOWN:" row.status))

-- `order_by(OrderIntentModel.created_at)`: the rows that matter, each before the later ones
unfoldable pub place : IntentRow → List IntentRow → List IntentRow
place row [] = row ∷ []
place row (other ∷ rows) =
    let rest = place row rows in
    if ltb_ℤ other.intent.created_at.micros row.intent.created_at.micros
    then other ∷ rest
    else row ∷ other ∷ rows

unfoldable pub earliest_first : List IntentRow → List IntentRow
unfolding place
earliest_first [] = []
earliest_first (row ∷ rows) =
    let rest = earliest_first rows in if matters row then place row rest else rest

-- `BrokerOrderModel.created_at.desc()`, over the orders of an intent
unfoldable pub place_order : OrderRow → List OrderRow → List OrderRow
place_order row [] = row ∷ []
place_order row (other ∷ rows) =
    let rest = place_order row rows in
    if ltb_ℤ row.created_at.micros other.created_at.micros then other ∷ rest else row ∷ other ∷ rows

unfoldable pub newest_first : IntentRow → List OrderRow → List OrderRow
unfolding place_order
newest_first intent [] = []
newest_first intent (row ∷ rows) =
    let rest = newest_first intent rows in
    if of_intent intent row then place_order row rest else rest

-- an intent without an order stands once, with none
abbrev pub pairs_of : IntentRow → List OrderRow → List (IntentRow × Option OrderRow)
pairs_of intent [] = (intent, none) ∷ []
pairs_of intent (row ∷ rows) = map (λ (order : OrderRow). (intent, some order)) (row ∷ rows)

unfoldable pub joined : List IntentRow → List OrderRow → List (IntentRow × Option OrderRow)
unfolding newest_first
joined [] orders = []
joined (intent ∷ intents) orders =
    pairs_of intent (newest_first intent orders) ++ joined intents orders

abbrev pub number_of : Option OrderRow → Option String
number_of none = none
number_of (some order) = order.broker_order_no

abbrev pub status_in : Option OrderRow → Option String
status_in none = none
status_in (some order) = some order.status

-- The intent is built anew, which may raise.
unfoldable pub recovered_of : IntentRow → Option OrderRow → Result RecoveredOrder
recovered_of row order = do
  intent ← order_intent (record row.intent { created_at = aware row.intent.created_at })
  ok (record {
    intent = intent;
    intent_status = row.status;
    broker_order_no = number_of order;
    broker_status = status_in order;
  })

-- the loop over the rows
unfoldable pub recover :
    List String → List (IntentRow × Option OrderRow) → Result (List RecoveredOrder)
unfolding recovered_of
recover seen [] = ok []
recover seen ((row, order) ∷ rows) =
    let key = row.intent.idempotency_key in
    let rest = recover (add_member key seen) rows in
    let skipped = recover seen rows in
    if member key seen
    then skipped
    else (recovered_of row order >>= λ first. rest >>= λ others. ok (first ∷ others))

unfoldable pub load_recoverable : Tables → Result (List RecoveredOrder)
unfolding earliest_first joined recover
load_recoverable t = recover [] (joined (earliest_first t.intents) t.orders)

abbrev pub is_approval : Option String → String → Bool
is_approval none approval_id = false
is_approval (some id) approval_id = id == approval_id

-- the rows of the query of `next_buy_attempt`
abbrev pub is_leg : String → String → IntentRow → Bool
is_leg approval_id symbol row =
    is_approval row.intent.approval_id approval_id
    && (row.intent.symbol == symbol && is_buy row.intent.side)

-- `attempt_of key` is the integer that `int` reads behind the last ":BUY:A" of a key; none where there
-- is no such mark, or no integer behind it.
module _ (attempt_of : String → Option ℤ) where
  -- `max`, where nothing stands for no attempt
  abbrev pub later_attempt : Option ℤ → Option ℤ → Option ℤ
  later_attempt none best = best
  later_attempt (some attempt) none = some attempt
  later_attempt (some attempt) (some best) = some (max_ℤ attempt best)

  unfoldable pub best_attempt : String → String → List IntentRow → Option ℤ
  best_attempt approval_id symbol [] = none
  best_attempt approval_id symbol (row ∷ rows) =
      let best = best_attempt approval_id symbol rows in
      if is_leg approval_id symbol row
      then later_attempt (attempt_of row.intent.idempotency_key) best
      else best

  unfoldable pub next_buy_attempt : String → String → Tables → ℤ
  unfolding best_attempt
  next_buy_attempt approval_id symbol t = elim (best_attempt approval_id symbol t.intents) [
    | none ↦ pos 0
    | some best ↦ best +ℤ pos 1
  ]
