-- ===== src/Ledger/Booking.antt =====
-- src/danta/services/sql_order_journal.py: `apply_broker_status`, which books the fills of an order from a
-- report of the broker.
use danta.Common.{String, Bool, ◌&&◌, ◌||◌, List, [], ◌∷◌, if◌then◌else◌}
use danta.Common.Int.{ℤ, pos, ◌+ℤ◌, ◌-ℤ◌, ◌*ℤ◌, ltb_ℤ, leb_ℤ, eqb_ℤ}
use danta.Common.Lists.{any}
use danta.Common.Eq.{string_eq, ◌==◌}
use danta.Common.Time.{Datetime}
use danta.Common.Result.{
  Result, ok, err, value_error, runtime_error, ◌>>=◌, ◌>>◌, raise_if, or_raise,
}
use danta.Common.Decimal.{Decimals}
use danta.Market.{zero_dec}
use danta.Ledger.{
  intent_row, latest_order, of_intent, numbered, set_status, OrderRow, FillRow, Tables,
}

-- `func.sum(FillModel.quantity)` and `func.sum(FillModel.price * FillModel.quantity)` of an order
unfoldable pub recorded_quantity : String → List FillRow → ℤ
recorded_quantity id [] = pos 0
recorded_quantity id (fill ∷ fills) =
    (if fill.broker_order_id == id then fill.quantity else pos 0) +ℤ recorded_quantity id fills

unfoldable pub recorded_value : String → List FillRow → ℤ
recorded_value id [] = pos 0
recorded_value id (fill ∷ fills) =
    (if fill.broker_order_id == id then fill.price *ℤ fill.quantity else pos 0)
    +ℤ recorded_value id fills

abbrev pub status_after : ℤ → ℤ → String
status_after remaining_quantity cumulative_filled_quantity =
    if ltb_ℤ (pos 0) remaining_quantity
    then (if ltb_ℤ (pos 0) cumulative_filled_quantity then "PARTIALLY_FILLED" else "SUBMITTED")
    else if ltb_ℤ (pos 0) cumulative_filled_quantity
    then "FILLED"
    else "CLOSED"

unfoldable pub set_order_status : String → String → List OrderRow → List OrderRow
set_order_status id status [] = []
set_order_status id status (row ∷ rows) =
    let rest = set_order_status id status rows in
    if row.id == id then record row { status = status } ∷ rows else row ∷ rest

-- the unique columns of a fill
abbrev pub collides : FillRow → FillRow → Bool
collides new old =
    old.id == new.id
    || (old.broker_order_id == new.broker_order_id
        && eqb_ℤ old.cumulative_quantity new.cumulative_quantity)

abbrev pub write_statuses : String → String → String → Tables → Tables
write_statuses key order_id status t = record t {
  intents = set_status key status t.intents;
  orders = set_order_status order_id status t.orders;
}

-- `round_half_up d` is `int(d.quantize(Decimal("1"), rounding=ROUND_HALF_UP))`.
module _ (D : Decimals) (round_half_up : D.Decimal → ℤ) where
  -- A report of the broker about an order, with the id that a new fill would get.
  pub record Report : Type 0 where
    pub id : String
    pub idempotency_key : String
    pub broker_order_no : String
    pub symbol : String
    pub ordered_quantity : ℤ
    pub cumulative_filled_quantity : ℤ
    pub average_fill_price : D.Decimal
    pub remaining_quantity : ℤ
    pub filled_at : Datetime

  unfoldable pub validate_report : Report → Result (Unit {0})
  validate_report r = do
    raise_if (leb_ℤ r.ordered_quantity (pos 0)) (value_error "ordered quantity must be positive")
    raise_if
        (ltb_ℤ r.cumulative_filled_quantity (pos 0)
          || ltb_ℤ r.ordered_quantity r.cumulative_filled_quantity)
        (value_error "cumulative fill quantity is invalid")
    raise_if (ltb_ℤ r.remaining_quantity (pos 0))
        (value_error "remaining quantity cannot be negative")
    raise_if (ltb_ℤ (pos 0) r.cumulative_filled_quantity && D.le r.average_fill_price (zero_dec D))
        (value_error "filled order must include a positive average price")

  abbrev pub increment : Report → String → List FillRow → D.Decimal
  increment r order_id fills =
      D.sub (D.mul r.average_fill_price (D.of_int r.cumulative_filled_quantity))
        (D.of_int (recorded_value order_id fills))

  abbrev pub new_fill : Report → String → List FillRow → FillRow
  new_fill r order_id fills =
      let delta = r.cumulative_filled_quantity -ℤ recorded_quantity order_id fills in
      record {
        id = r.id;
        broker_order_id = order_id;
        symbol = r.symbol;
        price = round_half_up (D.div (increment r order_id fills) (D.of_int delta));
        quantity = delta;
        cumulative_quantity = r.cumulative_filled_quantity;
        filled_at = r.filled_at;
      }

  -- from the look-up of the order on; a new fill that collides with an old one rolls the
  -- transaction back
  unfoldable pub book : Report → String → Tables → Result ℤ × Tables
  unfolding recorded_quantity recorded_value set_status set_order_status
  book r order_id t =
      let delta = r.cumulative_filled_quantity -ℤ recorded_quantity order_id t.fills in
      let fill = new_fill r order_id t.fills in
      let status = status_after r.remaining_quantity r.cumulative_filled_quantity in
      let t' = write_statuses r.idempotency_key order_id status t in
      if ltb_ℤ delta (pos 0)
      then (err (runtime_error "broker cumulative fill moved behind local ledger"), t)
      else if eqb_ℤ delta (pos 0)
      then (ok delta, t')
      else if D.le (increment r order_id t.fills) (zero_dec D)
      then (err (runtime_error "incremental fill value must be positive"), t)
      else if any (collides fill) t.fills
      then (ok (pos 0), t)
      else (ok delta, record t' { fills = fill ∷ t.fills })

  abbrev pub reported_order : Report → Tables → Result String
  reported_order r t = do
    validate_report r
    row ←
        or_raise (intent_row r.idempotency_key t.intents)
          (runtime_error "order intent was not found for fill persistence")
    order ←
        or_raise
          (latest_order (λ order. of_intent row order && numbered r.broker_order_no order) t.orders)
          (runtime_error "broker order was not found for fill persistence")
    ok order.id

  unfoldable pub apply_broker_status : Report → Tables → Result ℤ × Tables
  unfolding validate_report book
  apply_broker_status r t = elim (reported_order r t) [
    | err e ↦ (err e, t)
    | ok order_id ↦ book r order_id t
  ]
