-- ===== src/Runtime/Fills/Counting.antt =====
-- The fills of an order are counted once, whatever statuses the broker repeats.
use danta.Common.{String, ◌≡◌, ◌≢◌, refl, sym, ap, ◌∙◌, ◌⊎◌, inl, inr, some, arith, Bool-cases}
use danta.Common.Int.{
  ℤ, pos, ◌+ℤ◌, ◌-ℤ◌, ◌≤ℤ◌, ◌<ℤ◌, parts_of_eq, eq_of_parts, -ℤ_parts, eqb_ℤ, int_laws,
}
use danta.Common.Eq.{string_eq}
use danta.Common.Dict.{lookup, lookup-insert_self, lookup-insert_ne}
use danta.Common.Time.{Datetime}
use danta.Common.Result.{ok}
use danta.Common.Decimal.{Decimals}
use danta.Broker.{KisOrderStatus}
use danta.Session.{OrderIntent}
use danta.Runtime.{Core, SubmittedOrder}
use danta.Runtime.Fills.{
  fill_buy, fill_sell, fill_position, fill_both, write_order, count_fill, apply_order_status,
}

module _ (D : Decimals) (show : ℤ → String) where
  -- Two cores that know the same orders.
  abbrev SameOrders : Core D → Core D → Type 0
  SameOrders c c' = (c'.submitted ≡ c.submitted) × (c'.order_number_to_key ≡ c.order_number_to_key)

  fill_buy-SameOrders :
      (i : OrderIntent) (delta : ℤ) (price : D.Decimal) (at : Datetime) (c : Core D)
      → SameOrders c (fill_buy D show i delta price at c).1
  unfolding fill_buy
  fill_buy-SameOrders i delta price at c = ground arith

  fill_sell-SameOrders :
      (i : OrderIntent) (delta : ℤ) (c : Core D) → SameOrders c (fill_sell D show i delta c).1
  unfolding fill_sell
  fill_sell-SameOrders i delta c = ground arith

  fill_position-SameOrders :
      (i : OrderIntent) (delta : ℤ) (price : D.Decimal) (at : Datetime) (c : Core D)
      → SameOrders c (fill_position D show i delta price at c).1
  unfolding fill_position
  fill_position-SameOrders i delta price at c =
      ground (arith, fill_buy-SameOrders i delta price at c, fill_sell-SameOrders i delta c)

  fill_both-SameOrders :
      (i : OrderIntent) (delta : ℤ) (price : D.Decimal) (remaining : ℤ) (at : Datetime) (c : Core D)
      → SameOrders c (fill_both D show i delta price remaining at c).1
  unfolding fill_both
  fill_both-SameOrders i delta price remaining at c =
      ground (arith, fill_position-SameOrders i delta price at c)

  fill_both-delta :
      (i : OrderIntent) (delta : ℤ) (price : D.Decimal) (remaining : ℤ) (at : Datetime) (c : Core D)
      (n : ℤ)
      → (fill_both D show i delta price remaining at c).0 ≡ ok n
      → delta ≡ n
  unfolding fill_both
  fill_both-delta i delta price remaining at c n h = ground arith

  -- What a status that is accepted leaves of the order that it reports.
  pub record IsCounted (key : String) (order : SubmittedOrder D) (status : KisOrderStatus D) (n : ℤ)
      (c c' : Core D) : Type 0 where
    pub total : order.cumulative_filled +ℤ n ≡ status.filled_quantity
    pub forward : pos 0 ≤ℤ n
    pub after : SubmittedOrder D
    pub kept : lookup key c'.submitted ≡ some after
    pub same_intent : after.intent ≡ order.intent
    pub counted : after.cumulative_filled ≡ status.filled_quantity
    pub same_numbers : c'.order_number_to_key ≡ c.order_number_to_key

  -- the order with a fill booked on it, and the price of the fill
  abbrev pub booked : KisOrderStatus D → SubmittedOrder D → SubmittedOrder D
  booked status order =
      let value = D.mul status.average_fill_price (D.of_int status.filled_quantity) in
      record order {
        cumulative_filled = status.filled_quantity;
        cumulative_fill_value = value;
        last_fill_value = D.trunc (D.sub value order.cumulative_fill_value);
      }

  abbrev pub price_of : KisOrderStatus D → SubmittedOrder D → D.Decimal
  price_of status order =
      D.div
        (D.sub (D.mul status.average_fill_price (D.of_int status.filled_quantity))
          order.cumulative_fill_value)
        (D.of_int (status.filled_quantity -ℤ order.cumulative_filled))

  module _ (key : String) (order : SubmittedOrder D) (status : KisOrderStatus D) (at : Datetime)
      (c : Core D) (n : ℤ) where
    -- A status that is accepted repeats the count of shares, or adds a fill.
    pub count_fill-cases :
        (count_fill D show key order status at c).0 ≡ ok n
        → ((status.filled_quantity ≡ order.cumulative_filled)
            × (n ≡ pos 0)
            × ((count_fill D show key order status at c).1 ≡ c))
          ⊎ ((order.cumulative_filled <ℤ status.filled_quantity)
              × (count_fill D show key order status at c
                  ≡ fill_both D show order.intent
                      (status.filled_quantity -ℤ order.cumulative_filled)
                      (price_of status order)
                      status.remaining_quantity
                      at
                      (write_order D show key (booked status order) c)))
    unfolding count_fill
    count_fill-cases h =
        let measured = -ℤ_parts status.filled_quantity order.cumulative_filled in
        elim (Bool-cases (eqb_ℤ (status.filled_quantity -ℤ order.cumulative_filled) (pos 0))) [
          | inl eq ↦
              let same : status.filled_quantity ≡ order.cumulative_filled =
                eq_of_parts status.filled_quantity order.cumulative_filled
                  (ground (arith, measured)) in
              inl (same, ground arith, ground arith)
          | inr more ↦ inr (ground (arith, measured), ground arith)
        ]

    count_fill-IsCounted :
        lookup key c.submitted ≡ some order
        → (count_fill D show key order status at c).0 ≡ ok n
        → IsCounted key order status n c (count_fill D show key order status at c).1
    count_fill-IsCounted known h = elim (count_fill-cases h) [
      | inl (same, zero, still) ↦ record {
        total = omega (int_laws, parts_of_eq same, parts_of_eq zero);
        forward = omega (arith, parts_of_eq zero);
        after = order;
        kept = rw still known;
        same_intent = refl;
        counted = sym same;
        same_numbers = rw still refl;
      }
      | inr (more, step) ↦
          let delta = status.filled_quantity -ℤ order.cumulative_filled in
          let c' = write_order D show key (booked status order) c in
          let orders =
            fill_both-SameOrders order.intent delta (price_of status order)
              status.remaining_quantity at c' in
          let e : delta ≡ n =
            fill_both-delta order.intent delta (price_of status order) status.remaining_quantity at
              c' n (rw (← step) h) in
          record {
            total = omega (int_laws, parts_of_eq e);
            forward = omega (int_laws, parts_of_eq e);
            after = booked status order;
            kept = rw step (
                ap (lookup key) orders.0
                ∙ lookup-insert_self key (booked status order) c.submitted);
            same_intent = refl;
            counted = refl;
            same_numbers = rw step orders.1;
          }
    ]

    count_fill-others :
        (k : String)
        → key ≢ k
        → (count_fill D show key order status at c).0 ≡ ok n
        → lookup k (count_fill D show key order status at c).1.submitted ≡ lookup k c.submitted
    count_fill-others k other h = elim (count_fill-cases h) [
      | inl (_, _, still) ↦ rw still refl
      | inr (_, step) ↦
          let orders =
            fill_both-SameOrders order.intent (status.filled_quantity -ℤ order.cumulative_filled)
              (price_of status order) status.remaining_quantity at
              (write_order D show key (booked status order) c) in
          rw step (
            ap (lookup k) orders.0 ∙ lookup-insert_ne key k (booked status order) c.submitted other)
    ]

  -- the same count again
  count_fill-again :
      (key : String) (order : SubmittedOrder D) (status : KisOrderStatus D) (at : Datetime)
      (c : Core D)
      → order.cumulative_filled ≡ status.filled_quantity
      → count_fill D show key order status at c ≡ (ok (pos 0), c)
  unfolding count_fill
  count_fill-again key order status at c same =
      ground (arith, parts_of_eq same, -ℤ_parts status.filled_quantity order.cumulative_filled)

  pub apply-count_fill :
      (key : String) (order : SubmittedOrder D) (status : KisOrderStatus D) (at : Datetime)
      (c : Core D)
      → lookup status.broker_order_no c.order_number_to_key ≡ some key
      → lookup key c.submitted ≡ some order
      → apply_order_status D show status at c ≡ count_fill D show key order status at c
  unfolding apply_order_status
  apply-count_fill key order status at c numbered known = ground arith

  -- If a status of a submitted order is accepted with `n` new shares, `n` is not negative and makes up
  -- the difference between the count of the order before and the reported one, which is its count
  -- afterwards; another order keeps its counts, and a later status of the order with the same count
  -- of shares is accepted with no new share and changes nothing.
  pub status_counts_once :
      (key k : String) (order : SubmittedOrder D) (status again : KisOrderStatus D)
      (at later : Datetime) (c : Core D) (n : ℤ)
      → lookup status.broker_order_no c.order_number_to_key ≡ some key
      → lookup key c.submitted ≡ some order
      → (apply_order_status D show status at c).0 ≡ ok n
      → again.broker_order_no ≡ status.broker_order_no
      → again.filled_quantity ≡ status.filled_quantity
      → key ≢ k
      → let c' = (apply_order_status D show status at c).1 in
        IsCounted key order status n c c'
        × (lookup k c'.submitted ≡ lookup k c.submitted)
        × (apply_order_status D show again later c' ≡ (ok (pos 0), c'))
  status_counts_once key k order status again at later c n numbered known h number count other =
      let step = apply-count_fill key order status at c numbered known in
      let accepted = sym (ap (λ x. x.0) step) ∙ h in
      let c' = (count_fill D show key order status at c).1 in
      let w = count_fill-IsCounted key order status at c n known accepted in
      let renumbered : lookup again.broker_order_no c'.order_number_to_key ≡ some key =
        rw (number, w.same_numbers) numbered in
      rw step (
        w,
        count_fill-others key order status at c n k other accepted,
        apply-count_fill key w.after again later c' renumbered w.kept
            ∙ count_fill-again key w.after again later c' (w.counted ∙ sym count),
      )
