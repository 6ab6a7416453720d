-- ===== src/Runtime/Fills/Agreement.antt =====
-- The position and the session of a symbol count the same shares.
use danta.Common.{
  String, ◌≡◌, ◌≢◌, sym, ap, subst, ◌∙◌, ◌⊎◌, inl, inr, Option, none, some, arith, Bool-cases,
  Option-cases,
}
use danta.Common.Int.{ℤ, pos, ◌-ℤ◌, ◌≤ℤ◌, -ℤ_parts}
use danta.Common.Eq.{string_eq, ◌==◌}
use danta.Common.Dict.{Distinct, lookup, lookup-insert_self, lookup-insert_ne}
use danta.Common.Time.{Datetime}
use danta.Common.Result.{Exc, Result, ok, err, Result-cases}
use danta.Common.Decimal.{Decimals}
use danta.Broker.{KisOrderStatus}
use danta.Session.{IntentSide, OrderIntent, SymbolSession}
use danta.Orchestrator.{Orchestrator}
use danta.Orchestrator.Calls.{filled, record_fill}
use danta.Runtime.{Core, SubmittedOrder, ManagedPosition}
use danta.Runtime.Fills.Counting.{booked, price_of, apply-count_fill}
use danta.Runtime.Fills.{write_order, fill_position, fill_both, count_fill, apply_order_status}
use danta.Runtime.Fills.Moves.{
  next, next_mono, held, sellable, filled-next, Moved, position_in, position-ok, position-err,
  position-others, position-sessions,
}

module _ (D : Decimals) (show : ℤ → String) where
  -- The session counts the shares of the position, none without one, of which it can sell as many.
  abbrev pub Agrees : Option SymbolSession → Option (ManagedPosition D) → Type 0
  Agrees none p = Unit
  Agrees (some s) p =
      (s.quantity ≡ held D show p)
      × (s.sellable_quantity ≡ sellable D show p)
      × (sellable D show p ≤ℤ held D show p)

  Agrees-filled :
      (side : IntentSide) (n remaining : ℤ) (s : SymbolSession) (o o' : Option (ManagedPosition D))
      → Agrees (some s) o
      → Moved D show (next side n) o o'
      → Agrees (some (filled D show side n remaining s)) o'
  Agrees-filled side n remaining s o o' agrees moved =
      let session = filled-next D show side n remaining s in
      (
        session.0 ∙ ap (next side n) agrees.0 ∙ sym moved.0,
        session.1 ∙ ap (next side n) agrees.1 ∙ sym moved.1,
        subst (λ a. a ≤ℤ held D show o') (sym moved.1)
            (subst (λ b. next side n (sellable D show o) ≤ℤ b) (sym moved.0)
              (next_mono side n (sellable D show o) (held D show o) agrees.2)),
      )

  Agrees-held :
      (s : Option SymbolSession) (o o' : Option (ManagedPosition D))
      → Agrees s o
      → Moved D show (λ q. q) o o'
      → Agrees s o'
  Agrees-held none o o' agrees moved = tt
  Agrees-held (some s) o o' agrees moved = (
    agrees.0 ∙ sym moved.0,
    agrees.1 ∙ sym moved.1,
    subst (λ a. a ≤ℤ held D show o') (sym moved.1)
        (subst (λ b. sellable D show o ≤ℤ b) (sym moved.0) agrees.2),
  )

  -- the state that the theorem speaks of
  abbrev pub AgreesAt : String → Core D → Type 0
  AgreesAt k c = Agrees (lookup k c.orchestrator.sessions) (lookup k c.positions)

  same_at :
      (k : String) (c c' : Core D)
      → lookup k c'.orchestrator.sessions ≡ lookup k c.orchestrator.sessions
      → Agrees (lookup k c.orchestrator.sessions) (lookup k c'.positions)
      → AgreesAt k c'
  same_at k c c' e agrees = subst (λ s. Agrees s (lookup k c'.positions)) (sym e) agrees

  module _ (i : OrderIntent) (n remaining : ℤ) (o : Orchestrator D) where
    abbrev after : Orchestrator D
    after = (record_fill D show i.symbol i.side n remaining o).1

    recorded :
        (s : SymbolSession)
        → pos 1 ≤ℤ n
        → pos 0 ≤ℤ remaining
        → lookup i.symbol o.sessions ≡ some s
        → lookup i.symbol after.sessions ≡ some (filled D show i.side n remaining s)
    unfolding record_fill
    recorded s positive left there =
        ground (arith, lookup-insert_self i.symbol (filled D show i.side n remaining s) o.sessions)

    unrecorded : lookup i.symbol o.sessions ≡ none → after ≡ o
    unfolding record_fill
    unrecorded missing = ground arith

    recorded-others : (k : String) → i.symbol ≢ k → lookup k after.sessions ≡ lookup k o.sessions
    unfolding record_fill
    recorded-others k other = elim (Option-cases (lookup i.symbol o.sessions)) [
      | inl missing ↦ ground arith
      | inr (s, there) ↦
          ground (
            arith,
            lookup-insert_ne i.symbol k (filled D show i.side n remaining s) o.sessions other,
          )
    ]

  module _ (i : OrderIntent) (n : ℤ) (price : D.Decimal) (remaining : ℤ) (at : Datetime)
      (c : Core D) where
    abbrev moved : Result (Unit {0}) × Core D
    moved = fill_position D show i n price at c

    abbrev result : Core D
    result = (fill_both D show i n price remaining at c).1

    result-err : (e : Exc) → moved.0 ≡ err e → result ≡ moved.1
    unfolding fill_both
    result-err e h = ground arith

    result-ok :
        moved.0 ≡ ok tt
        → (result.positions ≡ moved.1.positions)
          × (result.orchestrator ≡ after i n remaining c.orchestrator)
    unfolding fill_both
    result-ok h = ground (arith, position-sessions D show i n price at c)

    fill_both-others : (k : String) → i.symbol ≢ k → AgreesAt k c → AgreesAt k result
    fill_both-others k other agrees =
        let held = position-others D show i n price at c k other in
        let still = ap (λ x. lookup k x.sessions) (position-sessions D show i n price at c) in
        elim (Result-cases moved.0) [
          | inl (e, h) ↦
              let r = result-err e h in
              same_at k c result (ap (λ x. lookup k x.orchestrator.sessions) r ∙ still) (
                subst (λ p. Agrees (lookup k c.orchestrator.sessions) p)
                  (sym (ap (λ x. lookup k x.positions) r ∙ held)) agrees)
          | inr (u, h) ↦
              let r = result-ok h in
              same_at k c result
                (ap (λ x. lookup k x.sessions) r.1
                  ∙ recorded-others i n remaining c.orchestrator k other)
                (subst (λ p. Agrees (lookup k c.orchestrator.sessions) p)
                  (sym (ap (lookup k) r.0 ∙ held)) agrees)
        ]

    accepted_self :
        pos 1 ≤ℤ n
        → pos 0 ≤ℤ remaining
        → Distinct c.positions
        → AgreesAt i.symbol c
        → moved.0 ≡ ok tt
        → AgreesAt i.symbol result
    accepted_self positive left distinct agrees h =
        let r = result-ok h in
        elim (Option-cases (lookup i.symbol c.orchestrator.sessions)) [
          | inl missing ↦
              let same = r.1 ∙ unrecorded i n remaining c.orchestrator missing in
              same_at i.symbol c result (ap (λ x. lookup i.symbol x.sessions) same)
                (subst (λ x. Agrees x (position_in D show i result)) (sym missing) tt)
          | inr (s, there) ↦
              let old = subst (λ x. Agrees x (position_in D show i c)) there agrees in
              let moves =
                subst
                  (λ p. Moved D show (next i.side n) (position_in D show i c) (lookup i.symbol p))
                  (sym r.0) (position-ok D show i n price at c distinct old.2 h) in
              let e =
                ap (λ x. lookup i.symbol x.sessions) r.1
                ∙ recorded i n remaining c.orchestrator s positive left there in
              subst (λ x. Agrees x (position_in D show i result)) (sym e)
                (Agrees-filled i.side n remaining s (position_in D show i c)
                  (position_in D show i result) old moves)
        ]

    fill_both_self :
        pos 1 ≤ℤ n
        → pos 0 ≤ℤ remaining
        → Distinct c.positions
        → AgreesAt i.symbol c
        → AgreesAt i.symbol result
    fill_both_self positive left distinct agrees = elim (Result-cases moved.0) [
      | inl (e, h) ↦
          same_at i.symbol c result
            (ap (λ x. lookup i.symbol x.orchestrator.sessions) (result-err e h)
              ∙ ap (λ x. lookup i.symbol x.sessions) (position-sessions D show i n price at c))
            (Agrees-held (lookup i.symbol c.orchestrator.sessions) (position_in D show i c)
              (position_in D show i result) agrees
              (rw (result-err e h) (position-err D show i n price at c e h)))
      | inr (u, h) ↦ accepted_self positive left distinct agrees h
    ]

  fill_both-Agrees :
      (i : OrderIntent) (n : ℤ) (price : D.Decimal) (remaining : ℤ) (at : Datetime) (c : Core D)
      (k : String)
      → pos 1 ≤ℤ n
      → pos 0 ≤ℤ remaining
      → Distinct c.positions
      → ((j : String) → AgreesAt j c)
      → AgreesAt k (fill_both D show i n price remaining at c).1
  fill_both-Agrees i n price remaining at c k positive left distinct agrees =
      elim (Bool-cases (i.symbol == k)) [
        | inl same ↦
            subst (λ j. AgreesAt j (fill_both D show i n price remaining at c).1)
              ((string_eq.beq_iff i.symbol k).0 same)
              (fill_both_self i n price remaining at c positive left distinct (agrees i.symbol))
        | inr other ↦
            let ne : i.symbol ≢ k = ground (arith, string_eq.beq_iff i.symbol k) in
            fill_both-others i n price remaining at c k ne (agrees k)
      ]

  module _ (key : String) (order : SubmittedOrder D) (status : KisOrderStatus D) (at : Datetime)
      (c : Core D) where
    -- A status books a fill, or leaves the positions and the sessions alone.
    count_fill-outcome :
        (((count_fill D show key order status at c).1.positions ≡ c.positions)
          × ((count_fill D show key order status at c).1.orchestrator ≡ c.orchestrator))
        ⊎ ((pos 1 ≤ℤ status.filled_quantity -ℤ order.cumulative_filled)
            × (count_fill D show key order status at c
                ≡ fill_both D show order.intent
                    (status.filled_quantity -ℤ order.cumulative_filled)
                    (price_of D show status order)
                    status.remaining_quantity
                    at
                    (write_order D show key (booked D show status order) c)))
    unfolding count_fill
    count_fill-outcome = ground (arith, -ℤ_parts status.filled_quantity order.cumulative_filled)

    count_fill-Agrees :
        (k : String)
        → Distinct c.positions
        → pos 0 ≤ℤ status.remaining_quantity
        → ((j : String) → AgreesAt j c)
        → AgreesAt k (count_fill D show key order status at c).1
    count_fill-Agrees k distinct left agrees = elim count_fill-outcome [
      | inl (positions, sessions) ↦
          same_at k c (count_fill D show key order status at c).1
            (ap (λ x. lookup k x.sessions) sessions)
            (subst (λ p. Agrees (lookup k c.orchestrator.sessions) (lookup k p)) (sym positions)
              (agrees k))
      | inr (positive, step) ↦
          subst (λ x. AgreesAt k x) (sym (ap (λ x. x.1) step))
            (fill_both-Agrees order.intent (status.filled_quantity -ℤ order.cumulative_filled)
              (price_of D show status order) status.remaining_quantity at
              (write_order D show key (booked D show status order) c) k positive left distinct
              agrees)
    ]

  apply_unknown :
      (status : KisOrderStatus D) (at : Datetime) (c : Core D)
      → lookup status.broker_order_no c.order_number_to_key ≡ none
      → (apply_order_status D show status at c).1 ≡ c
  unfolding apply_order_status
  apply_unknown status at c h = ground arith

  apply_missing :
      (key : String) (status : KisOrderStatus D) (at : Datetime) (c : Core D)
      → lookup status.broker_order_no c.order_number_to_key ≡ some key
      → lookup key c.submitted ≡ none
      → (apply_order_status D show status at c).1 ≡ c
  unfolding apply_order_status
  apply_missing key status at c numbered missing = ground arith

  -- If the positions stand under distinct symbols and the session of every symbol, where it has one,
  -- counts the shares of its position, then so does it after any status of an order whose remaining
  -- quantity is not negative, whether the status is accepted or refused.
  pub apply_order_status-Agrees :
      (status : KisOrderStatus D) (at : Datetime) (c : Core D) (k : String)
      → Distinct c.positions
      → pos 0 ≤ℤ status.remaining_quantity
      → ((j : String) → AgreesAt j c)
      → AgreesAt k (apply_order_status D show status at c).1
  apply_order_status-Agrees status at c k distinct left agrees =
      elim (Option-cases (lookup status.broker_order_no c.order_number_to_key)) [
        | inl unknown ↦
            subst (λ x. AgreesAt k x) (sym (apply_unknown status at c unknown)) (agrees k)
        | inr (key, numbered) ↦ elim (Option-cases (lookup key c.submitted)) [
          | inl missing ↦
              subst (λ x. AgreesAt k x) (sym (apply_missing key status at c numbered missing))
                (agrees k)
          | inr (order, known) ↦
              subst (λ x. AgreesAt k x)
                (sym (ap (λ x. x.1) (apply-count_fill D show key order status at c numbered known)))
                (count_fill-Agrees key order status at c k distinct left agrees)
        ]
      ]
