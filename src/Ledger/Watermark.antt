-- ===== src/Ledger/Watermark.antt =====
-- The fills of the ledger add up to the count that the broker reported.
use danta.Common.{
  String, ◌≡◌, refl, sym, ap, ◌∙◌, ◌⊎◌, inl, inr, Bool, true, false, ◌&&◌, List, [], ◌∷◌, arith,
  Bool-cases,
}
use danta.Common.Int.{
  ℤ, pos, ◌+ℤ◌, ◌-ℤ◌, ◌≤ℤ◌, ◌<ℤ◌, ltb_ℤ, eqb_ℤ, int_laws, -ℤ_parts, eq_of_parts, parts_of_eq,
}
use danta.Common.Lists.{any}
use danta.Common.Eq.{string_eq, ◌==◌}
use danta.Common.Result.{ok}
use danta.Common.Decimal.{Decimals}
use danta.Ledger.{FillRow, Tables}
use danta.Ledger.Booking.{
  collides, recorded_quantity, Report, new_fill, book, reported_order, apply_broker_status,
}

-- a fill of the order that was recorded with a higher count than `total`
abbrev pub above : String → ℤ → FillRow → Bool
above order_id total fill = fill.broker_order_id == order_id && ltb_ℤ total fill.cumulative_quantity

-- The fills of the order add up to at least the count that any of them was recorded with.
abbrev pub IsLedger : String → List FillRow → Type 0
IsLedger order_id fills = any (above order_id (recorded_quantity order_id fills)) fills ≡ false

abbrev pub has_id : String → FillRow → Bool
has_id id fill = fill.id == id

above_mono :
    (order_id : String) (total total' : ℤ) (fills : List FillRow)
    → total ≤ℤ total'
    → any (above order_id total) fills ≡ false
    → any (above order_id total') fills ≡ false
above_mono order_id total total' [] le h = refl
above_mono order_id total total' (f ∷ fills) le h =
    ground (arith, above_mono order_id total total' fills le)

no_collision :
    (new : FillRow) (total : ℤ) (fills : List FillRow)
    → total <ℤ new.cumulative_quantity
    → any (above new.broker_order_id total) fills ≡ false
    → any (has_id new.id) fills ≡ false
    → any (collides new) fills ≡ false
no_collision new total [] lt h k = refl
no_collision new total (f ∷ fills) lt h k = ground (arith, no_collision new total fills lt)

module _ (D : Decimals) (round_half_up : D.Decimal → ℤ) where
  module _ (r : Report D round_half_up) (order_id : String) (t : Tables) where
    abbrev recorded : ℤ
    recorded = recorded_quantity order_id t.fills

    abbrev fill : FillRow
    fill = new_fill D round_half_up r order_id t.fills

    apply-book :
        reported_order D round_half_up r t ≡ ok order_id
        → apply_broker_status D round_half_up r t ≡ book D round_half_up r order_id t
    unfolding apply_broker_status
    apply-book about = ground arith

    -- What booking an accepted report does to the fills.
    book-cases :
        (n : ℤ)
        → (book D round_half_up r order_id t).0 ≡ ok n
        → (recorded <ℤ r.cumulative_filled_quantity → any (collides fill) t.fills ≡ false)
        → ((n ≡ pos 0)
            × (r.cumulative_filled_quantity ≡ recorded)
            × ((book D round_half_up r order_id t).1.fills ≡ t.fills))
          ⊎ ((n ≡ r.cumulative_filled_quantity -ℤ recorded)
              × (recorded <ℤ r.cumulative_filled_quantity)
              × ((book D round_half_up r order_id t).1.fills ≡ fill ∷ t.fills))
    unfolding book
    book-cases n h free =
        let measured = -ℤ_parts r.cumulative_filled_quantity recorded in
        elim (Bool-cases (eqb_ℤ (r.cumulative_filled_quantity -ℤ recorded) (pos 0))) [
          | inl same ↦ inl (
            ground arith,
            eq_of_parts r.cumulative_filled_quantity recorded (ground (arith, measured)),
            ground arith,
          )
          | inr more ↦
              let lt : recorded <ℤ r.cumulative_filled_quantity = ground (arith, measured) in
              let new = free lt in inr (ground arith, lt, ground arith)
        ]

    after_fill :
        recorded <ℤ r.cumulative_filled_quantity
        → IsLedger order_id t.fills
        → (recorded_quantity order_id (fill ∷ t.fills) ≡ r.cumulative_filled_quantity)
          × IsLedger order_id (fill ∷ t.fills)
    unfolding recorded_quantity
    after_fill more valid =
        let count = r.cumulative_filled_quantity in
        let self : (order_id == order_id) ≡ true = (string_eq.beq_iff order_id order_id).1 refl in
        let sum : (count -ℤ recorded) +ℤ recorded ≡ count = omega int_laws in
        let total : recorded_quantity order_id (fill ∷ t.fills) ≡ count =
          ground (arith, self, sum) in
        let valid' : any (above order_id count) (fill ∷ t.fills) ≡ false =
          ground (arith, above_mono order_id recorded count t.fills (omega (arith, more)) valid) in
        (total, ap (λ q. any (above order_id q) (fill ∷ t.fills)) total ∙ valid')

    -- If the fills of the order that a report is about add up to at least the counts they were recorded
    -- with, no fill has the report's fresh id, and the report is accepted with `n` new shares, then
    -- `n` is not negative, makes up the difference between the shares recorded before and the reported
    -- ones, which are the recorded ones now, and the fills add up as before.
    pub apply_broker_status-IsLedger :
        (n : ℤ)
        → reported_order D round_half_up r t ≡ ok order_id
        → IsLedger order_id t.fills
        → any (has_id r.id) t.fills ≡ false
        → (apply_broker_status D round_half_up r t).0 ≡ ok n
        → let t' = (apply_broker_status D round_half_up r t).1 in
          (pos 0 ≤ℤ n)
          × (recorded_quantity order_id t.fills +ℤ n ≡ r.cumulative_filled_quantity)
          × (recorded_quantity order_id t'.fills ≡ r.cumulative_filled_quantity)
          × IsLedger order_id t'.fills
    apply_broker_status-IsLedger n about valid fresh h =
        let step : apply_broker_status D round_half_up r t ≡ book D round_half_up r order_id t =
          apply-book about in
        let free = λ (lt : recorded <ℤ r.cumulative_filled_quantity).
          no_collision fill recorded t.fills lt valid fresh in
        elim (book-cases n (sym (ap (λ x. x.0) step) ∙ h) free) [
          | inl (zero, same, still) ↦
              let fills = ap (λ x. x.1.fills) step ∙ still in
              (
                omega (arith, parts_of_eq zero),
                omega (int_laws, parts_of_eq zero, parts_of_eq same),
                ap (recorded_quantity order_id) fills ∙ sym same,
                rw fills valid,
              )
          | inr (delta, lt, new) ↦
              let fills = ap (λ x. x.1.fills) step ∙ new in
              let (total, valid') = after_fill lt valid in
              (
                omega (int_laws, parts_of_eq delta, lt),
                omega (int_laws, parts_of_eq delta),
                ap (recorded_quantity order_id) fills ∙ total,
                rw fills valid',
              )
        ]
