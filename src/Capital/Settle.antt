-- ===== src/Capital/Settle.antt =====
-- Consuming a reservation: what moves from the reservations of a budget to its consumption.
use danta.Common.{
  String, ◌≡◌, ap, Bool, true, false, inl, inr, some, arith, if◌then◌else◌, Bool-cases,
}
use danta.Common.Int.{ℤ, pos, ◌+ℤ◌, ◌≤ℤ◌, int_laws, parts_of_eq, +ℤ_zero}
use danta.Common.Eq.{string_eq, ◌==◌}
use danta.Common.Dict.{
  Dict, lookup, insert, erase, Distinct, insert-Distinct, erase-Distinct, lookup-insert,
  lookup-erase-some,
}
use danta.Common.Dict.Sums.{sum_values, sum-insert, sum-erase}
use danta.Capital.{
  CapitalReservation, MandateBudget, reserved_for_symbol, amount_for, amount_of, itself,
}
use danta.Capital.Budget.{Reserved, IsValid}

-- `rest` counted for the symbol of `r`
abbrev pub rest_for : CapitalReservation → ℤ → String → ℤ
rest_for r rest s = if r.symbol == s then rest else pos 0

-- Reservations in which `r` gave way to `rest`.
pub record Replaced (b : MandateBudget) (r : CapitalReservation) (rest : ℤ)
    (after : Dict String CapitalReservation) : Type 0 where
  pub per_symbol :
      (s : String)
      → sum_values (amount_for s) after +ℤ amount_for s r
        ≡ sum_values (amount_for s) b.reservations +ℤ rest_for r rest s
  pub in_all : sum_values amount_of after +ℤ r.amount ≡ sum_values amount_of b.reservations +ℤ rest
  pub reserved : (k : String) (q : CapitalReservation) → lookup k after ≡ some q → Reserved b q
  pub distinct : Distinct after

abbrev pub settled :
    MandateBudget → CapitalReservation → ℤ → Dict String CapitalReservation → MandateBudget
settled b r total after = record b {
  reservations = after;
  consumed_by_symbol = insert r.symbol total b.consumed_by_symbol;
}

rest_for-zero : (r : CapitalReservation) (s : String) → rest_for r (pos 0) s ≡ pos 0
rest_for-zero r s = elim (Bool-cases (r.symbol == s)) [ inl h ↦ rw h | inr h ↦ rw h ]

abbrev pub amount_if : Bool → ℤ → ℤ
amount_if same amount = if same then amount else pos 0

amount_if-nonneg :
    (same : Bool) (amount u : ℤ)
    → pos 0 ≤ℤ amount
    → pos 0 ≤ℤ u
    → pos 0 ≤ℤ u +ℤ amount_if same amount
amount_if-nonneg true amount u h k = omega int_laws
amount_if-nonneg false amount u h k = omega int_laws

-- one symbol's cap after a settlement: the sums before and after, with the symbol's part in them
fits_settled :
    (same : Bool) (u amount rest whole before after c : ℤ)
    → u +ℤ before ≤ℤ c
    → amount +ℤ rest ≤ℤ whole
    → after +ℤ (if same then whole else pos 0) ≡ before +ℤ (if same then rest else pos 0)
    → u +ℤ amount_if same amount +ℤ after ≤ℤ c
fits_settled true u amount rest whole before after c h le e = omega (int_laws, parts_of_eq e)
fits_settled false u amount rest whole before after c h le e = omega (int_laws, parts_of_eq e)

pub counted-settled :
    (b : MandateBudget) (r : CapitalReservation) (s : String) (consumed amount u : ℤ)
    → lookup r.symbol b.consumed_by_symbol ≡ some consumed
    → lookup s b.consumed_by_symbol ≡ some u
    → (if r.symbol == s then some (consumed +ℤ amount) else lookup s b.consumed_by_symbol)
      ≡ some (u +ℤ amount_if (r.symbol == s) amount)
counted-settled b r s consumed amount u known counted = elim (Bool-cases (r.symbol == s)) [
  | inl same ↦
      let p : r.symbol ≡ s = (string_eq.beq_iff r.symbol s).0 same in
      let eu : consumed ≡ u = cc (ap (λ t. lookup t b.consumed_by_symbol) p) in rw (same, eu)
  | inr other ↦ rw (other, +ℤ_zero, counted)
]

module _ (b : MandateBudget) (v : IsValid b) (r : CapitalReservation) where
  pub Replaced-erase :
      (k : String)
      → lookup k b.reservations ≡ some r
      → Replaced b r (pos 0) (erase k b.reservations)
  Replaced-erase k h = record {
    per_symbol =
        λ s. rw (rest_for-zero r s, +ℤ_zero) (sum-erase (amount_for s) k r b.reservations h);
    in_all = rw +ℤ_zero (sum-erase amount_of k r b.reservations h);
    reserved = λ j q e. v.reserved j q (lookup-erase-some k j q b.reservations v.distinct e);
    distinct = erase-Distinct k b.reservations v.distinct;
  }

  pub Replaced-insert :
      (k : String) (rest : ℤ)
      → lookup k b.reservations ≡ some r
      → pos 1 ≤ℤ rest
      → Replaced b r rest (insert k (record r { amount = rest }) b.reservations)
  Replaced-insert k rest h p = record {
    per_symbol = λ s. sum-insert (amount_for s) k (record r { amount = rest }) r b.reservations h;
    in_all = sum-insert amount_of k (record r { amount = rest }) r b.reservations h;
    reserved = λ j q e. ground (
      arith,
      lookup-insert k j (record r { amount = rest }) b.reservations,
      v.reserved j q,
      v.reserved k r h,
    );
    distinct = insert-Distinct k (record r { amount = rest }) b.reservations v.distinct;
  }

  -- A settlement within the reserved amount keeps the budget valid.
  pub settled-IsValid :
      (k : String) (consumed amount rest : ℤ) (after : Dict String CapitalReservation)
      → lookup k b.reservations ≡ some r
      → lookup r.symbol b.consumed_by_symbol ≡ some consumed
      → pos 0 ≤ℤ amount
      → amount +ℤ rest ≤ℤ r.amount
      → Replaced b r rest after
      → IsValid (settled b r (consumed +ℤ amount) after)
  unfolding reserved_for_symbol
  settled-IsValid k consumed amount rest after h known nonneg le m = record {
    within = λ s c e.
        let w = v.within s c e in
        let found : lookup s (insert r.symbol (consumed +ℤ amount) b.consumed_by_symbol)
            ≡ some (w.consumed +ℤ amount_if (r.symbol == s) amount) =
          rw lookup-insert (counted-settled b r s consumed amount w.consumed known w.known) in
        record {
          consumed = w.consumed +ℤ amount_if (r.symbol == s) amount;
          known = found;
          nonneg = amount_if-nonneg (r.symbol == s) amount w.consumed nonneg w.nonneg;
          fits =
              fits_settled (r.symbol == s) w.consumed amount rest r.amount _ _ c w.fits le
                (m.per_symbol s);
        };
    reserved =
        λ j q e. let x = m.reserved j q e in record { positive = x.positive; capped = x.capped };
    account = omega (
      int_laws,
      parts_of_eq m.in_all,
      parts_of_eq
          (sum-insert itself r.symbol (consumed +ℤ amount) consumed b.consumed_by_symbol known),
    );
    distinct = m.distinct;
  }
