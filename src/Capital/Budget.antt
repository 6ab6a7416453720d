-- ===== src/Capital/Budget.antt =====
-- What every budget of the allocator satisfies, and that each write to a budget keeps it.
use danta.Common.{
  String, ◌≡◌, refl, true, inl, inr, none, some, [], ◌∷◌, map, Bool-cases, Option-cases, arith, ap,
}
use danta.Common.Int.{ℤ, pos, ◌+ℤ◌, ◌≤ℤ◌, int_laws}
use danta.Common.Eq.{string_eq, ◌==◌}
use danta.Common.Dict.{Dict, lookup, contains, insert, Distinct, insert-Distinct, lookup-insert}
use danta.Common.Dict.Sums.{sum_values, sum-insert_new}
use danta.Common.Result.{ok}
use danta.Capital.{
  CapitalReservation, MandateBudget, reserved_for_symbol, amount_for, amount_of, itself, new_budget,
  reserve_new,
}

-- A capped symbol has its consumption counted, and consumption and reservations fit its cap.
pub record Within (b : MandateBudget) (symbol : String) (cap : ℤ) : Type 0 where
  pub consumed : ℤ
  pub known : lookup symbol b.consumed_by_symbol ≡ some consumed
  pub nonneg : pos 0 ≤ℤ consumed
  pub fits : consumed +ℤ reserved_for_symbol b symbol ≤ℤ cap

pub record Reserved (b : MandateBudget) (r : CapitalReservation) : Type 0 where
  pub positive : pos 1 ≤ℤ r.amount
  pub capped : contains r.symbol b.symbol_caps ≡ true

pub record IsValid (b : MandateBudget) : Type 0 where
  pub within : (s : String) (c : ℤ) → lookup s b.symbol_caps ≡ some c → Within b s c
  pub reserved :
      (k : String) (r : CapitalReservation) → lookup k b.reservations ≡ some r → Reserved b r
  pub account :
      sum_values amount_of b.reservations +ℤ sum_values itself b.consumed_by_symbol
      ≤ℤ b.account_cash_snapshot
  pub distinct : Distinct b.reservations

abbrev zeros : Dict String ℤ → Dict String ℤ
zeros caps = map (λ x. (x.0, pos 0)) caps

lookup-zeros :
    (s : String) (c : ℤ) (caps : Dict String ℤ)
    → lookup s caps ≡ some c
    → lookup s (zeros caps) ≡ some (pos 0)
unfolding lookup
lookup-zeros s c [] h = cc
lookup-zeros s c (x ∷ caps) h = ground (arith, lookup-zeros s c caps)

sum-zeros : (caps : Dict String ℤ) → sum_values itself (zeros caps) ≡ pos 0
unfolding sum_values
sum-zeros [] = refl
sum-zeros (x ∷ caps) = rw (sum-zeros caps) (omega int_laws)

-- A budget that is registered with caps of at least zero starts valid.
pub new_budget-IsValid :
    (cash : ℤ) (caps : Dict String ℤ)
    → pos 0 ≤ℤ cash
    → ((s : String) (c : ℤ) → lookup s caps ≡ some c → pos 0 ≤ℤ c)
    → IsValid (new_budget cash caps)
unfolding sum_values reserved_for_symbol lookup
new_budget-IsValid cash caps h nonneg = record {
  within = λ s c e. record {
    consumed = pos 0;
    known = lookup-zeros s c caps e;
    nonneg = omega arith;
    fits = omega (int_laws, nonneg s c e);
  };
  reserved = λ k r e. absurd (none_some e);
  account = rw (sum-zeros caps) (omega int_laws);
  distinct = tt;
}
  where
    none_some : {r : CapitalReservation} → none ≡ some r → ⊥
    none_some e = cc

-- What a reservation that was granted rests on.
pub record Granted (b : MandateBudget) (r : CapitalReservation) : Type 0 where
  pub cap : ℤ
  pub consumed : ℤ
  pub capped : lookup r.symbol b.symbol_caps ≡ some cap
  pub counted : lookup r.symbol b.consumed_by_symbol ≡ some consumed
  pub in_cap : consumed +ℤ reserved_for_symbol b r.symbol +ℤ r.amount ≤ℤ cap
  pub in_account :
      sum_values amount_of b.reservations +ℤ sum_values itself b.consumed_by_symbol +ℤ r.amount
      ≤ℤ b.account_cash_snapshot

abbrev pub with_reservation : String → CapitalReservation → MandateBudget → MandateBudget
with_reservation k r b = record b { reservations = insert k r b.reservations }

pub reserve_new-Granted :
    (b : MandateBudget) (m s : String) (amount : ℤ) (k : String) (r : CapitalReservation)
    (b' : MandateBudget)
    → reserve_new b m s amount k ≡ ok (r, b')
    → Granted b r
      × (b' ≡ with_reservation k r b)
      × (r ≡ record { reservation_id = k; mandate_id = m; symbol = s; amount = amount })
unfolding reserve_new
reserve_new-Granted b m s amount k r b' h = elim (Option-cases (lookup s b.symbol_caps)) [
  | inl outside ↦ absurd (ground arith)
  | inr (cap, capped) ↦ elim (Option-cases (lookup s b.consumed_by_symbol)) [
    | inl unknown ↦ absurd (ground arith)
    | inr (consumed, counted) ↦ (
      record {
        cap = cap;
        consumed = consumed;
        capped = ground arith;
        counted = ground arith;
        in_cap = ground arith;
        in_account = ground arith;
      },
      ground arith,
      ground arith,
    )
  ]
]

pub reserved-with_reservation :
    (k : String) (r : CapitalReservation) (b : MandateBudget) (s : String)
    → lookup k b.reservations ≡ none
    → reserved_for_symbol (with_reservation k r b) s ≡ reserved_for_symbol b s +ℤ amount_for s r
unfolding reserved_for_symbol
reserved-with_reservation k r b s h = sum-insert_new (amount_for s) k r b.reservations h

-- The cap of the reservation's own symbol has room by the grant, any other is untouched.
fits-with_reservation :
    (r : CapitalReservation) (b : MandateBudget) (s : String) (c : ℤ)
    → lookup s b.symbol_caps ≡ some c
    → Granted b r
    → (w : Within b s c) → w.consumed +ℤ (reserved_for_symbol b s +ℤ amount_for s r) ≤ℤ c
fits-with_reservation r b s c e g w = elim (Bool-cases (r.symbol == s)) [
  | inl same ↦
      let p : r.symbol ≡ s = (string_eq.beq_iff r.symbol s).0 same in
      let ec : g.cap ≡ c = cc (ap (λ t. lookup t b.symbol_caps) p) in
      let eu : g.consumed ≡ w.consumed = cc (ap (λ t. lookup t b.consumed_by_symbol) p) in
      rw (same, ← ec, ← eu, ← p) (omega int_laws)
  | inr other ↦ rw other (omega int_laws)
]

-- A granted reservation under a fresh id keeps the budget valid.
pub with_reservation-IsValid :
    (k : String) (r : CapitalReservation) (b : MandateBudget)
    → IsValid b
    → Granted b r
    → pos 1 ≤ℤ r.amount
    → lookup k b.reservations ≡ none
    → IsValid (with_reservation k r b)
with_reservation-IsValid k r b v g p fresh = record {
  within = within_reserved;
  reserved = λ j q e. ground (arith, lookup-insert k j r b.reservations, v.reserved j q, g.capped);
  account = rw (sum-insert_new amount_of k r b.reservations fresh) (omega int_laws);
  distinct = insert-Distinct k r b.reservations v.distinct;
}
  where
    within_reserved :
        (s : String) (c : ℤ) → lookup s b.symbol_caps ≡ some c → Within (with_reservation k r b) s c
    within_reserved s c e =
        let w = v.within s c e in
        record {
          consumed = w.consumed;
          known = w.known;
          nonneg = w.nonneg;
          fits = rw (reserved-with_reservation k r b s fresh) (fits-with_reservation r b s c e g w);
        }
