-- ===== src/Capital/Methods.antt =====
-- Each method of the allocator keeps every budget valid.
use danta.Common.{
  String, ◌≡◌, refl, subst, false, inl, inr, Option, none, some, [], ◌∷◌, arith, Bool-cases,
  Option-cases,
}
use danta.Common.Int.{
  ℤ, pos, ◌+ℤ◌, ◌-ℤ◌, ◌≤ℤ◌, leb_ℤ, eqb_ℤ, int_laws, parts_of_eq, leb_ℤ_false→lt, eqb_ℤ_false→ne,
  eqb_ℤ→eq, +ℤ_zero,
}
use danta.Common.Lists.{any}
use danta.Common.Eq.{string_eq, ◌==◌}
use danta.Common.Dict.{
  Dict, lookup, insert, erase, Distinct, insert-Distinct, erase-Distinct, lookup-insert,
  lookup-erase-some,
}
use danta.Common.Dict.Sums.{sum-erase}
use danta.Common.Result.{ok, Result-cases}
use danta.Common.Decimal.{Decimals}
use danta.Capital.{
  CapitalReservation, MandateBudget, Allocator, register_budget, register_mandate, reserve_new,
  reserve, find_reservation, drop_reservation, keep_remaining, consume, consume_partial, release,
  caps_of, new_budget, amount_of, amount_for, reserved_for_symbol,
}
use danta.Capital.Budget.{
  IsValid, new_budget-IsValid, reserve_new-Granted, with_reservation, with_reservation-IsValid,
}
use danta.Capital.Settle.{Replaced, Replaced-erase, Replaced-insert, settled, settled-IsValid}

pub record AllValid (s : Allocator) : Type 0 where
  pub each : (m : String) (b : MandateBudget) → lookup m s ≡ some b → IsValid b
  pub distinct : Distinct s

pub insert-AllValid :
    (m : String) (b : MandateBudget) (s : Allocator)
    → AllValid s
    → IsValid b
    → AllValid (insert m b s)
insert-AllValid m b s v h = record {
  each = each_after;
  distinct = insert-Distinct m b s v.distinct;
}
  where
    each_after : (j : String) (c : MandateBudget) → lookup j (insert m b s) ≡ some c → IsValid c
    each_after j c e = elim (Bool-cases (m == j)) [
      | inl same ↦ let p : b ≡ c = ground (arith, lookup-insert m j b s) in subst IsValid p h
      | inr other ↦ v.each j c (ground (arith, lookup-insert m j b s))
    ]

positive_caps :
    (caps : Dict String ℤ) (s : String) (c : ℤ)
    → any (λ x. leb_ℤ x.1 (pos 0)) caps ≡ false
    → lookup s caps ≡ some c
    → pos 0 ≤ℤ c
unfolding lookup
positive_caps [] s c h e = absurd (ground arith)
positive_caps (x ∷ caps) s c h e = ground (arith, positive_caps caps s c)

register_budget-AllValid :
    (m : String) (cash : ℤ) (caps : Dict String ℤ) (s s' : Allocator)
    → pos 0 ≤ℤ cash
    → any (λ x. leb_ℤ x.1 (pos 0)) caps ≡ false
    → AllValid s
    → register_budget m cash caps s ≡ ok (tt, s')
    → AllValid s'
unfolding register_budget
register_budget-AllValid m cash caps s s' h pc v e = elim (Option-cases (lookup m s)) [
  | inl fresh ↦
      let p : insert m (new_budget cash caps) s ≡ s' = ground arith in
      subst AllValid p (
        insert-AllValid m (new_budget cash caps) s v
          (new_budget-IsValid cash caps h (λ t c q. positive_caps caps t c pc q)))
  | inr (b, found) ↦ let p : s ≡ s' = ground arith in subst AllValid p v
]

-- The budget that is found stands in the allocator under the key that is returned with it.
pub find_reservation_lem :
    (k m : String) (b : MandateBudget) (r : CapitalReservation) (s : Allocator)
    → Distinct s
    → find_reservation k s ≡ some (m, b, r)
    → (lookup m s ≡ some b) × (lookup k b.reservations ≡ some r)
unfolding find_reservation lookup
find_reservation_lem k m b r [] d e = absurd (ground arith)
find_reservation_lem k m b r (x ∷ s) d e =
    ground (arith, find_reservation_lem k m b r s d.1, string_eq.beq_iff x.0 m)

pub register_mandate-AllValid :
    (D : Decimals) (m : String) (cash : ℤ) (allocations : Dict String D.Decimal) (s s' : Allocator)
    → AllValid s
    → register_mandate D m cash allocations s ≡ ok (tt, s')
    → AllValid s'
unfolding register_mandate
register_mandate-AllValid D m cash allocations s s' v e =
    let positive : leb_ℤ cash (pos 0) ≡ false = ground arith in
    let caps_pos : any (λ x. leb_ℤ x.1 (pos 0)) (caps_of D cash allocations) ≡ false =
      ground arith in
    register_budget-AllValid m cash (caps_of D cash allocations) s s'
      (omega (arith, leb_ℤ_false→lt cash (pos 0) positive)) caps_pos v (ground arith)

pub reserve-AllValid :
    (m t : String) (amount : ℤ) (k : String) (r : CapitalReservation) (s s' : Allocator)
    → AllValid s
    → reserve m t amount k s ≡ ok (r, s')
    → AllValid s'
unfolding reserve
reserve-AllValid m t amount k r s s' v e = elim (Option-cases (lookup m s)) [
  | inl missing ↦ absurd (ground arith)
  | inr (b, found) ↦ elim (Option-cases (lookup k b.reservations)) [
    | inr (existing, known) ↦ let p : s ≡ s' = ground arith in subst AllValid p v
    | inl fresh ↦ elim (Result-cases (reserve_new b m t amount k)) [
      | inl (x, refused) ↦ absurd (ground arith)
      | inr ((q, b'), granted) ↦
          let (g, eb, eq) = reserve_new-Granted b m t amount k q b' granted in
          let positive : pos 1 ≤ℤ q.amount = ground arith in
          let p : insert m (with_reservation k q b) s ≡ s' = ground arith in
          subst AllValid p (
            insert-AllValid m (with_reservation k q b) s v
              (with_reservation-IsValid k q b (v.each m b found) g positive fresh))
    ]
  ]
]

pub consume-AllValid :
    (k : String) (amount : ℤ) (s s' : Allocator)
    → AllValid s
    → consume k amount s ≡ ok (tt, s')
    → AllValid s'
unfolding consume
consume-AllValid k amount s s' v e = elim (Option-cases (find_reservation k s)) [
  | inl missing ↦ absurd (ground arith)
  | inr ((m, b, r), at) ↦
      let (store, held) = find_reservation_lem k m b r s v.distinct at in
      elim (Option-cases (lookup r.symbol b.consumed_by_symbol)) [
        | inl unknown ↦ absurd (ground arith)
        | inr (u, counted) ↦
            let after : Dict String CapitalReservation = erase k b.reservations in
            let bv = v.each m b store in
            let nonneg : pos 0 ≤ℤ amount = ground arith in
            let le : amount +ℤ pos 0 ≤ℤ r.amount = rw +ℤ_zero (ground arith) in
            let p : insert m (settled b r (u +ℤ amount) after) s ≡ s' = ground arith in
            subst AllValid p (
              insert-AllValid m _ s v (
                settled-IsValid b bv r k u amount (pos 0) after held counted nonneg le
                  (Replaced-erase b bv r k held)))
      ]
]

-- the budget between the two writes of `consume_partial`
abbrev pub with_consumed : MandateBudget → CapitalReservation → ℤ → MandateBudget
with_consumed b r total = record b {
  consumed_by_symbol = insert r.symbol total b.consumed_by_symbol;
}

-- What is left over stays reserved: `keep_remaining` is a settlement with that rest.
pub keep_remaining-settled :
    (k : String) (amount u : ℤ) (b : MandateBudget) (r : CapitalReservation)
    → IsValid b
    → lookup k b.reservations ≡ some r
    → amount ≤ℤ r.amount
    → (after : Dict String CapitalReservation) × (keep_remaining k r
          (r.amount -ℤ amount)
          (with_consumed b r (u +ℤ amount))
        ≡ settled b r (u +ℤ amount) after)
      × Replaced b r (r.amount -ℤ amount) after
unfolding keep_remaining
keep_remaining-settled k amount u b r v held le =
    elim (Bool-cases (eqb_ℤ (r.amount -ℤ amount) (pos 0))) [
      | inl spent ↦ (
        erase k b.reservations,
        rw spent,
        rw (eqb_ℤ→eq (r.amount -ℤ amount) (pos 0) spent) (Replaced-erase b v r k held),
      )
      | inr left ↦ (
        insert k (record r { amount = r.amount -ℤ amount }) b.reservations,
        rw left,
        Replaced-insert b v r k (r.amount -ℤ amount) held (positive_rest left),
      )
    ]
  where
    positive_rest : eqb_ℤ (r.amount -ℤ amount) (pos 0) ≡ false → pos 1 ≤ℤ r.amount -ℤ amount
    positive_rest left = omega (int_laws, eqb_ℤ_false→ne (r.amount -ℤ amount) (pos 0) left)

keep_remaining-IsValid :
    (k : String) (amount u : ℤ) (b : MandateBudget) (r : CapitalReservation)
    → IsValid b
    → lookup k b.reservations ≡ some r
    → lookup r.symbol b.consumed_by_symbol ≡ some u
    → pos 0 ≤ℤ amount
    → amount ≤ℤ r.amount
    → IsValid (keep_remaining k r (r.amount -ℤ amount) (with_consumed b r (u +ℤ amount)))
keep_remaining-IsValid k amount u b r v held counted nonneg le =
    let (after, e, q) = keep_remaining-settled k amount u b r v held le in
    rw e (
      settled-IsValid b v r k u amount (r.amount -ℤ amount) after held counted nonneg
        (omega int_laws) q)

pub consume_partial-AllValid :
    (k : String) (amount : ℤ) (s s' : Allocator)
    → AllValid s
    → consume_partial k amount s ≡ ok (tt, s')
    → AllValid s'
unfolding consume_partial
consume_partial-AllValid k amount s s' v e = elim (Option-cases (find_reservation k s)) [
  | inl missing ↦ absurd (ground arith)
  | inr ((m, b, r), at) ↦
      let (store, held) = find_reservation_lem k m b r s v.distinct at in
      elim (Option-cases (lookup r.symbol b.consumed_by_symbol)) [
        | inl unknown ↦ absurd (ground arith)
        | inr (u, counted) ↦
            let nonneg : pos 0 ≤ℤ amount = ground arith in
            let le : amount ≤ℤ r.amount = ground arith in
            let after : MandateBudget =
              keep_remaining k r (r.amount -ℤ amount) (with_consumed b r (u +ℤ amount)) in
            let p : insert m after s ≡ s' = ground arith in
            subst AllValid p (
              insert-AllValid m after s v
                (keep_remaining-IsValid k amount u b r (v.each m b store) held counted nonneg le))
      ]
]

amount_for-nonneg :
    (t : String) (r : CapitalReservation) → pos 1 ≤ℤ r.amount → pos 0 ≤ℤ amount_for t r
amount_for-nonneg t r h = elim (Bool-cases (r.symbol == t)) [
  | inl same ↦ rw same (omega arith)
  | inr other ↦ rw other (omega arith)
]

pub drop_reservation-IsValid :
    (k : String) (b : MandateBudget) (r : CapitalReservation)
    → IsValid b
    → lookup k b.reservations ≡ some r
    → IsValid (drop_reservation k b)
unfolding reserved_for_symbol
drop_reservation-IsValid k b r v held =
    let positive = (v.reserved k r held).positive in
    record {
      within = λ t c e.
          let w = v.within t c e in
          record {
            consumed = w.consumed;
            known = w.known;
            nonneg = w.nonneg;
            fits = omega (
              int_laws,
              w.fits,
              amount_for-nonneg t r positive,
              parts_of_eq (sum-erase (amount_for t) k r b.reservations held),
            );
          };
      reserved = λ j q e.
          let x = v.reserved j q (lookup-erase-some k j q b.reservations v.distinct e) in
          record { positive = x.positive; capped = x.capped };
      account =
          omega (int_laws, positive, parts_of_eq (sum-erase amount_of k r b.reservations held));
      distinct = erase-Distinct k b.reservations v.distinct;
    }

abbrev pub dropped :
    String → Option (String × MandateBudget × CapitalReservation) → Allocator → Allocator
dropped k none s = s
dropped k (some (m, b, r)) s = insert m (drop_reservation k b) s

-- `release` drops the reservation that `_find_reservation` finds.
pub release-dropped :
    (k : String) (s : Allocator) → Distinct s → (release k s).1 ≡ dropped k (find_reservation k s) s
unfolding release find_reservation insert
release-dropped k [] d = refl
release-dropped k (x ∷ s) d = elim (Option-cases (lookup k x.1.reservations)) [
  | inr (r, held) ↦ ground (arith, string_eq.beq_iff x.0 x.0)
  | inl absent ↦ elim (Option-cases (find_reservation k s)) [
    | inl missing ↦ ground (arith, release-dropped k s d.1)
    | inr ((m, b, r), at) ↦ ground (
      arith,
      release-dropped k s d.1,
      find_reservation_lem k m b r s d.1 at,
      string_eq.beq_iff x.0 m,
    )
  ]
]

pub release-AllValid : (k : String) (s : Allocator) → AllValid s → AllValid (release k s).1
release-AllValid k s v =
    rw (release-dropped k s v.distinct) (elim (Option-cases (find_reservation k s)) [
      | inl missing ↦ rw missing v
      | inr ((m, b, r), at) ↦
          let (store, held) = find_reservation_lem k m b r s v.distinct at in
          rw at (
            insert-AllValid m (drop_reservation k b) s v
              (drop_reservation-IsValid k b r (v.each m b store) held))
    ])
