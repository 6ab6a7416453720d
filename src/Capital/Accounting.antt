-- ===== src/Capital/Accounting.antt =====
-- What the methods do to the cash that is still available to a symbol.
use danta.Common.{
  String, ◌≡◌, refl, sym, ap, subst, ◌∙◌, Bool, true, false, inl, inr, none, some, [], ◌∷◌, arith,
  if◌then◌else◌, Bool-cases, Option-cases,
}
use danta.Common.Int.{ℤ, pos, ◌+ℤ◌, ◌-ℤ◌, ◌≤ℤ◌, leb_ℤ, int_laws, parts_of_eq}
use danta.Common.Eq.{string_eq, ◌==◌}
use danta.Common.Dict.{Dict, lookup, insert, lookup-insert, lookup-insert_self, erase-insert}
use danta.Common.Result.{Result, ok, value_error, key_error, ◌>>=◌, or_raise, Result-cases}
use danta.Capital.{
  CapitalReservation, MandateBudget, Allocator, reserved_for_symbol, amount_for, required_budget,
  reserve_new, reserve, find_reservation, drop_reservation, keep_remaining, consume_partial,
  release, available_for_symbol,
}
use danta.Capital.Budget.{IsValid, reserve_new-Granted, with_reservation, reserved-with_reservation}
use danta.Capital.Settle.{amount_if, counted-settled, Replaced, settled}
use danta.Capital.Methods.{AllValid, find_reservation_lem, with_consumed, keep_remaining-settled}

-- what is left of a symbol's cap in one budget
abbrev available_in : MandateBudget → String → Result ℤ
available_in b t = do
  cap ← or_raise (lookup t b.symbol_caps) (value_error "symbol is outside mandate allocation")
  consumed ← or_raise (lookup t b.consumed_by_symbol) (key_error t)
  ok (cap -ℤ consumed -ℤ reserved_for_symbol b t)

available-of :
    (m t : String) (b : MandateBudget) (s : Allocator)
    → lookup m s ≡ some b
    → available_for_symbol m t s ≡ available_in b t
unfolding available_for_symbol
available-of m t b s h = rw (h, required_budget)

available-insert :
    (m j t : String) (b : MandateBudget) (s : Allocator)
    → available_for_symbol j t (insert m b s)
      ≡ (if m == j then available_in b t else available_for_symbol j t s)
unfolding available_for_symbol required_budget
available-insert m j t b s =
    rw lookup-insert (elim (Bool-cases (m == j)) [ inl same ↦ rw same | inr other ↦ rw other ])

-- no budget holds a reservation that is not found
pub find-none :
    (k m : String) (b : MandateBudget) (s : Allocator)
    → find_reservation k s ≡ none
    → lookup m s ≡ some b
    → lookup k b.reservations ≡ none
unfolding find_reservation lookup
find-none k m b [] h e = absurd (ground arith)
find-none k m b (x ∷ s) h e = elim (Option-cases (lookup k x.1.reservations)) [
  | inr (r, held) ↦ absurd (ground arith)
  | inl absent ↦ ground (arith, find-none k m b s)
]

-- Of the same cap, `d` more is consumed or reserved: `d` less is available.
available-shift :
    (b b' : MandateBudget) (t : String) (a u u' d : ℤ)
    → lookup t b'.symbol_caps ≡ lookup t b.symbol_caps
    → lookup t b.consumed_by_symbol ≡ some u
    → lookup t b'.consumed_by_symbol ≡ some u'
    → u' +ℤ reserved_for_symbol b' t ≡ u +ℤ reserved_for_symbol b t +ℤ d
    → available_in b t ≡ ok a
    → available_in b' t ≡ ok (a -ℤ d)
available-shift b b' t a u u' d caps counted counted' moved h =
    elim (Option-cases (lookup t b.symbol_caps)) [
      | inl uncapped ↦ absurd (ground arith)
      | inr (c, capped) ↦
          let ea : c -ℤ u -ℤ reserved_for_symbol b t ≡ a = ground arith in
          rw (caps, capped, counted') (ap ok (rw (← ea) (omega (int_laws, parts_of_eq moved))))
    ]

counted_of_available :
    (b : MandateBudget) (t : String) (a : ℤ)
    → available_in b t ≡ ok a
    → (u : ℤ) × (lookup t b.consumed_by_symbol ≡ some u)
counted_of_available b t a h = elim (Option-cases (lookup t b.symbol_caps)) [
  | inl uncapped ↦ absurd (ground arith)
  | inr (c, capped) ↦ elim (Option-cases (lookup t b.consumed_by_symbol)) [
    | inl unknown ↦ absurd (ground arith)
    | inr (u, counted) ↦ (u, counted)
  ]
]

amount_for_self : (r : CapitalReservation) (t : String) → r.symbol ≡ t → amount_for t r ≡ r.amount
amount_for_self r t e = rw ((string_eq.beq_iff r.symbol t).1 e)

available-with_reservation :
    (k t : String) (r : CapitalReservation) (b : MandateBudget) (a : ℤ)
    → lookup k b.reservations ≡ none
    → r.symbol ≡ t
    → available_in b t ≡ ok a
    → available_in (with_reservation k r b) t ≡ ok (a -ℤ r.amount)
available-with_reservation k t r b a fresh e h =
    let (u, counted) = counted_of_available b t a h in
    available-shift b (with_reservation k r b) t a u u r.amount refl counted counted
      (rw (reserved-with_reservation k r b t fresh, amount_for_self r t e) (omega int_laws)) h

reserve-inserts :
    (m t : String) (amount : ℤ) (k : String) (r : CapitalReservation) (s s' : Allocator)
    → find_reservation k s ≡ none
    → reserve m t amount k s ≡ ok (r, s')
    → (b : MandateBudget) × (lookup m s ≡ some b)
      × (lookup k b.reservations ≡ none)
      × (s' ≡ insert m (with_reservation k r b) s)
      × (r.symbol ≡ t)
      × (r.amount ≡ amount)
unfolding reserve required_budget
reserve-inserts m t amount k r s s' fresh e = elim (Option-cases (lookup m s)) [
  | inl missing ↦ absurd (ground arith)
  | inr (b, found) ↦
      let absent = find-none k m b s fresh found in
      elim (Result-cases (reserve_new b m t amount k)) [
        | inl (x, refused) ↦ absurd (ground arith)
        | inr ((q, b'), granted) ↦
            let (g, eb, eq) = reserve_new-Granted b m t amount k q b' granted in
            (b, found, absent, ground arith, ground arith, ground arith)
      ]
]

-- A new reservation takes its amount from what is available to its symbol.
pub available-reserve :
    (m t : String) (amount : ℤ) (k : String) (r : CapitalReservation) (s s' : Allocator) (a : ℤ)
    → find_reservation k s ≡ none
    → available_for_symbol m t s ≡ ok a
    → reserve m t amount k s ≡ ok (r, s')
    → available_for_symbol m t s' ≡ ok (a -ℤ amount)
available-reserve m t amount k r s s' a fresh h e =
    let (b, found, absent, es, et, ea) = reserve-inserts m t amount k r s s' fresh e in
    rw (es, available-insert, (string_eq.beq_iff m m).1 refl, ← ea)
      (available-with_reservation k t r b a absent et (sym (available-of m t b s found) ∙ h))

drop-with_reservation :
    (k : String) (r : CapitalReservation) (b : MandateBudget)
    → lookup k b.reservations ≡ none
    → (drop_reservation k (with_reservation k r b) ≡ b)
      × (lookup k (with_reservation k r b).reservations ≡ some r)
drop-with_reservation k r b h =
    (rw (erase-insert k r b.reservations h), lookup-insert_self k r b.reservations)

release-insert :
    (k m : String) (b b' : MandateBudget) (r : CapitalReservation) (s : Allocator)
    → lookup m s ≡ some b
    → find_reservation k s ≡ none
    → lookup k b'.reservations ≡ some r
    → drop_reservation k b' ≡ b
    → release k (insert m b' s) ≡ (true, s)
unfolding release insert lookup find_reservation
release-insert k m b b' r [] h fresh held back = absurd (ground arith)
release-insert k m b b' r (x ∷ s) h fresh held back =
    elim (Option-cases (lookup k x.1.reservations)) [
      | inr (q, other) ↦ absurd (ground arith)
      | inl absent ↦ elim (Bool-cases (x.0 == m)) [
        | inl here ↦ ground (arith, string_eq.beq_iff x.0 m)
        | inr there ↦ ground (arith, release-insert k m b b' r s)
      ]
    ]

-- Reserving under an id that is not in use and releasing it again finds the reservation and
-- restores the whole allocator.
pub release-reserve :
    (m t : String) (amount : ℤ) (k : String) (r : CapitalReservation) (s s' : Allocator)
    → find_reservation k s ≡ none
    → reserve m t amount k s ≡ ok (r, s')
    → release k s' ≡ (true, s)
release-reserve m t amount k r s s' fresh e =
    let (b, found, absent, es, _, _) = reserve-inserts m t amount k r s s' fresh e in
    let (back, held) = drop-with_reservation k r b absent in
    rw es (release-insert k m b (with_reservation k r b) r s found fresh held back)

reserve_positive :
    (m t : String) (amount : ℤ) (k : String) (r : CapitalReservation) (s s' : Allocator)
    → reserve m t amount k s ≡ ok (r, s')
    → leb_ℤ amount (pos 0) ≡ false
unfolding reserve
reserve_positive m t amount k r s s' e = ground arith

-- A repeated request returns the same reservation and changes nothing.
reserve_again :
    (m t : String) (amount : ℤ) (k : String) (r : CapitalReservation) (s s' : Allocator)
    → find_reservation k s ≡ none
    → reserve m t amount k s ≡ ok (r, s')
    → reserve m t amount k s' ≡ ok (r, s')
reserve_again m t amount k r s s' fresh e =
    let (b, found, absent, es, et, ea) = reserve-inserts m t amount k r s s' fresh e in
    let positive : leb_ℤ amount (pos 0) ≡ false = reserve_positive m t amount k r s s' e in
    rw es (
      unfold reserve required_budget in
      ground (
        arith,
        lookup-insert_self m (with_reservation k r b) s,
        lookup-insert_self k r b.reservations,
        string_eq.beq_iff r.symbol t,
      ))

moved_of_settlement :
    (same : Bool) (w amount rest whole before after : ℤ)
    → after +ℤ (if same then whole else pos 0) ≡ before +ℤ (if same then rest else pos 0)
    → w +ℤ amount_if same amount +ℤ after
      ≡ w +ℤ before +ℤ (if same then amount +ℤ rest -ℤ whole else pos 0)
moved_of_settlement true w amount rest whole before after e = omega (int_laws, parts_of_eq e)
moved_of_settlement false w amount rest whole before after e = omega (int_laws, parts_of_eq e)

available-settled :
    (t : String) (b : MandateBudget) (r : CapitalReservation) (u amount rest a : ℤ)
    (after : Dict String CapitalReservation)
    → Replaced b r rest after
    → lookup r.symbol b.consumed_by_symbol ≡ some u
    → available_in b t ≡ ok a
    → available_in (settled b r (u +ℤ amount) after) t
      ≡ ok (a -ℤ (if r.symbol == t then amount +ℤ rest -ℤ r.amount else pos 0))
available-settled t b r u amount rest a after q counted h =
    let (w, known) = counted_of_available b t a h in
    available-shift b (settled b r (u +ℤ amount) after) t a w
      (w +ℤ amount_if (r.symbol == t) amount) _ refl known
      (rw lookup-insert (counted-settled b r t u amount w counted known))
      (unfold reserved_for_symbol in
        moved_of_settlement (r.symbol == t) w amount rest r.amount _ _ (q.per_symbol t))
      h

available-keep_remaining :
    (k t : String) (b : MandateBudget) (r : CapitalReservation) (u amount a : ℤ)
    → IsValid b
    → lookup k b.reservations ≡ some r
    → lookup r.symbol b.consumed_by_symbol ≡ some u
    → amount ≤ℤ r.amount
    → available_in b t ≡ ok a
    → available_in (keep_remaining k r (r.amount -ℤ amount) (with_consumed b r (u +ℤ amount))) t
      ≡ ok a
available-keep_remaining k t b r u amount a v held counted le h =
    let (after, e, q) = keep_remaining-settled k amount u b r v held le in
    subst (λ x. available_in x t ≡ ok a) (sym e)
      (available-settled t b r u amount (r.amount -ℤ amount) a after q counted h
        ∙ ap ok (spent_all (r.symbol == t)))
  where
    spent_all :
        (same : Bool)
        → a -ℤ (if same then amount +ℤ (r.amount -ℤ amount) -ℤ r.amount else pos 0) ≡ a
    spent_all true = omega int_laws
    spent_all false = omega int_laws

-- A partial consumption moves cash from reserved to consumed: no symbol of any mandate has more or
-- less available after it.
available-consume_partial :
    (k : String) (amount : ℤ) (s s' : Allocator) (m t : String) (a : ℤ)
    → AllValid s
    → available_for_symbol m t s ≡ ok a
    → consume_partial k amount s ≡ ok (tt, s')
    → available_for_symbol m t s' ≡ ok a
unfolding consume_partial
available-consume_partial k amount s s' m t a v h e = elim (Option-cases (find_reservation k s)) [
  | inl missing ↦ absurd (ground arith)
  | inr ((j, b, r), at) ↦
      let (store, held) = find_reservation_lem k j b r s v.distinct at in
      elim (Option-cases (lookup r.symbol b.consumed_by_symbol)) [
        | inl unknown ↦ absurd (ground arith)
        | inr (u, counted) ↦
            let le : amount ≤ℤ r.amount = ground arith in
            let after : MandateBudget =
              keep_remaining k r (r.amount -ℤ amount) (with_consumed b r (u +ℤ amount)) in
            let p : s' ≡ insert j after s = ground arith in
            rw (p, available-insert)
              (elim (Bool-cases (j == m)) [
                | inl same ↦ rw same (
                    available-keep_remaining k t b r u amount a (v.each j b store) held counted le (
                      sym (available-of m t b s (rw (← (string_eq.beq_iff j m).0 same) store)) ∙ h))
                | inr other ↦ rw other h
              ])
      ]
]
