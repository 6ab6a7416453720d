-- ===== src/Capital.antt =====
-- src/danta/services/capital_allocator.py: cash budgets of mandates, reserved and consumed by entry
-- orders. Each method runs under one lock, so a call is one step. A method that raises has written
-- nothing: it returns the new allocator only on success.
pub mod Budget
pub mod Settle
pub mod Methods
pub mod Safety
pub mod Accounting
use danta.Common.{
  ℕ, String, Bool, true, false, ◌&&◌, ◌||◌, not, Option, none, some, List, [], ◌∷◌, map,
  if◌then◌else◌, eqb,
}
use danta.Common.Int.{ℤ, pos, ◌+ℤ◌, ◌-ℤ◌, ltb_ℤ, leb_ℤ, eqb_ℤ}
use danta.Common.Lists.{length, any}
use danta.Common.Eq.{string_eq, ◌==◌}
use danta.Common.Dict.{Dict, lookup, contains, insert, erase}
use danta.Common.Dict.Sums.{sum_values}
use danta.Common.Result.{Result, ok, err, value_error, key_error, ◌>>=◌, ◌>>◌, raise_if, or_raise}
use danta.Common.Decimal.{Decimals}

pub record CapitalReservation : Type 0 where
  pub reservation_id : String
  pub mandate_id : String
  pub symbol : String
  pub amount : ℤ

pub record MandateBudget : Type 0 where
  pub account_cash_snapshot : ℤ
  pub symbol_caps : Dict String ℤ
  pub reservations : Dict String CapitalReservation
  pub consumed_by_symbol : Dict String ℤ

-- `self._budgets`
abbrev pub Allocator : Type 0
Allocator = Dict String MandateBudget

-- `a == b` of two dicts: the order of the entries does not count.
unfoldable pub same_dict : Dict String ℤ → Dict String ℤ → Bool
same_dict a b =
    eqb (length a) (length b)
    && not (any (λ x. elim (lookup x.0 b) [ none ↦ true | some v ↦ not (eqb_ℤ x.1 v) ]) a)

-- `item.amount for item in … if item.symbol == symbol`, as the weight of an item in a sum
abbrev pub amount_for : String → CapitalReservation → ℤ
amount_for symbol item = if item.symbol == symbol then item.amount else pos 0

unfoldable pub reserved_for_symbol : MandateBudget → String → ℤ
reserved_for_symbol budget symbol = sum_values (amount_for symbol) budget.reservations

abbrev pub amount_of : CapitalReservation → ℤ
amount_of item = item.amount

abbrev pub itself : ℤ → ℤ
itself n = n

module _ (D : Decimals) where
  -- `sum(allocations.values(), Decimal("0"))`
  unfoldable pub allocation_total : D.Decimal → Dict String D.Decimal → D.Decimal
  allocation_total acc [] = acc
  allocation_total acc (x ∷ d) = allocation_total (D.add acc x.1) d

  -- `int(Decimal(orderable_cash) * allocation / Decimal("100"))`
  unfoldable pub cap_of : ℤ → D.Decimal → ℤ
  cap_of orderable_cash allocation =
      D.trunc (D.div (D.mul (D.of_int orderable_cash) allocation) (D.lit (pos 100) 0))

  unfoldable pub caps_of : ℤ → Dict String D.Decimal → Dict String ℤ
  caps_of orderable_cash [] = []
  caps_of orderable_cash (x ∷ d) = (x.0, cap_of orderable_cash x.1) ∷ caps_of orderable_cash d

abbrev pub new_budget : ℤ → Dict String ℤ → MandateBudget
new_budget orderable_cash caps = record {
  account_cash_snapshot = orderable_cash;
  symbol_caps = caps;
  reservations = [];
  consumed_by_symbol = map (λ x. (x.0, pos 0)) caps;
}

-- the part of `register_mandate` under the lock
unfoldable pub register_budget :
    String → ℤ → Dict String ℤ → Allocator → Result (Unit {0} × Allocator)
unfolding same_dict
register_budget mandate_id orderable_cash caps budgets = elim (lookup mandate_id budgets) [
  | some existing ↦ do
    raise_if
        (not (eqb_ℤ existing.account_cash_snapshot orderable_cash)
          || not (same_dict existing.symbol_caps caps))
        (value_error "mandate budget is already registered with different values")
    ok (tt, budgets)
  | none ↦ ok (tt, insert mandate_id (new_budget orderable_cash caps) budgets)
]

module _ (D : Decimals) where
  unfoldable pub register_mandate :
      String → ℤ → Dict String D.Decimal → Allocator → Result (Unit {0} × Allocator)
  unfolding register_budget caps_of allocation_total
  register_mandate mandate_id orderable_cash allocations budgets = do
    raise_if (mandate_id == "") (value_error "mandate_id is required")
    raise_if (leb_ℤ orderable_cash (pos 0)) (value_error "orderable_cash must be positive")
    raise_if (eqb (length allocations) 0) (value_error "allocations must not be empty")
    let total = allocation_total D (D.of_int (pos 0)) allocations
    raise_if (D.le total (D.of_int (pos 0)) || not (D.le total (D.lit (pos 100) 0)))
        (value_error "allocation total must be between 0 and 100")
    let caps = caps_of D orderable_cash allocations
    raise_if (any (λ x. leb_ℤ x.1 (pos 0)) caps)
        (value_error "every allocation must reserve positive cash")
    register_budget mandate_id orderable_cash caps budgets

unfoldable pub required_budget : String → Allocator → Result MandateBudget
required_budget mandate_id budgets =
    or_raise (lookup mandate_id budgets) (value_error "mandate budget is not registered")

-- the end of `reserve`: a new reservation, if it fits
unfoldable pub reserve_new :
    MandateBudget → String → String → ℤ → String → Result (CapitalReservation × MandateBudget)
unfolding reserved_for_symbol
reserve_new budget mandate_id symbol amount reservation_id = do
  cap ←
      or_raise (lookup symbol budget.symbol_caps)
        (value_error "symbol is outside mandate allocation")
  consumed ← or_raise (lookup symbol budget.consumed_by_symbol) (key_error symbol)
  let used = consumed +ℤ reserved_for_symbol budget symbol
  raise_if (ltb_ℤ cap (used +ℤ amount)) (value_error "reservation exceeds symbol allocation cap")
  let all_reserved = sum_values amount_of budget.reservations
  let all_consumed = sum_values itself budget.consumed_by_symbol
  raise_if (ltb_ℤ budget.account_cash_snapshot (all_reserved +ℤ all_consumed +ℤ amount))
      (value_error "reservation exceeds account cash snapshot")
  let reservation : CapitalReservation = record {
    reservation_id = reservation_id;
    mandate_id = mandate_id;
    symbol = symbol;
    amount = amount;
  }
  ok (
    reservation,
    record budget { reservations = insert reservation_id reservation budget.reservations },
  )

unfoldable pub reserve :
    String → String → ℤ → String → Allocator → Result (CapitalReservation × Allocator)
unfolding required_budget
reserve mandate_id symbol amount reservation_id budgets = do
  raise_if (leb_ℤ amount (pos 0)) (value_error "reservation amount must be positive")
  budget ← required_budget mandate_id budgets
  elim (lookup reservation_id budget.reservations) [
    | some existing ↦ do
      raise_if (not (existing.symbol == symbol) || not (eqb_ℤ existing.amount amount))
          (value_error "reservation id is already used with different values")
      ok (existing, budgets)
    | none ↦ do
      (reservation, budget') ← reserve_new budget mandate_id symbol amount reservation_id
      ok (reservation, insert mandate_id budget' budgets)
  ]

-- `_find_reservation`: the budget found is the object that the caller writes to, named here by its
-- key.
unfoldable pub find_reservation :
    String → Allocator → Option (String × MandateBudget × CapitalReservation)
find_reservation reservation_id [] = none
find_reservation reservation_id (x ∷ budgets) = elim (lookup reservation_id x.1.reservations) [
  | some reservation ↦ some (x.0, x.1, reservation)
  | none ↦ find_reservation reservation_id budgets
]

abbrev pub not_found : String
not_found = "capital reservation was not found"

-- `budget.consumed_by_symbol[symbol] += amount`
unfoldable pub add_consumed : MandateBudget → String → ℤ → Result MandateBudget
add_consumed budget symbol amount = do
  consumed ← or_raise (lookup symbol budget.consumed_by_symbol) (key_error symbol)
  ok (record budget {
    consumed_by_symbol = insert symbol (consumed +ℤ amount) budget.consumed_by_symbol;
  })

abbrev pub drop_reservation : String → MandateBudget → MandateBudget
drop_reservation reservation_id budget = record budget {
  reservations = erase reservation_id budget.reservations;
}

unfoldable pub consume : String → ℤ → Allocator → Result (Unit {0} × Allocator)
unfolding add_consumed
consume reservation_id amount budgets = do
  raise_if (ltb_ℤ amount (pos 0)) (value_error "consumed amount must not be negative")
  (mandate_id, budget, reservation) ←
      or_raise (find_reservation reservation_id budgets) (value_error not_found)
  raise_if (ltb_ℤ reservation.amount amount) (value_error "consumed amount exceeds reservation")
  budget' ← add_consumed budget reservation.symbol amount
  ok (tt, insert mandate_id (drop_reservation reservation_id budget') budgets)

-- the end of `consume_partial`: what is left of the reservation stays reserved
unfoldable pub keep_remaining : String → CapitalReservation → ℤ → MandateBudget → MandateBudget
keep_remaining reservation_id reservation remaining budget =
    if eqb_ℤ remaining (pos 0) then drop_reservation reservation_id budget else record budget {
      reservations =
          insert reservation_id (record reservation { amount = remaining }) budget.reservations;
    }

unfoldable pub consume_partial : String → ℤ → Allocator → Result (Unit {0} × Allocator)
unfolding add_consumed keep_remaining
consume_partial reservation_id amount budgets = do
  raise_if (leb_ℤ amount (pos 0)) (value_error "consumed amount must be positive")
  (mandate_id, budget, reservation) ←
      or_raise (find_reservation reservation_id budgets) (value_error not_found)
  raise_if (ltb_ℤ reservation.amount amount) (value_error "consumed amount exceeds reservation")
  budget' ← add_consumed budget reservation.symbol amount
  let remaining = reservation.amount -ℤ amount
  ok (tt, insert mandate_id (keep_remaining reservation_id reservation remaining budget') budgets)

unfoldable pub release : String → Allocator → Bool × Allocator
release reservation_id [] = (false, [])
release reservation_id (x ∷ budgets) =
    let (done, rest) = release reservation_id budgets in
    if contains reservation_id x.1.reservations
    then (true, (x.0, drop_reservation reservation_id x.1) ∷ budgets)
    else (done, x ∷ rest)

unfoldable pub available_for_symbol : String → String → Allocator → Result ℤ
unfolding required_budget reserved_for_symbol
available_for_symbol mandate_id symbol budgets = do
  budget ← required_budget mandate_id budgets
  cap ←
      or_raise (lookup symbol budget.symbol_caps)
        (value_error "symbol is outside mandate allocation")
  consumed ← or_raise (lookup symbol budget.consumed_by_symbol) (key_error symbol)
  ok (cap -ℤ consumed -ℤ reserved_for_symbol budget symbol)
