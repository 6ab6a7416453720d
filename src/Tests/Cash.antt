-- ===== src/Tests/Cash.antt =====
-- src/danta/services/capital_allocator.py at a mandate of half of a million won for one symbol.
use danta.Common.{String, true, ◌≡◌, subst, ◌≢◌, refl, none, some, List, [], ◌∷◌, arith}
use danta.Common.Int.{ℤ, pos, ◌-ℤ◌, ◌≤ℤ◌}
use danta.Common.Eq.{string_eq}
use danta.Common.Dict.{Dict, lookup}
use danta.Common.Result.{Exc, ok, err}
use danta.Common.Decimal.{Decimals}
use danta.Common.Decimal.FixedPoint.{fixed_point}
use danta.Capital.{
  CapitalReservation, MandateBudget, Allocator, reserve, find_reservation, consume, consume_partial,
  release, available_for_symbol,
}
use danta.Capital.Budget.{IsValid}
use danta.Capital.Methods.{AllValid}
use danta.Capital.Safety.{Call, run, run-AllValid, empty-AllValid, run-IsValid, consume-enough}
use danta.Capital.Accounting.{available-reserve, release-reserve}

abbrev registration : List (Call fixed_point)
registration = Call.register "m" (pos 1_000_000) (("A", fixed_point.lit (pos 50) 0) ∷ []) ∷ []

abbrev reservation : CapitalReservation
reservation = record { reservation_id = "r"; mandate_id = "m"; symbol = "A"; amount = pos 300_000 }

abbrev budget_of : Dict String CapitalReservation → ℤ → MandateBudget
budget_of reservations consumed = record {
  account_cash_snapshot = pos 1_000_000;
  symbol_caps = ("A", pos 500_000) ∷ [];
  reservations = reservations;
  consumed_by_symbol = ("A", consumed) ∷ [];
}

abbrev registered : Allocator
registered = ("m", budget_of [] (pos 0)) ∷ []

abbrev reserved : Allocator
reserved = ("m", budget_of (("r", reservation) ∷ []) (pos 0)) ∷ []

abbrev requests : List (Call fixed_point)
requests =
    Call.register "m" (pos 1_000_000) (("A", fixed_point.lit (pos 50) 0) ∷ [])
    ∷ Call.reserve_call "m" "A" (pos 300_000) "r"
    ∷ []

registered_run : run fixed_point [] requests ≡ reserved
unfolding run danta.Capital.Safety.call reserve danta.Common.Dict.lookup
    danta.Capital.register_mandate danta.Common.Int.◌+ℤ◌ danta.Common.Decimal.FixedPoint.fp_of_int
    danta.Common.Int.◌*ℤ◌ danta.Common.Decimal.FixedPoint.fp_lit danta.Common.Int.floor_div
    danta.Capital.cap_of danta.Common.Decimal.FixedPoint.fp_trunc
    danta.Common.Decimal.FixedPoint.fp_div danta.Common.Decimal.FixedPoint.fp_mul
    danta.Common.Dict.insert danta.Capital.reserve_new danta.Common.Dict.Sums.sum_values
registered_run = refl

found_budget :
    lookup "m" (run fixed_point [] requests) ≡ some (budget_of (("r", reservation) ∷ []) (pos 0))
unfolding danta.Common.Dict.lookup
found_budget = rw registered_run refl

run-IsValid_example : IsValid (budget_of (("r", reservation) ∷ []) (pos 0))
run-IsValid_example =
    run-IsValid fixed_point requests "m" (budget_of (("r", reservation) ∷ []) (pos 0)) found_budget

reserved-AllValid : AllValid reserved
reserved-AllValid =
    subst AllValid registered_run (run-AllValid fixed_point [] requests empty-AllValid)

consume-enough_example :
    (consume "r" (pos 100_000) reserved ≢ err (Exc.value_error ""))
    × (consume_partial "r" (pos 100_000) reserved ≢ err (Exc.value_error ""))
unfolding find_reservation danta.Common.Dict.lookup
consume-enough_example =
    consume-enough "r" (pos 100_000) reserved "m" (budget_of (("r", reservation) ∷ []) (pos 0))
      reservation reserved-AllValid refl (omega arith) (omega arith) (Exc.value_error "")

available-reserve_example : available_for_symbol "m" "A" reserved ≡ ok (pos 500_000 -ℤ pos 300_000)
unfolding find_reservation danta.Common.Dict.lookup available_for_symbol ◌-ℤ◌
    danta.Common.Dict.Sums.sum_values reserve danta.Capital.reserve_new danta.Common.Int.◌+ℤ◌
    danta.Common.Dict.insert
available-reserve_example =
    available-reserve "m" "A" (pos 300_000) "r" reservation registered reserved (pos 500_000) refl
      refl refl

release-reserve_example : release "r" reserved ≡ (true, registered)
unfolding find_reservation danta.Common.Dict.lookup reserve danta.Capital.reserve_new
    danta.Common.Int.◌+ℤ◌ danta.Common.Dict.Sums.sum_values danta.Common.Dict.insert
release-reserve_example =
    release-reserve "m" "A" (pos 300_000) "r" reservation registered reserved refl refl
