-- ===== src/Mandate.antt =====
-- src/danta/domain/mandate.py: the validated mandate of a user and the buys that it plans. The
-- constraints of single fields are pydantic's, and so are not functions here; `json`, `hashlib` and
-- `yaml` stand behind the parameter `command_id`.
pub mod Consistent
pub mod Plans
use Prim.Native.String.{◌++◌}
use danta.Common.{
  ℕ, zero, suc, String, Bool, true, false, not, ◌&&◌, ◌||◌, Option, none, some, List, [], ◌∷◌, eqb,
  if◌then◌else◌,
}
use danta.Common.Int.{ℤ, pos, negsuc, ◌-ℤ◌, leb_ℤ, eqb_ℤ, floor_div}
use danta.Common.Lists.{length}
use danta.Common.Eq.{string_eq, member, add_member}
use danta.Common.Time.{Datetime}
use danta.Common.Result.{Result, ok, err, value_error, zero_division, ◌>>=◌, ◌>>◌, raise_if}
use danta.Common.Decimal.{Decimals}
use danta.Capital.{cap_of}

pub record EntrySelection (D : Decimals) : Type 0 where
  pub rank : ℤ
  pub symbol : String
  pub name : String
  pub entry_target_price_krw : ℤ
  pub entry_price_source : String
  pub allocation_pct : D.Decimal
  pub selection_basis : String
  pub ai_grade : Option String
  pub box_low : D.Decimal
  pub box_high : D.Decimal

-- The fields with one admissible value are left out: they carry no information.
pub record EntryMandate (D : Decimals) : Type 0 where
  pub report_data_as_of : Datetime
  pub window_days : ℤ
  pub total_allocation_pct : D.Decimal
  pub unallocated_cash_pct : D.Decimal
  pub selected_symbol_count : ℤ
  pub hard_stop_pct : D.Decimal
  pub selections : List (EntrySelection D)
  pub request : String

pub record PlannedEntry (D : Decimals) : Type 0 where
  pub symbol : String
  pub target_price : ℤ
  pub allocation_pct : D.Decimal
  pub allocated_cash : ℤ
  pub quantity : ℤ
  pub idempotency_key : String

-- `a // b` of two integers
unfoldable pub int_div : ℤ → ℤ → Result ℤ
int_div a (pos zero) = err (zero_division "integer division or modulo by zero")
int_div a (pos (suc n)) = ok (floor_div a (suc n))
int_div a (negsuc n) = ok (floor_div (pos 0 -ℤ a) (suc n))

-- `"; ".join(errors)`
unfoldable pub joined : List String → String
joined [] = ""
joined (e ∷ []) = e
joined (e ∷ es) = e ++ "; " ++ joined es

-- `if bad: errors.append(message)`, before the rest of the tests
abbrev pub append_if : Bool → String → List String → List String
append_if bad message rest = if bad then message ∷ rest else rest

-- the end of a validator: `if errors: raise ValueError("; ".join(errors))`
unfoldable pub raise_all {ℓ} : {A : Type ℓ} → List String → A → Result A
raise_all [] value = ok value
raise_all (e ∷ es) value = err (value_error (joined (e ∷ es)))

-- `set(symbols)`
unfoldable pub as_set : List String → List String
as_set [] = []
as_set (x ∷ xs) = add_member x (as_set xs)

module _ (D : Decimals) where
  -- `a == b`
  unfoldable pub eq_dec : D.Decimal → D.Decimal → Bool
  eq_dec a b = D.le a b && D.le b a

  -- `quantize d` is `d.quantize(Decimal("0.1"))`.
  unfoldable pub validate_box :
      (D.Decimal → D.Decimal) → EntrySelection D → Result (EntrySelection D)
  unfolding eq_dec
  validate_box quantize s = do
    raise_if (D.le s.box_high s.box_low) (value_error "box_high must be greater than box_low")
    raise_if (not (eq_dec s.allocation_pct (quantize s.allocation_pct)))
        (value_error "allocation_pct must have at most one decimal place")
    ok s

  unfoldable pub symbols_of : List (EntrySelection D) → List String
  symbols_of [] = []
  symbols_of (s ∷ selections) = s.symbol ∷ symbols_of selections

  -- `sum((selection.allocation_pct for selection in …), Decimal("0"))`
  unfoldable pub total_of : D.Decimal → List (EntrySelection D) → D.Decimal
  total_of acc [] = acc
  total_of acc (s ∷ selections) = total_of (D.add acc s.allocation_pct) selections

  unfoldable pub mandate_errors : EntryMandate D → List String
  unfolding eq_dec
  mandate_errors m =
      let symbols = symbols_of m.selections in
      let calculated_total = total_of (D.of_int (pos 0)) m.selections in
      append_if (not m.report_data_as_of.is_aware) "report_data_as_of must include a timezone" (
        append_if (not (eq_dec m.hard_stop_pct (D.lit (negsuc 69) 1)))
          "hard_stop_pct must be exactly -7.0"
          (append_if (not (eqb_ℤ (pos (length m.selections)) m.selected_symbol_count))
            "selected_symbol_count does not match selections"
            (append_if (not (eqb (length symbols) (length (as_set symbols))))
              "selection symbols must be unique"
              (append_if (not (eq_dec calculated_total m.total_allocation_pct))
                "total_allocation_pct does not match selections"
                (append_if
                  (not
                    (eq_dec m.unallocated_cash_pct (D.sub (D.lit (pos 1_000) 1) calculated_total)))
                  "unallocated_cash_pct does not match allocation total" [])))))

  unfoldable pub validate_invariants : EntryMandate D → Result (EntryMandate D)
  unfolding mandate_errors
  validate_invariants m = raise_all (mandate_errors m) m

  -- the plan of one selection
  unfoldable pub plan_of : String → ℤ → EntrySelection D → Result (PlannedEntry D)
  plan_of command_id orderable_cash s = do
    let allocated_cash = cap_of D orderable_cash s.allocation_pct
    quantity ← int_div allocated_cash s.entry_target_price_krw
    raise_if (leb_ℤ quantity (pos 0))
        (value_error ("allocation for " ++ s.symbol ++ " cannot buy one share at the target price"))
    ok (record {
      symbol = s.symbol;
      target_price = s.entry_target_price_krw;
      allocation_pct = s.allocation_pct;
      allocated_cash = allocated_cash;
      quantity = quantity;
      idempotency_key = command_id ++ ":" ++ s.symbol ++ ":BUY";
    })

  unfoldable pub plan_all : String → ℤ → List (EntrySelection D) → Result (List (PlannedEntry D))
  plan_all command_id orderable_cash [] = ok []
  plan_all command_id orderable_cash (s ∷ selections) =
      plan_of command_id orderable_cash s >>= λ plan.
      plan_all command_id orderable_cash selections >>= λ plans. ok (plan ∷ plans)

  unfoldable pub plan_entries :
      (EntryMandate D → String) → EntryMandate D → ℤ → Result (List (PlannedEntry D))
  plan_entries command_id m orderable_cash = do
    raise_if (leb_ℤ orderable_cash (pos 0)) (value_error "orderable_cash must be positive")
    plan_all (command_id m) orderable_cash m.selections
