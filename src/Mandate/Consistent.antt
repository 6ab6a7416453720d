-- ===== src/Mandate/Consistent.antt =====
-- What a validated mandate guarantees.
use danta.Common.{String, ◌≡◌, refl, ◌↔◌, true, false, List, [], ◌∷◌, arith, eqb, ◌≤◌}
use danta.Common.Int.{pos, eqb_ℤ, negsuc}
use danta.Common.Lists.{length}
use danta.Common.Eq.{string_eq, member, add_member}
use danta.Common.Result.{ok}
use danta.Common.Decimal.{Decimals}
use danta.Mandate.{
  EntryMandate, as_set, raise_all, eq_dec, symbols_of, total_of, mandate_errors,
  validate_invariants,
}

-- no symbol twice
abbrev pub Different : List String → Type 0
Different [] = Unit
Different (x ∷ xs) = (member x xs ≡ false) × Different xs

member-as_set : (x : String) (xs : List String) → member x (as_set xs) ≡ member x xs
unfolding as_set member add_member
member-as_set x [] = refl
member-as_set x (y ∷ ys) = ground (arith, member-as_set x ys, string_eq.beq_iff y x)

length-as_set : (xs : List String) → length (as_set xs) ≤ length xs
unfolding as_set add_member
length-as_set [] = ground arith
length-as_set (x ∷ xs) = ground (arith, length-as_set xs)

all-Different : (xs : List String) → (eqb (length xs) (length (as_set xs)) ≡ true) ↔ Different xs
unfolding as_set add_member
all-Different [] = ((λ _. tt), (λ _. refl))
all-Different (x ∷ xs) = (
  λ h. (
    ground (arith, member-as_set x xs, length-as_set xs),
    (all-Different xs).0 (ground (arith, member-as_set x xs, length-as_set xs)),
  ),
  λ (fresh, rest). ground (arith, member-as_set x xs, (all-Different xs).1 rest),
)

-- The six conditions together.
pub record IsConsistent (D : Decimals) (m : EntryMandate D) : Type 0 where
  pub aware : m.report_data_as_of.is_aware ≡ true
  pub stop : eq_dec D m.hard_stop_pct (D.lit (negsuc 69) 1) ≡ true
  pub count : eqb_ℤ (pos (length m.selections)) m.selected_symbol_count ≡ true
  pub different : Different (symbols_of D m.selections)
  pub total : eq_dec D (total_of D (D.of_int (pos 0)) m.selections) m.total_allocation_pct ≡ true
  pub rest :
      eq_dec D m.unallocated_cash_pct
        (D.sub (D.lit (pos 1_000) 1) (total_of D (D.of_int (pos 0)) m.selections))
      ≡ true

-- `validate_invariants` accepts exactly the mandates that meet the six conditions: an aware report
-- time, a stop of -7.0, as many selections as said, no symbol twice (here without reference to
-- sets), allocations that add up to the total, and the rest unallocated. It does not alter them.
pub validate_invariants-IsConsistent :
    (D : Decimals) (m n : EntryMandate D)
    → (validate_invariants D m ≡ ok n) ↔ (IsConsistent D m × (n ≡ m))
unfolding validate_invariants mandate_errors raise_all
validate_invariants-IsConsistent D m n = (
  λ h. (
    record {
      aware = ground arith;
      stop = ground arith;
      count = ground arith;
      different = (all-Different (symbols_of D m.selections)).0 (ground arith);
      total = ground arith;
      rest = ground arith;
    },
    ground arith,
  ),
  λ (c, e). ground (
    arith,
    c.aware,
    c.stop,
    c.count,
    (all-Different (symbols_of D m.selections)).1 c.different,
    c.total,
    c.rest,
  ),
)
