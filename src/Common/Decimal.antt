-- ===== src/Common/Decimal.antt =====
-- Python's `decimal.Decimal` as an interface: the operations that the program calls and the laws
-- that its results rest on, all of which hold of the default context (28 digits, half-even), where
-- a rounded operation stays monotone and comparisons and conversions from `int` are exact. The
-- values are finite: a NaN does not pass the program's validators.
pub mod FixedPoint
use Prim.Native.Nat.{ℕ, zero, suc, ◌+◌, ◌-◌, ◌*◌, ◌/◌, ◌^◌, ◌≤◌, ◌<◌}
use mathlib.Core.Path.{◌≡◌, refl}
use mathlib.Core.Logic.{◌⊎◌}
use mathlib.Core.Bool.{Bool, true, false, not}
use native.Mathlib.Omega.{arith}
use danta.Common.Tests.{if◌then◌else◌}
use danta.Common.Int.{
  ℤ, pos, negsuc, ◌+ℤ◌, ◌-ℤ◌, ◌*ℤ◌, ◌≤ℤ◌, leb_ℤ, ltb_ℤ, floor_div, pos_part, neg_part, int_laws,
}

pub record Decimals : Type 1 where
  pub Decimal : Type 0
  -- `a <= b`
  pub le : Decimal → Decimal → Bool
  pub add : Decimal → Decimal → Decimal
  pub sub : Decimal → Decimal → Decimal
  pub mul : Decimal → Decimal → Decimal
  pub div : Decimal → Decimal → Decimal
  -- `Decimal(n)`
  pub of_int : ℤ → Decimal
  -- the literal of value `n / 10 ** k`
  pub lit : ℤ → ℕ → Decimal
  -- `int(d.to_integral_value(rounding=ROUND_FLOOR))`
  pub floor : Decimal → ℤ
  -- `int(d)`, rounded towards zero
  pub trunc : Decimal → ℤ
  pub le_total : (a b : Decimal) → le a b ≡ false → le b a ≡ true
  pub le_trans : (a b c : Decimal) → le a b ≡ true → le b c ≡ true → le a c ≡ true
  pub le-of_int : (m n : ℤ) → le (of_int m) (of_int n) ≡ leb_ℤ m n
  pub le-floor : (n : ℤ) (d : Decimal) → le (of_int n) d ≡ leb_ℤ n (floor d)
  pub trunc-le : (d : Decimal) → le (of_int (pos 0)) d ≡ true → le (of_int (trunc d)) d ≡ true
  -- a product already has the digits of the context, so that a division by one is exact
  pub div_one : (a b : Decimal) → div (mul a b) (of_int (pos 1)) ≡ mul a b
  -- the difference of one and a number of hundredths is exact
  pub one_sub_hundredths :
      (n : ℕ) → n ≤ 100 → sub (of_int (pos 1)) (lit (pos n) 2) ≡ lit (pos (100 - n)) 2
  pub mul_mono :
      (a b c : Decimal)
      → le a b ≡ true
      → le (of_int (pos 0)) c ≡ true
      → le (mul c a) (mul c b) ≡ true
  pub div_mono :
      (a b : Decimal) (n : ℕ)
      → le a b ≡ true
      → le (div a (lit (pos (suc n)) 0)) (div b (lit (pos (suc n)) 0)) ≡ true

module _ (D : Decimals) where
  -- `a < b`, `a == b`, `min(a, b)`, `max(a, b)`
  unfoldable pub lt : D.Decimal → D.Decimal → Bool
  lt a b = not (D.le b a)
