-- ===== src/Common/Decimal/FixedPoint.antt =====
-- A decimal arithmetic that meets the interface: integers counting units of 1/10000, every
-- operation rounded down. The tests run on it.
use Prim.Native.Nat.{ℕ, suc, ◌+◌, ◌-◌, ◌*◌, ◌/◌, ◌^◌, ◌≤◌}
use mathlib.Core.Path.{◌≡◌}
use mathlib.Core.Bool.{true, false}
use native.Mathlib.Omega.{arith}
use danta.Common.Tests.{leb→le, leb_false→lt, le→leb}
use danta.Common.Int.{
  ℤ, pos, negsuc, ◌+ℤ◌, ◌-ℤ◌, ◌*ℤ◌, ◌≤ℤ◌, leb_ℤ, floor_div, pos_part, neg_part, sub_ℕ,
}
use danta.Common.Decimal.{Decimals}

unfoldable pub fp_of_int : ℤ → ℤ
fp_of_int n = n *ℤ pos 10000

unfoldable pub fp_mul : ℤ → ℤ → ℤ
fp_mul a b = floor_div (a *ℤ b) 10000

unfoldable pub fp_div : ℤ → ℤ → ℤ
fp_div a (pos b) = floor_div (a *ℤ pos 10000) b
fp_div a (negsuc b) = pos 0

unfoldable pub fp_floor : ℤ → ℤ
fp_floor d = floor_div d 10000

unfoldable pub fp_trunc : ℤ → ℤ
fp_trunc (pos n) = pos (n / 10000)
fp_trunc (negsuc n) = sub_ℕ 0 (suc n / 10000)

unfoldable pub fp_lit : ℤ → ℕ → ℤ
fp_lit n k = floor_div (n *ℤ pos 10000) (10 ^ k)

pub fp_total : (a b : ℤ) → leb_ℤ a b ≡ false → leb_ℤ b a ≡ true
fp_total a b h = le→leb _ _ (omega (arith, leb_false→lt _ _ h))

pub fp_trans : (a b c : ℤ) → leb_ℤ a b ≡ true → leb_ℤ b c ≡ true → leb_ℤ a c ≡ true
fp_trans a b c h k = le→leb _ _ (omega (arith, leb→le _ _ h, leb→le _ _ k))

pub fp_le-of_int : (m n : ℤ) → leb_ℤ (fp_of_int m) (fp_of_int n) ≡ leb_ℤ m n
unfolding fp_of_int ◌*ℤ◌
fp_le-of_int m n = ground arith

pub fp_le-floor : (n d : ℤ) → leb_ℤ (fp_of_int n) d ≡ leb_ℤ n (fp_floor d)
unfolding fp_of_int fp_floor floor_div ◌*ℤ◌
fp_le-floor n d = ground arith

pub fp_trunc-le :
    (d : ℤ) → leb_ℤ (fp_of_int (pos 0)) d ≡ true → leb_ℤ (fp_of_int (fp_trunc d)) d ≡ true
unfolding fp_of_int fp_trunc ◌*ℤ◌
fp_trunc-le d h = ground arith

floor_div-scaled : (a : ℤ) → floor_div (a *ℤ pos 10000) 10000 ≡ a
unfolding floor_div ◌*ℤ◌
floor_div-scaled a = ground arith

pub fp_div_one : (a b : ℤ) → fp_div (fp_mul a b) (fp_of_int (pos 1)) ≡ fp_mul a b
unfolding fp_of_int fp_div ◌*ℤ◌
fp_div_one a b = floor_div-scaled (fp_mul a b)

div_mono : (a b k : ℕ) → a ≤ b → a / k ≤ b / k
div_mono a b k h = grind arith

floor_div_mono : (a b : ℤ) (k : ℕ) → a ≤ℤ b → floor_div a k ≤ℤ floor_div b k
unfolding floor_div
floor_div_mono (pos a) (pos b) k h = omega (arith, div_mono a b k (omega arith))
floor_div_mono (negsuc a) (pos b) k h = omega arith
floor_div_mono (negsuc a) (negsuc b) k h = omega (arith, div_mono b a k (omega arith))
floor_div_mono (pos a) (negsuc b) k h = absurd (omega arith)

mul_pos_parts :
    (m : ℕ) (a : ℤ)
    → pos_part (pos m *ℤ a) + m * neg_part a ≡ neg_part (pos m *ℤ a) + m * pos_part a
unfolding ◌*ℤ◌
mul_pos_parts m a = ground arith

mul_mono : (m x y : ℕ) → x ≤ y → m * x ≤ m * y
mul_mono m x y h = grind arith

mul_pos_mono : (a b : ℤ) (m : ℕ) → a ≤ℤ b → pos m *ℤ a ≤ℤ pos m *ℤ b
mul_pos_mono a b m h = omega (
  arith,
  mul_pos_parts m a,
  mul_pos_parts m b,
  mul_mono m (pos_part a + neg_part b) (pos_part b + neg_part a) h,
)

pub fp_mul_mono :
    (a b c : ℤ)
    → leb_ℤ a b ≡ true
    → leb_ℤ (fp_of_int (pos 0)) c ≡ true
    → leb_ℤ (fp_mul c a) (fp_mul c b) ≡ true
unfolding fp_mul
fp_mul_mono a b (pos m) h k =
    le→leb _ _ (floor_div_mono _ _ 10000 (mul_pos_mono a b m (leb→le _ _ h)))
fp_mul_mono a b (negsuc m) h k = absurd (unfold fp_of_int ◌*ℤ◌ in omega (arith, leb→le _ _ k))

scaled_mono : (a b : ℤ) → a ≤ℤ b → a *ℤ pos 10000 ≤ℤ b *ℤ pos 10000
unfolding ◌*ℤ◌
scaled_mono a b h = ground arith

fp_lit_nat : (n : ℕ) → fp_lit (pos (suc n)) 0 ≡ pos (suc n * 10000)
unfolding fp_lit floor_div ◌*ℤ◌
fp_lit_nat n = ground arith

pub fp_div_mono :
    (a b : ℤ) (n : ℕ)
    → leb_ℤ a b ≡ true
    → leb_ℤ (fp_div a (fp_lit (pos (suc n)) 0)) (fp_div b (fp_lit (pos (suc n)) 0)) ≡ true
fp_div_mono a b n h = rw (fp_lit_nat n) (
    unfold fp_div in
    le→leb _ _ (floor_div_mono _ _ (suc n * 10000) (scaled_mono a b (leb→le _ _ h))))

pub fp_one_sub_hundredths :
    (n : ℕ) → n ≤ 100 → fp_of_int (pos 1) -ℤ fp_lit (pos n) 2 ≡ fp_lit (pos (100 - n)) 2
unfolding fp_of_int fp_lit floor_div ◌*ℤ◌ ◌-ℤ◌
fp_one_sub_hundredths n h = ground arith

abbrev pub fixed_point : Decimals
fixed_point = record {
  Decimal = ℤ;
  le = leb_ℤ;
  add = ◌+ℤ◌;
  sub = ◌-ℤ◌;
  mul = fp_mul;
  div = fp_div;
  of_int = fp_of_int;
  lit = fp_lit;
  floor = fp_floor;
  trunc = fp_trunc;
  le_total = fp_total;
  le_trans = fp_trans;
  le-of_int = fp_le-of_int;
  le-floor = fp_le-floor;
  trunc-le = fp_trunc-le;
  div_one = fp_div_one;
  one_sub_hundredths = fp_one_sub_hundredths;
  mul_mono = fp_mul_mono;
  div_mono = fp_div_mono;
}
