-- ===== src/Common/Float.antt =====
-- Python's `float`, for numbers that are not negative: IEEE 754 doubles, written as numbers of units of
-- 2 ^ -72. Every double from a millionth on is a whole number of units, and so is every sum of such.
pub mod Whole
use Prim.Native.Nat.{ℕ, zero, suc, ◌+◌, ◌*◌, ◌/◌, ◌%◌, ◌^◌}
use danta.Common.Tests.{ltb, if◌then◌else◌}

abbrev pub float_unit : ℕ
float_unit = 2 ^ 72

-- how many bits of `n` a mantissa of 53 bits cannot hold; `fuel` is at least that many
unfoldable pub excess_bits : ℕ → ℕ → ℕ
excess_bits zero n = 0
excess_bits (suc fuel) n =
    let rest = excess_bits fuel (n / 2) in if ltb n (2 ^ 53) then 0 else suc rest

-- the whole number next to `n / d`, the even one of two
unfoldable pub nearest : ℕ → ℕ → ℕ
nearest n d =
    if ltb (2 * (n % d)) d
    then n / d
    else if ltb d (2 * (n % d))
    then n / d + 1
    else n / d + n / d % 2

-- the double next to `n / d` units; the fuel is enough below 2 ^ 153 units, which is 2 ^ 81
unfoldable pub to_double : ℕ → ℕ → ℕ
unfolding excess_bits nearest
to_double n d = let unit = 2 ^ excess_bits 100 (n / d) in nearest n (d * unit) * unit

-- `delta.total_seconds()`: microseconds divided by a million
unfoldable pub total_seconds : ℕ → ℕ
unfolding to_double
total_seconds micros = to_double (micros * float_unit) 1_000_000

-- `a + b`
unfoldable pub float_add : ℕ → ℕ → ℕ
unfolding to_double
float_add a b = to_double (a + b) 1

-- `int(a // n)`, which is exact for the numbers of seconds of a `datetime`
unfoldable pub float_floordiv : ℕ → ℕ → ℕ
float_floordiv a n = a / (n * float_unit)
