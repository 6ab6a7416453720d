-- ===== src/Common/Float/Whole.antt =====
-- Doubles of whole numbers of seconds: below 2 ^ 53 they are exact, and so are their sums.
use Prim.Native.Nat.{ℕ, zero, suc, ◌+◌, ◌-◌, ◌*◌, ◌/◌, ◌%◌, ◌^◌, ◌≤◌, ◌<◌}
use mathlib.Core.Path.{◌≡◌, sym, ap, subst, ◌∙◌}
use native.Mathlib.Nat.{pow-suc}
use native.Mathlib.Omega.{arith}
use danta.Common.Float.{
  float_unit, excess_bits, nearest, to_double, total_seconds, float_add, float_floordiv,
}

excess_bits-le : (fuel k n : ℕ) → n < 2 ^ 53 * 2 ^ k → excess_bits fuel n ≤ k
unfolding excess_bits
excess_bits-le zero k n h = omega arith
excess_bits-le (suc fuel) zero n h = ground arith
excess_bits-le (suc fuel) (suc k) n h =
    ground (arith, excess_bits-le fuel k (n / 2) (omega (arith, h)))

mul-mod : (q d : ℕ) → 0 < d → (q * d) % d ≡ 0
mul-mod q d h = grind arith

mul-div : (q d : ℕ) → 0 < d → q * d / d ≡ q
mul-div q d h = grind arith

nearest-mul : (q d : ℕ) → 0 < d → nearest (q * d) d ≡ q
unfolding nearest
nearest-mul q d h = ground (arith, mul-mod q d h, mul-div q d h)

power_pos : (k : ℕ) → 0 < 2 ^ k
power_pos zero = omega arith
power_pos (suc k) = omega (arith, power_pos k)

power_add : (j k : ℕ) → 2 ^ (j + k) ≡ 2 ^ j * 2 ^ k
power_add zero k = let same : zero + k ≡ k = omega arith in rw same (omega arith)
power_add (suc j) k =
    let next : suc j + k ≡ suc (j + k) = omega arith in
    let product : 2 ^ j * 2 ^ k * 2 ≡ 2 ^ j * 2 * 2 ^ k = grind arith in
    ap (λ n. 2 ^ n) next
    ∙ pow-suc 2 (j + k)
    ∙ ap (λ n. n * 2) (power_add j k)
    ∙ product
    ∙ ap (λ n. n * 2 ^ k) (sym (pow-suc 2 j))

nearest-scaled : (a d u v : ℕ) → 0 < d → 0 < u → nearest (a * (v * u) * d) (d * u) * u ≡ a * (v * u)
nearest-scaled a d u v h k =
    let product : a * (v * u) * d ≡ a * v * (d * u) = grind arith in
    let positive : 0 < d * u = grind arith in
    rw (product, nearest-mul (a * v) (d * u) positive) (grind arith)

to_double-whole : (a d : ℕ) → 0 < d → a < 2 ^ 53 → to_double (a * float_unit * d) d ≡ a * float_unit
unfolding to_double
to_double-whole a d h small =
    let k = excess_bits 100 (a * float_unit) in
    let few : k ≤ 72 = excess_bits-le 100 72 (a * float_unit) (omega (arith, small)) in
    let halves : 72 - k + k ≡ 72 = omega (arith, few) in
    let split : 2 ^ (72 - k) * 2 ^ k ≡ float_unit =
      sym (power_add (72 - k) k) ∙ ap (λ n. 2 ^ n) halves in
    rw (mul-div (a * float_unit) d h) (
      subst (λ x. nearest (a * x * d) (d * 2 ^ k) * 2 ^ k ≡ a * x) split
        (nearest-scaled a d (2 ^ k) (2 ^ (72 - k)) h (power_pos k)))

pub total_seconds-whole : (s : ℕ) → s < 2 ^ 53 → total_seconds (s * 1_000_000) ≡ s * float_unit
unfolding total_seconds
total_seconds-whole s small =
    let product : s * 1_000_000 * float_unit ≡ s * float_unit * 1_000_000 = omega arith in
    rw product (to_double-whole s 1_000_000 (omega arith) small)

pub float_add-whole :
    (a b : ℕ) → a + b < 2 ^ 53 → float_add (a * float_unit) (b * float_unit) ≡ (a + b) * float_unit
unfolding float_add
float_add-whole a b small =
    let sum : a * float_unit + b * float_unit ≡ (a + b) * float_unit * 1 = omega arith in
    rw sum (to_double-whole (a + b) 1 (omega arith) small)

pub float_floordiv-whole : (a : ℕ) → float_floordiv (a * float_unit) 60 ≡ a / 60
unfolding float_floordiv
float_floordiv-whole a = omega arith
