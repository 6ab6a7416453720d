-- ===== src/Common/Eq.antt =====
-- Types whose values Python compares by `==`: a test and its law, as an instance.
use Prim.Native.String.{String}
use mathlib.Core.Path.{◌≡◌}
use mathlib.Core.Logic.{◌↔◌}
use mathlib.Core.Bool.{Bool, true, false, not, ◌&&◌, ◌||◌}
use mathlib.Core.List.{List, [], ◌∷◌}
use native.Mathlib.Omega.{arith}
use text.Mathlib.Text.{◌==◌ as str_eq}
use text.Mathlib.TextEquality.{eq_iff}
use danta.Common.Tests.{if◌then◌else◌}

pub record Eq {ℓ} (A : Type ℓ) : Type ℓ where
  pub beq : A → A → Bool
  pub beq_iff : (x y : A) → (beq x y ≡ true) ↔ (x ≡ y)

instance abbrev pub string_eq : Eq String
string_eq = record { beq_iff = eq_iff; beq = str_eq }

-- `x == y`
infix 50 ◌==◌
abbrev pub ◌==◌ {κ} : {K : Type κ} ⦃by : Eq K⦄ → K → K → Bool
◌==◌ ⦃by⦄ = by.beq

abbrev pub pair_beq : String × String → String × String → Bool
pair_beq (a, b) (c, d) = str_eq a c && str_eq b d

pub pair_beq_iff : (p q : String × String) → (pair_beq p q ≡ true) ↔ (p ≡ q)
pair_beq_iff p q = ground (arith, eq_iff p.0 q.0, eq_iff p.1 q.1)

instance abbrev pub pair_eq : Eq (String × String)
pair_eq = record { beq = pair_beq; beq_iff = pair_beq_iff }

-- Python's `set` as a list without duplicates.
module _ {ℓ} {A : Type ℓ} ⦃e : Eq A⦄ where
  unfoldable pub member : A → List A → Bool
  member a [] = false
  member a (x ∷ xs) = x == a || member a xs

  -- `s.add(a)`
  unfoldable pub add_member : A → List A → List A
  add_member a xs = if member a xs then xs else a ∷ xs

  -- `s.discard(a)`
  unfoldable pub discard : A → List A → List A
  discard a [] = []
  discard a (x ∷ xs) = let rest = discard a xs in if x == a then rest else x ∷ rest

  pub member-add_member :
      (a b : A) (xs : List A) → member b (add_member a xs) ≡ (a == b || member b xs)
  unfolding member add_member
  member-add_member a b xs = ground (arith, e.beq_iff a b)

  pub member-discard :
      (a b : A) (xs : List A) → member b (discard a xs) ≡ (not (a == b) && member b xs)
  unfolding member discard
  member-discard a b [] = ground arith
  member-discard a b (x ∷ xs) =
      ground (arith, e.beq_iff x a, e.beq_iff x b, e.beq_iff a b, member-discard a b xs)

  pub member-add_member_self : (a : A) (xs : List A) → member a (add_member a xs) ≡ true
  member-add_member_self a xs = ground (arith, member-add_member a a xs, e.beq_iff a a)

  pub member-discard_self : (a : A) (xs : List A) → member a (discard a xs) ≡ false
  member-discard_self a xs = ground (arith, member-discard a a xs, e.beq_iff a a)
