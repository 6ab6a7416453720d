-- ===== src/Common/Dict.antt =====
-- Python's `dict`: entries in insertion order, at most one for a key.
pub mod Sums
use danta.Common.Tests.{if◌then◌else◌, Option-cases, Bool-cases}
use danta.Common.Eq.{Eq, ◌==◌}
use danta.Common.Int.{ℤ, pos, ◌+ℤ◌, int_laws}
use mathlib.Core.Path.{◌≡◌, refl, sym, subst, ◌∙◌}
use mathlib.Core.Logic.{◌≢◌, ◌↔◌, ◌⊎◌, inl, inr}
use mathlib.Core.Bool.{Bool, true, false}
use mathlib.Core.Option.{Option, none, some}
use mathlib.Core.List.{List, [], ◌∷◌}
use native.Mathlib.Omega.{arith}

abbrev pub Dict {ℓ κ} : Type ℓ → Type κ → Type (ℓ ⊔ κ)
Dict K V = List (K × V)

module _ {ℓ κ} {K : Type ℓ} {V : Type κ} ⦃e : Eq K⦄ where
  -- `d.get(k)`
  unfoldable pub lookup : K → Dict K V → Option V
  lookup k [] = none
  lookup k (x ∷ d) = if x.0 == k then some x.1 else lookup k d

  -- `k in d`
  abbrev pub contains : K → Dict K V → Bool
  contains k d = elim (lookup k d) [ none ↦ false | some _ ↦ true ]

  -- `d[k] = v`
  unfoldable pub insert : K → V → Dict K V → Dict K V
  insert k v [] = (k, v) ∷ []
  insert k v (x ∷ d) = if x.0 == k then (k, v) ∷ d else x ∷ insert k v d

  -- `del d[k]`, `d.pop(k, None)`
  unfoldable pub erase : K → Dict K V → Dict K V
  erase k [] = []
  erase k (x ∷ d) = if x.0 == k then d else x ∷ erase k d

  pub lookup-insert :
      (k j : K) (v : V) (d : Dict K V)
      → lookup j (insert k v d) ≡ (if k == j then some v else lookup j d)
  unfolding lookup insert
  lookup-insert k j v [] = refl
  lookup-insert k j v (x ∷ d) =
      ground (arith, e.beq_iff k j, e.beq_iff x.0 k, e.beq_iff x.0 j, lookup-insert k j v d)

  pub lookup-insert_self : (k : K) (v : V) (d : Dict K V) → lookup k (insert k v d) ≡ some v
  lookup-insert_self k v d = ground (arith, e.beq_iff k k, lookup-insert k k v d)

  pub lookup-insert_ne :
      (k j : K) (v : V) (d : Dict K V) → k ≢ j → lookup j (insert k v d) ≡ lookup j d
  lookup-insert_ne k j v d h = ground (arith, e.beq_iff k j, lookup-insert k j v d)

  -- No key stands twice; every operation below keeps this.
  abbrev pub Distinct : Dict K V → Type (ℓ ⊔ κ)
  Distinct [] = Unit
  Distinct (x ∷ d) = (lookup x.0 d ≡ none) × Distinct d

  pub insert-Distinct : (k : K) (v : V) (d : Dict K V) → Distinct d → Distinct (insert k v d)
  unfolding insert lookup
  insert-Distinct k v [] h = (refl, tt)
  insert-Distinct k v (x ∷ d) h =
      ground (
        arith,
        insert-Distinct k v d h.1,
        lookup-insert k x.0 v d,
        e.beq_iff x.0 k,
        e.beq_iff k x.0,
      )

  pub lookup-erase_ne : (k j : K) (d : Dict K V) → k ≢ j → lookup j (erase k d) ≡ lookup j d
  unfolding lookup erase
  lookup-erase_ne k j [] h = refl
  lookup-erase_ne k j (x ∷ d) h =
      ground (arith, e.beq_iff x.0 k, e.beq_iff x.0 j, lookup-erase_ne k j d h)

  pub lookup-erase_self : (k : K) (d : Dict K V) → Distinct d → lookup k (erase k d) ≡ none
  unfolding lookup erase
  lookup-erase_self k [] h = refl
  lookup-erase_self k (x ∷ d) h = ground (arith, e.beq_iff x.0 k, lookup-erase_self k d h.1)

  -- What stays after a deletion stood there before.
  pub lookup-erase-some :
      (k j : K) (v : V) (d : Dict K V)
      → Distinct d
      → lookup j (erase k d) ≡ some v
      → lookup j d ≡ some v
  lookup-erase-some k j v d h p =
      ground (arith, e.beq_iff k j, lookup-erase_ne k j d, lookup-erase_self k d h)

  lookup-erase-none : (k j : K) (d : Dict K V) → lookup j d ≡ none → lookup j (erase k d) ≡ none
  unfolding lookup erase
  lookup-erase-none k j [] h = refl
  lookup-erase-none k j (x ∷ d) h = ground (arith, lookup-erase-none k j d)

  pub erase-Distinct : (k : K) (d : Dict K V) → Distinct d → Distinct (erase k d)
  unfolding erase
  erase-Distinct k [] h = tt
  erase-Distinct k (x ∷ d) h = ground (arith, erase-Distinct k d h.1, lookup-erase-none k x.0 d)

  -- Deleting a key that was just added gives the dictionary back.
  pub erase-insert : (k : K) (v : V) (d : Dict K V) → lookup k d ≡ none → erase k (insert k v d) ≡ d
  unfolding lookup insert erase
  erase-insert k v [] h = ground (arith, e.beq_iff k k)
  erase-insert k v (x ∷ d) h = ground (arith, erase-insert k v d)

  -- A statement about every entry, and about every key that is found.
  abbrev pub Each {μ} : (K → V → Type μ) → Dict K V → Type μ
  Each P [] = Unit
  Each P (x ∷ d) = P x.0 x.1 × Each P d

  pub Each-lookup {μ} :
      (P : K → V → Type μ) (d : Dict K V) (k : K) (v : V) → Each P d → lookup k d ≡ some v → P k v
  unfolding lookup
  Each-lookup P [] k v h found = absurd (ground arith)
  Each-lookup P (x ∷ d) k v h found = elim (Bool-cases (x.0 == k)) [
    | inl here ↦
        let ek : x.0 ≡ k = (e.beq_iff x.0 k).0 here in
        let ev : x.1 ≡ v = ground arith in subst (P k) ev (subst (λ j. P j x.1) ek h.0)
    | inr there ↦ Each-lookup P d k v h.1 (sym (rw there refl) ∙ found)
  ]

  pub lookup-Each {μ} :
      (P : K → V → Type μ) (d : Dict K V)
      → Distinct d
      → ((k : K) (v : V) → lookup k d ≡ some v → P k v)
      → Each P d
  unfolding lookup
  lookup-Each P [] u h = tt
  lookup-Each P (x ∷ d) u h = (
    h x.0 x.1 (ground (arith, e.beq_iff x.0 x.0)),
    lookup-Each P d u.1 (λ k v found. h k v (ground (arith, e.beq_iff x.0 k))),
  )

  -- `{k: v for … in …}`: a later item of a key replaces the earlier one
  unfoldable pub fill : Dict K V → List (K × V) → Dict K V
  fill d [] = d
  fill d (x ∷ items) = fill (insert x.0 x.1 d) items

  -- `d.setdefault(k, v)`
  abbrev pub set_default : K → V → Dict K V → Dict K V
  set_default k v d = elim (lookup k d) [ none ↦ insert k v d | some _ ↦ d ]
