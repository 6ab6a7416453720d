-- ===== src/Session/Intents.antt =====
-- What an accepted intent guarantees, and which sequence numbers a session accepts.
use danta.Common.{
  ◌≡◌, refl, ◌↔◌, ◌⊎◌, inl, inr, true, false, Option, none, some, List, [], ◌∷◌, arith,
  if◌then◌else◌, Bool-cases,
}
use danta.Common.Int.{ℤ, pos, ◌≤ℤ◌, ◌<ℤ◌, leb_ℤ}
use danta.Common.Eq.{string_eq, ◌==◌}
use danta.Common.Result.{ok}
use danta.Session.{
  OrderIntent, is_buy, is_cancel, order_intent, no_positive_price, SymbolSession, apply_sequence,
}

-- An intent with a key and an aware time; unless it cancels, its quantity is positive; if it buys,
-- it is a limit order; a limit order has a positive price.
pub record IsWellFormed (i : OrderIntent) : Type 0 where
  pub keyed : (i.idempotency_key == "") ≡ false
  pub aware : i.created_at.is_aware ≡ true
  pub generation : pos 0 ≤ℤ i.generation
  pub quantity : (is_cancel i.side ≡ true) ⊎ (pos 1 ≤ℤ i.quantity)
  pub buys : (is_buy i.side ≡ false) ⊎ ((i.order_type == "LIMIT") ≡ true)
  pub priced :
      ((i.order_type == "LIMIT") ≡ false) ⊎ ((p : ℤ) × (i.limit_price ≡ some p) × (pos 1 ≤ℤ p))

positive_price :
    (price : Option ℤ) → no_positive_price price ≡ false → (p : ℤ) × (price ≡ some p) × (pos 1 ≤ℤ p)
positive_price none h = absurd (ground arith)
positive_price (some p) h = (p, refl, ground arith)

-- `OrderIntent` accepts exactly the well-formed intents, and does not alter them.
pub order_intent-IsWellFormed :
    (i j : OrderIntent) → (order_intent i ≡ ok j) ↔ (IsWellFormed i × (j ≡ i))
unfolding order_intent
order_intent-IsWellFormed i j = (
  λ h. (
    record {
      keyed = ground arith;
      aware = ground arith;
      generation = ground arith;
      quantity = ground arith;
      buys = ground arith;
      priced = elim (Bool-cases (i.order_type == "LIMIT")) [
        | inr other ↦ inl other
        | inl limit ↦ inr (positive_price i.limit_price (ground arith))
      ];
    },
    ground arith,
  ),
  λ (w, e). ground (arith, w.keyed, w.aware, w.generation, w.quantity, w.buys, w.priced),
)

-- The sequence numbers that a session accepts of a feed, in order.
unfoldable accepted : SymbolSession → List ℤ → List ℤ
accepted s [] = []
accepted s (n ∷ feed) =
    let (fresh, s') = apply_sequence s n in
    let rest = accepted s' feed in if fresh then n ∷ rest else rest

abbrev IncreasingFrom : ℤ → List ℤ → Type 0
IncreasingFrom low [] = Unit
IncreasingFrom low (n ∷ ns) = (low <ℤ n) × IncreasingFrom n ns

-- Whatever the order in which a feed arrives, and whatever is repeated in it, the numbers that a
-- session accepts increase strictly, from above the last one that it had.
accepted-increasing :
    (s : SymbolSession) (feed : List ℤ) → IncreasingFrom s.last_sequence (accepted s feed)
unfolding accepted apply_sequence
accepted-increasing s [] = tt
accepted-increasing s (n ∷ feed) = elim (Bool-cases (leb_ℤ n s.last_sequence)) [
  | inl stale ↦ rw stale (accepted-increasing s feed)
  | inr fresh ↦ rw fresh (ground arith, accepted-increasing (record s { last_sequence = n }) feed)
]
