-- ===== src/Capital/Safety.antt =====
-- Whatever calls the allocator gets, and in whatever order, every budget stays within its caps and
-- its cash. The lock of the class makes a call one step, so that concurrent tasks amount to a list of
-- calls.
use danta.Common.{String, ◌≡◌, ◌≢◌, refl, inl, inr, some, List, [], ◌∷◌, arith, Option-cases}
use danta.Common.Int.{ℤ, pos, ◌≤ℤ◌}
use danta.Common.Eq.{string_eq}
use danta.Common.Dict.{Dict, lookup}
use danta.Common.Result.{Exc, Result, ok, err}
use danta.Common.Decimal.{Decimals}
use danta.Capital.{
  CapitalReservation, MandateBudget, Allocator, register_mandate, reserve, find_reservation,
  consume, consume_partial, release,
}
use danta.Capital.Budget.{IsValid}
use danta.Capital.Methods.{
  AllValid, register_mandate-AllValid, reserve-AllValid, consume-AllValid, consume_partial-AllValid,
  release-AllValid, find_reservation_lem,
}

module _ (D : Decimals) where
  pub data Call : Type 0 where
    register : String → ℤ → Dict String D.Decimal → Call
    reserve_call : String → String → ℤ → String → Call
    consume_call consume_partial_call : String → ℤ → Call
    release_call : String → Call

-- the allocator after a call that returned, or that raised
abbrev pub after {ℓ} : {A : Type ℓ} → Result (A × Allocator) → Allocator → Allocator
after (ok (_, s')) s = s'
after (err _) s = s

module _ (D : Decimals) where
  unfoldable pub call : Allocator → Call D → Allocator
  call s (Call.register m cash allocations) = after (register_mandate D m cash allocations s) s
  call s (Call.reserve_call m t amount k) = after (reserve m t amount k s) s
  call s (Call.consume_call k amount) = after (consume k amount s) s
  call s (Call.consume_partial_call k amount) = after (consume_partial k amount s) s
  call s (Call.release_call k) = (release k s).1

  unfoldable pub run : Allocator → List (Call D) → Allocator
  run s [] = s
  run s (c ∷ calls) = run (call s c) calls

after-AllValid :
    {A : Type 0} (r : Result (A × Allocator)) (s : Allocator)
    → AllValid s
    → ((a : A) (s' : Allocator) → r ≡ ok (a, s') → AllValid s')
    → AllValid (after r s)
after-AllValid (ok (a, s')) s v h = h a s' refl
after-AllValid (err _) s v h = v

pub call-AllValid : (D : Decimals) (s : Allocator) (c : Call D) → AllValid s → AllValid (call D s c)
unfolding call
call-AllValid D s (Call.register m cash allocations) v =
    after-AllValid (register_mandate D m cash allocations s) s v
      (λ a s'. register_mandate-AllValid D m cash allocations s s' v)
call-AllValid D s (Call.reserve_call m t amount k) v =
    after-AllValid (reserve m t amount k s) s v (λ r s'. reserve-AllValid m t amount k r s s' v)
call-AllValid D s (Call.consume_call k amount) v =
    after-AllValid (consume k amount s) s v (λ a s'. consume-AllValid k amount s s' v)
call-AllValid D s (Call.consume_partial_call k amount) v =
    after-AllValid (consume_partial k amount s) s v
      (λ a s'. consume_partial-AllValid k amount s s' v)
call-AllValid D s (Call.release_call k) v = release-AllValid k s v

pub run-AllValid :
    (D : Decimals) (s : Allocator) (calls : List (Call D)) → AllValid s → AllValid (run D s calls)
unfolding run
run-AllValid D s [] v = v
run-AllValid D s (c ∷ calls) v = run-AllValid D (call D s c) calls (call-AllValid D s c v)

pub empty-AllValid : AllValid []
unfolding lookup
empty-AllValid = record { each = λ m b e. absurd (ground arith); distinct = tt }

-- From an allocator without mandates, after any calls, those that raise included: for every
-- mandate, what is reserved and consumed together is at most its cash snapshot, and for every
-- capped symbol what is consumed (never negative) and reserved is at most the symbol's cap; every
-- reservation is positive and for a capped symbol.
pub run-IsValid :
    (D : Decimals) (calls : List (Call D)) (m : String) (b : MandateBudget)
    → lookup m (run D [] calls) ≡ some b
    → IsValid b
run-IsValid D calls m b = (run-AllValid D [] calls empty-AllValid).each m b

capped_counted :
    (b : MandateBudget) (k : String) (r : CapitalReservation)
    → IsValid b
    → lookup k b.reservations ≡ some r
    → (u : ℤ) × (lookup r.symbol b.consumed_by_symbol ≡ some u)
capped_counted b k r v held = elim (Option-cases (lookup r.symbol b.symbol_caps)) [
  | inl uncapped ↦ absurd (ground (arith, v.reserved k r held))
  | inr (c, capped) ↦ let w = v.within r.symbol c capped in (w.consumed, w.known)
]

-- In a valid allocator a reservation that is found can be consumed, whole or in part: with a
-- positive amount within it neither method raises anything, a missing key included.
pub consume-enough :
    (k : String) (amount : ℤ) (s : Allocator) (m : String) (b : MandateBudget)
    (r : CapitalReservation)
    → AllValid s
    → find_reservation k s ≡ some (m, b, r)
    → pos 1 ≤ℤ amount
    → amount ≤ℤ r.amount
    → (e : Exc) → (consume k amount s ≢ err e) × (consume_partial k amount s ≢ err e)
unfolding consume consume_partial
consume-enough k amount s m b r v at positive le e =
    let (store, held) = find_reservation_lem k m b r s v.distinct at in
    let (u, counted) = capped_counted b k r (v.each m b store) held in
    ((λ raised. ground arith), (λ raised. ground arith))
