-- ===== src/Mandate/Plans.antt =====
-- The buys that a mandate plans, against the caps that the allocator sets for it.
use danta.Common.{
  ℕ, zero, suc, ◌+◌, ◌*◌, ◌/◌, ◌≤◌, ◌<◌, subst, String, ◌≡◌, refl, false, List, [], ◌∷◌, arith,
}
use danta.Common.Int.{ℤ, pos, negsuc, ◌+ℤ◌, ◌*ℤ◌, ◌≤ℤ◌, ◌<ℤ◌, leb_ℤ, floor_div}
use danta.Common.Lists.{All}
use danta.Common.Result.{ok, raise_if, >>=-eq-ok, ok_injective}
use danta.Common.Decimal.{Decimals}
use danta.Capital.{cap_of}
use danta.Mandate.{
  EntrySelection, EntryMandate, PlannedEntry, int_div, plan_of, plan_all, plan_entries,
}

module _ (D : Decimals) (orderable_cash : ℤ) where
  -- A plan for a selection: it buys the symbol at the target price, at least one share, and the
  -- most shares that the cap of the allocator pays for at that price.
  pub record Plans (s : EntrySelection D) (p : PlannedEntry D) : Type 0 where
    pub symbol : p.symbol ≡ s.symbol
    pub target : p.target_price ≡ s.entry_target_price_krw
    pub cash : p.allocated_cash ≡ cap_of D orderable_cash s.allocation_pct
    pub positive : pos 1 ≤ℤ p.quantity
    pub paid : p.quantity *ℤ p.target_price ≤ℤ p.allocated_cash
    pub most : p.allocated_cash <ℤ (p.quantity +ℤ pos 1) *ℤ p.target_price

  -- each selection with its plan, in the order of the mandate
  abbrev pub PlansEach : List (EntrySelection D) → List (PlannedEntry D) → Type 0
  PlansEach [] [] = Unit
  PlansEach (s ∷ ss) (p ∷ ps) = Plans s p × PlansEach ss ps
  PlansEach _ _ = ⊥

quotient_bounds : (n k : ℕ) → (n / suc k * suc k ≤ n) × (n < (n / suc k + 1) * suc k)
quotient_bounds n k = (omega arith, omega arith)

most_units :
    (a b q : ℤ)
    → pos 1 ≤ℤ b
    → int_div a b ≡ ok q
    → leb_ℤ q (pos 0) ≡ false
    → (pos 1 ≤ℤ q) × (q *ℤ b ≤ℤ a) × (a <ℤ (q +ℤ pos 1) *ℤ b)
unfolding int_div floor_div ◌*ℤ◌ ◌+ℤ◌
most_units (negsuc n) (pos (suc k)) (pos q) h e positive = absurd (ground arith)
most_units (pos n) (pos (suc k)) (pos q) h e positive =
    let eq : n / suc k ≡ q = ground arith in
    rw (← eq)
      (ground arith, ground (arith, quotient_bounds n k), ground (arith, quotient_bounds n k))
most_units (pos n) (pos (suc k)) (negsuc q) h e positive = absurd (ground arith)
most_units (negsuc n) (pos (suc k)) (negsuc q) h e positive = absurd (ground arith)
most_units a (pos zero) q h e positive = absurd (ground arith)
most_units a (negsuc k) q h e positive = absurd (ground arith)

module _ (D : Decimals) (orderable_cash : ℤ) where
  plan_of-Plans :
      (command_id : String) (s : EntrySelection D) (p : PlannedEntry D)
      → pos 1 ≤ℤ s.entry_target_price_krw
      → plan_of D command_id orderable_cash s ≡ ok p
      → Plans D orderable_cash s p
  unfolding plan_of
  plan_of-Plans command_id s p priced h =
      let cash = cap_of D orderable_cash s.allocation_pct in
      let (q, divided, h') = >>=-eq-ok (int_div cash s.entry_target_price_krw) _ h in
      let (_, some_shares, last) = >>=-eq-ok (raise_if (leb_ℤ q (pos 0)) _) _ h' in
      let (positive, paid, most) =
        most_units cash s.entry_target_price_krw q priced divided (ground arith) in
      rw (← ok_injective last) (record {
        symbol = refl;
        target = refl;
        cash = refl;
        positive = positive;
        paid = paid;
        most = most;
      })

  plan_all-PlansEach :
      (command_id : String) (ss : List (EntrySelection D)) (ps : List (PlannedEntry D))
      → All (λ (s : EntrySelection D). pos 1 ≤ℤ s.entry_target_price_krw) ss
      → plan_all D command_id orderable_cash ss ≡ ok ps
      → PlansEach D orderable_cash ss ps
  unfolding plan_all
  plan_all-PlansEach command_id [] [] priced h = tt
  plan_all-PlansEach command_id [] (p ∷ ps) priced h = absurd (ground arith)
  plan_all-PlansEach command_id (s ∷ ss) ps priced h =
      let (p, planned, h') = >>=-eq-ok (plan_of D command_id orderable_cash s) _ h in
      let (qs, more, last) = >>=-eq-ok (plan_all D command_id orderable_cash ss) _ h' in
      subst (PlansEach D orderable_cash (s ∷ ss)) (ok_injective last) (
        plan_of-Plans command_id s p priced.0 planned,
        plan_all-PlansEach command_id ss qs priced.1 more,
      )

  -- For selections with positive target prices, as the mandate's fields require: if planning
  -- succeeds there is one plan for each selection, in order, that buys at least one share at the
  -- target price, for at most the cap that the allocator sets for the symbol, and no plan could buy
  -- one share more.
  pub plan_entries-PlansEach :
      (command_id : EntryMandate D → String) (m : EntryMandate D) (ps : List (PlannedEntry D))
      → All (λ (s : EntrySelection D). pos 1 ≤ℤ s.entry_target_price_krw) m.selections
      → plan_entries D command_id m orderable_cash ≡ ok ps
      → PlansEach D orderable_cash m.selections ps
  unfolding plan_entries
  plan_entries-PlansEach command_id m ps priced h =
      let (_, _, planned) = >>=-eq-ok (raise_if (leb_ℤ orderable_cash (pos 0)) _) _ h in
      plan_all-PlansEach (command_id m) m.selections ps priced planned
