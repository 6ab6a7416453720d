-- ===== src/Risk/Priority.antt =====
-- What the ladder of exit rules guarantees, whatever the decimals compute.
use danta.Common.{
  ◌≡◌, ◌≢◌, ◌↔◌, refl, sym, ap, subst, [], ◌∷◌, ◌∙◌, ◌||◌, ◌⊎◌, inl, inr, Bool, true, false, arith,
  if◌then◌else◌, Bool-cases,
}
use danta.Common.Int.{pos, ◌≤ℤ◌, ◌<ℤ◌}
use danta.Common.Result.{ok, ok_injective}
use danta.Common.Decimal.{Decimals}
use danta.Market.{is_risk_off, zero_dec}
use danta.Risk.Stop.{stop_level, quoted_at_most, returned_at_most_minus_seven, hard_stop_exact}
use danta.Risk.{ExitAction, ExitUrgency, ExitPolicy, PositionRiskSnapshot, ExitDecision}
use danta.Risk.Exit.{
  executable_return_pct, sell, late_rules, soft_rules, strong_recovery, observation_of,
  evaluate_exit,
}

module _ (D : Decimals) (s : PositionRiskSnapshot D) (p : ExitPolicy D) where
  -- A decision about this position that sells all that can be sold, or holds and sells nothing.
  abbrev pub SellsAllOrNone : ExitDecision → Type 0
  SellsAllOrNone d =
      (d.symbol ≡ s.symbol)
      × (d.generation ≡ s.generation)
      × (((d.action ≡ ExitAction.sell_market) × (d.quantity ≡ s.sellable_quantity))
          ⊎ ((d.action ≡ ExitAction.hold) × (d.quantity ≡ pos 0)))

  late_rules-SellsAllOrNone : (r : D.Decimal) → SellsAllOrNone (late_rules D s p r)
  unfolding late_rules
  late_rules-SellsAllOrNone r = (ground arith, ground arith, ground arith)

  soft_rules-SellsAllOrNone : (r : D.Decimal) → SellsAllOrNone (soft_rules D s p r)
  unfolding soft_rules
  soft_rules-SellsAllOrNone r = ground (arith, late_rules-SellsAllOrNone r)

  -- the sale of the hard stop
  pub record IsStopSale (d : ExitDecision) : Type 0 where
    pub about : (d.symbol ≡ s.symbol) × (d.generation ≡ s.generation)
    pub sells : (d.action ≡ ExitAction.sell_market) × (d.quantity ≡ s.sellable_quantity)
    pub urgent : d.urgency ≡ ExitUrgency.hard_stop
    pub policy : d.policy_version ≡ "hard-stop-v1"
    pub reason : d.reason_codes ≡ "HARD_STOP_MINUS_7" ∷ []

  -- The last price or the bid is at most 93% of the average price, or the broker reports a return of at
  -- most -7.0%.
  abbrev pub fires : Bool
  fires =
      D.le (D.of_int s.last_price) (stop_level D s.average_entry_price)
      || (quoted_at_most D s.best_bid (stop_level D s.average_entry_price)
          || returned_at_most_minus_seven D s.broker_return_pct)

  exit_rule :
      D.le s.average_entry_price (zero_dec D) ≡ false
      → evaluate_exit D s p
        ≡ ok (
            if fires
            then sell D s ExitUrgency.hard_stop "hard-stop-v1" "HARD_STOP_MINUS_7"
            else soft_rules D s p (executable_return_pct D s))
  unfolding evaluate_exit
  exit_rule h =
      let (stop, priced, exact) = hard_stop_exact D s.average_entry_price (observation_of D s) h in
      rw (priced, exact)

  -- For a positive average price a decision is reached; it is about the position of the snapshot, and
  -- sells all of its sellable quantity or nothing.
  pub evaluate_exit-SellsAllOrNone :
      D.le s.average_entry_price (zero_dec D) ≡ false
      → (d : ExitDecision) × (evaluate_exit D s p ≡ ok d) × SellsAllOrNone d
  evaluate_exit-SellsAllOrNone h = elim (Bool-cases fires) [
    | inl fired ↦ (
      sell D s ExitUrgency.hard_stop "hard-stop-v1" "HARD_STOP_MINUS_7",
      exit_rule h ∙ ap ok (rw fired),
      (refl, refl, inl (refl, refl)),
    )
    | inr quiet ↦ (
      soft_rules D s p (executable_return_pct D s),
      exit_rule h ∙ ap ok (rw quiet),
      soft_rules-SellsAllOrNone (executable_return_pct D s),
    )
  ]

  module _ (d : ExitDecision) (h : D.le s.average_entry_price (zero_dec D) ≡ false)
      (e : evaluate_exit D s p ≡ ok d) where
    when_fired :
        fires ≡ true → sell D s ExitUrgency.hard_stop "hard-stop-v1" "HARD_STOP_MINUS_7" ≡ d
    when_fired fired = ok_injective (sym (exit_rule h ∙ ap ok (rw fired)) ∙ e)

    when_quiet : fires ≡ false → soft_rules D s p (executable_return_pct D s) ≡ d
    when_quiet quiet = ok_injective (sym (exit_rule h ∙ ap ok (rw quiet)) ∙ e)

  soft_rules_urgency :
      (r : D.Decimal) (d : ExitDecision)
      → soft_rules D s p r ≡ d
      → d.action ≡ ExitAction.sell_market
      → (p.approved ≡ true) × (pos 1 ≤ℤ s.sellable_quantity)
  unfolding soft_rules late_rules
  soft_rules_urgency r d e sold = (ground arith, ground arith)

  soft_rules_not_hard : (r : D.Decimal) → (soft_rules D s p r).urgency ≢ ExitUrgency.hard_stop
  unfolding soft_rules late_rules
  soft_rules_not_hard r hard = ground arith

  not_hard :
      (d : ExitDecision)
      → D.le s.average_entry_price (zero_dec D) ≡ false
      → evaluate_exit D s p ≡ ok d
      → fires ≡ false
      → d.urgency ≢ ExitUrgency.hard_stop
  not_hard d h e quiet hard =
      soft_rules_not_hard _ (ap (λ (x : ExitDecision). x.urgency) (when_quiet d h e quiet) ∙ hard)

  sell-IsStopSale : IsStopSale (sell D s ExitUrgency.hard_stop "hard-stop-v1" "HARD_STOP_MINUS_7")
  sell-IsStopSale = record {
    about = (refl, refl);
    sells = (refl, refl);
    urgent = refl;
    policy = refl;
    reason = refl;
  }

  -- The hard stop overrides every other rule, whatever the exit policy says and whether or not it is
  -- approved. For a positive average price, the decision is the sale of the hard stop (all shares that
  -- can be sold, under its own urgency, policy and reason) exactly if the last price or the bid is at
  -- most 93% of the average, or the broker reports a return of at most -7.0%; and no other decision has
  -- its urgency.
  pub evaluate_exit-hard_stop :
      (d : ExitDecision)
      → D.le s.average_entry_price (zero_dec D) ≡ false
      → evaluate_exit D s p ≡ ok d
      → (IsStopSale d ↔ (fires ≡ true)) × ((d.urgency ≡ ExitUrgency.hard_stop) ↔ (fires ≡ true))
  evaluate_exit-hard_stop d h e = elim (Bool-cases fires) [
    | inl fired ↦
        let sale = subst IsStopSale (when_fired d h e fired) sell-IsStopSale in
        (((λ _. fired), (λ _. sale)), ((λ _. fired), (λ _. sale.urgent)))
    | inr quiet ↦ (
      ((λ sale. absurd (not_hard d h e quiet sale.urgent)), (λ fired. absurd (ground arith))),
      ((λ hard. absurd (not_hard d h e quiet hard)), (λ fired. absurd (ground arith))),
    )
  ]

  -- Without an approved policy nothing but the hard stop sells.
  pub evaluate_exit_unapproved :
      (d : ExitDecision)
      → D.le s.average_entry_price (zero_dec D) ≡ false
      → p.approved ≡ false
      → evaluate_exit D s p ≡ ok d
      → d.action ≡ ExitAction.sell_market
      → d.urgency ≡ ExitUrgency.hard_stop
  evaluate_exit_unapproved d h unapproved e sold = elim (Bool-cases fires) [
    | inl fired ↦ rw (← when_fired d h e fired)
    | inr quiet ↦ absurd (ground (arith, soft_rules_urgency _ d (when_quiet d h e quiet) sold))
  ]

  deep_loss_rule :
      (r : D.Decimal) (d : ExitDecision)
      → p.approved ≡ true
      → pos 1 ≤ℤ s.sellable_quantity
      → D.le r p.strong_loss_pct ≡ true
      → soft_rules D s p r ≡ d
      → d.action ≡ ExitAction.hold
      → (s.box_valid ≡ true) × (strong_recovery D s p ≡ true)
  unfolding soft_rules
  deep_loss_rule r d approved sellable deep e held = (ground arith, ground arith)

  observed :
      strong_recovery D s p ≡ true
      → (s.data_fresh ≡ true)
        × (is_risk_off s.market_risk ≡ false)
        × (D.le p.strong_recovery_score s.buy_recovery_score ≡ true)
        × (s.strong_defense_elapsed_seconds <ℤ p.strong_recovery_observation_seconds)
  unfolding strong_recovery
  observed h = (ground arith, ground arith, ground arith, ground arith)

  -- A position at or below the strong loss threshold, of an approved policy and with something to sell,
  -- is held only in a valid box, on fresh data, without a market-wide alarm, with a recovered buy score,
  -- and for less than the observation time: the defense cannot be put off for ever.
  pub evaluate_exit_deep_loss :
      (d : ExitDecision)
      → D.le s.average_entry_price (zero_dec D) ≡ false
      → p.approved ≡ true
      → pos 1 ≤ℤ s.sellable_quantity
      → D.le (executable_return_pct D s) p.strong_loss_pct ≡ true
      → evaluate_exit D s p ≡ ok d
      → d.action ≡ ExitAction.hold
      → (s.box_valid ≡ true)
        × (s.data_fresh ≡ true)
        × (is_risk_off s.market_risk ≡ false)
        × (D.le p.strong_recovery_score s.buy_recovery_score ≡ true)
        × (s.strong_defense_elapsed_seconds <ℤ p.strong_recovery_observation_seconds)
  evaluate_exit_deep_loss d h approved sellable deep e held = elim (Bool-cases fires) [
    | inl fired ↦ absurd (ground (arith, when_fired d h e fired))
    | inr quiet ↦
        let (box, recovery) =
          deep_loss_rule _ d approved sellable deep (when_quiet d h e quiet) held in
        let (fresh, calm, recovered, early) = observed recovery in
        (box, fresh, calm, recovered, early)
  ]
