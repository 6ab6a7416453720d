-- ===== src/Entry/Eligible.antt =====
-- A limit buy is proposed exactly for an eligible snapshot, at its ask.
use danta.Common.{
  ◌≡◌, refl, ◌↔◌, inl, inr, Bool, true, false, Option, none, some, [], ◌∷◌, arith, Option-cases,
}
use danta.Common.Int.{ℤ, pos, ◌≤ℤ◌, leb_ℤ, min_ℤ}
use danta.Common.Result.{ok}
use danta.Common.Decimal.{Decimals, lt}
use danta.Market.{MarketSnapshot, is_risk_off, spread_bps}
use danta.Entry.{EntryAction, EntryPolicy, EntryDecision, too_wide, evaluate_ask, evaluate_entry}

-- Everything that a buy needs: an approved policy, fresh data, no market-wide alarm, an ask within
-- the maximum, a narrow spread, sell pressure below the block, and both recovery scores reached.
pub record IsEligible (D : Decimals) (s : MarketSnapshot D) (maximum : ℤ) (p : EntryPolicy D)
    (fresh : Bool) : Type 0 where
  pub approved : p.approved ≡ true
  pub is_current : fresh ≡ true
  pub calm : is_risk_off s.market_risk ≡ false
  pub ask : ℤ
  pub asked : s.best_ask ≡ some ask
  pub affordable : ask ≤ℤ maximum
  pub spread : D.Decimal
  pub measured : spread_bps D s ≡ some spread
  pub narrow : D.le spread p.max_spread_bps ≡ true
  pub unpressed : D.le p.sell_pressure_block s.sell_pressure_score ≡ false
  pub stabilized : D.le p.stabilization_required s.stabilization_score ≡ true
  pub recovered : D.le p.buy_recovery_required s.buy_recovery_score ≡ true

module _ (D : Decimals) (s : MarketSnapshot D) (maximum : ℤ) (p : EntryPolicy D)
    (fresh : Bool) where
  not_wide :
      (o : Option D.Decimal)
      → too_wide D o p.max_spread_bps ≡ false
      → (x : D.Decimal) × (o ≡ some x) × (D.le x p.max_spread_bps ≡ true)
  unfolding lt
  not_wide none h = absurd (ground arith)
  not_wide (some x) h = (x, refl, ground arith)

  -- the tests from the ask on, at a decision with a limit price
  ask_stage :
      (ask : ℤ) (d : EntryDecision) (limit : ℤ)
      → evaluate_ask D s maximum p ask ≡ d
      → d.limit_price ≡ some limit
      → (d.action ≡ EntryAction.submit_limit_buy)
        × (limit ≡ ask)
        × (ask ≤ℤ maximum)
        × (too_wide D (spread_bps D s) p.max_spread_bps ≡ false)
        × (D.le p.sell_pressure_block s.sell_pressure_score ≡ false)
        × (D.le p.stabilization_required s.stabilization_score ≡ true)
        × (D.le p.buy_recovery_required s.buy_recovery_score ≡ true)
  unfolding evaluate_ask lt min_ℤ
  ask_stage ask d limit h e = ground arith

  -- the tests before it
  first_stage :
      (d : EntryDecision) (limit : ℤ)
      → evaluate_entry D s maximum p fresh ≡ ok d
      → d.limit_price ≡ some limit
      → (p.approved ≡ true)
        × (fresh ≡ true)
        × (is_risk_off s.market_risk ≡ false)
        × (leb_ℤ maximum (pos 0) ≡ false)
        × ((ask : ℤ) × (s.best_ask ≡ some ask) × (evaluate_ask D s maximum p ask ≡ d))
  unfolding evaluate_entry
  first_stage d limit h e = elim (Option-cases s.best_ask) [
    | inl missing ↦ absurd (ground arith)
    | inr (ask, asked) ↦
        (ground arith, ground arith, ground arith, ground arith, (ask, asked, ground arith))
  ]

  buys :
      (d : EntryDecision) (limit : ℤ)
      → evaluate_entry D s maximum p fresh ≡ ok d
      → d.limit_price ≡ some limit
      → (d.action ≡ EntryAction.submit_limit_buy)
        × (s.best_ask ≡ some limit)
        × IsEligible D s maximum p fresh
  buys d limit h e =
      let (approved, current, calm, _, (ask, asked, stage)) = first_stage d limit h e in
      let (action, at_ask, le, wide, pressure, stable, recovered) = ask_stage ask d limit stage e in
      let (x, measured, narrow) = not_wide (spread_bps D s) wide in
      (
        action,
        rw at_ask asked,
        record {
          approved = approved;
          is_current = current;
          calm = calm;
          ask = ask;
          asked = asked;
          affordable = le;
          spread = x;
          measured = measured;
          narrow = narrow;
          unpressed = pressure;
          stabilized = stable;
          recovered = recovered;
        },
      )

  ask_of_eligible :
      (w : IsEligible D s maximum p fresh)
      → evaluate_ask D s maximum p w.ask ≡ record {
        symbol = s.symbol;
        action = EntryAction.submit_limit_buy;
        policy_version = p.version;
        limit_price = some w.ask;
        reason_codes = "PRICE_ELIGIBLE" ∷ "STABILIZED" ∷ "BUY_PRESSURE_RECOVERED" ∷ [];
      }
  unfolding evaluate_ask lt min_ℤ
  ask_of_eligible w = ground arith

  entry_of_eligible :
      (w : IsEligible D s maximum p fresh)
      → pos 1 ≤ℤ maximum
      → evaluate_entry D s maximum p fresh ≡ ok (evaluate_ask D s maximum p w.ask)
  unfolding evaluate_entry
  entry_of_eligible w positive = ground (arith, w.approved, w.is_current, w.calm, w.asked)

  ask_action :
      (ask : ℤ) (d : EntryDecision)
      → evaluate_ask D s maximum p ask ≡ d
      → d.action ≡ EntryAction.submit_limit_buy
      → d.limit_price ≡ some (min_ℤ ask maximum)
  unfolding evaluate_ask
  ask_action ask d h a = ground arith

  -- For a positive maximum price, a limit buy at a price is decided exactly if the snapshot is
  -- eligible and that price is its ask; the ask is then within the maximum.
  pub evaluate_entry-IsEligible :
      (limit : ℤ)
      → pos 1 ≤ℤ maximum
      → ((d : EntryDecision) × (evaluate_entry D s maximum p fresh ≡ ok d)
          × (d.limit_price ≡ some limit)
          × (d.action ≡ EntryAction.submit_limit_buy))
        ↔ (IsEligible D s maximum p fresh × (s.best_ask ≡ some limit) × (limit ≤ℤ maximum))
  evaluate_entry-IsEligible limit positive = (
    λ (d, h, e, _).
        let (_, at, w) = buys d limit h e in
        let same : w.ask ≡ limit = cc (w.asked) in (w, at, rw (← same) w.affordable),
    λ (w, at, le).
        let same : w.ask ≡ limit = cc (w.asked) in
        (
          evaluate_ask D s maximum p w.ask,
          entry_of_eligible w positive,
          rw (ask_of_eligible w, same),
          rw (ask_of_eligible w),
        ),
  )

  -- A decision that proposes to buy carries a limit price.
  pub evaluate_entry_priced :
      (d : EntryDecision)
      → evaluate_entry D s maximum p fresh ≡ ok d
      → d.action ≡ EntryAction.submit_limit_buy
      → (limit : ℤ) × (d.limit_price ≡ some limit)
  unfolding evaluate_entry
  evaluate_entry_priced d h a = elim (Option-cases s.best_ask) [
    | inl missing ↦ absurd (ground arith)
    | inr (ask, asked) ↦
        let stage : evaluate_ask D s maximum p ask ≡ d = ground arith in
        (min_ℤ ask maximum, ask_action ask d stage a)
  ]
