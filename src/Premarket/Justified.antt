-- ===== src/Premarket/Justified.antt =====
-- A full exit is planned exactly where a loss justifies it.
use danta.Common.{
  ◌≡◌, refl, ◌↔◌, ◌⊎◌, inl, inr, Bool-cases, true, false, Option, none, some, arith, if◌then◌else◌,
}
use danta.Common.Int.{ℤ, pos, negsuc, ◌≤ℤ◌, ◌-ℤ◌, ◌*ℤ◌}
use danta.Common.Time.{Datetime}
use danta.Common.Result.{ok}
use danta.Common.Decimal.{Decimals, lt}
use danta.Market.Clip.{min_of}
use danta.Market.{MarketRisk, is_risk_off}
use danta.Premarket.{
  PremarketAction, PremarketPolicy, PremarketSnapshot, PremarketDecision, is_exit, to_exit_decision,
  return_pct, lowest_return, insufficient, pressure_confirmed, evaluate_expected,
  evaluate_premarket,
}

risk_off_lem : (risk : MarketRisk) → is_risk_off risk ≡ true → risk ≡ MarketRisk.risk_off
risk_off_lem MarketRisk.risk_off h = refl
risk_off_lem MarketRisk.normal h = absurd (ground arith)
risk_off_lem MarketRisk.caution h = absurd (ground arith)

exit_lem : (a : PremarketAction) → is_exit a ≡ true → a ≡ PremarketAction.plan_full_exit
exit_lem PremarketAction.hold h = absurd (ground arith)
exit_lem PremarketAction.plan_full_exit h = refl

module _ (D : Decimals) (s : PremarketSnapshot D) (p : PremarketPolicy D) (now : Datetime) where
  -- The data are marked as fresh, neither of the future nor too old, and of enough trades.
  pub record IsSufficient : Type 0 where
    pub fresh : s.data_fresh ≡ true
    pub past : pos 0 ≤ℤ now.micros -ℤ s.observed_at.micros
    pub recent :
        now.micros -ℤ s.observed_at.micros ≤ℤ p.maximum_snapshot_age_seconds *ℤ pos 1_000_000
    pub sampled : p.minimum_nxt_trade_samples ≤ℤ s.nxt_trade_samples

  -- a return of the other venue, or of the expected opening where there is one, of -7 or less
  abbrev pub HasFallen : Option ℤ → Type 0
  HasFallen none = D.le (return_pct D s s.nxt_price) (D.lit (negsuc 6) 0) ≡ true
  HasFallen (some price) =
      (D.le (return_pct D s s.nxt_price) (D.lit (negsuc 6) 0) ≡ true)
      ⊎ (D.le (return_pct D s price) (D.lit (negsuc 6) 0) ≡ true)

  -- selling pressure, a stressed market, or a market-wide alarm
  abbrev pub IsPressed : Type 0
  IsPressed =
      (D.le p.sell_pressure_threshold s.nxt_sell_pressure ≡ true)
      ⊎ ((D.le p.market_stress_threshold s.market_stress_score ≡ true)
          ⊎ (s.market_risk ≡ MarketRisk.risk_off))

  -- The exchange expects an opening at a loss, the other venue has one too, and there is pressure.
  pub data IsDefended : Option ℤ → Type 0 where
    defended :
        {price : ℤ}
        → (D.le (return_pct D s price) p.strong_loss_pct ≡ true)
          ⊎ (D.le (return_pct D s price) p.early_loss_pct ≡ true)
        → D.le (return_pct D s s.nxt_price) p.early_loss_pct ≡ true
        → IsPressed
        → IsDefended (some price)

  pub record IsJustified : Type 0 where
    pub sellable : pos 1 ≤ℤ s.sellable_quantity
    pub sufficient : IsSufficient
    pub approved : p.approved ≡ true
    pub loss : HasFallen s.krx_expected_open_price ⊎ IsDefended s.krx_expected_open_price

  sufficient_lem : (insufficient D s p now ≡ false) ↔ IsSufficient
  sufficient_lem = (
    λ h. record {
      fresh = ground arith;
      past = ground arith;
      recent = ground arith;
      sampled = ground arith;
    },
    λ i. ground (arith, i.fresh, i.past, i.recent, i.sampled),
  )

  min_at_most :
      (a b c : D.Decimal) → (D.le (min_of D a b) c ≡ true) ↔ ((D.le a c ≡ true) ⊎ (D.le b c ≡ true))
  unfolding lt
  min_at_most a b c = elim (Bool-cases (D.le a b)) [
    | inl below ↦ (
      (λ h. inl (ground arith)),
      elim [ inl h ↦ ground arith | inr h ↦ ground (arith, D.le_trans a b c below h) ],
    )
    | inr above ↦ (
      (λ h. inr (ground arith)),
      elim [
        | inl h ↦ ground (arith, D.le_trans b a c (D.le_total a b above) h)
        | inr h ↦ ground arith
      ],
    )
  ]

  fallen_lem :
      (price : Option ℤ)
      → (D.le (lowest_return D s price) (D.lit (negsuc 6) 0) ≡ true) ↔ HasFallen price
  fallen_lem none = ((λ h. h), (λ h. h))
  fallen_lem (some price) = min_at_most _ _ _

  pressed_lem : (pressure_confirmed D s p ≡ true) ↔ IsPressed
  pressed_lem = (
    λ h. elim (Bool-cases (D.le p.sell_pressure_threshold s.nxt_sell_pressure)) [
      | inl sold ↦ inl sold
      | inr calm ↦ elim (Bool-cases (D.le p.market_stress_threshold s.market_stress_score)) [
        | inl stressed ↦ inr (inl stressed)
        | inr quiet ↦ inr (inr (risk_off_lem s.market_risk (ground arith)))
      ]
    ],
    elim [
      | inl sold ↦ ground arith
      | inr (inl stressed) ↦ ground arith
      | inr (inr alarm) ↦ ground arith
    ],
  )

  expected_lem :
      (price : Option ℤ)
      → (is_exit (evaluate_expected D s p now price).action ≡ true) ↔ IsDefended price
  unfolding evaluate_expected
  expected_lem none = ((λ h. absurd (ground arith)), elim [ ])
  expected_lem (some price) =
      let (pressed, pressed') = pressed_lem in
      (
        (λ h. elim (Bool-cases (D.le (return_pct D s price) p.strong_loss_pct)) [
          | inl strong ↦ defended (inl strong) (ground arith) (pressed (ground arith))
          | inr mild ↦ defended (inr (ground arith)) (ground arith) (pressed (ground arith))
        ]),
        elim [
          | defended (inl strong) nxt why ↦ ground (arith, pressed' why)
          | defended (inr early) nxt why ↦ ground (arith, pressed' why)
        ],
      )

  expected-quantity :
      (price : Option ℤ)
      → is_exit (evaluate_expected D s p now price).action ≡ true
      → (evaluate_expected D s p now price).quantity ≡ s.sellable_quantity
  unfolding evaluate_expected
  expected-quantity none h = absurd (ground arith)
  expected-quantity (some price) h = ground arith

  -- A decision plans a full exit exactly if there are shares to sell, the data are fresh, of the right
  -- age and of enough trades, the policy is approved (for the hard stop at -7 too), and one of the
  -- returns is at -7 or below, or the exchange and the other venue agree on a loss under pressure. An
  -- exit sells all shares that can be sold; another decision sells none.
  pub evaluate_premarket_justified :
      (d : PremarketDecision)
      → evaluate_premarket D s p now ≡ ok d
      → ((d.action ≡ PremarketAction.plan_full_exit) ↔ IsJustified)
        × ((to_exit_decision d).quantity
            ≡ (if is_exit d.action then s.sellable_quantity else pos 0))
  unfolding evaluate_premarket to_exit_decision
  evaluate_premarket_justified d h = (
    (
      (λ exited. record {
        sellable = ground arith;
        sufficient = sufficient_lem.0 (ground arith);
        approved = ground arith;
        loss =
            elim (Bool-cases
              (D.le (lowest_return D s s.krx_expected_open_price) (D.lit (negsuc 6) 0))) [
                | inl low ↦ inl ((fallen_lem s.krx_expected_open_price).0 low)
                | inr high ↦ inr ((expected_lem s.krx_expected_open_price).0 (ground arith))
              ];
      }),
      (λ j.
          exit_lem d.action
            (elim (Bool-cases
              (D.le (lowest_return D s s.krx_expected_open_price) (D.lit (negsuc 6) 0))) [
                | inl low ↦ ground (arith, j.sellable, sufficient_lem.1 j.sufficient, j.approved)
                | inr high ↦ elim j.loss [
                  | inl fallen ↦
                      absurd (ground (arith, (fallen_lem s.krx_expected_open_price).1 fallen))
                  | inr planned ↦ ground (
                    arith,
                    j.sellable,
                    sufficient_lem.1 j.sufficient,
                    j.approved,
                    (expected_lem s.krx_expected_open_price).1 planned,
                  )
                ]
              ])),
    ),
    ground (arith, expected-quantity s.krx_expected_open_price),
  )
