-- ===== src/Signal/Valid.antt =====
-- When the signal of a symbol yields a snapshot.
use danta.Common.{◌≡◌, refl, sym, ◌∙◌, ◌↔◌, ◌⊎◌, Bool, true, false, ◌&&◌, List, ◌∷◌, arith}
use danta.Common.Int.{pos, ◌≤ℤ◌, leb_ℤ}
use danta.Common.Time.{Datetime, incomparable}
use danta.Common.Result.{ok, type_error, raise_if, ◌>>◌, >>=-eq-ok}
use danta.Common.Decimal.{Decimals}
use danta.Market.{
  MarketRisk, MarketSnapshot, is_symbol, market_snapshot, nonpositive_price, outside_unit,
}
use danta.Market.Clip.{clip_in_unit}
use danta.Realtime.{TradeTick}
use danta.Signal.{
  RollingMarketSignal, ask_price, bid_price, sell_pressure, stabilization, buy_recovery, weakness,
  snapshot_fields, snapshot,
}

module _ (D : Decimals) where
  -- A quoted symbol: positive prices, an aware time that can be compared with the clock.
  pub record IsQuoted (s : RollingMarketSignal D) (t : TradeTick D) (now : Datetime)
      (data_fresh : Bool) : Type 0 where
    pub symbol : is_symbol s.symbol ≡ true
    pub aware : t.observed_at.is_aware ≡ true
    pub comparable : (data_fresh ≡ false) ⊎ (now.is_aware ≡ true)
    pub price : pos 1 ≤ℤ t.price
    pub bid : pos 1 ≤ℤ bid_price D t s.book
    pub ask : pos 1 ≤ℤ ask_price D t s.book

  -- A snapshot whose scores all lie between 0 and 1.
  record AreScores (x : MarketSnapshot D) : Type 0 where
    sell : outside_unit D x.sell_pressure_score ≡ false
    stable : outside_unit D x.stabilization_score ≡ false
    buy : outside_unit D x.buy_recovery_score ≡ false
    weak : outside_unit D x.weakness_score ≡ false
    stress : outside_unit D x.market_stress_score ≡ false

  fields-AreScores :
      (s : RollingMarketSignal D) (t : TradeTick D) (earlier : List (TradeTick D)) (now : Datetime)
      (risk : MarketRisk) (stress : D.Decimal) (box_valid data_fresh : Bool)
      → AreScores (snapshot_fields D s t earlier now risk stress box_valid data_fresh)
  unfolding snapshot_fields sell_pressure stabilization buy_recovery weakness
  fields-AreScores s t earlier now risk stress box_valid data_fresh = record {
    sell = clip_in_unit D _;
    stable = clip_in_unit D _;
    buy = clip_in_unit D _;
    weak = clip_in_unit D _;
    stress = clip_in_unit D stress;
  }

  -- With such scores the validator looks at the symbol, the time and the prices only.
  validated :
      (x : MarketSnapshot D)
      → AreScores x
      → (market_snapshot D x ≡ ok x) ↔ (
          (is_symbol x.symbol ≡ true)
          × (x.observed_at.is_aware ≡ true)
          × (leb_ℤ x.last_price (pos 0) ≡ false)
          × (nonpositive_price x.best_bid ≡ false)
          × (nonpositive_price x.best_ask ≡ false))
  unfolding market_snapshot
  validated x v = (
    λ h. (ground arith, ground arith, ground arith, ground arith, ground arith),
    λ (a, b, c, d, e). ground (arith, v.sell, v.stable, v.buy, v.weak, v.stress),
  )

  compared :
      (s : RollingMarketSignal D) (t : TradeTick D) (earlier : List (TradeTick D)) (now : Datetime)
      (risk : MarketRisk) (stress : D.Decimal) (box_valid data_fresh : Bool)
      → s.trades ≡ t ∷ earlier
      → snapshot D s now risk stress box_valid data_fresh ≡ (
          raise_if
            (data_fresh && incomparable t.observed_at now)
            (type_error "can't compare offset-naive and offset-aware datetimes")
          >> market_snapshot D (snapshot_fields D s t earlier now risk stress box_valid data_fresh))
  unfolding snapshot
  compared s t earlier now risk stress box_valid data_fresh h = rw h refl

  -- With at least one trade, a snapshot is returned exactly for a quoted symbol, whatever the numbers
  -- of the feed: every score lies between 0 and 1, so that no score is ever refused.
  pub snapshot-IsQuoted :
      (s : RollingMarketSignal D) (t : TradeTick D) (earlier : List (TradeTick D)) (now : Datetime)
      (risk : MarketRisk) (stress : D.Decimal) (box_valid data_fresh : Bool)
      → s.trades ≡ t ∷ earlier
      → (snapshot D s now risk stress box_valid data_fresh
          ≡ ok (snapshot_fields D s t earlier now risk stress box_valid data_fresh))
        ↔ IsQuoted s t now data_fresh
  unfolding snapshot_fields
  snapshot-IsQuoted s t earlier now risk stress box_valid data_fresh h =
      let x = snapshot_fields D s t earlier now risk stress box_valid data_fresh in
      let (valid, valid') =
        validated x (fields-AreScores s t earlier now risk stress box_valid data_fresh) in
      let steps = compared s t earlier now risk stress box_valid data_fresh h in
      (
        λ e.
            let (_, comparable, accepted) =
              >>=-eq-ok (raise_if (data_fresh && incomparable t.observed_at now) _) _
                (sym steps ∙ e) in
            let (symbol, aware, price, bid, ask) = valid accepted in
            record {
              symbol = symbol;
              aware = aware;
              comparable = ground (arith, comparable, aware);
              price = ground (arith, price);
              bid = ground (arith, bid);
              ask = ground (arith, ask);
            },
        λ q.
            let fine : (data_fresh && incomparable t.observed_at now) ≡ false =
              ground (arith, q.aware, q.comparable) in
            steps
            ∙ rw fine (
                valid' (
                  q.symbol,
                  q.aware,
                  ground (arith, q.price),
                  ground (arith, q.bid),
                  ground (arith, q.ask),
                )),
      )
