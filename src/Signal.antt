-- ===== src/Signal.antt =====
-- src/danta/services/market_signal.py: the scores of a symbol from its latest trades and order book.
pub mod Valid
use danta.Common.{
  ℕ, String, Bool, true, false, not, ◌&&◌, Option, none, some, List, [], ◌∷◌, map, leb, ltb, eqb,
  if◌then◌else◌,
}
use danta.Common.Int.{ℤ, pos, ◌+ℤ◌, ◌-ℤ◌, ltb_ℤ, leb_ℤ, eqb_ℤ, max_ℤ, min_ℤ}
use danta.Common.Lists.{length, latest}
use danta.Common.Eq.{string_eq, ◌==◌}
use danta.Common.Time.{Datetime, incomparable}
use danta.Common.Result.{Result, ok, err, value_error, type_error, ◌>>=◌, ◌>>◌, raise_if}
use danta.Common.Decimal.{Decimals}
use danta.Market.{MarketRisk, MarketSnapshot, market_snapshot, one_dec, zero_dec}
use danta.Market.Clip.{clip}
use danta.Realtime.{TradeTick, OrderBookTick, RealtimeEvent, symbol_of}

pub record SignalPolicy : Type 0 where
  pub version : String
  -- the length of a `deque`
  pub maximum_trade_ticks : ℕ

unfoldable pub signal_policy : SignalPolicy → Result SignalPolicy
signal_policy p = do
  raise_if (ltb p.maximum_trade_ticks 10) (value_error "maximum_trade_ticks must be at least 10")
  ok p

abbrev pub default_signal_policy : SignalPolicy
default_signal_policy = record { version = "market-signal-v1"; maximum_trade_ticks = 120 }

-- the last item of a list that begins with `x`
unfoldable pub last_of {ℓ} : {A : Type ℓ} → A → List A → A
last_of x [] = x
last_of x (y ∷ items) = last_of y items

-- `min(prices)` and `max(prices)` of a list that begins with `x`
unfoldable pub lowest : ℤ → List ℤ → ℤ
lowest x [] = x
lowest x (y ∷ prices) = lowest (min_ℤ x y) prices

unfoldable pub highest : ℤ → List ℤ → ℤ
highest x [] = x
highest x (y ∷ prices) = highest (max_ℤ x y) prices

module _ (D : Decimals) where
  -- The trades stand with the latest first.
  pub record RollingMarketSignal : Type 0 where
    pub symbol : String
    pub policy : SignalPolicy
    pub trades : List (TradeTick D)
    pub book : Option OrderBookTick

  abbrev pub new_signal : String → RollingMarketSignal
  new_signal symbol = record {
    symbol = symbol;
    policy = default_signal_policy;
    trades = [];
    book = none;
  }

  abbrev pub record_event : RealtimeEvent D → RollingMarketSignal → RollingMarketSignal
  record_event (RealtimeEvent.trade t) s = record s {
    trades = latest s.policy.maximum_trade_ticks (t ∷ s.trades);
  }
  record_event (RealtimeEvent.orderbook b) s = record s { book = some b }
  record_event (RealtimeEvent.expected e) s = s

  unfoldable pub update : RealtimeEvent D → RollingMarketSignal → Result RollingMarketSignal
  update event s = do
    raise_if (not (symbol_of event == s.symbol))
        (value_error "event symbol does not match signal state")
    ok (record_event event s)

  abbrev pub trade_count : RollingMarketSignal → ℕ
  trade_count s = length s.trades

  abbrev pub ready : RollingMarketSignal → Bool
  ready s = not (eqb (length s.trades) 0)

  -- `Decimal(part) / Decimal(total) if total > 0 else Decimal("0.5")`
  abbrev pub ratio : ℤ → ℤ → D.Decimal
  ratio part total =
      if ltb_ℤ (pos 0) total then D.div (D.of_int part) (D.of_int total) else D.lit (pos 5) 1

  abbrev pub ask_total : TradeTick D → Option OrderBookTick → ℤ
  ask_total t none = t.total_ask_quantity
  ask_total t (some b) = b.total_ask_quantity

  abbrev pub bid_total : TradeTick D → Option OrderBookTick → ℤ
  bid_total t none = t.total_bid_quantity
  bid_total t (some b) = b.total_bid_quantity

  abbrev pub ask_price : TradeTick D → Option OrderBookTick → ℤ
  ask_price t none = t.best_ask
  ask_price t (some b) = b.best_ask

  abbrev pub bid_price : TradeTick D → Option OrderBookTick → ℤ
  bid_price t none = t.best_bid
  bid_price t (some b) = b.best_bid

  abbrev pub hundred : D.Decimal
  hundred = D.lit (pos 100) 0

  -- `prices`, the latest first
  abbrev pub prices_of : List (TradeTick D) → List ℤ
  prices_of trades = map (λ (t : TradeTick D). t.price) trades

  -- the scores from the latest trade, the trades before it and the order book
  module _ (t : TradeTick D) (earlier : List (TradeTick D)) (book : Option OrderBookTick) where
    unfoldable pub ask_depth_ratio : D.Decimal
    ask_depth_ratio = ratio (ask_total t book) (ask_total t book +ℤ bid_total t book)

    -- the price twenty trades ago, or the oldest one
    unfoldable pub older : ℤ
    older = last_of t.price (latest 19 (prices_of earlier))

    unfoldable pub price_decline : D.Decimal
    unfolding older
    price_decline = clip D (
        D.mul (D.div (D.of_int (max_ℤ (pos 0) (older -ℤ t.price))) (D.of_int (max_ℤ (pos 1) older)))
          (D.lit (pos 20) 0))

    unfoldable pub sell_pressure : D.Decimal
    unfolding ask_depth_ratio price_decline
    sell_pressure =
        let sell_count_ratio = ratio t.sell_trade_count (t.sell_trade_count +ℤ t.buy_trade_count) in
        let strength_sell = clip D (D.div (D.sub hundred t.trade_strength) hundred) in
        clip D (
          D.div (D.add (D.add (D.add sell_count_ratio strength_sell) ask_depth_ratio) price_decline)
            (D.lit (pos 4) 0))

    -- the lowest and the highest of the latest thirty prices
    unfoldable pub low : ℤ
    low = lowest t.price (latest 29 (prices_of earlier))

    unfoldable pub high : ℤ
    high = highest t.price (latest 29 (prices_of earlier))

    unfoldable pub range_position : D.Decimal
    unfolding low high
    range_position = D.div (D.of_int (t.price -ℤ low)) (D.of_int (max_ℤ (pos 1) (high -ℤ low)))

    unfoldable pub stabilization : D.Decimal
    unfolding low range_position
    stabilization =
        let new_low_penalty = if eqb_ℤ t.price low then zero_dec D else one_dec D in
        clip D (D.div (D.add new_low_penalty range_position) (D.lit (pos 2) 0))

    unfoldable pub buy_recovery : D.Decimal
    unfolding ask_depth_ratio range_position
    buy_recovery =
        let bid_depth_ratio = D.sub (one_dec D) ask_depth_ratio in
        let strength_buy = clip D (D.div t.trade_strength (D.lit (pos 150) 0)) in
        clip D (D.div (D.add (D.add bid_depth_ratio strength_buy) range_position) (D.lit (pos 3) 0))

    unfoldable pub weakness : D.Decimal
    unfolding sell_pressure range_position
    weakness =
        clip D (D.div (D.add sell_pressure (D.sub (one_dec D) range_position)) (D.lit (pos 2) 0))

  -- the fields of the snapshot, before they are validated
  unfoldable pub snapshot_fields :
      RollingMarketSignal
      → TradeTick D
      → List (TradeTick D)
      → Datetime
      → MarketRisk
      → D.Decimal
      → Bool
      → Bool
      → MarketSnapshot D
  unfolding sell_pressure stabilization buy_recovery weakness
  snapshot_fields s t earlier now risk market_stress_score box_valid data_fresh = record {
    symbol = s.symbol;
    observed_at = t.observed_at;
    last_price = t.price;
    best_bid = some (bid_price t s.book);
    best_ask = some (ask_price t s.book);
    sell_pressure_score = sell_pressure t earlier s.book;
    stabilization_score = stabilization t earlier s.book;
    buy_recovery_score = buy_recovery t earlier s.book;
    weakness_score = weakness t earlier s.book;
    market_stress_score = clip D market_stress_score;
    market_risk = risk;
    box_valid = box_valid;
    data_fresh = data_fresh && leb_ℤ t.observed_at.micros now.micros;
    vwap = none;
  }

  abbrev snapshot_of :
      RollingMarketSignal
      → List (TradeTick D)
      → Datetime
      → MarketRisk
      → D.Decimal
      → Bool
      → Bool
      → Result (MarketSnapshot D)
  snapshot_of s [] now risk stress box_valid data_fresh =
      err (value_error "trade data is not available")
  snapshot_of s (t ∷ earlier) now risk stress box_valid data_fresh = do
    raise_if (data_fresh && incomparable t.observed_at now)
        (type_error "can't compare offset-naive and offset-aware datetimes")
    market_snapshot D (snapshot_fields s t earlier now risk stress box_valid data_fresh)

  unfoldable pub snapshot :
      RollingMarketSignal
      → Datetime
      → MarketRisk
      → D.Decimal
      → Bool
      → Bool
      → Result (MarketSnapshot D)
  unfolding snapshot_fields
  snapshot s now risk stress box_valid data_fresh =
      snapshot_of s s.trades now risk stress box_valid data_fresh
