-- ===== src/Realtime.antt =====
-- src/danta/adapters/kis/realtime.py: the events that the market data feed delivers.
use danta.Common.{String, Bool, true, false, Option, List}
use danta.Common.Int.{ℤ}
use danta.Common.Time.{Datetime}
use danta.Common.Decimal.{Decimals}

pub data MarketVenue : Type 0 where
  krx nxt : MarketVenue

pub record TradeTick (D : Decimals) : Type 0 where
  pub symbol : String
  pub observed_at : Datetime
  pub price : ℤ
  pub best_ask : ℤ
  pub best_bid : ℤ
  pub trade_volume : ℤ
  pub accumulated_value : ℤ
  pub sell_trade_count : ℤ
  pub buy_trade_count : ℤ
  pub trade_strength : D.Decimal
  pub ask_quantity : ℤ
  pub bid_quantity : ℤ
  pub total_ask_quantity : ℤ
  pub total_bid_quantity : ℤ
  pub venue : MarketVenue
  pub change_rate : Option D.Decimal

pub record OrderBookTick : Type 0 where
  pub symbol : String
  pub observed_at : Datetime
  pub best_ask : ℤ
  pub best_bid : ℤ
  pub ask_prices : List ℤ
  pub bid_prices : List ℤ
  pub ask_quantities : List ℤ
  pub bid_quantities : List ℤ
  pub total_ask_quantity : ℤ
  pub total_bid_quantity : ℤ
  pub venue : MarketVenue

pub record ExpectedPriceTick (D : Decimals) : Type 0 where
  pub symbol : String
  pub observed_at : Datetime
  pub expected_price : ℤ
  pub best_ask : ℤ
  pub best_bid : ℤ
  pub expected_volume : ℤ
  pub change_rate : Option D.Decimal
  pub venue : MarketVenue

-- `TradeTick | OrderBookTick | ExpectedPriceTick`
pub data RealtimeEvent (D : Decimals) : Type 0 where
  trade : TradeTick D → RealtimeEvent D
  orderbook : OrderBookTick → RealtimeEvent D
  expected : ExpectedPriceTick D → RealtimeEvent D

abbrev pub is_krx : MarketVenue → Bool
is_krx MarketVenue.krx = true
is_krx MarketVenue.nxt = false

module _ {D : Decimals} where
  -- `event.symbol` and `event.venue`
  abbrev pub symbol_of : RealtimeEvent D → String
  symbol_of (RealtimeEvent.trade t) = t.symbol
  symbol_of (RealtimeEvent.orderbook t) = t.symbol
  symbol_of (RealtimeEvent.expected t) = t.symbol

  abbrev pub venue_of : RealtimeEvent D → MarketVenue
  venue_of (RealtimeEvent.trade t) = t.venue
  venue_of (RealtimeEvent.orderbook t) = t.venue
  venue_of (RealtimeEvent.expected t) = t.venue
