-- ===== src/Market.antt =====
-- src/danta/domain/market.py: the snapshot of one symbol's market.
pub mod Clip
use Prim.Native.Char.{code}
use danta.Common.{
  ℕ, String, Bool, true, false, not, ◌&&◌, ◌||◌, Option, none, some, List, [], ◌∷◌, leb, eqb,
}
use danta.Common.Int.{ℤ, pos, ◌-ℤ◌, ◌*ℤ◌, leb_ℤ}
use danta.Common.Lists.{any, length}
use danta.Common.Time.{Datetime}
use danta.Common.Result.{Result, ok, value_error, ◌>>◌, raise_if}
use danta.Common.Decimal.{Decimals, lt}

pub data MarketRisk : Type 0 where
  normal caution risk_off : MarketRisk

abbrev pub is_risk_off : MarketRisk → Bool
is_risk_off MarketRisk.risk_off = true
is_risk_off _ = false

pub record MarketSnapshot (D : Decimals) : Type 0 where
  pub symbol : String
  pub observed_at : Datetime
  pub last_price : ℤ
  pub best_bid : Option ℤ
  pub best_ask : Option ℤ
  pub sell_pressure_score : D.Decimal
  pub stabilization_score : D.Decimal
  pub buy_recovery_score : D.Decimal
  pub weakness_score : D.Decimal
  pub market_stress_score : D.Decimal
  pub market_risk : MarketRisk
  pub box_valid : Bool
  pub data_fresh : Bool
  pub vwap : Option D.Decimal

-- The code points of a text.
unfoldable pub codes : String → List ℕ
codes String.[] = []
codes (String.◌∷◌ c s) = code c ∷ codes s

-- `isascii() and isalnum()` of one character
unfoldable pub is_ascii_alnum : ℕ → Bool
is_ascii_alnum c =
    (leb b'0' c && leb c b'9') || (leb b'A' c && leb c b'Z') || (leb b'a' c && leb c b'z')

unfoldable pub is_symbol : String → Bool
unfolding codes is_ascii_alnum
is_symbol s = eqb (length (codes s)) 6 && not (any (λ c. not (is_ascii_alnum c)) (codes s))

-- `price is not None and price <= 0`
abbrev pub nonpositive_price : Option ℤ → Bool
nonpositive_price none = false
nonpositive_price (some p) = leb_ℤ p (pos 0)

module _ (D : Decimals) where
  abbrev pub zero_dec : D.Decimal
  zero_dec = D.of_int (pos 0)

  abbrev pub one_dec : D.Decimal
  one_dec = D.of_int (pos 1)

  -- `value < 0 or value > 1`
  abbrev pub outside_unit : D.Decimal → Bool
  outside_unit value = lt D value zero_dec || lt D one_dec value

  -- `MarketSnapshot(...)`: the value, if `__post_init__` accepts it
  unfoldable pub market_snapshot : MarketSnapshot D → Result (MarketSnapshot D)
  unfolding is_symbol
  market_snapshot s = do
    raise_if (not (is_symbol s.symbol))
        (value_error "symbol must be six ASCII alphanumeric characters")
    raise_if (not s.observed_at.is_aware) (value_error "observed_at must be timezone-aware")
    raise_if (leb_ℤ s.last_price (pos 0)) (value_error "last_price must be positive")
    raise_if (nonpositive_price s.best_bid) (value_error "best_bid must be positive")
    raise_if (nonpositive_price s.best_ask) (value_error "best_ask must be positive")
    raise_if (outside_unit s.sell_pressure_score)
        (value_error "sell_pressure_score must be between 0 and 1")
    raise_if (outside_unit s.stabilization_score)
        (value_error "stabilization_score must be between 0 and 1")
    raise_if (outside_unit s.buy_recovery_score)
        (value_error "buy_recovery_score must be between 0 and 1")
    raise_if (outside_unit s.weakness_score) (value_error "weakness_score must be between 0 and 1")
    raise_if (outside_unit s.market_stress_score)
        (value_error "market_stress_score must be between 0 and 1")
    ok s

  -- the spread of a bid and an ask in basis points of their midpoint
  unfoldable pub spread_of : ℤ → ℤ → D.Decimal
  spread_of bid ask =
      let midpoint = D.div (D.add (D.of_int bid) (D.of_int ask)) (D.lit (pos 2) 0) in
      D.mul (D.div (D.of_int (ask -ℤ bid)) midpoint) (D.lit (pos 10000) 0)

  abbrev spread_of_quotes : Option ℤ → Option ℤ → Option D.Decimal
  spread_of_quotes none ask = none
  spread_of_quotes (some bid) none = none
  spread_of_quotes (some bid) (some ask) = some (spread_of bid ask)

  unfoldable pub spread_bps : MarketSnapshot D → Option D.Decimal
  unfolding spread_of
  spread_bps s = spread_of_quotes s.best_bid s.best_ask

  unfoldable pub is_fresh : MarketSnapshot D → Datetime → ℤ → Result Bool
  is_fresh s now max_age_seconds = do
    raise_if (not now.is_aware) (value_error "now must be timezone-aware")
    raise_if (leb_ℤ max_age_seconds (pos 0)) (value_error "max_age_seconds must be positive")
    let age = now.micros -ℤ s.observed_at.micros
    ok (s.data_fresh && leb_ℤ age (max_age_seconds *ℤ pos 1_000_000))
