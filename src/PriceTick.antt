-- ===== src/PriceTick.antt =====
-- src/danta/domain/price_tick.py: the KOSPI tick of a price, and rounding down to it.
pub mod Rounding
use danta.Common.{ℕ, ◌≡◌, Bool, if◌then◌else◌}
use danta.Common.Int.{ℤ, pos, ◌*ℤ◌, ltb_ℤ, leb_ℤ, floor_div}
use danta.Common.Result.{Result, ok, err, value_error, ◌>>=◌}

unfoldable pub kospi_tick_size : ℤ → Result ℕ
kospi_tick_size price =
    if leb_ℤ price (pos 0)
    then err (value_error "price must be positive")
    else if ltb_ℤ price (pos 1_000)
    then ok 1
    else if ltb_ℤ price (pos 5_000)
    then ok 5
    else if ltb_ℤ price (pos 10_000)
    then ok 10
    else if ltb_ℤ price (pos 50_000)
    then ok 50
    else if ltb_ℤ price (pos 100_000)
    then ok 100
    else if ltb_ℤ price (pos 500_000)
    then ok 500
    else ok 1_000

unfoldable pub floor_kospi_price : ℤ → Result ℤ
floor_kospi_price price = do tick ← kospi_tick_size price; ok (floor_div price tick *ℤ pos tick)
