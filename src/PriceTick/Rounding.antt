-- ===== src/PriceTick/Rounding.antt =====
-- Rounding a price down to its tick: bounds, the band of the result, and a second rounding.
use danta.Common.{ℕ, ◌+◌, ◌*◌, ◌/◌, ◌%◌, ◌<◌, ◌≡◌, sym, ◌∙◌, arith}
use danta.Common.Int.{ℤ, pos, negsuc, ◌*ℤ◌, ◌≤ℤ◌, ◌<ℤ◌, floor_div}
use danta.Common.Result.{ok, ok_injective, >>=-eq-ok}
use danta.PriceTick.{kospi_tick_size, floor_kospi_price}

-- Where a price has a tick, rounding returns a positive multiple of the tick, at most the price
-- and less than a tick below it, which lies in the same tick band.
pub floor_kospi_price_bounds :
    (p : ℤ) (tick : ℕ)
    → kospi_tick_size p ≡ ok tick
    → (q : ℕ) × (floor_kospi_price p ≡ ok (pos q))
      × (q % tick ≡ 0)
      × (0 < q)
      × (pos q ≤ℤ p)
      × (p <ℤ pos (q + tick))
      × (kospi_tick_size (pos q) ≡ ok tick)
unfolding kospi_tick_size floor_kospi_price floor_div ◌*ℤ◌
floor_kospi_price_bounds (negsuc n) tick h = ground arith
floor_kospi_price_bounds (pos n) tick h = (
  n / tick * tick,
  ground arith,
  ground arith,
  ground arith,
  ground arith,
  ground arith,
  ground arith,
)

floor_kospi_price_of_tick :
    (n tick : ℕ)
    → 0 < tick
    → n % tick ≡ 0
    → kospi_tick_size (pos n) ≡ ok tick
    → floor_kospi_price (pos n) ≡ ok (pos n)
unfolding floor_kospi_price floor_div ◌*ℤ◌
floor_kospi_price_of_tick n tick h m e = rw e (grind arith)

kospi_tick_size_pos : (p : ℤ) (tick : ℕ) → kospi_tick_size p ≡ ok tick → 0 < tick
unfolding kospi_tick_size
kospi_tick_size_pos p tick h = ground arith

kospi_tick_size_of_floor :
    (p r : ℤ) → floor_kospi_price p ≡ ok r → (tick : ℕ) × (kospi_tick_size p ≡ ok tick)
unfolding floor_kospi_price
kospi_tick_size_of_floor p r h = let (tick, e, _) = >>=-eq-ok (kospi_tick_size p) _ h in (tick, e)

-- A rounded price is a fixed point: rounding it again returns it.
floor_kospi_price_stable : (p r : ℤ) → floor_kospi_price p ≡ ok r → floor_kospi_price r ≡ ok r
floor_kospi_price_stable p r h =
    let (tick, known) = kospi_tick_size_of_floor p r h in
    let (q, e, multiple, _, _, _, band) = floor_kospi_price_bounds p tick known in
    rw (ok_injective (sym h ∙ e))
      (floor_kospi_price_of_tick q tick (kospi_tick_size_pos p tick known) multiple band)
