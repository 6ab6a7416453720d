-- ===== src/Tests/Clocks.antt =====
-- src/danta/services/market_session.py: a Friday afternoon and a Monday morning in Korea.
use danta.Common.{ℕ, ◌+◌, ◌-◌, ◌/◌, ◌<◌, ◌≤◌, ◌≡◌, ◌≢◌, refl, ◌⊎◌, true, arith}
use danta.Common.Int.{pos}
use danta.Common.Time.{Datetime}
use danta.Common.Result.{ok}
use danta.Clock.{kst, phase_of, seconds_until_phase_change, krx_regular_trading_minutes_between}
use danta.Clock.Minutes.{regular_count, krx_minutes_of_seconds}
use danta.Clock.Change.{phase_change_next}

-- 1970-01-02, a Friday: 20:30 in Korea
abbrev friday_evening : Datetime
friday_evening = record { is_aware = true; micros = pos 127_800_000_000 }

-- 9:00 and 9:10 of 1970-01-05
abbrev monday_open : Datetime
monday_open = record { is_aware = true; micros = pos 345_600_000_000 }

abbrev monday_later : Datetime
monday_later = record { is_aware = true; micros = pos 346_200_000_000 }

phase_change_next_example :
    (local : ℕ) × (delta : ℕ) × (kst friday_evening ≡ ok local)
    × (seconds_until_phase_change friday_evening ≡ ok delta)
    × (0 < delta)
    × ((delta ≤ 3_600_000_000) ⊎ (phase_of (local + 3_600_000_000) ≡ phase_of local))
    × (phase_of (local + delta) ≢ phase_of local)
phase_change_next_example = phase_change_next friday_evening 3_600_000_000 refl

-- the weekend lasts 59 hours and a half
until_monday : seconds_until_phase_change friday_evening ≡ ok 214_200_000_000
unfolding seconds_until_phase_change danta.Common.Int.◌+ℤ◌
until_monday = refl

krx_minutes_of_seconds_example :
    krx_regular_trading_minutes_between monday_open monday_later
    ≡ ok (
        regular_count 62_135_974_800_000_000 (62_135_975_400_000_000 - 62_135_974_800_000_000)
        / 60_000_000)
unfolding kst danta.Common.Int.◌+ℤ◌
krx_minutes_of_seconds_example =
    krx_minutes_of_seconds monday_open monday_later 62_135_974_800 62_135_975_400 refl refl
      (omega arith) (omega arith)

-- 786 minutes of trading to the microsecond, but the floats of the three days add up to a little less
lost_minute :
    krx_regular_trading_minutes_between
      (record { is_aware = true; micros = pos 1_785_717_383_675_157 })
      (record { is_aware = true; micros = pos 1_785_890_543_675_157 })
    ≡ ok 785
unfolding krx_regular_trading_minutes_between danta.Common.Int.◌+ℤ◌ danta.Common.Float.float_add
    danta.Common.Float.total_seconds
lost_minute = refl

ten_minutes : krx_regular_trading_minutes_between friday_evening monday_later ≡ ok 10
unfolding krx_regular_trading_minutes_between danta.Common.Int.◌+ℤ◌ danta.Common.Float.float_add
    danta.Common.Float.total_seconds
ten_minutes = refl
