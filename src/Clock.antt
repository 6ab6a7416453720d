-- ===== src/Clock.antt =====
-- src/danta/services/market_session.py: the phases of a trading day in Korea, and the minutes of its
-- regular session. A local time counts the microseconds since the first day of year 1 at midnight in
-- Korea, which is nine hours ahead of UTC, as Asia/Seoul has been since 1988; its earlier offsets and the
-- overflow of a date at the ends of the calendar are left out. Day 0 is a Monday.
pub mod Step
pub mod Search
pub mod Change
pub mod Minutes
use danta.Common.{
  ℕ, zero, suc, ◌+◌, ◌-◌, ◌*◌, ◌/◌, ◌%◌, String, Bool, not, ◌&&◌, Option, none, some, List, [], ◌∷◌,
  ltb, leb, if◌then◌else◌,
}
use danta.Common.Int.{ℤ, pos, ◌+ℤ◌, pos_part, leb_ℤ}
use danta.Common.Float.{total_seconds, float_add, float_floordiv}
use danta.Common.Time.{Datetime}
use danta.Common.Result.{
  Result, ok, err, value_error, runtime_error, ◌>>=◌, ◌>>◌, raise_if, or_raise,
}

pub data TradingSessionPhase : Type 0 where
  dormant nxt_premarket nxt_with_krx_expected : TradingSessionPhase
  opening_plan_locked krx_regular nxt_aftermarket : TradingSessionPhase

-- microseconds of a day, and from the first day of year 1 to the epoch, plus nine hours
abbrev pub day_length : ℕ
day_length = 86_400_000_000

abbrev pub epoch_in_korea : ℕ
epoch_in_korea = 62_135_629_200_000_000

-- 8:00, 8:30, 8:50, 9:00, 15:30 and 20:00
abbrev pub nxt_open : ℕ
nxt_open = 28_800_000_000

abbrev pub krx_expected_open : ℕ
krx_expected_open = 30_600_000_000

abbrev pub opening_plan_lock : ℕ
opening_plan_lock = 31_800_000_000

abbrev pub krx_open : ℕ
krx_open = 32_400_000_000

abbrev pub krx_close : ℕ
krx_close = 55_800_000_000

abbrev pub nxt_close : ℕ
nxt_close = 72_000_000_000

-- `_kst`
unfoldable pub kst : Datetime → Result ℕ
kst value = do
  raise_if (not value.is_aware) (value_error "time must be timezone-aware")
  ok (pos_part (value.micros +ℤ pos epoch_in_korea))

-- `weekday() >= 5`
abbrev pub is_weekend : ℕ → Bool
is_weekend day = leb 5 (day % 7)

-- `low <= current < high`
abbrev pub from_to : ℕ → ℕ → ℕ → Bool
from_to low high current = leb low current && ltb current high

unfoldable pub phase_of : ℕ → TradingSessionPhase
phase_of local =
    let current = local % day_length in
    if is_weekend (local / day_length)
    then TradingSessionPhase.dormant
    else if from_to nxt_open krx_expected_open current
    then TradingSessionPhase.nxt_premarket
    else if from_to krx_expected_open opening_plan_lock current
    then TradingSessionPhase.nxt_with_krx_expected
    else if from_to opening_plan_lock krx_open current
    then TradingSessionPhase.opening_plan_locked
    else if from_to krx_open krx_close current
    then TradingSessionPhase.krx_regular
    else if from_to krx_close nxt_close current
    then TradingSessionPhase.nxt_aftermarket
    else TradingSessionPhase.dormant

unfoldable pub trading_session_phase : Datetime → Result TradingSessionPhase
unfolding kst phase_of
trading_session_phase at = do local ← kst at; ok (phase_of local)

abbrev pub boundaries : List ℕ
boundaries =
    nxt_open ∷ krx_expected_open ∷ opening_plan_lock ∷ krx_open ∷ krx_close ∷ nxt_close ∷ []

-- the inner loop, on the day that begins at `midnight`
unfoldable pub first_after : ℕ → ℕ → List ℕ → Option ℕ
first_after local midnight [] = none
first_after local midnight (boundary ∷ rest) =
    let later = first_after local midnight rest in
    if ltb local (midnight + boundary) then some (midnight + boundary - local) else later

-- the outer loop, for `n` days from `day` on
unfoldable pub search_days : ℕ → ℕ → ℕ → Option ℕ
unfolding first_after
search_days zero local day = none
search_days (suc n) local day =
    let rest = search_days n local (suc day) in
    if is_weekend day then rest else elim (first_after local (day * day_length) boundaries) [
      | some delta ↦ some delta
      | none ↦ rest
    ]

-- the delay in microseconds
unfoldable pub seconds_until_phase_change : Datetime → Result ℕ
unfolding kst search_days
seconds_until_phase_change at = do
  local ← kst at
  or_raise (search_days 9 local (local / day_length))
      (runtime_error "could not find the next trading session boundary")

-- `max(a, b)` and `min(a, b)`
abbrev pub later : ℕ → ℕ → ℕ
later a b = if ltb a b then b else a

abbrev pub earlier : ℕ → ℕ → ℕ
earlier a b = if ltb b a then b else a

-- the microseconds of the regular session of a day between two times; none if they do not overlap
unfoldable pub overlap : ℕ → ℕ → ℕ → ℕ
overlap start end day =
    let overlap_start = later start (day * day_length + krx_open) in
    let overlap_end = earlier end (day * day_length + krx_close) in
    if ltb overlap_start overlap_end then overlap_end - overlap_start else 0

-- `total_seconds += ...`, in floats, for a day that overlaps
unfoldable pub add_overlap : ℕ → ℕ → ℕ
add_overlap total micros = if ltb 0 micros then float_add total (total_seconds micros) else total

-- the loop over `n` days from `day` on; the total is a float
unfoldable pub session_time : ℕ → ℕ → ℕ → ℕ → ℕ → ℕ
unfolding overlap add_overlap
session_time zero total start end day = total
session_time (suc n) total start end day =
    session_time n (if is_weekend day then total else add_overlap total (overlap start end day))
      start end (suc day)

unfoldable pub minutes_between : ℕ → ℕ → ℕ
unfolding session_time float_floordiv
minutes_between start end =
    if leb end start
    then 0
    else float_floordiv
        (session_time (end / day_length - start / day_length + 1) 0 start end (start / day_length))
        60

unfoldable pub krx_regular_trading_minutes_between : Datetime → Datetime → Result ℕ
unfolding kst minutes_between
krx_regular_trading_minutes_between start end = do
  local_start ← kst start
  local_end ← kst end
  ok (minutes_between local_start local_end)
