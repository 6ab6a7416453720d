-- ===== src/Clock/Minutes.antt =====
-- The trading minutes between two times in whole seconds against the phases of the clock.
use danta.Common.{
  ℕ, zero, suc, ◌+◌, ◌-◌, ◌*◌, ◌/◌, ◌%◌, ◌^◌, ◌<◌, ◌≤◌, ◌≡◌, refl, ap, subst, ◌∙◌, inl, inr,
  Bool-cases, Bool, true, false, not, ◌&&◌, arith, ltb, leb, eqb, if◌then◌else◌,
}
use danta.Common.Float.{float_unit}
use danta.Common.Float.Whole.{total_seconds-whole, float_add-whole, float_floordiv-whole}
use danta.Common.Time.{Datetime}
use danta.Common.Result.{ok}
use danta.Clock.{
  TradingSessionPhase, day_length, krx_open, krx_close, is_weekend, from_to, kst, phase_of, overlap,
  add_overlap, session_time, minutes_between, krx_regular_trading_minutes_between,
}

abbrev pub is_regular : TradingSessionPhase → Bool
is_regular TradingSessionPhase.krx_regular = true
is_regular _ = false

-- how many of the `n` microseconds from `start` on are of the regular session
unfoldable pub regular_count : ℕ → ℕ → ℕ
regular_count start zero = 0
regular_count start (suc n) =
    regular_count start n + (if is_regular (phase_of (start + n)) then 1 else 0)

regular_phase :
    (n : ℕ)
    → is_regular (phase_of n)
      ≡ (not (is_weekend (n / day_length)) && from_to krx_open krx_close (n % day_length))
unfolding phase_of
regular_phase n = ground arith

-- one microsecond more, on one day
overlap-suc :
    (start end day : ℕ)
    → start ≤ end
    → overlap start (suc end) day
      ≡ overlap start end day
        + (if leb (day * day_length + krx_open) end && ltb end (day * day_length + krx_close)
            then 1
            else 0)
unfolding overlap
overlap-suc start end day h = ground arith

-- the microseconds of the regular session in `n` days from `day` on, between two times, without floats
unfoldable session_micros : ℕ → ℕ → ℕ → ℕ → ℕ
session_micros zero start end day = 0
session_micros (suc n) start end day =
    (if is_weekend day then 0 else overlap start end day) + session_micros n start end (suc day)

overlap_empty : (start day : ℕ) → overlap start start day ≡ 0
unfolding overlap
overlap_empty start day = ground arith

of_day :
    (end day : ℕ)
    → (leb (day * day_length + krx_open) end && ltb end (day * day_length + krx_close))
      ≡ (eqb (end / day_length) day && from_to krx_open krx_close (end % day_length))
of_day end day = ground arith

session_empty : (n start day : ℕ) → session_micros n start start day ≡ 0
unfolding session_micros
session_empty zero start day = refl
session_empty (suc n) start day =
    ground (arith, session_empty n start (suc day), overlap_empty start day)

-- whether a moment is of the regular session of one of the `n` days
abbrev regular_within : ℕ → ℕ → ℕ → Bool
regular_within n end day =
    leb day (end / day_length)
    && (ltb (end / day_length) (day + n)
        && (not (is_weekend (end / day_length)) && from_to krx_open krx_close (end % day_length)))

session-suc :
    (n start end day : ℕ)
    → start ≤ end
    → session_micros n start (suc end) day
      ≡ session_micros n start end day + (if regular_within n end day then 1 else 0)
unfolding session_micros
session-suc zero start end day h = ground arith
session-suc (suc n) start end day h =
    ground (arith, session-suc n start end (suc day) h, overlap-suc start end day h, of_day end day)

-- the moments between the two times are of the days that the loop looks at
in_range :
    (n start day len : ℕ)
    → day ≡ start / day_length
    → start + len < (day + n) * day_length
    → (day ≤ (start + len) / day_length) × ((start + len) / day_length < day + n)
in_range n start day len e room = (omega (arith, e), omega (arith, room))

session-count :
    (n start day len : ℕ)
    → day ≡ start / day_length
    → start + len ≤ (day + n) * day_length
    → session_micros n start (start + len) day ≡ regular_count start len
unfolding regular_count
session-count n start day zero e room =
    ap (λ k. session_micros n start k day) (omega arith) ∙ session_empty n start day
session-count n start day (suc len) e room =
    let one_more : start + suc len ≡ suc (start + len) = omega arith in
    rw one_more (
      session-suc n start (start + len) day (omega arith)
      ∙ rw (session-count n start day len e (omega (arith, room)), regular_phase)
          (ap (λ b. regular_count start len + (if b then 1 else 0))
            (ground (arith, in_range n start day len e (omega (arith, room))))))

regular_count-le : (start n : ℕ) → regular_count start n ≤ n
unfolding regular_count
regular_count-le start zero = omega arith
regular_count-le start (suc n) = ground (arith, regular_count-le start n)

overlap-seconds :
    (s e day : ℕ) → (w : ℕ) × (overlap (s * 1_000_000) (e * 1_000_000) day ≡ w * 1_000_000)
unfolding overlap
overlap-seconds s e day = (overlap (s * 1_000_000) (e * 1_000_000) day / 1_000_000, ground arith)

-- One day more, with a total of `acc` seconds: the new total is a number of seconds too.
add_overlap-seconds :
    (acc w : ℕ)
    → acc + w < 2 ^ 53
    → add_overlap (acc * float_unit) (w * 1_000_000) ≡ (acc + w) * float_unit
unfolding add_overlap
add_overlap-seconds acc zero small = ap (λ n. n * float_unit) (omega arith)
add_overlap-seconds acc (suc w) small =
    let positive : ltb 0 (suc w * 1_000_000) ≡ true = ground arith in
    rw (positive, total_seconds-whole (suc w) (omega (arith, small)))
      (float_add-whole acc (suc w) small)

session-seconds :
    (n acc s e day : ℕ)
    → acc * 1_000_000 + session_micros n (s * 1_000_000) (e * 1_000_000) day < 2 ^ 53 * 1_000_000
    → (total : ℕ) × (session_time n (acc * float_unit) (s * 1_000_000) (e * 1_000_000) day
        ≡ total * float_unit)
      × (total * 1_000_000 ≡ acc * 1_000_000 + session_micros n (s * 1_000_000) (e * 1_000_000) day)
unfolding session_time session_micros
session-seconds zero acc s e day small = (acc, refl, omega arith)
session-seconds (suc n) acc s e day small =
    let (w, whole) = overlap-seconds s e day in
    elim (Bool-cases (is_weekend day)) [
      | inl weekend ↦
          let (total, floats, exact) =
            session-seconds n acc s e (suc day) (ground (arith, small)) in
          (total, rw weekend floats, ground (arith, exact))
      | inr weekday ↦
          let small' : (acc + w) * 1_000_000
                + session_micros n (s * 1_000_000) (e * 1_000_000) (suc day)
              < 2 ^ 53 * 1_000_000 =
            ground (arith, small, whole) in
          let (total, floats, exact) = session-seconds n (acc + w) s e (suc day) small' in
          let added = add_overlap-seconds acc w (omega (arith, small')) in
          (total, rw (weekday, whole, added) floats, ground (arith, exact, whole))
    ]

minutes-count :
    (s e : ℕ)
    → s < e
    → e < 2 ^ 53
    → minutes_between (s * 1_000_000) (e * 1_000_000)
      ≡ regular_count (s * 1_000_000) (e * 1_000_000 - s * 1_000_000) / 60_000_000
unfolding minutes_between
minutes-count s e before small =
    let from : ℕ = s * 1_000_000 in
    let to : ℕ = e * 1_000_000 in
    let n : ℕ = to / day_length - from / day_length + 1 in
    let day : ℕ = from / day_length in
    let until : from + (to - from) ≡ to = omega (arith, before) in
    let counted : session_micros n from to day ≡ regular_count from (to - from) =
      subst (λ x. session_micros n from x day ≡ regular_count from (to - from)) until
        (session-count n from day (to - from) refl (omega (arith, before))) in
    let bound = regular_count-le from (to - from) in
    let (total, floats, exact) =
      session-seconds n 0 s e day (omega (arith, counted, bound, small)) in
    let later : leb to from ≡ false = ground (arith, before) in
    rw (later, floats, float_floordiv-whole total) (omega (arith, exact, counted))

-- For two times in whole seconds, the first before the second, the trading minutes are the time between
-- them in which the clock in Korea shows the regular session, counted by the microsecond and rounded
-- down; the floats lose nothing then. The bound on the seconds since year 1 holds of every `datetime`.
pub krx_minutes_of_seconds :
    (start end : Datetime) (s e : ℕ)
    → kst start ≡ ok (s * 1_000_000)
    → kst end ≡ ok (e * 1_000_000)
    → s < e
    → e < 2 ^ 53
    → krx_regular_trading_minutes_between start end
      ≡ ok (regular_count (s * 1_000_000) (e * 1_000_000 - s * 1_000_000) / 60_000_000)
unfolding krx_regular_trading_minutes_between
krx_minutes_of_seconds start end s e h k before small =
    rw (h, k) (ap ok (minutes-count s e before small))
