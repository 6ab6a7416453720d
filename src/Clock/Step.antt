-- ===== src/Clock/Step.antt =====
-- One microsecond: the phase changes exactly at the boundaries of a weekday.
use danta.Common.{
  ℕ, suc, ◌/◌, ◌%◌, ◌<◌, ◌≤◌, ◌≡◌, ◌≢◌, sym, ◌∙◌, ◌⊎◌, inl, inr, Bool, true, false, not, ◌&&◌, ◌||◌,
  arith, eqb, if◌then◌else◌,
}
use danta.Clock.{
  TradingSessionPhase, day_length, nxt_open, krx_expected_open, opening_plan_lock, krx_open,
  krx_close, nxt_close, is_weekend, from_to, phase_of,
}

-- a boundary of the day
abbrev pub is_boundary_time : ℕ → Bool
is_boundary_time t =
    eqb t nxt_open
    || (eqb t krx_expected_open
        || (eqb t opening_plan_lock || (eqb t krx_open || (eqb t krx_close || eqb t nxt_close))))

abbrev pub is_boundary : ℕ → Bool
is_boundary local = not (is_weekend (local / day_length)) && is_boundary_time (local % day_length)

-- The next microsecond is of the same day, or the first of the next one.
next_day :
    (n : ℕ)
    → ((suc n % day_length ≡ suc (n % day_length)) × (suc n / day_length ≡ n / day_length))
      ⊎ ((suc n % day_length ≡ 0)
          × (suc n / day_length ≡ suc (n / day_length))
          × (suc (n % day_length) ≡ day_length))
next_day n = ground arith

-- the phase by the weekday and the time of the day
abbrev phase_at : Bool → ℕ → TradingSessionPhase
phase_at weekend current =
    if weekend
    then TradingSessionPhase.dormant
    else if from_to nxt_open krx_expected_open current
    then TradingSessionPhase.nxt_premarket
    else if from_to krx_expected_open opening_plan_lock current
    then TradingSessionPhase.nxt_with_krx_expected
    else if from_to opening_plan_lock krx_open current
    then TradingSessionPhase.opening_plan_locked
    else if from_to krx_open krx_close current
    then TradingSessionPhase.krx_regular
    else if from_to krx_close nxt_close current
    then TradingSessionPhase.nxt_aftermarket
    else TradingSessionPhase.dormant

at_night :
    (weekend : Bool) (t : ℕ)
    → (t < nxt_open) ⊎ (nxt_close ≤ t)
    → phase_at weekend t ≡ TradingSessionPhase.dormant
at_night weekend t h = ground arith

same_phase :
    (weekend : Bool) (t : ℕ)
    → (not weekend && is_boundary_time (suc t)) ≡ false
    → phase_at weekend (suc t) ≡ phase_at weekend t
same_phase weekend t h = ground arith

new_phase : (t : ℕ) → is_boundary_time (suc t) ≡ true → phase_at false (suc t) ≢ phase_at false t
new_phase t h e = ground arith

-- The phase stays where no boundary is passed, and changes where one is.
pub phase_kept : (n : ℕ) → is_boundary (suc n) ≡ false → phase_of (suc n) ≡ phase_of n
unfolding phase_of
phase_kept n h = elim (next_day n) [
  | inl (time, day) ↦
      rw (time, day)
        (same_phase (is_weekend (n / day_length)) (n % day_length) (rw (← time, ← day) h))
  | inr (time, day, last) ↦
      at_night (is_weekend (suc n / day_length)) (suc n % day_length) (inl (omega (arith, time)))
      ∙ sym (at_night (is_weekend (n / day_length)) (n % day_length) (inr (omega (arith, last))))
]

pub phase_changed : (n : ℕ) → is_boundary (suc n) ≡ true → phase_of (suc n) ≢ phase_of n
unfolding phase_of
phase_changed n h = elim (next_day n) [
  | inl (time, day) ↦
      let weekday : is_weekend (n / day_length) ≡ false = ground (arith, time, day) in
      rw (time, day, weekday) (new_phase (n % day_length) (ground (arith, time, day)))
  | inr (time, day, last) ↦ absurd (ground (arith, time))
]
