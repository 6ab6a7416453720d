-- ===== src/Clock/Change.antt =====
-- The delay to the next phase.
use danta.Common.{
  ℕ, zero, suc, ◌+◌, ◌/◌, ◌<◌, ◌≤◌, ◌≡◌, ◌≢◌, ap, sym, ◌∙◌, true, false, inl, inr, ◌⊎◌, leb, leb→le,
  leb_false→lt, Bool-cases, arith, Option-cases,
}
use danta.Common.Int.{pos, ◌+ℤ◌, pos_part}
use danta.Common.Time.{Datetime}
use danta.Common.Result.{ok}
use danta.Clock.{day_length, epoch_in_korea, kst, phase_of, search_days, seconds_until_phase_change}
use danta.Clock.Step.{is_boundary, phase_kept, phase_changed}
use danta.Clock.Search.{Quiet, search_days-first, search_days_never_none}

-- Where nothing is passed the phase stays.
phase_quiet :
    (d local : ℕ)
    → ((n : ℕ) → local < n → n ≤ local + d → is_boundary n ≡ false)
    → phase_of (local + d) ≡ phase_of local
phase_quiet zero local quiet = ap phase_of (omega arith)
phase_quiet (suc d) local quiet =
    let one_more : local + suc d ≡ suc (local + d) = omega arith in
    rw one_more (
      phase_kept (local + d) (quiet (suc (local + d)) (omega arith) (omega arith))
      ∙ phase_quiet d local (λ n after before. quiet n after (omega (arith, before))))

-- Where a boundary ends a time without one, the phase changes.
phase_jump :
    (local delta : ℕ)
    → 0 < delta
    → is_boundary (local + delta) ≡ true
    → Quiet local (local + delta)
    → phase_of (local + delta) ≢ phase_of local
phase_jump local zero positive passed quiet e = omega (arith, positive)
phase_jump local (suc d) positive passed quiet e =
    let one_more : local + suc d ≡ suc (local + d) = omega arith in
    phase_changed (local + d) (rw (← one_more) passed) (
      rw (← one_more)
        (e ∙ sym (phase_quiet d local (λ n after before. quiet n after (omega (arith, before))))))

-- For every aware time a delay is found, it is positive, the phase of the clock in Korea is the same
-- as now after any shorter time `d`, and is another one at the end of the delay.
pub phase_change_next :
    (at : Datetime) (d : ℕ)
    → at.is_aware ≡ true
    → (local : ℕ) × (delta : ℕ) × (kst at ≡ ok local)
      × (seconds_until_phase_change at ≡ ok delta)
      × (0 < delta)
      × ((delta ≤ d) ⊎ (phase_of (local + d) ≡ phase_of local))
      × (phase_of (local + delta) ≢ phase_of local)
unfolding kst seconds_until_phase_change
phase_change_next at d aware =
    let local = pos_part (at.micros +ℤ pos epoch_in_korea) in
    elim (Option-cases (search_days 9 local (local / day_length))) [
      | inl failed ↦
          absurd (search_days_never_none 5 local (local / day_length) (omega arith) failed)
      | inr (delta, found) ↦
          let (positive, passed, quiet) =
            search_days-first 9 local (local / day_length) delta found
              (λ n after before. absurd (omega (arith, after, before))) in
          let kept : (delta ≤ d) ⊎ (phase_of (local + d) ≡ phase_of local) =
            elim (Bool-cases (leb delta d)) [
              | inl over ↦ inl (leb→le delta d over)
              | inr before ↦
                  let short = leb_false→lt delta d before in
                  inr (
                    phase_quiet d local
                      (λ n after within. quiet n after (omega (arith, short, within))))
            ] in
          (
            local,
            delta,
            ground arith,
            ground arith,
            positive,
            kept,
            phase_jump local delta positive passed quiet,
          )
    ]
