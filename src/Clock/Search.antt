-- ===== src/Clock/Search.antt =====
-- The search of the next boundary: what it finds, and that it finds one.
use danta.Common.{
  ℕ, zero, suc, ◌+◌, ◌-◌, ◌*◌, ◌/◌, ◌%◌, ◌<◌, ◌≤◌, ◌≡◌, refl, ◌⊎◌, inl, inr, true, false, none,
  some, arith, ltb, Bool-cases, Option-cases, ltb→lt, ltb_false→le, ◌≢◌,
}
use danta.Clock.{day_length, nxt_close, is_weekend, boundaries, first_after, search_days}
use danta.Clock.Step.{is_boundary_time, is_boundary}

-- Nothing is passed between two times, the later one excluded.
abbrev pub Quiet : ℕ → ℕ → Type 0
Quiet from to = (n : ℕ) → from < n → n < to → is_boundary n ≡ false

-- a time of a day
day_of :
    (day t n : ℕ)
    → t < day_length
    → day * day_length + t ≡ n
    → (n / day_length ≡ day) × (n % day_length ≡ t)
day_of day t n h e = (omega (arith, h, e), omega (arith, h, e))

-- what the inner loop finds: the first boundary after `local`
hit :
    (local midnight delta : ℕ)
    → first_after local midnight boundaries ≡ some delta
    → (0 < delta)
      × (midnight ≤ local + delta)
      × (is_boundary_time (local + delta - midnight) ≡ true)
unfolding first_after
hit local midnight delta h = (ground arith, ground arith, ground arith)

hit_first :
    (local midnight delta t : ℕ)
    → first_after local midnight boundaries ≡ some delta
    → local < midnight + t
    → midnight + t < local + delta
    → is_boundary_time t ≡ false
unfolding first_after
hit_first local midnight delta t h after before = ground arith

miss :
    (local midnight : ℕ)
    → first_after local midnight boundaries ≡ none
    → (midnight + nxt_close ≤ local)
unfolding first_after
miss local midnight h = ground arith

after_close : (t : ℕ) → nxt_close < t → is_boundary_time t ≡ false
after_close t h = ground arith

boundary_time-lt : (t : ℕ) → is_boundary_time t ≡ true → t < day_length
boundary_time-lt t h = ground arith

-- the day and the time of a moment of a day
on_day :
    (day n : ℕ)
    → day * day_length ≤ n
    → n < suc day * day_length
    → (n / day_length ≡ day) × (n % day_length ≡ n - day * day_length)
on_day day n low high = (omega arith, omega arith)

Quiet-weekend :
    (local day : ℕ)
    → is_weekend day ≡ true
    → Quiet local (day * day_length)
    → Quiet local (suc day * day_length)
Quiet-weekend local day weekend quiet m after before =
    elim (Bool-cases (ltb m (day * day_length))) [
      | inl earlier ↦ quiet m after (omega (arith, ltb→lt m (day * day_length) earlier))
      | inr on ↦
          let (day_is, _) = on_day day m (ltb_false→le m (day * day_length) on) before in
          rw (day_is, weekend) refl
    ]

Quiet-after_close :
    (local day : ℕ)
    → day * day_length + nxt_close ≤ local
    → Quiet local (day * day_length)
    → Quiet local (suc day * day_length)
Quiet-after_close local day closed quiet m after before =
    let low : day * day_length ≤ m = omega (arith, closed, after) in
    let (_, time_is) = on_day day m low before in
    let late : is_boundary_time (m - day * day_length) ≡ false =
      after_close (m - day * day_length) (omega (arith, closed, after)) in
    rw time_is (ground (arith, late))

boundary_found :
    (local day delta : ℕ)
    → is_weekend day ≡ false
    → first_after local (day * day_length) boundaries ≡ some delta
    → Quiet local (day * day_length)
    → (0 < delta) × (is_boundary (local + delta) ≡ true) × Quiet local (local + delta)
boundary_found local day delta weekday h quiet =
    let (positive, low, is_time) = hit local (day * day_length) delta h in
    let short = boundary_time-lt (local + delta - day * day_length) is_time in
    let (day_is, time_is) = on_day day (local + delta) low (omega (arith, short)) in
    (
      positive,
      rw (day_is, weekday, time_is) is_time,
      λ m after before. elim (Bool-cases (ltb m (day * day_length))) [
        | inl earlier ↦ quiet m after (omega (arith, ltb→lt m (day * day_length) earlier))
        | inr on ↦
            let from : day * day_length ≤ m = ltb_false→le m (day * day_length) on in
            let (day_m, time_m) = on_day day m from (omega (arith, before, short, low)) in
            let no : is_boundary_time (m - day * day_length) ≡ false =
              hit_first local (day * day_length) delta (m - day * day_length) h
                (omega (arith, after, from)) (omega (arith, before, from)) in
            rw time_m (ground (arith, no))
      ],
    )

-- What the outer loop returns is the delay to the first boundary after `local`.
pub search_days-first :
    (n local day delta : ℕ)
    → search_days n local day ≡ some delta
    → Quiet local (day * day_length)
    → (0 < delta) × (is_boundary (local + delta) ≡ true) × Quiet local (local + delta)
unfolding search_days
search_days-first zero local day delta h quiet = absurd (ground arith)
search_days-first (suc n) local day delta h quiet = elim (Bool-cases (is_weekend day)) [
  | inl weekend ↦
      search_days-first n local (suc day) delta (ground arith)
        (Quiet-weekend local day weekend quiet)
  | inr weekday ↦ elim (Option-cases (first_after local (day * day_length) boundaries)) [
    | inl none_left ↦
        search_days-first n local (suc day) delta (ground arith)
          (Quiet-after_close local day (miss local (day * day_length) none_left) quiet)
    | inr (d, found) ↦
        let same : d ≡ delta = ground arith in
        rw (← same) (boundary_found local day d weekday found quiet)
  ]
]

-- Where the loop fails, each day that it looked at is of a weekend or over.
search_days-none :
    (n local day : ℕ)
    → search_days (suc n) local day ≡ none
    → ((is_weekend day ≡ true) ⊎ (day * day_length + nxt_close ≤ local))
      × (search_days n local (suc day) ≡ none)
unfolding search_days
search_days-none n local day h = elim (Bool-cases (is_weekend day)) [
  | inl weekend ↦ (inl weekend, ground arith)
  | inr weekday ↦ elim (Option-cases (first_after local (day * day_length) boundaries)) [
    | inl none_left ↦ (inr (miss local (day * day_length) none_left), ground arith)
    | inr (d, found) ↦ absurd (ground arith)
  ]
]

weekend_or_over :
    (local day : ℕ)
    → local < day * day_length
    → (is_weekend day ≡ true) ⊎ (day * day_length + nxt_close ≤ local)
    → 5 ≤ day % 7
weekend_or_over local day future c = ground arith

-- Four days are enough: of the three days after today one is a weekday.
pub search_days_never_none :
    (n local day : ℕ)
    → local < suc day * day_length
    → search_days (suc (suc (suc (suc n)))) local day ≢ none
search_days_never_none n local day today h =
    let (_, r1) = search_days-none (suc (suc (suc n))) local day h in
    let (c1, r2) = search_days-none (suc (suc n)) local (suc day) r1 in
    let (c2, r3) = search_days-none (suc n) local (suc (suc day)) r2 in
    let (c3, _) = search_days-none n local (suc (suc (suc day))) r3 in
    omega (
      arith,
      weekend_or_over local (suc day) today c1,
      weekend_or_over local (suc (suc day)) (omega (arith, today)) c2,
      weekend_or_over local (suc (suc (suc day))) (omega (arith, today)) c3,
    )
