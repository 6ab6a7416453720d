-- ===== src/Coverage/Partition.antt =====
-- A plan divides the sessions since the listing into stored and missing ones.
use danta.Common.{
  ℕ, String, ◌≡◌, refl, ap, ◌∙◌, Bool, true, not, ◌&&◌, ◌||◌, Option, List, [], ◌∷◌, arith, ltb,
  eqb, inl, inr, Bool-cases,
}
use danta.Common.Int.{ℤ}
use danta.Common.Eq.{member}
use danta.Common.Numbers.{nat_eq}
use danta.Common.Result.{ok}
use danta.Coverage.{
  IntradayCoveragePlan, put_session, sorted_set, listed, keep, plan_of, first_ones, day_counts,
  plan_intraday_coverage,
}

member-put_session : (s n : ℕ) (l : List ℕ) → member s (put_session n l) ≡ (eqb n s || member s l)
unfolding member put_session
member-put_session s n [] = ground arith
member-put_session s n (x ∷ l) = ground (arith, member-put_session s n l)

member-sorted_set : (s : ℕ) (l : List ℕ) → member s (sorted_set l) ≡ member s l
unfolding member sorted_set
member-sorted_set s [] = refl
member-sorted_set s (x ∷ l) =
    member-put_session s x (sorted_set l) ∙ ap (λ b. eqb x s || b) (member-sorted_set s l)

member-keep :
    (test : ℕ → Bool) (s : ℕ) (l : List ℕ) → member s (keep test l) ≡ (member s l && test s)
unfolding member keep
member-keep test s [] = refl
member-keep test s (x ∷ l) =
    let same = (nat_eq.beq_iff x s).0 in
    elim (Bool-cases (eqb x s)) [
      | inl here ↦ ground (arith, ap test (same here), member-keep test s l)
      | inr there ↦ ground (arith, member-keep test s l)
    ]

-- every session is later than the one before it, and the first later than `n`
unfoldable pub after : ℕ → List ℕ → Bool
after n [] = true
after n (x ∷ l) = ltb n x && after x l

abbrev pub increasing : List ℕ → Bool
increasing [] = true
increasing (x ∷ l) = after x l

after-put_session :
    (n s : ℕ) (l : List ℕ) → ltb n s ≡ true → after n l ≡ true → after n (put_session s l) ≡ true
unfolding after put_session
after-put_session n s [] h k = ground arith
after-put_session n s (x ∷ l) h k = ground (arith, after-put_session x s l)

put_session-increasing :
    (s : ℕ) (l : List ℕ) → increasing l ≡ true → increasing (put_session s l) ≡ true
unfolding after put_session
put_session-increasing s [] h = refl
put_session-increasing s (x ∷ l) h = ground (arith, after-put_session x s l)

sorted_set-increasing : (l : List ℕ) → increasing (sorted_set l) ≡ true
unfolding sorted_set
sorted_set-increasing [] = refl
sorted_set-increasing (x ∷ l) = put_session-increasing x (sorted_set l) (sorted_set-increasing l)

after_mono : (n m : ℕ) (l : List ℕ) → ltb n m ≡ true → after m l ≡ true → after n l ≡ true
unfolding after
after_mono n m [] h k = refl
after_mono n m (x ∷ l) h k = ground arith

after-keep :
    (test : ℕ → Bool) (n : ℕ) (l : List ℕ) → after n l ≡ true → after n (keep test l) ≡ true
unfolding after keep
after-keep test n [] h = refl
after-keep test n (x ∷ l) h =
    let rest = after-keep test x l in ground (arith, rest, after_mono n x (keep test l))

later_increasing : (n : ℕ) (l : List ℕ) → after n l ≡ true → increasing l ≡ true
unfolding after
later_increasing n [] h = refl
later_increasing n (x ∷ l) h = ground arith

keep-increasing :
    (test : ℕ → Bool) (l : List ℕ) → increasing l ≡ true → increasing (keep test l) ≡ true
unfolding keep after
keep-increasing test [] h = refl
keep-increasing test (x ∷ l) h =
    ground (arith, after-keep test x l, later_increasing x (keep test l))

plan_made :
    (strip : String → String) (symbol : String) (market_sessions stored : List ℕ)
    (listing_date : Option ℕ) (windows : List ℤ) (plan : IntradayCoveragePlan)
    → plan_intraday_coverage strip symbol market_sessions stored listing_date windows ≡ ok plan
    → plan_of
        (strip symbol)
        (keep (listed listing_date) (sorted_set market_sessions))
        stored
        (first_ones [] (day_counts windows))
      ≡ plan
unfolding plan_intraday_coverage
plan_made strip symbol market stored listing_date windows plan h = ground arith

-- If a plan is made, its target sessions are the market's sessions since the listing, its completed
-- sessions those of them that are stored, its missing ones those that are not, and each of the three
-- stands in the order of time, without a repetition.
pub plan_intraday_coverage_partition :
    (strip : String → String) (symbol : String) (market_sessions stored : List ℕ)
    (listing_date : Option ℕ) (windows : List ℤ) (plan : IntradayCoveragePlan) (session : ℕ)
    → plan_intraday_coverage strip symbol market_sessions stored listing_date windows ≡ ok plan
    → (member session plan.target_sessions
        ≡ (member session market_sessions && listed listing_date session))
      × (member session plan.completed_sessions
          ≡ (member session plan.target_sessions && member session stored))
      × (member session plan.missing_sessions
          ≡ (member session plan.target_sessions && not (member session stored)))
      × (increasing plan.target_sessions ≡ true)
      × (increasing plan.completed_sessions ≡ true)
      × (increasing plan.missing_sessions ≡ true)
plan_intraday_coverage_partition strip symbol market stored listing_date windows plan session h =
    let target = keep (listed listing_date) (sorted_set market) in
    let inner : plan_of (strip symbol) target stored (first_ones [] (day_counts windows)) ≡ plan =
      plan_made strip symbol market stored listing_date windows plan h in
    let sorted =
      keep-increasing (listed listing_date) (sorted_set market) (sorted_set-increasing market) in
    rw (← inner) (
      member-keep (listed listing_date) session (sorted_set market)
          ∙ ap (λ b. b && listed listing_date session) (member-sorted_set session market),
      member-keep (λ s. member s stored) session target,
      member-keep (λ s. not (member s stored)) session target,
      sorted,
      keep-increasing (λ s. member s stored) target sorted,
      keep-increasing (λ s. not (member s stored)) target sorted,
    )
