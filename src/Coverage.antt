-- ===== src/Coverage.antt =====
-- src/danta/domain/intraday_coverage.py: which trading sessions of a symbol are stored and which are
-- missing. A date is the number of its day.
pub mod Partition
use danta.Common.{
  ℕ, zero, suc, ◌-◌, String, Bool, true, false, not, ◌&&◌, ◌||◌, Option, none, some, List, [], ◌∷◌,
  map, ltb, leb, eqb, if◌then◌else◌,
}
use danta.Common.Int.{ℤ, pos, pos_part, leb_ℤ}
use danta.Common.Lists.{length, any}
use danta.Common.Eq.{string_eq, ◌==◌, member}
use danta.Common.Numbers.{nat_eq}
use danta.Common.Result.{Result, ok, err, value_error, key_error, ◌>>=◌, ◌>>◌, raise_if}

pub record WindowCoverage : Type 0 where
  pub window_days : ℕ
  pub completed_days : ℕ
  pub structural_ready : Bool

pub record IntradayCoveragePlan : Type 0 where
  pub symbol : String
  pub target_sessions : List ℕ
  pub completed_sessions : List ℕ
  pub missing_sessions : List ℕ
  pub windows : List WindowCoverage

abbrev pub caught_up : IntradayCoveragePlan → Bool
caught_up plan = eqb (length plan.missing_sessions) 0

-- `plan.window(days)`; a `KeyError` carries the number of days, here none
unfoldable pub window : ℕ → List WindowCoverage → Result WindowCoverage
window days [] = err (key_error "days")
window days (item ∷ items) =
    let rest = window days items in if eqb item.window_days days then ok item else rest

-- `sorted(set(sessions))`
unfoldable pub put_session : ℕ → List ℕ → List ℕ
put_session session [] = session ∷ []
put_session session (other ∷ sessions) =
    let rest = put_session session sessions in
    if ltb session other
    then session ∷ other ∷ sessions
    else if eqb session other
    then other ∷ sessions
    else other ∷ rest

unfoldable pub sorted_set : List ℕ → List ℕ
unfolding put_session
sorted_set [] = []
sorted_set (session ∷ sessions) = put_session session (sorted_set sessions)

-- `listing_date is None or session >= listing_date`
abbrev pub listed : Option ℕ → ℕ → Bool
listed none session = true
listed (some listing_date) session = leb listing_date session

unfoldable pub keep : (ℕ → Bool) → List ℕ → List ℕ
keep test [] = []
keep test (session ∷ sessions) =
    let rest = keep test sessions in if test session then session ∷ rest else rest

-- `tuple(dict.fromkeys(windows))`, of the windows that are not in `seen`
unfoldable pub first_ones : List ℕ → List ℕ → List ℕ
first_ones seen [] = []
first_ones seen (days ∷ windows) =
    let fresh = first_ones (days ∷ seen) windows in
    let skipped = first_ones seen windows in if member days seen then skipped else days ∷ fresh

unfoldable pub drop_first : ℕ → List ℕ → List ℕ
drop_first zero sessions = sessions
drop_first (suc n) [] = []
drop_first (suc n) (session ∷ sessions) = drop_first n sessions

-- `target_sessions[-days:]`
abbrev pub last_ones : ℕ → List ℕ → List ℕ
last_ones days sessions = drop_first (length sessions - days) sessions

-- the body of the loop over the windows
unfoldable pub window_coverage : List ℕ → List ℕ → ℕ → WindowCoverage
unfolding keep drop_first
window_coverage stored target days =
    let required = last_ones days target in
    let completed = length (keep (λ session. member session stored) required) in
    record {
      window_days = days;
      completed_days = completed;
      structural_ready = eqb (length required) days && eqb completed days;
    }

abbrev pub plan_of : String → List ℕ → List ℕ → List ℕ → IntradayCoveragePlan
plan_of symbol target stored windows = record {
  symbol = symbol;
  target_sessions = target;
  completed_sessions = keep (λ session. member session stored) target;
  missing_sessions = keep (λ session. not (member session stored)) target;
  windows = map (window_coverage stored target) windows;
}

-- a window as it is given, which may be negative, once it is known to be positive
abbrev pub day_counts : List ℤ → List ℕ
day_counts windows = map pos_part windows

-- `strip` is `str.strip`.
unfoldable pub plan_intraday_coverage :
    (String → String) → String → List ℕ → List ℕ → Option ℕ → List ℤ → Result IntradayCoveragePlan
unfolding sorted_set keep first_ones window_coverage
plan_intraday_coverage strip symbol market_sessions stored listing_date windows = do
  let normalized_symbol = strip symbol
  raise_if (normalized_symbol == "") (value_error "symbol must not be blank")
  raise_if (eqb (length windows) 0 || any (λ days. leb_ℤ days (pos 0)) windows)
      (value_error "windows must contain positive day counts")
  let target = keep (listed listing_date) (sorted_set market_sessions)
  ok (plan_of normalized_symbol target stored (first_ones [] (day_counts windows)))
