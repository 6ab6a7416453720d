-- ===== src/Tests/Sessions.antt =====
-- src/danta/domain/intraday_coverage.py: three sessions, of which one is before the listing.
use danta.Common.{ℕ, String, ◌≡◌, refl, true, not, ◌&&◌, some, List, [], ◌∷◌}
use danta.Common.Int.{pos}
use danta.Common.Eq.{member}
use danta.Common.Numbers.{nat_eq}
use danta.Coverage.{IntradayCoveragePlan, listed, plan_of, plan_intraday_coverage}
use danta.Coverage.Partition.{increasing, plan_intraday_coverage_partition}

abbrev unstripped : String → String
unstripped s = s

abbrev market : List ℕ
market = 30 ∷ 10 ∷ 20 ∷ 30 ∷ []

abbrev stored : List ℕ
stored = 20 ∷ []

abbrev plan : IntradayCoveragePlan
plan = plan_of "005930" (20 ∷ 30 ∷ []) stored (7 ∷ [])

plan_intraday_coverage_partition_example :
    (member 30 plan.target_sessions ≡ (member 30 market && listed (some 15) 30))
    × (member 30 plan.completed_sessions ≡ (member 30 plan.target_sessions && member 30 stored))
    × (member 30 plan.missing_sessions ≡ (member 30 plan.target_sessions && not (member 30 stored)))
    × (increasing plan.target_sessions ≡ true)
    × (increasing plan.completed_sessions ≡ true)
    × (increasing plan.missing_sessions ≡ true)
unfolding plan_intraday_coverage member
plan_intraday_coverage_partition_example =
    plan_intraday_coverage_partition unstripped "005930" market stored (some 15) (pos 7 ∷ []) plan
      30 refl
