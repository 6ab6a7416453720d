-- ===== src/Common/Time.antt =====
-- Python's `datetime`: whether it is timezone-aware, and the instant in microseconds.
use danta.Common.Int.{ℤ}
use mathlib.Core.Bool.{Bool, not}
use danta.Common.Tests.{if◌then◌else◌}

pub record Datetime : Type 0 where
  pub is_aware : Bool
  pub micros : ℤ

-- The two times cannot be compared if only one of them is aware.
abbrev pub incomparable : Datetime → Datetime → Bool
incomparable a b = if a.is_aware then not b.is_aware else b.is_aware
