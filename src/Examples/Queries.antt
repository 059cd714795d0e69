-- ===== src/Examples/Queries.antt =====
-- The time range of a query.
use sloop.Base.{ℕ, ◌≡◌, refl, arith, List, [], ◌∷◌, Option, none, some}
use sloop.Base.Int.{pos}
use sloop.Base.Bytes.{Bytes, codes}
use sloop.Base.Outcome.{ok}
use sloop.GoTime.{Time, Duration, hour}
use sloop.Queries.TimeRange.{compute_time_range_internal, min_lookback}
use sloop.Queries.TimeRange.Limits.{Lasts, range-Lasts}

-- A parser that reads one lookback, of two weeks, and no time.
abbrev two_weeks : Bytes → Option Duration
two_weeks text = some (pos 1_209_600_000_000_000_000)

abbrev no_time : Bytes → Option Time
no_time text = none

cut_range :
    compute_time_range_internal two_weeks no_time
      (codes "336h")
      []
      []
      (pos 1_546_311_600_000_000_000)
      hour
    ≡ ok (pos 1_546_308_000_000_000_000, pos 1_546_311_600_000_000_000)
unfolding compute_time_range_internal sloop.Base.Bytes.eqb
cut_range = refl

range-Lasts_example :
    Lasts min_lookback hour (pos 1_546_308_000_000_000_000, pos 1_546_311_600_000_000_000)
range-Lasts_example =
    range-Lasts two_weeks no_time (codes "336h") [] [] (pos 1_546_311_600_000_000_000)
      3_600_000_000_000 (omega arith) (omega arith) cut_range
