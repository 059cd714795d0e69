-- ===== src/Queries/TimeRange.antt =====
-- pkg/sloop/queries/timerange.go: the start and the end of a query, and the filter on the times of
-- watch activity. The parameters of a query are three texts, empty if they are not set; the parsers of
-- package time are arguments.
pub mod Limits
use sloop.Base.{
  ℕ, Bool, true, false, ◌&&◌, ◌||◌, not, List, [], ◌∷◌, Option, none, some, if◌then◌else◌, keep,
}
use sloop.Base.Int.{ℤ, pos, negsuc, ◌-ℤ◌, ltb_ℤ, leb_ℤ}
use sloop.Base.Bytes.{Bytes, eqb}
use sloop.Base.Bytes.Decimal.{parse_int}
use sloop.Base.Outcome.{
  Outcome, ok, err, panic, running, ◌>>=◌, or_err, bad_number, bad_time, bad_duration,
  no_range_params, lookback_with_start, start_end_pair,
}
use sloop.GoTime.{Time, Duration, minute, add, sub, after, unix, from_unix}
use sloop.Partition.{get_time_range_for_partition}
use sloop.Mock.{MockDb}
use sloop.Typed.Tables.{get_min_and_max_partition}

-- minLookback
abbrev pub min_lookback : Duration
min_lookback = minute

-- -1 * d, which is d for the least duration
unfoldable pub negate : Duration → Duration
negate (pos n) = pos 0 -ℤ pos n
negate (negsuc n) =
    if ltb_ℤ (negsuc n) (negsuc 9_223_372_036_854_775_806) then negsuc n else pos 0 -ℤ negsuc n

-- The end of `computeTimeRangeInternal`: a range that ends beyond the end of time is shifted back, a
-- short one is made longer, a long one is cut.
unfoldable pub shift_back : Time → Time × Time → Time × Time
unfolding add sub negate
shift_back end_of_time (start, end) =
    if after end end_of_time
    then (add start (negate (sub end end_of_time)), add end (negate (sub end end_of_time)))
    else (start, end)

unfoldable pub widen : Time × Time → Time × Time
unfolding add sub negate
widen (start, end) =
    if ltb_ℤ (sub end start) min_lookback
    then (add end (negate min_lookback), end)
    else (start, end)

unfoldable pub cut : Duration → Time × Time → Time × Time
unfolding add sub negate
cut max_lookback (start, end) =
    if ltb_ℤ max_lookback (sub end start)
    then (add end (negate max_lookback), end)
    else (start, end)

unfoldable pub parse_unix_time_string : Bytes → Outcome Time
unfolding from_unix
parse_unix_time_string unix_str = do
  unix_num ← or_err (parse_int unix_str) bad_number
  ok (from_unix unix_num)

unfoldable pub get_time_range_from_start_end : Bytes → Bytes → Outcome (Time × Time)
unfolding parse_unix_time_string
get_time_range_from_start_end start_time_str end_time_str = do
  start ← parse_unix_time_string start_time_str
  end ← parse_unix_time_string end_time_str
  ok (start, end)

-- time.ParseDuration, and time.Parse with the layout of the program
module _ (parse_duration : Bytes → Option Duration) (parse_time : Bytes → Option Time) where
  unfoldable pub range_from_lookback : Time → Bytes → Bytes → Outcome (Time × Time)
  unfolding add negate
  range_from_lookback end_of_time look_back_val end_time_val = do
    end ← if eqb end_time_val [] then ok end_of_time else or_err (parse_time end_time_val) bad_time
    lookback ← or_err (parse_duration look_back_val) bad_duration
    ok (add end (negate lookback), end)

  -- The texts are those of the lookback, of the start and of the end.
  unfoldable pub compute_time_range_internal :
      Bytes → Bytes → Bytes → Time → Duration → Outcome (Time × Time)
  unfolding range_from_lookback get_time_range_from_start_end shift_back widen cut
  compute_time_range_internal look_back_val start_time_val end_time_val end_of_time max_lookback =
      if eqb start_time_val [] && (eqb end_time_val [] && eqb look_back_val [])
      then err no_range_params
      else if not (eqb look_back_val []) && not (eqb start_time_val [])
      then err lookback_with_start
      else if eqb look_back_val [] && (eqb start_time_val [] || eqb end_time_val [])
      then err start_end_pair
      else (do
        range ←
            if eqb look_back_val []
            then get_time_range_from_start_end start_time_val end_time_val
            else range_from_lookback end_of_time look_back_val end_time_val
        ok (cut max_lookback (widen (shift_back end_of_time range))))

-- The end of the newest partition, if that is not later than now.
unfoldable pub get_end_of_time : Time → Duration → MockDb → Outcome Time
get_end_of_time now d b = elim (get_min_and_max_partition b) [
  | err e ↦ ok now
  | panic ↦ panic
  | running ↦ running
  | ok none ↦ ok now
  | ok (some (min_partition, max_partition)) ↦ elim (get_time_range_for_partition d max_partition) [
    | err e ↦ ok now
    | panic ↦ panic
    | running ↦ running
    | ok (start, end) ↦ ok (if after end now then now else end)
  ]
]

unfoldable pub time_filter_watch_activity_occurrences : List ℤ → Time → Time → List ℤ
unfolding unix keep
time_filter_watch_activity_occurrences occurrences query_start query_end =
    keep (λ when. leb_ℤ (unix query_start) when && leb_ℤ when (unix query_end)) occurrences
