-- ===== src/Partition.antt =====
-- pkg/sloop/store/untyped/partition.go, and the check of the duration in untyped/store.go. The
-- variable `partitionDuration` is an argument, the wall clock too.
pub mod Range
pub mod Sequence
pub mod Missed
use sloop.Base.{Bool, ◌&&◌, not, ◌≡◌, ◌⊎◌, refl, ◌≤◌, ◌<◌, ◌*◌, ℕ, arith, if◌then◌else◌}
use sloop.Base.Int.{ℤ, pos, eqb_ℤ}
use sloop.Base.Bytes.{Bytes, codes}
use sloop.Base.Bytes.Decimal.{format_padded, parse_int}
use sloop.Base.Outcome.{Outcome, ok, err, panic, ◌>>=◌, or_err, bad_number, bad_partition_duration}
use sloop.GoTime.{Time, ZonedTime, Duration, hour, day, unix, from_unix, add, sub, to_uint64, quot}

-- The hour or the day is that of the location of the time.
unfoldable pub get_partition_id : Duration → ZonedTime → Outcome Bytes
get_partition_id d t =
    if eqb_ℤ d hour
    then ok (format_padded 12 (to_uint64 (t.location.start_of_hour (unix t.instant))))
    else if eqb_ℤ d day
    then ok (format_padded 12 (to_uint64 (t.location.start_of_day (unix t.instant))))
    else panic

unfoldable pub get_time_for_partition : Bytes → Outcome Time
get_time_for_partition partition_id = do
  part_int ← or_err (parse_int partition_id) bad_number
  ok (from_unix part_int)

unfoldable pub get_time_range_for_partition : Duration → Bytes → Outcome (Time × Time)
unfolding get_time_for_partition
get_time_range_for_partition d partition_id = do
  oldest ← get_time_for_partition partition_id
  if eqb_ℤ d hour
      then ok (oldest, add oldest hour)
      else if eqb_ℤ d day
      then ok (oldest, add oldest day)
      else panic

-- Whole hours; the source turns the quotient into a float64.
unfoldable pub get_age_of_partition_in_hours : Time → Bytes → Outcome ℤ
unfolding get_time_for_partition
get_age_of_partition_in_hours now partition_id = do
  t ← get_time_for_partition partition_id
  ok (quot (sub now t) 3_600_000_000_000)

-- The guard at the head of `OpenStore`, before the database is opened.
unfoldable pub check_partition_duration : Duration → Outcome Duration
check_partition_duration d =
    if not (eqb_ℤ d hour) && not (eqb_ℤ d day) then err bad_partition_duration else ok d

-- The durations that `OpenStore` lets through, with their seconds.
abbrev pub IsPeriod : Duration → ℕ → Type 0
IsPeriod d k = ((d ≡ hour) × (k ≡ 3600)) ⊎ ((d ≡ day) × (k ≡ 86400))
