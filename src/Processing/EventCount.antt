-- ===== src/Processing/EventCount.antt =====
-- pkg/sloop/processing/eventcount.go: from two reports of one Kubernetes event to counts for each
-- minute.
pub mod Spread
pub mod Diff
pub mod Adjust
use sloop.Base.{
  ℕ, zero, suc, ◌+◌, ◌-◌, ◌/◌, ◌%◌, Bool, true, false, ◌||◌, ◌≡◌, List, [], ◌∷◌, Option, none, some,
  ltb, leb, ◌==◌, if◌then◌else◌,
}
use sloop.Base.Int.{ℤ, pos, negsuc, ◌+ℤ◌, ◌-ℤ◌, ltb_ℤ, leb_ℤ, eqb_ℤ, pos_part}
use sloop.Base.Bytes.{Bytes}
use sloop.KubeExtractor.{EventInfo}
use sloop.GoTime.{
  wrap_int, Time, Duration, zero_time, minute, add, sub, before, after, equal, unix, round_minute,
  quot,
}

-- `value / buckets`, and one more while the remainder exceeds the position: Go cuts towards zero, so
-- the remainder of a negative value exceeds no position.
unfoldable pub share : ℤ → ℕ → ℕ → ℤ
unfolding quot ◌-ℤ◌
share (pos n) buckets at = pos (n / buckets + (if ltb at (n % buckets) then 1 else 0))
share (negsuc n) buckets at = quot (negsuc n) buckets

-- The rounds of the loop from position `at` on.
unfoldable pub shares : ℤ → ℕ → ℕ → ℕ → List ℤ
unfolding share
shares value buckets zero at = []
shares value buckets (suc rounds) at = share value buckets at ∷ shares value buckets rounds (at + 1)

-- With 0 buckets the result is empty; so it is with fewer, since the loop makes no round.
unfoldable pub distribute_value : ℤ → ℤ → List ℤ
unfolding shares
distribute_value value (pos buckets) = shares value buckets buckets 0
distribute_value value (negsuc buckets) = []

-- int(math.Ceil(d.Minutes())), at least 1. The quotient is exact in a float64: both ends are whole
-- minutes, or the difference was cut to the largest duration, far from a whole minute.
unfoldable pub num_minutes : Duration → ℕ
num_minutes (pos n) = let m = (n + 59_999_999_999) / 60_000_000_000 in if ltb m 1 then 1 else m
num_minutes (negsuc n) = 1

-- The loop of `spreadOutEvents`: the map has one entry for each minute with a positive count.
unfoldable pub spread_minutes : Time → List ℤ → List (ℤ × ℤ)
spread_minutes this_minute [] = []
spread_minutes this_minute (c ∷ counts) =
    let rest = spread_minutes (add this_minute minute) counts in
    if ltb_ℤ (pos 0) c then (unix this_minute, c) ∷ rest else rest

unfoldable pub spread_out_events : Time → Time → ℤ → List (ℤ × ℤ)
unfolding distribute_value num_minutes spread_minutes
spread_out_events first_ts last_ts count =
    let first_round = round_minute first_ts in
    let last_round = round_minute last_ts in
    if equal first_round last_round
    then (unix first_round, count) ∷ []
    else spread_minutes first_round
        (distribute_value count (pos (num_minutes (sub last_round first_round))))

-- float64 arithmetic, as far as the program uses it.
pub record Float64 : Type 1 where
  pub F : Type 0
  -- float64(n), int(x), d.Seconds()
  pub of_int : ℤ → F
  pub to_int : F → ℤ
  pub seconds : Duration → F
  pub minus : F → F → F
  pub times : F → F → F
  pub over : F → F → F
  -- x <= 0
  pub not_positive : F → Bool

module _ (fl : Float64) where
  open fl use {of_int, to_int, seconds, minus, times, over, not_positive}

  unfoldable pub compute_events_diff : Option EventInfo → EventInfo → Time × Time × ℤ
  compute_events_diff none new = (new.first_timestamp, new.last_timestamp, new.count)
  compute_events_diff (some prev) new =
      if before prev.last_timestamp new.first_timestamp
      then (new.first_timestamp, new.last_timestamp, new.count)
      else if equal prev.last_timestamp new.last_timestamp
          || after prev.last_timestamp new.last_timestamp
      then (zero_time, zero_time, pos 0)
      else if equal prev.first_timestamp new.first_timestamp
      then (if ltb_ℤ new.count prev.count
          then (zero_time, zero_time, pos 0)
          else (prev.last_timestamp, new.last_timestamp, wrap_int (new.count -ℤ prev.count)))
      else (let old_seconds = seconds (sub prev.last_timestamp prev.first_timestamp) in
          let overlap_seconds = seconds (sub prev.last_timestamp new.first_timestamp) in
          if not_positive old_seconds
          then (zero_time, zero_time, pos 0)
          else (let pct_overlap = over overlap_seconds old_seconds in
              let new_count =
                wrap_int (new.count -ℤ to_int (times (of_int prev.count) pct_overlap)) in
              (
                prev.last_timestamp,
                new.last_timestamp,
                if ltb_ℤ new_count (pos 0) then pos 0 else new_count,
              )))

  -- minPartitionEndTime, maxPartitionStartTime and maxPartitionEndTime are the last three.
  unfoldable pub adjust_for_available_partitions :
      Time → Time → ℤ → Time → Time → Time → Time × Time × ℤ
  adjust_for_available_partitions first_ts last_ts count min_end max_start max_end =
      let begin = if equal min_end max_end then max_start else min_end in
      if before last_ts begin || after first_ts max_end
      then (begin, max_end, pos 0)
      else (let total_seconds = seconds (sub last_ts first_ts) in
          let keep_1 =
            if before first_ts begin
            then minus total_seconds (seconds (sub begin first_ts))
            else total_seconds in
          let keep_2 =
            if after last_ts max_end
            then minus keep_1 (seconds (sub last_ts max_end))
            else keep_1 in
          let pct_events_to_keep = over keep_2 total_seconds in
          (
            if before first_ts begin then begin else first_ts,
            if after last_ts max_end then max_end else last_ts,
            to_int (times (of_int count) pct_events_to_keep),
          ))
