-- ===== src/Queries/TimeFilter.antt =====
-- pkg/sloop/queries/timerange.go and queryd3heatmap.go: the rows that lie in the time of a query, cut to
-- it.
pub mod Clip
use sloop.Base.{
  Bool, true, false, not, ◌&&◌, ◌||◌, List, [], ◌∷◌, Option, none, some, length, ◌==◌,
  if◌then◌else◌,
}
use sloop.Base.Outcome.{Outcome, ok, ◌>>=◌, or_err, bad_time}
use sloop.GoTime.{Time, Duration, add, before, after, equal}
use sloop.Typed.Schema.{ResourceSummary, ResourceEventCounts, WatchActivity}
use sloop.Queries.TimeRange.{time_filter_watch_activity_occurrences}

-- A Go map as a list of its entries. An entry that is filtered out is deleted.
unfoldable pub time_filter_watch_activity : WatchActivity → Time → Time → WatchActivity
unfolding time_filter_watch_activity_occurrences
time_filter_watch_activity activity query_start query_end = record {
  no_change_at = time_filter_watch_activity_occurrences activity.no_change_at query_start query_end;
  changed_at = time_filter_watch_activity_occurrences activity.changed_at query_start query_end;
}

unfoldable pub time_filter_watch_activity_map :
    {K : Type 0} → List (K × WatchActivity) → Time → Time → List (K × WatchActivity)
unfolding time_filter_watch_activity
time_filter_watch_activity_map [] query_start query_end = []
time_filter_watch_activity_map ((key, value) ∷ rows) query_start query_end =
    let filtered = time_filter_watch_activity value query_start query_end in
    let rest = time_filter_watch_activity_map rows query_start query_end in
    if length filtered.no_change_at == 0 && length filtered.changed_at == 0
    then rest
    else (key, filtered) ∷ rest

-- Every count is kept.
unfoldable pub time_filter_event_value : ResourceEventCounts → Time → Time → Outcome Bool
time_filter_event_value value query_start query_end = ok true

unfoldable pub time_filter_events_map :
    {K : Type 0}
    → List (K × ResourceEventCounts)
    → Time
    → Time
    → Outcome (List (K × ResourceEventCounts))
unfolding time_filter_event_value
time_filter_events_map [] query_start query_end = ok []
time_filter_events_map ((key, value) ∷ rows) query_start query_end = do
  kept ← time_filter_event_value value query_start query_end
  rest ← time_filter_events_map rows query_start query_end
  ok (if kept then (key, value) ∷ rest else rest)

-- ptypes.Timestamp and ptypes.TimestampProto are arguments.
module _ {TS : Type 0} (timestamp : TS → Option Time) (timestamp_proto : Time → Option TS) where
  -- The time, or the bound that it passes.
  unfoldable pub bounded : Bool → Time → TS → Outcome TS
  bounded passes bound ts = if passes then or_err (timestamp_proto bound) bad_time else ok ts

  -- `none` for a row that is not kept
  unfoldable pub time_filter_res_sum_value :
      ResourceSummary TS → Time → Time → Outcome (Option (ResourceSummary TS))
  unfolding bounded
  time_filter_res_sum_value value query_start query_end = do
    start_ts ← or_err (timestamp value.create_time) bad_time
    last_ts ← or_err (timestamp value.last_seen) bad_time
    if after start_ts query_end || before last_ts query_start then ok none else (do
      create_time ← bounded (before start_ts query_start) query_start value.create_time
      last_seen ← bounded (after last_ts query_end) query_end value.last_seen
      ok (some (record value { create_time = create_time; last_seen = last_seen })))

  unfoldable pub time_filter_res_sum_map :
      {K : Type 0}
      → List (K × ResourceSummary TS)
      → Time
      → Time
      → Outcome (List (K × ResourceSummary TS))
  unfolding time_filter_res_sum_value
  time_filter_res_sum_map [] query_start query_end = ok []
  time_filter_res_sum_map ((key, value) ∷ rows) query_start query_end = do
    kept ← time_filter_res_sum_value value query_start query_end
    rest ← time_filter_res_sum_map rows query_start query_end
    elim kept [ none ↦ ok rest | some v ↦ ok ((key, v) ∷ rest) ]

  -- A row that was seen less than the time between two listings before the end of the query is taken
  -- to last until then, unless it was deleted.
  unfoldable pub adjust_last_seen_time :
      ResourceSummary TS → Time → Duration → Outcome (ResourceSummary TS)
  unfolding add
  adjust_last_seen_time res_sum query_end resync =
      if res_sum.deleted_at_end then ok res_sum else (do
        last_ts ← or_err (timestamp res_sum.last_seen) bad_time
        if equal (add last_ts resync) query_end || after (add last_ts resync) query_end
            then (do
              last_seen ← or_err (timestamp_proto query_end) bad_time
              ok (record res_sum { last_seen = last_seen }))
            else ok res_sum)

  unfoldable pub adjust_last_seen_time_map :
      {K : Type 0}
      → List (K × ResourceSummary TS)
      → Time
      → Duration
      → Outcome (List (K × ResourceSummary TS))
  unfolding adjust_last_seen_time
  adjust_last_seen_time_map [] query_end resync = ok []
  adjust_last_seen_time_map ((key, value) ∷ rows) query_end resync = do
    v ← adjust_last_seen_time value query_end resync
    rest ← adjust_last_seen_time_map rows query_end resync
    ok ((key, v) ∷ rest)
