-- ===== src/Queries/Run.antt =====
-- pkg/sloop/queries/queryd3heatmap.go, respayloadquery.go, eventquery.go, queryfilter.go, ressumquery.go:
-- the queries as a whole, from the tables to what is turned into JSON. Logs are left out.
pub mod Events
use sloop.Base.{
  ℕ, Bool, List, [], ◌∷◌, ◌++◌, Option, none, some, if◌then◌else◌, not, map, map_put, ◌≡◌, subst,
}
use sloop.Base.Int.{pos}
use sloop.Base.Bytes.{Bytes, codes}
use sloop.Base.Outcome.{Outcome, ok, err, panic, running, ◌>>=◌, >>=-eq-ok, is_key_not_found}
use sloop.GoTime.{ZonedTime, Time, Duration, zero_time}
use sloop.KubeExtractor.{event_kind, is_clusters_scoped_resource}
use sloop.Mock.{MockTxn}
use sloop.Typed.Schema.{
  WatchType, KubeWatchResult, ResourceSummary, ResourceEventCounts, WatchActivity,
}
use sloop.Typed.WatchKey.{WatchTableKey, same, to_string}
use sloop.Typed.SummaryKey.{ResourceSummaryKey}
use sloop.Typed.EventCountKey.{EventCountKey}
use sloop.Typed.ActivityKey.{WatchActivityKey}
use sloop.Typed.Tables.Watch
use sloop.Typed.Tables.Summary
use sloop.Typed.Tables.EventCount
use sloop.Typed.Tables.Activity
use sloop.Processing.Services.{Services}
use sloop.Processing.Watch.{get_seek_key}
use sloop.Queries.TimeFilter.{
  time_filter_res_sum_map, time_filter_events_map, time_filter_watch_activity_map,
  adjust_last_seen_time_map,
}
use sloop.Queries.RowFilter.{
  Selected, param_filter_res_sum_fn, param_event_count_sum_fn, param_filter_watch_activity_fn,
  is_res_payload_in_time_range, is_event_val_in_time_range, match_event_involved_object,
  is_res_summary_val_in_time_range, is_namespace, res_sum_rows_to_namespace_strings, all_namespaces,
}
use sloop.Queries.Payloads.{
  PayloadOutput, get_key_comparator, get_payload_output_list, remove_dupe_payloads,
}
use sloop.Queries.Payloads.Replay.{NoRepeats, IsSortedByTime, dupes_replay}
use sloop.Queries.HeatMap.{
  TimelineRow, res_sum_rows_to_d3_gantt_map, event_counts_to_overlay_map,
  merge_heatmap_with_resources, watch_activity_to_map, merge_heatmap_with_watch_activity,
  convert_heatmap_to_slice, adjust_overlays,
}

-- 30 * time.Minute
abbrev resync : Duration
resync = pos 1_800_000_000_000

-- The rows that are read.
pub record RawData (TS : Type 0) : Type 0 where
  pub events : List (EventCountKey × ResourceEventCounts)
  pub resources : List (ResourceSummaryKey × ResourceSummary TS)
  pub watch_activity : List (WatchActivityKey × WatchActivity)

abbrev pub default_namespace : Bytes
default_namespace = codes "default"

pub record EventOutput : Type 0 where
  pub partition_id : Bytes
  pub namespace : Bytes
  pub name : Bytes
  pub watch_timestamp : Time
  pub kind : Bytes
  pub watch_type : WatchType
  pub payload : Bytes
  pub event_key : Bytes

-- The prefix of the keys of events about an object: their names go on behind a dot.
unfoldable pub event_key_prefix : Selected → WatchTableKey
unfolding is_clusters_scoped_resource
event_key_prefix params = record {
  partition_id = [];
  kind = event_kind;
  namespace =
      (if is_clusters_scoped_resource params.kind then default_namespace else params.namespace);
  name = params.name ++ codes ".";
  timestamp = zero_time;
}

unfoldable pub event_outputs :
    {TS : Type 0} → List (WatchTableKey × KubeWatchResult TS) → List EventOutput
event_outputs [] = []
event_outputs ((key, val) ∷ watch_events) =
    (record {
      partition_id = key.partition_id;
      namespace = key.namespace;
      name = key.name;
      watch_timestamp = key.timestamp;
      kind = key.kind;
      watch_type = val.watch_type;
      payload = val.payload;
      event_key = to_string key;
    })
    ∷ event_outputs watch_events

module _ (s : Services) (equal_fold : Bytes → Bytes → Bool) (f : ℕ) (d : Duration) (t : MockTxn)
    (start_time end_time : ZonedTime) where
  open s use {
    TS, timestamp, timestamp_proto, json, watch_codec, summary_codec, event_count_codec,
    activity_codec,
  }

  unfoldable pub get_raw_data_from_store : Selected → Outcome (RawData TS)
  get_raw_data_from_store params = do
    events ←
        EventCount.range_read event_count_codec t
          (some (param_event_count_sum_fn equal_fold params)) none f d none start_time end_time
    resources ←
        Summary.range_read summary_codec t (some (param_filter_res_sum_fn equal_fold params)) none f
          d none start_time end_time
    activity ←
        Activity.range_read activity_codec t
          (some (param_filter_watch_activity_fn equal_fold params)) none f d none start_time
          end_time
    ok (record { events = events.0; resources = resources.0; watch_activity = activity.0 })

  -- The rows of the timeline.
  unfoldable pub event_heat_map3_query : Selected → Outcome (List TimelineRow)
  unfolding get_raw_data_from_store
  event_heat_map3_query params = do
    raw ← get_raw_data_from_store params
    kept ←
        time_filter_res_sum_map timestamp timestamp_proto raw.resources start_time.instant
          end_time.instant
    events ← time_filter_events_map raw.events start_time.instant end_time.instant
    let activity =
        time_filter_watch_activity_map raw.watch_activity start_time.instant end_time.instant
    resources ← adjust_last_seen_time_map timestamp timestamp_proto kept end_time.instant resync
    rows ← res_sum_rows_to_d3_gantt_map timestamp resources
    overlays ← event_counts_to_overlay_map d events
    by_object ← watch_activity_to_map d activity
    let merged =
        merge_heatmap_with_watch_activity (merge_heatmap_with_resources rows overlays) by_object
    ok (convert_heatmap_to_slice (adjust_overlays merged overlays))

  -- The record at a previous key is added; a previous key that is gone is left out.
  unfoldable pub add_previous :
      Outcome WatchTableKey
      → List (WatchTableKey × KubeWatchResult TS)
      → Outcome (List (WatchTableKey × KubeWatchResult TS))
  unfolding map_put
  add_previous (ok previous_key) watch_res =
      elim (Watch.get watch_codec t (to_string previous_key)) [
        | ok previous_val ↦ ok (map_put same previous_key previous_val watch_res)
        | err e ↦ if is_key_not_found e then ok watch_res else err e
        | panic ↦ panic
        | running ↦ running
      ]
  add_previous (err e) watch_res = ok watch_res
  add_previous panic watch_res = panic
  add_previous running watch_res = running

  -- The records of an object in the time of the query, and the last one before it.
  unfoldable pub payloads_of : WatchTableKey → Outcome (List (WatchTableKey × KubeWatchResult TS))
  unfolding add_previous
  payloads_of key_comparator = do
    watch_res ←
        Watch.range_read watch_codec t none
          (some (
            Watch.val_predicate_fns watch_codec
              (is_res_payload_in_time_range timestamp start_time.instant end_time.instant ∷ [])))
          f d (some key_comparator) start_time end_time
    seek_key ← get_seek_key d key_comparator start_time
    add_previous (Watch.get_previous_key f d t seek_key key_comparator) watch_res.0

  unfoldable pub get_res_payload :
      (List PayloadOutput → List PayloadOutput) → Selected → Outcome (List PayloadOutput)
  unfolding payloads_of
  get_res_payload sort_slice params = do
    watch_res ← payloads_of (get_key_comparator params.namespace params.name params.kind)
    ok (remove_dupe_payloads sort_slice (get_payload_output_list watch_res))

  unfoldable pub get_event_data : Selected → Outcome (List EventOutput)
  unfolding event_key_prefix event_outputs
  get_event_data params = do
    watch_events ←
        Watch.range_read watch_codec t none
          (some (
            Watch.val_predicate_fns watch_codec (
              is_event_val_in_time_range timestamp json start_time.instant end_time.instant
              ∷ match_event_involved_object timestamp json params
              ∷ [])))
          f d (some (event_key_prefix params)) start_time end_time
    ok (event_outputs watch_events.0)

  unfoldable pub namespace_query : Outcome (List Bytes)
  namespace_query = do
    resources ←
        Summary.range_read summary_codec t (some is_namespace) none f d none start_time end_time
    ok (res_sum_rows_to_namespace_strings (map (λ r. r.0) resources.0) ++ all_namespaces ∷ [])

  -- One of the rows that are read, if there is any.
  unfoldable pub get_res_summary_data :
      Selected → Outcome (Option (ResourceSummaryKey × ResourceSummary TS))
  get_res_summary_data params = do
    resources ←
        Summary.range_read summary_codec t (some (param_filter_res_sum_fn equal_fold params))
          (some (is_res_summary_val_in_time_range timestamp start_time.instant end_time.instant)) f
          d none start_time end_time
    ok (elim resources.0 [ [] ↦ none | row ∷ rows ↦ some row ])

  -- With any sort by time, the payloads that are returned have none that repeats the one before it.
  get_res_payload-NoRepeats :
      (sort_slice : List PayloadOutput → List PayloadOutput) (params : Selected)
      (outputs : List PayloadOutput)
      → ((ps : List PayloadOutput) → IsSortedByTime (sort_slice ps))
      → get_res_payload sort_slice params ≡ ok outputs
      → NoRepeats [] outputs
  unfolding get_res_payload
  get_res_payload-NoRepeats sort_slice params outputs sorted h =
      let (watch_res, e, q) =
        >>=-eq-ok (payloads_of (get_key_comparator params.namespace params.name params.kind)) _ h in
      let same_outputs : remove_dupe_payloads sort_slice (get_payload_output_list watch_res)
          ≡ outputs =
        cc in
      subst (λ x. NoRepeats [] x) same_outputs
        (dupes_replay sort_slice sorted (get_payload_output_list watch_res)).0
