-- ===== src/Processing/Activity.antt =====
-- pkg/sloop/processing/watchactivity.go: when an object was reported, with a change or without.
use sloop.Base.{Bool, false, not, [], ◌∷◌, ◌++◌, none, some, if◌then◌else◌}
use sloop.Base.Bytes.{eqb}
use sloop.Base.Outcome.{Outcome, ok, ◌>>=◌, or_err, bad_time}
use sloop.GoTime.{in_utc, Time, Duration, unix}
use sloop.Partition.{get_partition_id}
use sloop.KubeExtractor.{KubeMetadata, event_kind, extract_metadata}
use sloop.Mock.{MockTxn, Exec}
use sloop.Typed.Schema.{KubeWatchResult, WatchActivity}
use sloop.Typed.ActivityKey.{WatchActivityKey, new_key, to_string}
use sloop.Typed.Table.{then_exec}
use sloop.Typed.Tables.Activity
use sloop.Processing.Services.{Services}
use sloop.Processing.Watch.{get_last_kube_watch_result}

module _ (s : Services) (d : Duration) where
  open s use {TS, timestamp, json, activity_codec}

  unfoldable pub did_kube_watch_result_change :
      MockTxn → KubeWatchResult TS → KubeMetadata → Outcome Bool
  did_kube_watch_result_change t watch_rec metadata = do
    prev_watch ←
        get_last_kube_watch_result s d t watch_rec.timestamp watch_rec.kind metadata.namespace
          metadata.name
    elim prev_watch [
      | none ↦ ok false
      | some prev ↦ (do
        prev_metadata ← extract_metadata json prev.payload
        ok (not (eqb metadata.resource_version prev_metadata.resource_version)))
    ]

  unfoldable pub get_watch_activity :
      MockTxn
      → Time
      → KubeWatchResult TS
      → KubeMetadata
      → Outcome (WatchActivity × WatchActivityKey)
  get_watch_activity t time watch_rec metadata = do
    partition_id ← get_partition_id d (in_utc time)
    let key = new_key partition_id watch_rec.kind metadata.namespace metadata.name metadata.uid
    activity_record ← Activity.get_or_default activity_codec t (to_string key)
    ok (activity_record, key)

  unfoldable pub put_watch_activity : WatchActivity → WatchActivityKey → Exec (Unit {0})
  put_watch_activity activity_record key =
      Activity.set activity_codec (to_string key) activity_record

  unfoldable pub add_activity : Bool → Time → WatchActivity → WatchActivity
  add_activity resource_changed time r =
      if resource_changed
      then record r { changed_at = r.changed_at ++ unix time ∷ [] }
      else record r { no_change_at = r.no_change_at ++ unix time ∷ [] }

  -- The new row and its key.
  unfoldable pub activity_to_write :
      MockTxn → KubeWatchResult TS → KubeMetadata → Outcome (WatchActivity × WatchActivityKey)
  unfolding did_kube_watch_result_change get_watch_activity add_activity
  activity_to_write t watch_rec metadata = do
    resource_changed ← did_kube_watch_result_change t watch_rec metadata
    time ← or_err (timestamp watch_rec.timestamp) bad_time
    row ← get_watch_activity t time watch_rec metadata
    ok (add_activity resource_changed time row.0, row.1)

  unfoldable pub update_watch_activity_table : KubeWatchResult TS → KubeMetadata → Exec (Unit {0})
  unfolding activity_to_write put_watch_activity then_exec
  update_watch_activity_table watch_rec metadata t =
      if eqb watch_rec.kind event_kind
      then (ok tt, t)
      else then_exec (activity_to_write t watch_rec metadata)
          (λ row. put_watch_activity row.0 row.1) t
