-- ===== src/Processing/Watch.antt =====
-- pkg/sloop/processing/watch.go: the watch table, to which each watch record goes.
pub mod Stored
use sloop.Base.{ℕ, Bool, true, false, not, ◌&&◌, List, ◌++◌, [], Option, none, some, if◌then◌else◌}
use sloop.Base.Bytes.{Bytes, eqb}
use sloop.Base.Outcome.{Outcome, ok, err, panic, running, ◌>>=◌, or_err, bad_time}
use sloop.GoTime.{ZonedTime, in_utc, Time, Duration, zero_time}
use sloop.Partition.{get_partition_id}
use sloop.KubeExtractor.{KubeMetadata, node_kind, node_has_major_update, extract_metadata}
use sloop.Mock.{MockTxn, Exec, seek, new_iterator, valid_for_prefix, item_key}
use sloop.Typed.Schema.{KubeWatchResult}
use sloop.Typed.WatchKey.{WatchTableKey, watch_key, new_key, to_string, new_comparator}
use sloop.Typed.Table.{rune_255, then_exec, return, set_value, get_value, get_previous_key}
use sloop.Processing.Services.{Services}

-- The greatest key in the table with the prefix, by a reverse seek from behind the prefix.
unfoldable pub get_last_watch_key : MockTxn → WatchTableKey → Option Bytes
get_last_watch_key t key_prefix =
    let prefix = to_string key_prefix in
    let i =
      seek (prefix ++ rune_255) (new_iterator (record { prefix = prefix; reversed = true }) t) in
    if valid_for_prefix prefix i then item_key i else none

-- The key at which a previous record of the object is looked up: that of the given time.
unfoldable pub get_seek_key : Duration → WatchTableKey → ZonedTime → Outcome WatchTableKey
get_seek_key d key_comparator start_time = do
  p ← get_partition_id d start_time
  ok (new_key p key_comparator.kind key_comparator.namespace key_comparator.name start_time.instant)

module _ (s : Services) (d : Duration) where
  open s use {TS, timestamp, json, local, watch_codec}

  unfoldable pub to_watch_table_key : TS → Bytes → Bytes → Bytes → Outcome WatchTableKey
  to_watch_table_key ts kind namespace name = do
    time ← or_err (timestamp ts) bad_time
    p ← get_partition_id d (in_utc time)
    ok (new_key p kind namespace name time)

  unfoldable pub to_watch_table_key_prefix : TS → Bytes → Bytes → Bytes → Outcome WatchTableKey
  to_watch_table_key_prefix ts kind namespace name = do
    time ← or_err (timestamp ts) bad_time
    p ← get_partition_id d (in_utc time)
    ok (new_key p kind namespace name zero_time)

  -- `none` for the result nil, nil
  unfoldable pub get_last_kube_watch_result :
      MockTxn → TS → Bytes → Bytes → Bytes → Outcome (Option (KubeWatchResult TS))
  unfolding to_watch_table_key_prefix get_last_watch_key
  get_last_kube_watch_result t ts kind namespace name = do
    key_prefix ← to_watch_table_key_prefix ts kind namespace name
    elim (get_last_watch_key t key_prefix) [
      | none ↦ ok none
      | some prev_key ↦ (do
        prev_watch ← get_value watch_key watch_codec t prev_key
        ok (some prev_watch))
    ]

  unfoldable pub does_node_have_major_updates :
      MockTxn → KubeWatchResult TS → KubeMetadata → Outcome Bool
  unfolding get_last_kube_watch_result
  does_node_have_major_updates t watch_rec metadata = do
    prev_value ←
        get_last_kube_watch_result t watch_rec.timestamp watch_rec.kind metadata.namespace
          metadata.name
    elim prev_value [
      | none ↦ ok true
      | some prev ↦ node_has_major_update json prev.payload watch_rec.payload
    ]

  -- Whether the record is to be written, and at which key.
  unfoldable pub key_to_write :
      MockTxn → KubeWatchResult TS → KubeMetadata → Bool → Outcome (Option Bytes)
  unfolding to_watch_table_key does_node_have_major_updates
  key_to_write t watch_rec metadata keep_minor_node_updates = do
    key ← to_watch_table_key watch_rec.timestamp watch_rec.kind metadata.namespace metadata.name
    if eqb watch_rec.kind node_kind && not keep_minor_node_updates
        then (do
          has_updates ← does_node_have_major_updates t watch_rec metadata
          ok (if has_updates then some (to_string key) else none))
        else ok (some (to_string key))

  unfoldable pub write_at : KubeWatchResult TS → Option Bytes → Exec (Unit {0})
  unfolding return
  write_at watch_rec none = return tt
  write_at watch_rec (some k) = set_value watch_key watch_codec k watch_rec

  unfoldable pub update_kube_watch_table :
      KubeWatchResult TS → KubeMetadata → Bool → Exec (Unit {0})
  unfolding key_to_write then_exec write_at
  update_kube_watch_table watch_rec metadata keep_minor_node_updates t =
      then_exec (key_to_write t watch_rec metadata keep_minor_node_updates) (write_at watch_rec) t

  -- `now` is the time of the call; `f` bounds the partitions that are listed. A payload without
  -- metadata gives the empty uid.
  unfoldable pub get_uid_for_watch_entry :
      ℕ → Time → MockTxn → Bytes → Bytes → Bytes → Time → Outcome Bytes
  unfolding get_seek_key
  get_uid_for_watch_entry f now t kind namespace name time = do
    let comparator = new_comparator kind namespace name time
    seek_key ← get_seek_key d comparator (record { instant = now; location = local })
    previous_key ← get_previous_key watch_key f d t seek_key comparator
    previous_val ← get_value watch_key watch_codec t (to_string previous_key)
    elim (extract_metadata json previous_val.payload) [
      | ok metadata ↦ ok metadata.uid
      | err e ↦ ok []
      | panic ↦ panic
      | running ↦ running
    ]
