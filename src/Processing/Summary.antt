-- ===== src/Processing/Summary.antt =====
-- pkg/sloop/processing/resourcesummary.go: when an object was first and last seen in a partition, and
-- whether it was deleted.
pub mod Row
pub mod Kept
use sloop.Base.{Bool, true, false, not, List, [], ◌∷◌, map, Option, if◌then◌else◌}
use sloop.Base.Bytes.{Bytes, eqb}
use sloop.Base.Outcome.{Outcome, ok, err, panic, running, ◌>>=◌, or_err, bad_time, is_key_not_found}
use sloop.GoTime.{in_utc, Time, Duration}
use sloop.KubeExtractor.{KubeMetadata, KubeMetadataOwnerReference, event_kind}
use sloop.Mock.{MockTxn, Exec}
use sloop.Typed.Schema.{
  WatchType, watch_add, watch_update, watch_delete, KubeWatchResult, ResourceSummary,
}
use sloop.Typed.SummaryKey.{summary_key, new_key, to_string}
use sloop.Typed.Table.{then_exec, set_value, get_value}
use sloop.Processing.Services.{Services}

abbrev pub is_add : WatchType → Bool
is_add watch_add = true
is_add watch_update = false
is_add watch_delete = false

abbrev pub is_delete : WatchType → Bool
is_delete watch_delete = true
is_delete watch_add = false
is_delete watch_update = false

module _ (s : Services) (d : Duration) where
  open s use {TS, timestamp, timestamp_proto, json, summary_codec}

  -- typed.StringToProtobufTimestamp
  unfoldable pub string_to_protobuf_timestamp : Bytes → Outcome TS
  string_to_protobuf_timestamp text = do
    time ← or_err (json.parse_rfc3339 text) bad_time
    or_err (timestamp_proto time) bad_time

  -- The row before the record is taken in: a new one, or that of the store.
  unfoldable pub first_value :
      Outcome (ResourceSummary TS)
      → KubeMetadata
      → KubeWatchResult TS
      → Outcome (ResourceSummary TS)
  unfolding string_to_protobuf_timestamp
  first_value (err e) metadata watch_rec = if not (is_key_not_found e) then err e else (do
    create_time ← string_to_protobuf_timestamp metadata.creation_timestamp
    ok (record {
      first_seen = watch_rec.timestamp;
      last_seen = watch_rec.timestamp;
      create_time = create_time;
      deleted_at_end = false;
      relationships = [];
    }))
  first_value (ok value) metadata watch_rec = ok (
      if is_add watch_rec.watch_type
      then record value { first_seen = watch_rec.timestamp }
      else value)
  first_value panic metadata watch_rec = panic
  first_value running metadata watch_rec = running

  unfoldable pub get_resource_summary_value :
      MockTxn → Bytes → KubeMetadata → KubeWatchResult TS → Outcome (ResourceSummary TS)
  unfolding first_value
  get_resource_summary_value t key metadata watch_rec = do
    value ← first_value (get_value summary_key summary_codec t key) metadata watch_rec
    ok (record value {
      last_seen = watch_rec.timestamp;
      deleted_at_end = (if is_delete watch_rec.watch_type then true else value.deleted_at_end);
    })

  -- The keys of the owners.
  unfoldable pub get_relationships :
      Time → Bytes → List KubeMetadataOwnerReference → Outcome (List Bytes)
  get_relationships time namespace [] = ok []
  get_relationships time namespace (value ∷ refs) = do
    ref_key ← new_key d (in_utc time) value.kind namespace value.name value.uid
    rest ← get_relationships time namespace refs
    ok (to_string ref_key ∷ rest)

  -- The key of the row and what it is set to.
  unfoldable pub summary_to_write :
      MockTxn → KubeWatchResult TS → KubeMetadata → Outcome (Bytes × ResourceSummary TS)
  unfolding get_resource_summary_value get_relationships
  summary_to_write t watch_rec metadata = do
    time ← or_err (timestamp watch_rec.timestamp) bad_time
    k ← new_key d (in_utc time) watch_rec.kind metadata.namespace metadata.name metadata.uid
    value ← get_resource_summary_value t (to_string k) metadata watch_rec
    relationships ← get_relationships time metadata.namespace metadata.owner_references
    ok (to_string k, record value { relationships = relationships })

  unfoldable pub update_resource_summary_table : KubeWatchResult TS → KubeMetadata → Exec (Unit {0})
  unfolding summary_to_write then_exec
  update_resource_summary_table watch_rec metadata t =
      if eqb watch_rec.kind event_kind
      then (ok tt, t)
      else then_exec (summary_to_write t watch_rec metadata)
          (λ row. set_value summary_key summary_codec row.0 row.1) t
