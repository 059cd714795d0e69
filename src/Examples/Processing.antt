-- ===== src/Examples/Processing.antt =====
-- The processing of the records of one pod.
use sloop.Base.{
  ℕ, zero, suc, Bool, true, false, ◌≡◌, ◌⊎◌, inl, inr, refl, ap, ◌∙◌, arith, List, [], ◌∷◌, Option,
  none, some, ◌&&◌,
}
use sloop.Base.Int.{ℤ, pos, negsuc, eqb_ℤ}
use sloop.Base.Bytes.{Bytes, codes, eqb}
use sloop.Base.Outcome.{Outcome, ok, err, marshal_failed}
use sloop.GoTime.{Time, hour}
use sloop.KubeExtractor.{event_kind, KubeInvolvedObject}
use sloop.Processing.Minutes.{update_event_count_table}
use sloop.Mock.{MockDb, MockTxn, Exec, lookup}
use sloop.Typed.Schema.{watch_add, watch_delete, KubeWatchResult, ResourceSummary, EventCounts}
use sloop.Processing.Runner.{
  State, Going, going, process_all, process_record, logged, log_failure, and_then,
}
use sloop.Processing.Watch.{update_kube_watch_table}
use sloop.Processing.Activity.{update_watch_activity_table}
use sloop.Processing.Summary.{update_resource_summary_table}
use sloop.Processing.Summary.Kept.{RowStays, summary_rows_stay}
use sloop.Processing.Summary.Row.{IsRowAfter, summary-IsRowAfter}
use sloop.Processing.Watch.Stored.{IsMinor, watch_record_stored}
use sloop.Processing.Watch.{to_watch_table_key}
use sloop.Processing.Runner.Frame.{process_record_frame}
use sloop.Processing.Minutes.{Target, add_minute, store_minutes}
use sloop.Processing.Minutes.Counts.{count_at, after_adding, minute_added}
use sloop.Processing.Minutes.Dropped.{nil_row_drops_counts}
use sloop.Typed.WatchKey.{WatchTableKey, watch_key, to_string}
use sloop.Typed.SummaryKey.{summary_key}
use sloop.Typed.Table.{get_value}
use sloop.Typed.Table.Written.{IsWritten}
use sloop.Examples.{partition}
use sloop.Examples.Services.{
  watch_codec, summary_codec, watch_codec-RoundTrips, services, first_time, second_time, pod,
  summary_codec-RoundTrips,
}
use sloop.Examples.Events.{sample}

abbrev added : KubeWatchResult Bool
added = record {
  timestamp = false;
  kind = codes "Pod";
  watch_type = watch_add;
  payload = codes "u1";
}

abbrev deleted : KubeWatchResult Bool
deleted = record {
  timestamp = true;
  kind = codes "Pod";
  watch_type = watch_delete;
  payload = codes "u1";
}

abbrev summary_text : Bytes
summary_text = codes "/ressum/001546311600/Pod/shop/web/u1"

-- The pod was added at the first time.
abbrev after_add : State
after_add = record {
  db = record { entries = (summary_text, 0 ∷ 0 ∷ 0 ∷ 0 ∷ []) ∷ [] };
  failures = [];
}

-- What the payload of the pod is taken to be about.
abbrev some_object : KubeInvolvedObject
some_object = record {
  kind = codes "Pod";
  name = codes "web";
  namespace = codes "shop";
  uid = codes "u1";
}

abbrev writing : MockTxn
writing = record { read_only = false; db = after_add.db }

abbrev watch_text : Bytes
watch_text = codes "/watch/001546311600/Pod/shop/web/1546311905000000000"

abbrev watched : MockTxn
watched = record writing {
  db = record {
    entries = (summary_text, 0 ∷ 0 ∷ 0 ∷ 0 ∷ []) ∷ (watch_text, 1 ∷ 2 ∷ 3 ∷ codes "Podu1") ∷ [];
  };
}

abbrev finished : MockTxn
finished = record writing {
  db = record {
    entries = (summary_text, 0 ∷ 1 ∷ 0 ∷ 1 ∷ []) ∷ (watch_text, 1 ∷ 2 ∷ 3 ∷ codes "Podu1") ∷ [];
  };
}

summary_updated :
    update_resource_summary_table services hour deleted (pod (codes "u1")) watched
    ≡ (ok tt, finished)
unfolding sloop.Base.Bytes.eqb sloop.Base.Bytes.Decimal.format_padded sloop.Base.Bytes.Split.split
    sloop.GoTime.unix sloop.GoTime.round_minute sloop.GoTime.unix_nano
    sloop.Partition.get_partition_id sloop.Mock.lookup sloop.Mock.insert sloop.Mock.get
    sloop.Mock.set sloop.Typed.SummaryKey.parse sloop.Typed.SummaryKey.to_string
    sloop.Typed.SummaryKey.new_key sloop.Typed.Table.set_value sloop.Typed.Table.get_value
    sloop.Processing.Summary.update_resource_summary_table sloop.Examples.Services.marshal_summary
    sloop.Examples.Services.unmarshal_summary
summary_updated = refl

watch_updated :
    update_kube_watch_table services hour deleted (pod (codes "u1")) false writing
    ≡ (ok tt, watched)
unfolding sloop.Base.Bytes.eqb sloop.Base.Bytes.Decimal.format_int
    sloop.Base.Bytes.Decimal.format_padded sloop.Base.Bytes.Decimal.parse_int
    sloop.Base.Bytes.Split.split sloop.GoTime.unix sloop.GoTime.round_minute sloop.GoTime.unix_nano
    sloop.Partition.get_partition_id sloop.Mock.insert sloop.Mock.set
    sloop.Typed.WatchKey.new_comparator sloop.Typed.WatchKey.parse sloop.Typed.WatchKey.to_string
    sloop.Typed.Table.set_value sloop.Processing.Watch.update_kube_watch_table
    sloop.Examples.Services.marshal_watch
watch_updated = refl

activity_refused :
    update_watch_activity_table services hour deleted (pod (codes "u1")) writing
    ≡ (err marshal_failed, writing)
unfolding sloop.Base.Bytes.eqb sloop.Base.Bytes.lt_bytes sloop.Base.Bytes.has_prefix
    sloop.Base.Bytes.Decimal.format_padded sloop.Base.Bytes.Split.split sloop.GoTime.unix
    sloop.GoTime.round_minute sloop.GoTime.unix_nano sloop.Partition.get_partition_id
    sloop.Mock.lookup sloop.Mock.get sloop.Mock.sort_strings sloop.Mock.search_strings
    sloop.Mock.new_iterator sloop.Mock.seek sloop.Mock.visit_prefix
    sloop.Typed.WatchKey.new_comparator sloop.Typed.WatchKey.to_string sloop.Typed.ActivityKey.parse
    sloop.Typed.ActivityKey.to_string sloop.Typed.ActivityKey.new_key sloop.Typed.Table.set_value
    sloop.Typed.Table.get_value sloop.Typed.Tables.Activity.get_or_default
    sloop.Processing.Watch.does_node_have_major_updates
    sloop.Processing.Activity.update_watch_activity_table sloop.Examples.Services.marshal_activity
activity_refused = refl

abbrev after_delete : State
after_delete = record { db = finished.db; failures = marshal_failed ∷ [] }

event_skipped :
    update_event_count_table services hour sample 9 second_time deleted
      (pod (codes "u1"))
      some_object
      writing
    ≡ (ok tt, writing)
unfolding update_event_count_table eqb
event_skipped = refl

logged_as :
    (fn : Exec (Unit {0})) (st : State) (r : Outcome (Unit {0})) (t' : MockTxn)
    → fn (record { read_only = false; db = st.db }) ≡ (r, t')
    → logged fn st ≡ log_failure r t'.db st.failures
unfolding logged sloop.Mock.update
logged_as fn st r t' e = ap (λ x. log_failure x.0 x.1.db st.failures) e

goes_on : (g : Going) (next : State → Going) (st : State) → g ≡ going st → and_then g next ≡ next st
unfolding and_then
goes_on g next st e = ap (λ x. and_then x next) e

abbrev counts_fn : Exec (Unit {0})
counts_fn =
    update_event_count_table services hour sample 9 second_time deleted (pod (codes "u1"))
      some_object

abbrev activity_fn : Exec (Unit {0})
activity_fn = update_watch_activity_table services hour deleted (pod (codes "u1"))

abbrev watch_fn : Exec (Unit {0})
watch_fn = update_kube_watch_table services hour deleted (pod (codes "u1")) false

abbrev summary_fn : Exec (Unit {0})
summary_fn = update_resource_summary_table services hour deleted (pod (codes "u1"))

abbrev refused : State
refused = record { db = after_add.db; failures = marshal_failed ∷ [] }

abbrev stored : State
stored = record { db = watched.db; failures = marshal_failed ∷ [] }

four_runs :
    and_then (logged counts_fn after_add) (λ st.
      and_then (logged activity_fn st) (λ st. and_then (logged watch_fn st) (logged summary_fn)))
    ≡ going after_delete
unfolding log_failure
four_runs =
    goes_on _ _ after_add (logged_as counts_fn after_add (ok tt) writing event_skipped)
    ∙ goes_on _ _ refused
        (logged_as activity_fn after_add (err marshal_failed) writing activity_refused)
    ∙ goes_on _ _ stored (logged_as watch_fn refused (ok tt) watched watch_updated)
    ∙ logged_as summary_fn stored (ok tt) finished summary_updated

run_delete :
    process_record services hour sample 9 false second_time deleted after_add ≡ going after_delete
unfolding process_record sloop.Processing.Runner.write_record sloop.Processing.Runner.value_or
    sloop.KubeExtractor.extract_metadata sloop.KubeExtractor.extract_involved_object
run_delete = four_runs

run_all :
    process_all services hour sample 9 false ((second_time, deleted) ∷ []) after_add
    ≡ going after_delete
unfolding process_all and_then
run_all = goes_on _ _ after_delete run_delete

summary_rows_stay_example : RowStays services summary_text after_add.db after_delete.db
summary_rows_stay_example =
    summary_rows_stay services hour sample 9 false ((second_time, deleted) ∷ []) after_add
      after_delete summary_text summary_codec-RoundTrips run_all

abbrev other_text : Bytes
other_text = codes "other"

process_record_frame_example :
    lookup other_text after_delete.db.entries ≡ lookup other_text after_add.db.entries
unfolding eqb sloop.Base.Bytes.Split.split sloop.Base.Bytes.Split.split_from sloop.Common.parse_key
    sloop.Common.check_parts sloop.Typed.WatchKey.parse sloop.Typed.ActivityKey.parse
    sloop.Typed.SummaryKey.parse
process_record_frame_example =
    process_record_frame services hour sample 9 false second_time deleted after_add after_delete
      other_text run_delete (λ k e. cc) (inr (refl, (λ k e. cc), (λ k e. cc)))

summary-IsRowAfter_example :
    (key : Bytes) × (v : ResourceSummary Bool) × IsWritten summary_key summary_codec key v watched
      (summary_fn watched).1
    × IsRowAfter services hour
        (get_value summary_key summary_codec watched key)
        deleted
        (pod (codes "u1"))
        v
unfolding eqb
summary-IsRowAfter_example =
    summary-IsRowAfter services hour watched deleted (pod (codes "u1")) summary_codec-RoundTrips
      refl (ap (λ x. x.0) summary_updated)

watch_record_stored_example :
    (IsMinor services hour writing deleted (pod (codes "u1")) false
      × ((watch_fn writing).1 ≡ writing))
    ⊎ ((k : WatchTableKey) × (to_watch_table_key services hour true
            (codes "Pod")
            (codes "shop")
            (codes "web")
          ≡ ok k)
        × IsWritten watch_key watch_codec (to_string k) deleted writing (watch_fn writing).1)
watch_record_stored_example =
    watch_record_stored services hour writing deleted (pod (codes "u1")) false
      watch_codec-RoundTrips (ap (λ x. x.0) watch_updated)

-- The largest int32 and one more.
abbrev old_counts : List (ℤ × EventCounts)
old_counts =
    (
      pos 60,
      record { map_reason_to_count = some ((codes "Failed:Warning", pos 2_147_483_647) ∷ []) },
    )
    ∷ []

abbrev new_counts : List (ℤ × EventCounts)
new_counts =
    (
      pos 60,
      record { map_reason_to_count = some ((codes "Failed:Warning", negsuc 2_147_483_647) ∷ []) },
    )
    ∷ []

minute_added_example :
    count_at (pos 60) (codes "Failed:Warning") new_counts
    ≡ after_adding
        (eqb_ℤ (pos 60) (pos 60) && eqb (codes "Failed:Warning") (codes "Failed:Warning"))
        (pos 1)
        (count_at (pos 60) (codes "Failed:Warning") old_counts)
        (count_at (pos 60) (codes "Failed:Warning") old_counts)
unfolding add_minute sloop.Processing.Minutes.add_count sloop.Processing.Minutes.add_to_map
    sloop.Processing.Minutes.count_of_reason sloop.Base.map_get sloop.Base.map_put
    sloop.Base.Int.to_int32 sloop.Base.Int.◌+ℤ◌ eqb
minute_added_example =
    minute_added (pos 60) (pos 60) (codes "Failed:Warning") (codes "Failed:Warning") (pos 1)
      old_counts new_counts refl

abbrev target : Target
target = record {
  kind = codes "Pod";
  namespace = codes "shop";
  name = codes "web";
  uid = codes "u1";
  reason = codes "Failed";
  severity = codes "Warning";
}

abbrev counts_text : Bytes
counts_text = codes "/eventcount/001546311600/Pod/shop/web/u1"

abbrev with_nil_row : MockTxn
with_nil_row = record { read_only = false; db = record { entries = (counts_text, []) ∷ [] } }

abbrev two_minutes : List (ℤ × ℤ)
two_minutes = (pos 1_546_311_840, pos 3) ∷ (pos 1_546_311_900, pos 4) ∷ []

nil_row_drops_counts_example :
    store_minutes services hour target two_minutes with_nil_row ≡ (ok tt, with_nil_row)
unfolding sloop.Base.Bytes.eqb sloop.Base.Bytes.Decimal.format_padded sloop.Base.Bytes.Split.split
    sloop.GoTime.unix sloop.GoTime.round_minute sloop.GoTime.to_uint64
    sloop.Partition.get_partition_id sloop.Mock.lookup sloop.Mock.get
    sloop.Typed.EventCountKey.parse sloop.Typed.EventCountKey.to_string
    sloop.Typed.EventCountKey.new_key sloop.Typed.Table.get_value
    sloop.Typed.Tables.EventCount.get_or_default sloop.Processing.Minutes.group_minutes
    sloop.Processing.Minutes.row_of_minute sloop.Examples.Services.unmarshal_counts
nil_row_drops_counts_example =
    nil_row_drops_counts services hour with_nil_row target two_minutes partition (pos 1_546_311_840)
      (pos 3) ((pos 1_546_311_900, pos 4) ∷ []) [] counts_text (record { map_min_to_events = none })
      refl refl refl
