-- ===== src/Queries/RowFilter.antt =====
-- pkg/sloop/queries/rangereadfilters.go and queryfilter.go: which rows a query keeps.
use sloop.Base.{
  Bool, true, false, not, ◌&&◌, ◌||◌, List, [], ◌∷◌, Option, none, some, map, if◌then◌else◌,
}
use sloop.Base.Bytes.{Bytes, codes, eqb, contains_bytes}
use sloop.Base.Outcome.{Outcome, ok, err, panic, running}
use sloop.GoTime.{Time, before, after}
use sloop.Common.{contains}
use sloop.Mock.{sort_strings}
use sloop.KubeExtractor.{
  Json, node_kind, namespace_kind, extract_event_info, extract_involved_object,
}
use sloop.Typed.Schema.{KubeWatchResult, ResourceSummary}
use sloop.Typed.SummaryKey
use sloop.Typed.EventCountKey
use sloop.Typed.ActivityKey

abbrev pub all_kinds : Bytes
all_kinds = codes "_all"

abbrev pub all_namespaces : Bytes
all_namespaces = codes "_all"

-- The parameters of a query, empty where they are not set.
pub record Selected : Type 0 where
  pub kind : Bytes
  pub namespace : Bytes
  pub name_match : Bytes
  pub name : Bytes
  pub uuid : Bytes

-- What a call gives, `false` where it fails.
unfoldable pub test_ok : {A : Type 0} → (A → Bool) → Outcome A → Bool
test_ok test (ok a) = test a
test_ok test (err e) = false
test_ok test panic = false
test_ok test running = false

-- strings.EqualFold is an argument.
module _ (equal_fold : Bytes → Bytes → Bool) where
  unfoldable pub keep_row_helper : Bytes → Bytes → Bytes → Selected → Bytes → Bool
  keep_row_helper name kind namespace sel uuid =
      if not (eqb sel.kind all_kinds) && not (eqb sel.kind kind)
      then false
      else if eqb sel.kind all_kinds
          && (not (eqb sel.namespace all_namespaces) && eqb kind node_kind)
      then false
      else if (not (eqb sel.namespace all_namespaces) && not (eqb sel.kind node_kind))
          && not (eqb sel.namespace (if eqb kind namespace_kind then name else namespace))
      then false
      else if not (eqb sel.name_match []) && not (contains_bytes name sel.name_match)
      then false
      else if not (eqb sel.name []) && not (equal_fold name sel.name)
      then false
      else if not (eqb sel.uuid []) && not (eqb sel.uuid uuid)
      then false
      else true

  unfoldable pub param_filter_res_sum_fn : Selected → Bytes → Bool
  unfolding keep_row_helper test_ok
  param_filter_res_sum_fn sel key =
      test_ok (λ k. keep_row_helper k.name k.kind k.namespace sel k.uid) (SummaryKey.parse key)

  -- The name and the uuid are not asked.
  unfoldable pub param_event_count_sum_fn : Selected → Bytes → Bool
  unfolding keep_row_helper test_ok
  param_event_count_sum_fn sel key =
      test_ok
        (λ k. keep_row_helper k.name k.kind k.namespace (record sel { name = []; uuid = [] }) [])
        (EventCountKey.parse key)

  unfoldable pub param_filter_watch_activity_fn : Selected → Bytes → Bool
  unfolding keep_row_helper test_ok
  param_filter_watch_activity_fn sel key =
      test_ok (λ k. keep_row_helper k.name k.kind k.namespace sel k.uid) (ActivityKey.parse key)

unfoldable pub out_of_range : Time → Time → Time → Time → Bool
out_of_range start_time end_time first last = after first end_time || before last start_time

module _ {TS : Type 0} (timestamp : TS → Option Time) where
  unfoldable pub is_res_summary_val_in_time_range : Time → Time → ResourceSummary TS → Bool
  unfolding out_of_range
  is_res_summary_val_in_time_range start_time end_time val = elim (timestamp val.first_seen) [
    | none ↦ false
    | some first_seen ↦ elim (timestamp val.last_seen) [
      | none ↦ false
      | some last_seen ↦ not (out_of_range start_time end_time first_seen last_seen)
    ]
  ]

  unfoldable pub is_res_payload_in_time_range : Time → Time → KubeWatchResult TS → Bool
  unfolding out_of_range
  is_res_payload_in_time_range start_time end_time val = elim (timestamp val.timestamp) [
    | none ↦ false
    | some res_time ↦ not (out_of_range start_time end_time res_time res_time)
  ]

  unfoldable pub is_event_val_in_time_range : Json → Time → Time → KubeWatchResult TS → Bool
  unfolding out_of_range test_ok
  is_event_val_in_time_range js start_time end_time val =
      test_ok
        (λ info. not (out_of_range start_time end_time info.first_timestamp info.last_timestamp))
        (extract_event_info js val.payload)

  unfoldable pub match_event_involved_object : Json → Selected → KubeWatchResult TS → Bool
  unfolding test_ok
  match_event_involved_object js sel val =
      test_ok (λ involved. eqb involved.kind sel.kind) (extract_involved_object js val.payload)

unfoldable pub is_namespace : Bytes → Bool
unfolding test_ok
is_namespace k = test_ok (λ key. eqb key.kind namespace_kind) (SummaryKey.parse k)

-- Whether a key is kept, and the kinds that were met; the map of kinds is changed for the caller.
unfoldable pub keep_resource_summary_kind : Bytes → List Bytes → Bool × List Bytes
unfolding contains
keep_resource_summary_kind key kind_exists = elim (SummaryKey.parse key) [
  | ok k ↦
      if contains kind_exists k.kind then (false, kind_exists) else (true, k.kind ∷ kind_exists)
  | err e ↦ (false, kind_exists)
  | panic ↦ (false, kind_exists)
  | running ↦ (false, kind_exists)
]

-- The distinct values of a field, in the order in which they are met.
unfoldable pub distinct : List Bytes → List Bytes → List Bytes
unfolding contains
distinct seen [] = []
distinct seen (x ∷ xs) =
    let rest_seen = distinct seen xs in
    let rest_new = distinct (x ∷ seen) xs in if contains seen x then rest_seen else x ∷ rest_new

unfoldable pub res_sum_rows_to_namespace_strings : List SummaryKey.ResourceSummaryKey → List Bytes
unfolding distinct
res_sum_rows_to_namespace_strings keys = sort_strings (distinct [] (map (λ k. k.name) keys))

unfoldable pub res_sum_rows_to_kind_strings : List SummaryKey.ResourceSummaryKey → List Bytes
unfolding distinct
res_sum_rows_to_kind_strings keys = sort_strings ([] ∷ distinct [] (map (λ k. k.kind) keys))
