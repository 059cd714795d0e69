-- ===== src/Queries/HeatMap.antt =====
-- pkg/sloop/queries/queryd3heatmap.go and types.go: the rows of the timeline. A Go map is a list of its
-- entries, in the order in which a loop visits them. The strings are those of Go; the JSON that is
-- made of the rows is left out, and so are the checks that only log.
pub mod Dates
pub mod Overlays
pub mod Rows
pub mod Shared
use sloop.Base.{
  ℕ, Bool, true, false, not, ◌&&◌, List, [], ◌∷◌, ◌++◌, Option, none, some, map, if◌then◌else◌,
  map_get, map_put,
}
use sloop.Base.Int.{ℤ, pos, ◌+ℤ◌, ◌-ℤ◌, ltb_ℤ, leb_ℤ, eqb_ℤ, to_int32}
use sloop.Base.Bytes.{Bytes, codes, eqb}
use sloop.Base.Bytes.Decimal.{format_int}
use sloop.Base.Outcome.{Outcome, ok, ◌>>=◌, or_err, bad_time}
use sloop.GoTime.{in_utc, Time, Duration, minute, unix, from_unix, add}
use sloop.Partition.{get_time_range_for_partition}
use sloop.KubeExtractor.{node_kind}
use sloop.Mock.{sort_strings}
use sloop.Typed.Schema.{ResourceSummary, EventCounts, ResourceEventCounts, WatchActivity}
use sloop.Typed.SummaryKey.{ResourceSummaryKey, same, new_key, set_partition_id}
use sloop.Typed.EventCountKey.{EventCountKey}
use sloop.Typed.ActivityKey.{WatchActivityKey}

pub record Overlay : Type 0 where
  pub text : Bytes
  pub start_date : ℤ
  pub duration : ℤ
  pub end_date : ℤ

pub record TimelineRow : Type 0 where
  pub text : Bytes
  pub duration : ℤ
  pub kind : Bytes
  pub namespace : Bytes
  pub overlays : List Overlay
  pub changed_at : List ℤ
  pub no_change_at : List ℤ
  pub start_date : ℤ
  pub end_date : ℤ

abbrev pub Rows : Type 0
Rows = List (ResourceSummaryKey × TimelineRow)

unfoldable pub take_newest : TimelineRow → TimelineRow → TimelineRow
take_newest left right = if ltb_ℤ right.end_date left.end_date then left else right

-- What an object gets, by the row that it has already.
unfoldable pub newest_of : TimelineRow → Option TimelineRow → TimelineRow
unfolding take_newest
newest_of new_row none = new_row
newest_of new_row (some row) = take_newest new_row row

module _ {TS : Type 0} (timestamp : TS → Option Time) where
  unfoldable pub res_sum_row_to_d3_gantt :
      ResourceSummaryKey → ResourceSummary TS → Outcome TimelineRow
  unfolding ◌-ℤ◌ unix
  res_sum_row_to_d3_gantt key value = do
    start_ts ← or_err (timestamp value.create_time) bad_time
    last_ts ← or_err (timestamp value.last_seen) bad_time
    ok (record {
      text = key.name;
      duration = unix last_ts -ℤ unix start_ts;
      kind = key.kind;
      namespace = key.namespace;
      overlays = [];
      changed_at = [];
      no_change_at = [];
      start_date = unix start_ts;
      end_date = unix last_ts;
    })

  -- The newest row of each object, over all partitions.
  unfoldable pub d3_gantt_loop :
      List (ResourceSummaryKey × ResourceSummary TS) → Rows → Outcome Rows
  unfolding res_sum_row_to_d3_gantt newest_of map_get map_put
  d3_gantt_loop [] result = ok result
  d3_gantt_loop ((key, value) ∷ summaries) result = do
    let k = set_partition_id key []
    new_row ← res_sum_row_to_d3_gantt k value
    d3_gantt_loop summaries (map_put same k (newest_of new_row (map_get same k result)) result)

  unfoldable pub res_sum_rows_to_d3_gantt_map :
      List (ResourceSummaryKey × ResourceSummary TS) → Outcome Rows
  unfolding d3_gantt_loop
  res_sum_rows_to_d3_gantt_map summaries = d3_gantt_loop summaries []

-- mapReasonToCount[reason] += count, an int32
unfoldable pub sum_reasons : List (Bytes × ℤ) → List (Bytes × ℤ) → List (Bytes × ℤ)
unfolding map_get map_put to_int32 ◌+ℤ◌
sum_reasons [] sums = sums
sum_reasons ((reason, count) ∷ counts) sums =
    let old : ℤ = elim (map_get eqb reason sums) [ none ↦ pos 0 | some n ↦ n ] in
    sum_reasons counts (map_put eqb reason (to_int32 (old +ℤ count)) sums)

-- The counts of a minute; a nil map has none.
unfoldable pub reasons_of : EventCounts → List (Bytes × ℤ)
unfolding sum_reasons
reasons_of c = elim c.map_reason_to_count [ none ↦ [] | some m ↦ sum_reasons m [] ]

-- "reason:count" for each of the sorted reasons, with a space between them.
unfoldable pub text_of_reasons : List Bytes → List (Bytes × ℤ) → Bytes
unfolding map_get
text_of_reasons [] counts = []
text_of_reasons (reason ∷ []) counts =
    reason
    ++ codes ":"
    ++ format_int (elim (map_get eqb reason counts) [ none ↦ pos 0 | some n ↦ n ])
text_of_reasons (reason ∷ next ∷ reasons) counts =
    let rest = text_of_reasons (next ∷ reasons) counts in
    reason
    ++ codes ":"
    ++ format_int (elim (map_get eqb reason counts) [ none ↦ pos 0 | some n ↦ n ])
    ++ codes " "
    ++ rest

unfoldable pub overlay_of_minute : ℤ → List (Bytes × ℤ) → Overlay
unfolding text_of_reasons unix from_unix add
overlay_of_minute bucket_min counts = record {
  text = text_of_reasons (sort_strings (map (λ c. c.0) counts)) counts;
  start_date = bucket_min;
  duration = pos 60;
  end_date = unix (add (from_unix bucket_min) minute);
}

-- sort.Slice by the start; the starts are distinct.
unfoldable pub insert_overlay : Overlay → List Overlay → List Overlay
insert_overlay o [] = o ∷ []
insert_overlay o (p ∷ ps) =
    let rest = insert_overlay o ps in
    if ltb_ℤ p.start_date o.start_date then p ∷ rest else o ∷ p ∷ ps

-- A minute without any reason has no overlay.
unfoldable pub overlays_of : List (ℤ × EventCounts) → List Overlay
unfolding insert_overlay overlay_of_minute reasons_of
overlays_of [] = []
overlays_of ((unix_minute, c) ∷ minutes) =
    let rest = overlays_of minutes in
    elim (reasons_of c) [
      | [] ↦ rest
      | r ∷ rs ↦ insert_overlay (overlay_of_minute unix_minute (r ∷ rs)) rest
    ]

module _ (d : Duration) where
  -- The key of the summary that a row of another table belongs to, with no partition.
  unfoldable pub ref_res_sum_key :
      Bytes → Bytes → Bytes → Bytes → Bytes → Outcome ResourceSummaryKey
  ref_res_sum_key partition_id kind namespace name uid = do
    range ← get_time_range_for_partition d partition_id
    k ← new_key d (in_utc range.0) kind namespace name uid
    ok (set_partition_id k [])

  unfoldable pub event_count_row_to_d3_gantt_overlay :
      EventCountKey → ResourceEventCounts → Outcome (ResourceSummaryKey × List Overlay)
  unfolding ref_res_sum_key overlays_of
  event_count_row_to_d3_gantt_overlay key value = do
    k ← ref_res_sum_key key.partition_id key.kind key.namespace key.name key.uid
    ok (k, elim value.map_min_to_events [ none ↦ [] | some minutes ↦ overlays_of minutes ])

  unfoldable pub overlay_loop :
      List (EventCountKey × ResourceEventCounts)
      → List (ResourceSummaryKey × List Overlay)
      → Outcome (List (ResourceSummaryKey × List Overlay))
  unfolding event_count_row_to_d3_gantt_overlay map_get map_put
  overlay_loop [] ret_map = ok ret_map
  overlay_loop ((key, value) ∷ events) ret_map = do
    row ← event_count_row_to_d3_gantt_overlay key value
    let old : List Overlay = elim (map_get same row.0 ret_map) [ none ↦ [] | some os ↦ os ]
    overlay_loop events (map_put same row.0 (old ++ row.1) ret_map)

  unfoldable pub event_counts_to_overlay_map :
      List (EventCountKey × ResourceEventCounts)
      → Outcome (List (ResourceSummaryKey × List Overlay))
  unfolding overlay_loop
  event_counts_to_overlay_map events = overlay_loop events []

  unfoldable pub activity_loop :
      List (WatchActivityKey × WatchActivity)
      → List (ResourceSummaryKey × WatchActivity)
      → Outcome (List (ResourceSummaryKey × WatchActivity))
  unfolding ref_res_sum_key map_get map_put
  activity_loop [] ret_map = ok ret_map
  activity_loop ((key, value) ∷ rows) ret_map = do
    k ← ref_res_sum_key key.partition_id key.kind key.namespace key.name key.uid
    let combined : WatchActivity = elim (map_get same k ret_map) [
      | none ↦ record { no_change_at = []; changed_at = [] }
      | some existing ↦ existing
    ]
    activity_loop rows (
        map_put same k
          (record {
            no_change_at = combined.no_change_at ++ value.no_change_at;
            changed_at = combined.changed_at ++ value.changed_at;
          })
          ret_map)

  unfoldable pub watch_activity_to_map :
      List (WatchActivityKey × WatchActivity) → Outcome (List (ResourceSummaryKey × WatchActivity))
  unfolding activity_loop
  watch_activity_to_map rows = activity_loop rows []

-- The events of a node have the name of the node for a uid.
unfoldable pub overlay_key : ResourceSummaryKey → ResourceSummaryKey
overlay_key key = if eqb key.kind node_kind then record key { uid = key.name } else key

unfoldable pub merge_heatmap_with_resources : Rows → List (ResourceSummaryKey × List Overlay) → Rows
unfolding overlay_key map_get
merge_heatmap_with_resources [] overlays = []
merge_heatmap_with_resources ((key, row) ∷ rows) overlays =
    (
      key,
      record row {
        overlays = elim (map_get same (overlay_key key) overlays) [ none ↦ [] | some os ↦ os ];
      },
    )
    ∷ merge_heatmap_with_resources rows overlays

unfoldable pub with_activity : TimelineRow → Option WatchActivity → TimelineRow
with_activity row none = row
with_activity row (some activity) = record row {
  changed_at = activity.changed_at;
  no_change_at = activity.no_change_at;
}

unfoldable pub merge_heatmap_with_watch_activity :
    Rows → List (ResourceSummaryKey × WatchActivity) → Rows
unfolding with_activity map_get
merge_heatmap_with_watch_activity [] activity = []
merge_heatmap_with_watch_activity ((key, row) ∷ rows) activity =
    (key, with_activity row (map_get same key activity))
    ∷ merge_heatmap_with_watch_activity rows activity

unfoldable pub convert_heatmap_to_slice : Rows → List TimelineRow
convert_heatmap_to_slice rows = map (λ r. r.1) rows

-- 60 * 1000: the dates are in seconds.
abbrev pub limit : ℤ
limit = pos 60_000

-- An overlay that begins before its row: it is cut, or collapsed to its end where nothing is left.
unfoldable pub move_start : ℤ → Overlay → Overlay
move_start too_early ol =
    if leb_ℤ (ol.duration -ℤ too_early) (pos 0)
    then record ol { duration = pos 0; start_date = ol.end_date }
    else record ol { duration = ol.duration -ℤ too_early; start_date = ol.start_date +ℤ too_early }

unfoldable pub adjust_start : ℤ → Overlay → Overlay
unfolding move_start
adjust_start row_start ol =
    let too_early = row_start -ℤ ol.start_date in
    if ltb_ℤ (pos 0) too_early && ltb_ℤ too_early limit then move_start too_early ol else ol

-- An overlay that ends behind its row: it is cut, or collapsed to its start.
unfoldable pub move_end : ℤ → Overlay → Overlay
move_end over ol =
    if leb_ℤ (ol.duration -ℤ over) (pos 0)
    then record ol { duration = pos 0; end_date = ol.start_date }
    else record ol { duration = ol.duration -ℤ over; end_date = ol.end_date -ℤ over }

unfoldable pub adjust_end : ℤ → Overlay → Overlay
unfolding move_end
adjust_end row_end ol =
    let over = ol.end_date -ℤ row_end in
    if ltb_ℤ (pos 0) over && ltb_ℤ over limit then move_end over ol else ol

-- What a row gets that shares its overlays with no other row.
unfoldable pub adjust_row : TimelineRow → TimelineRow
unfolding adjust_start adjust_end
adjust_row row = record row {
  overlays = map (adjust_end row.end_date) (map (adjust_start row.start_date) row.overlays);
}

-- The overlays at a key, which are one slice for all rows that have it, changed in place.
unfoldable pub adjust_at :
    ResourceSummaryKey
    → (Overlay → Overlay)
    → List (ResourceSummaryKey × List Overlay)
    → List (ResourceSummaryKey × List Overlay)
unfolding map_get map_put
adjust_at key adjust overlays = elim (map_get same key overlays) [
  | none ↦ overlays
  | some ols ↦ map_put same key (map adjust ols) overlays
]

-- One of the two loops over the rows.
unfoldable pub adjust_loop :
    (TimelineRow → Overlay → Overlay)
    → Rows
    → List (ResourceSummaryKey × List Overlay)
    → List (ResourceSummaryKey × List Overlay)
unfolding adjust_at overlay_key
adjust_loop adjust [] overlays = overlays
adjust_loop adjust ((key, row) ∷ rows) overlays =
    adjust_loop adjust rows (adjust_at (overlay_key key) (adjust row) overlays)

-- The slices of the rows stand in `overlays`, at the keys that the rows have there: the rows of two
-- nodes of one name have the same slice, and both change it. The result is read back into the rows.
unfoldable pub adjust_overlays : Rows → List (ResourceSummaryKey × List Overlay) → Rows
unfolding adjust_loop adjust_start adjust_end merge_heatmap_with_resources
adjust_overlays rows overlays =
    let started = adjust_loop (λ row. adjust_start row.start_date) rows overlays in
    merge_heatmap_with_resources rows (adjust_loop (λ row. adjust_end row.end_date) rows started)
