-- ===== src/Processing/Minutes.antt =====
-- pkg/sloop/processing/eventcount.go: the counts of an event are added to the rows of its minutes.
pub mod Dropped
pub mod Counts
use sloop.Base.{
  ℕ, Bool, true, false, not, List, [], ◌∷◌, ◌++◌, Option, none, some, if◌then◌else◌, map_get,
  map_put,
}
use sloop.Base.Int.{ℤ, pos, ◌+ℤ◌, eqb_ℤ, to_int32}
use sloop.Base.Bytes.{Bytes, codes, eqb}
use sloop.Base.Outcome.{Outcome, ok, err, panic, running, ◌>>=◌}
use sloop.GoTime.{in_utc, Location, Time, Duration, from_unix, zero_time}
use sloop.Partition.{get_partition_id, get_time_range_for_partition}
use sloop.KubeExtractor.{
  KubeMetadata, KubeInvolvedObject, EventInfo, event_kind, extract_event_info,
}
use sloop.Mock.{MockTxn, Exec}
use sloop.Typed.Schema.{KubeWatchResult, EventCounts, ResourceEventCounts}
use sloop.Typed.EventCountKey.{new_key, to_string}
use sloop.Typed.Table.{then_exec, bind_exec, return}
use sloop.Typed.Tables.{get_min_and_max_partition_with_txn}
use sloop.Typed.Tables.EventCount
use sloop.Processing.Services.{Services}
use sloop.Processing.Watch.{get_last_kube_watch_result, get_uid_for_watch_entry}
use sloop.Processing.EventCount.{
  Float64, compute_events_diff, adjust_for_available_partitions, spread_out_events,
}

-- m[reason], which is 0 where it is missing
unfoldable pub count_of_reason : Bytes → List (Bytes × ℤ) → ℤ
unfolding map_get
count_of_reason reason m = elim (map_get eqb reason m) [ none ↦ pos 0 | some n ↦ n ]

-- m[reason] += int32(count), which wraps around; a write to a nil map is a panic.
unfoldable pub add_to_map : Bytes → ℤ → Option (List (Bytes × ℤ)) → Outcome EventCounts
unfolding ◌+ℤ◌ to_int32 count_of_reason map_put
add_to_map reason count none = panic
add_to_map reason count (some m) = ok (record {
  map_reason_to_count =
      some (map_put eqb reason (to_int32 (count_of_reason reason m +ℤ to_int32 count)) m);
})

-- The counts of one minute with `count` more for a reason; a new minute has an empty map.
unfoldable pub add_count : Bytes → ℤ → Option EventCounts → Outcome EventCounts
unfolding add_to_map
add_count reason count none = add_to_map reason count (some [])
add_count reason count (some c) = add_to_map reason count c.map_reason_to_count

unfoldable pub add_minute :
    ℤ → Bytes → ℤ → List (ℤ × EventCounts) → Outcome (List (ℤ × EventCounts))
unfolding add_count map_get map_put
add_minute unix_time reason count m = do
  c ← add_count reason count (map_get eqb_ℤ unix_time m)
  ok (map_put eqb_ℤ unix_time c m)

-- What identifies the rows that are changed.
pub record Target : Type 0 where
  pub kind : Bytes
  pub namespace : Bytes
  pub name : Bytes
  pub uid : Bytes
  pub reason : Bytes
  pub severity : Bytes

-- A minute goes to the map of its partition, by the clock of the machine: time.Unix is in time.Local.
unfoldable pub group_minutes :
    Duration
    → Location
    → List (ℤ × ℤ)
    → List (Bytes × List (ℤ × ℤ))
    → Outcome (List (Bytes × List (ℤ × ℤ)))
unfolding map_get map_put from_unix
group_minutes d local [] groups = ok groups
group_minutes d local ((unix_time, count) ∷ minutes) groups = do
  p ← get_partition_id d (record { instant = from_unix unix_time; location = local })
  let of_part : List (ℤ × ℤ) = elim (map_get eqb p groups) [ none ↦ [] | some m ↦ m ]
  group_minutes d local minutes (map_put eqb p (map_put eqb_ℤ unix_time count of_part) groups)

module _ (s : Services) (d : Duration) where
  open s use {TS, json, local, event_count_codec}

  -- The row of a minute: its key and what it holds.
  unfoldable pub row_of_minute : MockTxn → Target → ℤ → Outcome (Bytes × ResourceEventCounts)
  unfolding from_unix
  row_of_minute t target unix_time = do
    key ←
        new_key d (in_utc (from_unix unix_time)) target.kind target.namespace target.name target.uid
    event_record ← EventCount.get_or_default event_count_codec t (to_string key)
    ok (to_string key, event_record)

  -- A row whose map is nil ends the whole function without an error, since the error that it wraps
  -- is nil: the result is `false`.
  unfoldable pub store_row : Target → ℤ → ℤ → Bytes → Option (List (ℤ × EventCounts)) → Exec Bool
  unfolding add_minute then_exec bind_exec return
  store_row target unix_time count key none = return false
  store_row target unix_time count key (some m) =
      then_exec (add_minute unix_time (target.reason ++ codes ":" ++ target.severity) count m)
        (λ m'.
          bind_exec (EventCount.set event_count_codec key (record { map_min_to_events = some m' }))
            (λ u. return true))

  -- One round.
  unfoldable pub store_minute : Target → ℤ → ℤ → Exec Bool
  unfolding row_of_minute store_row then_exec
  store_minute target unix_time count t =
      then_exec (row_of_minute t target unix_time)
        (λ row. store_row target unix_time count row.0 row.1.map_min_to_events) t

  -- The rest of the rounds, unless the function has returned.
  unfoldable pub go_on : Exec Bool → Bool → Exec Bool
  unfolding return
  go_on rest true = rest
  go_on rest false = return false

  -- The rounds for one partition, and for all of them.
  unfoldable pub store_part : Target → List (ℤ × ℤ) → Exec Bool
  unfolding store_minute bind_exec go_on return
  store_part target [] = return true
  store_part target ((unix_time, count) ∷ minutes) =
      bind_exec (store_minute target unix_time count) (go_on (store_part target minutes))

  unfoldable pub store_parts : Target → List (Bytes × List (ℤ × ℤ)) → Exec Bool
  unfolding store_part bind_exec go_on return
  store_parts target [] = return true
  store_parts target ((p, minutes) ∷ groups) =
      bind_exec (store_part target minutes) (go_on (store_parts target groups))

  -- Go goes through a map in any order; the lists here stand for the order that it takes.
  unfoldable pub store_minutes : Target → List (ℤ × ℤ) → Exec (Unit {0})
  unfolding group_minutes store_parts then_exec bind_exec return
  store_minutes target min_to_count =
      then_exec (group_minutes d local min_to_count [])
        (λ groups. bind_exec (store_parts target groups) (λ more. return tt))

  unfoldable pub store_found : Option (Target × List (ℤ × ℤ)) → Exec (Unit {0})
  unfolding store_minutes return
  store_found none = return tt
  store_found (some (target, by_minute)) = store_minutes target by_minute

  unfoldable pub get_previous_event_info :
      MockTxn → TS → Bytes → Bytes → Bytes → Outcome (Option EventInfo)
  get_previous_event_info t ts kind namespace name = do
    prev_watch ← get_last_kube_watch_result s d t ts kind namespace name
    elim prev_watch [
      | none ↦ ok none
      | some prev ↦ (do info ← extract_event_info json prev.payload; ok (some info))
    ]

  module _ (fl : Float64) (f : ℕ) (now : Time) where
    -- The minutes of the new events, cut to the partitions; `none` where nothing is stored and no
    -- error is returned: no new events, and no partition at all, where the error that is wrapped is
    -- nil.
    unfoldable pub minutes_to_store :
        MockTxn → Option EventInfo → EventInfo → Outcome (Option (List (ℤ × ℤ)))
    minutes_to_store t prev_info new_info = do
      let (first_ts, last_ts, count) = compute_events_diff fl prev_info new_info
      if eqb_ℤ count (pos 0) then ok none else (do
        bounds ← get_min_and_max_partition_with_txn t
        elim bounds [
          | none ↦ ok none
          | some (min_partition, max_partition) ↦ (do
            first_range ← get_time_range_for_partition d min_partition
            last_range ← get_time_range_for_partition d max_partition
            let (a, b, n) =
                adjust_for_available_partitions fl first_ts last_ts count first_range.1 last_range.0
                  last_range.1
            ok (some (spread_out_events a b n)))
        ])

    -- The uid of the object, looked up where the event has none.
    unfoldable pub uid_of : MockTxn → KubeInvolvedObject → Outcome Bytes
    uid_of t involved =
        if eqb involved.uid []
        then get_uid_for_watch_entry s d f now t involved.kind involved.namespace involved.name
            zero_time
        else ok involved.uid

    unfoldable pub counts_to_store :
        MockTxn
        → KubeWatchResult TS
        → KubeMetadata
        → KubeInvolvedObject
        → Outcome (Option (Target × List (ℤ × ℤ)))
    unfolding get_previous_event_info minutes_to_store uid_of
    counts_to_store t watch_rec metadata involved = do
      prev_info ←
          get_previous_event_info t watch_rec.timestamp watch_rec.kind metadata.namespace
            metadata.name
      new_info ← extract_event_info json watch_rec.payload
      minutes ← minutes_to_store t prev_info new_info
      elim minutes [
        | none ↦ ok none
        | some by_minute ↦ (do
          uid ← uid_of t involved
          let target : Target = record {
            kind = involved.kind;
            namespace = involved.namespace;
            name = involved.name;
            uid = uid;
            reason = new_info.reason;
            severity = new_info.event_type;
          }
          ok (some (target, by_minute)))
      ]

    unfoldable pub update_event_count_table :
        KubeWatchResult TS → KubeMetadata → KubeInvolvedObject → Exec (Unit {0})
    unfolding counts_to_store store_found then_exec
    update_event_count_table watch_rec metadata involved t =
        if not (eqb watch_rec.kind event_kind)
        then (ok tt, t)
        else then_exec (counts_to_store t watch_rec metadata involved) store_found t
