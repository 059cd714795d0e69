-- ===== src/Processing/Minutes/Dropped.antt =====
-- Where counts are dropped without an error: errors.Wrap of a nil error is nil.
use sloop.Base.{ℕ, true, false, ◌≡◌, List, [], ◌∷◌, Option, none, Bool-cases, inl, inr}
use sloop.Base.Int.{ℤ, pos, eqb_ℤ}
use sloop.Base.Bytes.{Bytes, eqb}
use sloop.Base.Outcome.{ok}
use sloop.GoTime.{Time, Duration}
use sloop.KubeExtractor.{
  KubeMetadata, KubeInvolvedObject, event_kind, EventInfo, extract_event_info,
}
use sloop.Mock.{MockTxn}
use sloop.Typed.Schema.{KubeWatchResult, ResourceEventCounts}
use sloop.Typed.Table.{then_exec, bind_exec, return}
use sloop.Typed.Tables.{get_min_and_max_partition_with_txn}
use sloop.Processing.Services.{Services}
use sloop.Processing.EventCount.{Float64, compute_events_diff}
use sloop.Processing.Minutes.{
  Target, row_of_minute, store_row, store_minute, store_part, store_parts, store_minutes,
  group_minutes, get_previous_event_info, minutes_to_store, counts_to_store, store_found, go_on,
  update_event_count_table,
}

module _ (s : Services) (d : Duration) where
  open s use {TS, json}

  nil_row :
      (t : MockTxn) (target : Target) (u n : ℤ) (key : Bytes) (row : ResourceEventCounts)
      → row_of_minute s d t target u ≡ ok (key, row)
      → row.map_min_to_events ≡ none
      → store_minute s d target u n t ≡ (ok false, t)
  unfolding store_minute store_row then_exec return
  nil_row t target u n key row e h = rw (e, h)

  nil_row_part :
      (t : MockTxn) (target : Target) (u n : ℤ) (ms : List (ℤ × ℤ))
      → store_minute s d target u n t ≡ (ok false, t)
      → store_part s d target ((u, n) ∷ ms) t ≡ (ok false, t)
  unfolding store_part bind_exec then_exec go_on return
  nil_row_part t target u n ms h = rw h

  nil_row_parts :
      (t : MockTxn) (target : Target) (p : Bytes) (ms : List (ℤ × ℤ))
      (groups : List (Bytes × List (ℤ × ℤ)))
      → store_part s d target ms t ≡ (ok false, t)
      → store_parts s d target ((p, ms) ∷ groups) t ≡ (ok false, t)
  unfolding store_parts bind_exec then_exec go_on return
  nil_row_parts t target p ms groups h = rw h

  -- If the row of the first minute that is stored has a nil map, storing the counts of all the minutes
  -- succeeds and stores none of them.
  pub nil_row_drops_counts :
      (t : MockTxn) (target : Target) (min_to_count : List (ℤ × ℤ)) (p : Bytes) (u n : ℤ)
      (ms : List (ℤ × ℤ)) (groups : List (Bytes × List (ℤ × ℤ))) (key : Bytes)
      (row : ResourceEventCounts)
      → group_minutes d s.local min_to_count [] ≡ ok ((p, (u, n) ∷ ms) ∷ groups)
      → row_of_minute s d t target u ≡ ok (key, row)
      → row.map_min_to_events ≡ none
      → store_minutes s d target min_to_count t ≡ (ok tt, t)
  unfolding store_minutes then_exec bind_exec return
  nil_row_drops_counts t target min_to_count p u n ms groups key row g e h =
      let stopped : store_parts s d target ((p, (u, n) ∷ ms) ∷ groups) t ≡ (ok false, t) =
        nil_row_parts t target p ((u, n) ∷ ms) groups
          (nil_row_part t target u n ms (nil_row t target u n key row e h)) in
      rw (g, stopped)

  module _ (fl : Float64) (f : ℕ) (now : Time) where
    no_bounds :
        (t : MockTxn) (prev : Option EventInfo) (new : EventInfo)
        → get_min_and_max_partition_with_txn t ≡ ok none
        → minutes_to_store s d fl f now t prev new ≡ ok none
    unfolding minutes_to_store
    no_bounds t prev new h = elim (Bool-cases (eqb_ℤ (compute_events_diff fl prev new).2 (pos 0))) [
      | inl e ↦ rw e
      | inr e ↦ rw (e, h)
    ]

    -- If the payloads of an event and of the record before it can be read and no table has a partition, the
    -- event is accepted without an error and no count is stored.
    pub no_partition_drops_counts :
        (t : MockTxn) (r : KubeWatchResult TS) (m : KubeMetadata) (o : KubeInvolvedObject)
        (prev : Option EventInfo) (new : EventInfo)
        → eqb r.kind event_kind ≡ true
        → get_previous_event_info s d t r.timestamp r.kind m.namespace m.name ≡ ok prev
        → extract_event_info json r.payload ≡ ok new
        → get_min_and_max_partition_with_txn t ≡ ok none
        → update_event_count_table s d fl f now r m o t ≡ (ok tt, t)
    unfolding update_event_count_table counts_to_store store_found then_exec return
    no_partition_drops_counts t r m o prev new k e1 e2 h = rw (k, e1, e2, no_bounds t prev new h)
