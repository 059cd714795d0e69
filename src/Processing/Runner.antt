-- ===== src/Processing/Runner.antt =====
-- pkg/sloop/processing/processing.go: the loop over the channel of watch records.
pub mod Relate
pub mod Frame
use sloop.Base.{ℕ, Bool, List, [], ◌∷◌, ◌++◌}
use sloop.Base.Outcome.{Outcome, ok, err, panic, running, Error}
use sloop.GoTime.{Time, Duration}
use sloop.KubeExtractor.{
  KubeMetadata, KubeInvolvedObject, no_metadata, no_involved_object, extract_metadata,
  extract_involved_object,
}
use sloop.Mock.{MockDb, Exec, update}
use sloop.Typed.Schema.{KubeWatchResult}
use sloop.Processing.Services.{Services}
use sloop.Processing.Watch.{update_kube_watch_table}
use sloop.Processing.Activity.{update_watch_activity_table}
use sloop.Processing.Summary.{update_resource_summary_table}
use sloop.Processing.EventCount.{Float64}
use sloop.Processing.Minutes.{update_event_count_table}

-- The database, and the failures that were logged and counted, the latest first.
pub record State : Type 0 where
  pub db : MockDb
  pub failures : List Error

-- A panic ends the goroutine, and the program with it.
pub data Going : Type 0 where
  going : State → Going
  crashed : Going
  still_running : Going

-- The error of a transaction is logged.
unfoldable pub log_failure : Outcome (Unit {0}) → MockDb → List Error → Going
log_failure (ok u) b failures = going (record { db = b; failures = failures })
log_failure (err e) b failures = going (record { db = b; failures = e ∷ failures })
log_failure panic b failures = crashed
log_failure running b failures = still_running

-- One `Update`.
unfoldable pub logged : Exec (Unit {0}) → State → Going
unfolding update log_failure
logged fn st = let (r, b) = update fn st.db in log_failure r b st.failures

unfoldable pub and_then : Going → (State → Going) → Going
and_then (going st) next = next st
and_then crashed next = crashed
and_then still_running next = still_running

-- What an extractor gives, the zero value where it fails.
unfoldable pub value_or : {A : Type 0} → Outcome A → A → A
value_or (ok a) zero_value = a
value_or (err e) zero_value = zero_value
value_or panic zero_value = zero_value
value_or running zero_value = zero_value

abbrev pub failure_of : {A : Type 0} → Outcome A → List Error → List Error
failure_of (err e) failures = e ∷ failures
failure_of (ok a) failures = failures
failure_of panic failures = failures
failure_of running failures = failures

module _ (s : Services) (d : Duration) (fl : Float64) (f : ℕ) (keep_minor_node_updates : Bool) where
  open s use {TS, json}

  -- The four transactions for one record, each run whatever the one before it returned.
  unfoldable pub write_record :
      Time → KubeWatchResult TS → KubeMetadata → KubeInvolvedObject → State → Going
  unfolding logged and_then
  write_record now watch_rec metadata involved st =
      and_then (logged (update_event_count_table s d fl f now watch_rec metadata involved) st)
        (λ st. and_then (logged (update_watch_activity_table s d watch_rec metadata) st) (λ st.
          and_then
            (logged (update_kube_watch_table s d watch_rec metadata keep_minor_node_updates) st)
            (logged (update_resource_summary_table s d watch_rec metadata))))

  -- One round of the loop, at the time `now`.
  unfoldable pub process_record : Time → KubeWatchResult TS → State → Going
  unfolding write_record value_or
  process_record now watch_rec st =
      let m = extract_metadata json watch_rec.payload in
      let o = extract_involved_object json watch_rec.payload in
      write_record now watch_rec (value_or m no_metadata) (value_or o no_involved_object)
        (record st { failures = failure_of o (failure_of m st.failures) })

  -- The loop, until the channel is closed behind the last record. Each record comes with
  -- the time at which it is processed.
  unfoldable pub process_all : List (Time × KubeWatchResult TS) → State → Going
  unfolding process_record and_then
  process_all [] st = going st
  process_all ((now, r) ∷ records) st = and_then (process_record now r st) (process_all records)
