-- ===== src/Processing/Runner/Relate.antt =====
-- What relates the databases before and after each transaction relates those before and after a record,
-- and after a run over many.
use sloop.Base.{ℕ, Bool, false, ◌≡◌, refl, subst, List, [], ◌∷◌}
use sloop.Base.Outcome.{Outcome, ok, err, panic, running, Error}
use sloop.GoTime.{Time, Duration}
use sloop.KubeExtractor.{KubeMetadata, KubeInvolvedObject}
use sloop.Mock.{MockDb, Exec, MockTxn, update}
use sloop.Typed.Schema.{KubeWatchResult}
use sloop.Processing.Services.{Services}
use sloop.Processing.Watch.{update_kube_watch_table}
use sloop.Processing.Activity.{update_watch_activity_table}
use sloop.Processing.Summary.{update_resource_summary_table}
use sloop.Processing.EventCount.{Float64}
use sloop.Processing.Minutes.{update_event_count_table}
use sloop.Processing.Runner.{
  State, Going, going, crashed, still_running, log_failure, logged, and_then, write_record,
  process_record, process_all,
}

log_failure-db :
    (r : Outcome (Unit {0})) (b : MockDb) (fs : List Error) (st' : State)
    → log_failure r b fs ≡ going st'
    → b ≡ st'.db
unfolding log_failure
log_failure-db (ok u) b fs st' h = cc
log_failure-db (err e) b fs st' h = cc
log_failure-db panic b fs st' h = absurd (cc)
log_failure-db running b fs st' h = absurd (cc)

pub and_then-going :
    (g : Going) (next : State → Going) (st' : State)
    → and_then g next ≡ going st'
    → (st : State) × (g ≡ going st) × (next st ≡ going st')
unfolding and_then
and_then-going (going st) next st' h = (st, refl, h)
and_then-going crashed next st' h = absurd (cc)
and_then-going still_running next st' h = absurd (cc)

module _ (R : MockDb → MockDb → Type 0) where
  -- A transaction that relates its databases.
  abbrev pub Relates : Exec (Unit {0}) → Type 0
  Relates fn = (t : MockTxn) → R t.db (fn t).1.db

  logged-Relates :
      (fn : Exec (Unit {0})) (st st' : State)
      → Relates fn
      → logged fn st ≡ going st'
      → R st.db st'.db
  unfolding logged update
  logged-Relates fn st st' h e =
      let t : MockTxn = record { read_only = false; db = st.db } in
      subst (R st.db) (log_failure-db (fn t).0 (fn t).1.db st.failures st' e) (h t)

  module _ (s : Services) (d : Duration) (fl : Float64) (f : ℕ) (keep_minor : Bool) where
    open s use {TS}

    -- Each of the four transactions for a record does, whatever is taken from its payload.
    pub record EachRelates (now : Time) (r : KubeWatchResult TS) : Type 0 where
      pub event_count :
          (m : KubeMetadata) (o : KubeInvolvedObject)
          → Relates (update_event_count_table s d fl f now r m o)
      pub activity : (m : KubeMetadata) → Relates (update_watch_activity_table s d r m)
      pub watch : (m : KubeMetadata) → Relates (update_kube_watch_table s d r m keep_minor)
      pub summary : (m : KubeMetadata) → Relates (update_resource_summary_table s d r m)

    -- The last three transactions, as functions of the state that they find.
    abbrev third : KubeWatchResult TS → KubeMetadata → State → Going
    third r m st =
        and_then (logged (update_kube_watch_table s d r m keep_minor) st)
          (logged (update_resource_summary_table s d r m))

    abbrev second : KubeWatchResult TS → KubeMetadata → State → Going
    second r m st = and_then (logged (update_watch_activity_table s d r m) st) (third r m)

    module _ (R_trans : (a b c : MockDb) → R a b → R b c → R a c) where
      write_record-Relates :
          (now : Time) (r : KubeWatchResult TS) (m : KubeMetadata) (o : KubeInvolvedObject)
          (st st' : State)
          → EachRelates now r
          → write_record s d fl f keep_minor now r m o st ≡ going st'
          → R st.db st'.db
      unfolding write_record
      write_record-Relates now r m o st st' h e =
          let counts = update_event_count_table s d fl f now r m o in
          let activity = update_watch_activity_table s d r m in
          let watch = update_kube_watch_table s d r m keep_minor in
          let summary = update_resource_summary_table s d r m in
          let (s1, e1, q1) = and_then-going (logged counts st) (second r m) st' e in
          let (s2, e2, q2) = and_then-going (logged activity s1) (third r m) st' q1 in
          let (s3, e3, q3) = and_then-going (logged watch s2) (logged summary) st' q2 in
          R_trans _ _ _ (logged-Relates counts st s1 (h.event_count m o) e1) (
            R_trans _ _ _ (logged-Relates activity s1 s2 (h.activity m) e2) (
              R_trans _ _ _ (logged-Relates watch s2 s3 (h.watch m) e3)
                (logged-Relates summary s3 st' (h.summary m) q3)))

      pub process_record-Relates :
          (now : Time) (r : KubeWatchResult TS) (st st' : State)
          → EachRelates now r
          → process_record s d fl f keep_minor now r st ≡ going st'
          → R st.db st'.db
      unfolding process_record
      process_record-Relates now r st st' h e = write_record-Relates now r _ _ _ st' h e

      pub process_all-Relates :
          ((b : MockDb) → R b b)
          → ((now : Time) (r : KubeWatchResult TS) → EachRelates now r)
          → (records : List (Time × KubeWatchResult TS)) (st st' : State)
          → process_all s d fl f keep_minor records st ≡ going st'
          → R st.db st'.db
      unfolding process_all
      process_all-Relates R_refl each [] st st' e =
          let same : st ≡ st' = cc in subst (λ x. R st.db x.db) same (R_refl st.db)
      process_all-Relates R_refl each ((now, r) ∷ records) st st' e =
          let (s1, e1, q1) =
            and_then-going (process_record s d fl f keep_minor now r st)
              (process_all s d fl f keep_minor records) st' e in
          R_trans _ _ _ (process_record-Relates now r st s1 (each now r) e1)
            (process_all-Relates R_refl each records s1 st' q1)
