-- ===== src/Processing/Runner/Frame.antt =====
-- What the writes for a watch record leave alone.
use sloop.Base.{
  ℕ, Bool, true, false, ◌≡◌, ◌∙◌, refl, ◌⊎◌, inl, inr, List, [], ◌∷◌, Option, none, some,
  Bool-cases,
}
use sloop.Base.Int.{ℤ}
use sloop.Base.Bytes.{Bytes, eqb}
use sloop.GoTime.{Time, Duration}
use sloop.KubeExtractor.{KubeMetadata, KubeInvolvedObject, event_kind}
use sloop.Mock.{Exec, lookup}
use sloop.Typed.Schema.{KubeWatchResult, EventCounts}
use sloop.Typed.WatchKey.{watch_key}
use sloop.Typed.SummaryKey.{summary_key}
use sloop.Typed.EventCountKey.{event_count_key}
use sloop.Typed.ActivityKey.{activity_key, to_string}
use sloop.Typed.Table.{set_value, return}
use sloop.Typed.Table.Frame.{
  keeps, IsForeign, KeepsAt, IsAtomic, KeepsAt-then_exec, KeepsAt-bind_exec, KeepsAt-return,
  IsAtomic-then_exec, set_value-foreign, set_value-IsAtomic,
}
use sloop.Processing.Services.{Services}
use sloop.Processing.Watch.{write_at, update_kube_watch_table, key_to_write}
use sloop.Processing.Activity.{update_watch_activity_table, activity_to_write, put_watch_activity}
use sloop.Processing.Summary.{update_resource_summary_table, summary_to_write}
use sloop.Processing.EventCount.{Float64}
use sloop.Processing.Minutes.{
  go_on, store_row, store_found, Target, row_of_minute, store_minute, store_part, store_parts,
  store_minutes, update_event_count_table, group_minutes, counts_to_store,
}
use sloop.Processing.Runner.{State, going, process_record}
use sloop.Processing.Runner.Relate.{process_record-Relates}

module _ (s : Services) (d : Duration) where
  open s use {TS, watch_codec, summary_codec, activity_codec, event_count_codec}

  write_at-foreign :
      (r : KubeWatchResult TS) (key : Option Bytes) (j : Bytes)
      → IsForeign watch_key j
      → KeepsAt j (write_at s d r key)
  unfolding write_at return
  write_at-foreign r none j h = KeepsAt-return j tt
  write_at-foreign r (some k) j h = set_value-foreign watch_key watch_codec k j r h

  pub watch-foreign :
      (r : KubeWatchResult TS) (m : KubeMetadata) (keep_minor : Bool) (j : Bytes)
      → IsForeign watch_key j
      → KeepsAt j (update_kube_watch_table s d r m keep_minor)
  unfolding update_kube_watch_table KeepsAt
  watch-foreign r m keep_minor j h t =
      KeepsAt-then_exec j (key_to_write s d t r m keep_minor) (write_at s d r)
        (λ k e. write_at-foreign r k j h) t

  pub activity-foreign :
      (r : KubeWatchResult TS) (m : KubeMetadata) (j : Bytes)
      → IsForeign activity_key j ⊎ (eqb r.kind event_kind ≡ true)
      → KeepsAt j (update_watch_activity_table s d r m)
  unfolding update_watch_activity_table put_watch_activity KeepsAt
  activity-foreign r m j h t = elim (Bool-cases (eqb r.kind event_kind)) [
    | inl e ↦ rw e
    | inr e ↦ rw e (elim h [
      | inr e' ↦ absurd (cc)
      | inl f ↦
          KeepsAt-then_exec j (activity_to_write s d t r m)
            (λ row. put_watch_activity s d row.0 row.1)
            (λ row q. set_value-foreign activity_key activity_codec (to_string row.1) j row.0 f) t
    ])
  ]

  pub summary-foreign :
      (r : KubeWatchResult TS) (m : KubeMetadata) (j : Bytes)
      → IsForeign summary_key j ⊎ (eqb r.kind event_kind ≡ true)
      → KeepsAt j (update_resource_summary_table s d r m)
  unfolding update_resource_summary_table KeepsAt
  summary-foreign r m j h t = elim (Bool-cases (eqb r.kind event_kind)) [
    | inl e ↦ rw e
    | inr e ↦ rw e (elim h [
      | inr e' ↦ absurd (cc)
      | inl f ↦
          KeepsAt-then_exec j (summary_to_write s d t r m)
            (λ row. set_value summary_key summary_codec row.0 row.1)
            (λ row q. set_value-foreign summary_key summary_codec row.0 j row.1 f) t
    ])
  ]

  store_row-foreign :
      (target : Target) (u n : ℤ) (key j : Bytes) (m : Option (List (ℤ × EventCounts)))
      → IsForeign event_count_key j
      → KeepsAt j (store_row s d target u n key m)
  unfolding store_row return
  store_row-foreign target u n key j none h = KeepsAt-return j false
  store_row-foreign target u n key j (some m) h =
      search (keeps, set_value-foreign event_count_key event_count_codec)

  store_minute-foreign :
      (target : Target) (u n : ℤ) (j : Bytes)
      → IsForeign event_count_key j
      → KeepsAt j (store_minute s d target u n)
  unfolding store_minute KeepsAt
  store_minute-foreign target u n j h t =
      KeepsAt-then_exec j (row_of_minute s d t target u)
        (λ row. store_row s d target u n row.0 row.1.map_min_to_events)
        (λ row e. store_row-foreign target u n row.0 j row.1.map_min_to_events h) t

  go_on-foreign :
      (j : Bytes) (rest : Exec Bool) (more : Bool)
      → KeepsAt j rest
      → KeepsAt j (go_on s d rest more)
  unfolding go_on return
  go_on-foreign j rest true h = h
  go_on-foreign j rest false h = KeepsAt-return j false

  store_part-foreign :
      (target : Target) (minutes : List (ℤ × ℤ)) (j : Bytes)
      → IsForeign event_count_key j
      → KeepsAt j (store_part s d target minutes)
  unfolding store_part return
  store_part-foreign target [] j h = KeepsAt-return j true
  store_part-foreign target ((u, n) ∷ minutes) j h =
      KeepsAt-bind_exec j _ _ (store_minute-foreign target u n j h)
        (λ more. go_on-foreign j _ more (store_part-foreign target minutes j h))

  store_parts-foreign :
      (target : Target) (groups : List (Bytes × List (ℤ × ℤ))) (j : Bytes)
      → IsForeign event_count_key j
      → KeepsAt j (store_parts s d target groups)
  unfolding store_parts return
  store_parts-foreign target [] j h = KeepsAt-return j true
  store_parts-foreign target ((p, minutes) ∷ groups) j h =
      KeepsAt-bind_exec j _ _ (store_part-foreign target minutes j h)
        (λ more. go_on-foreign j _ more (store_parts-foreign target groups j h))

  store_found-foreign :
      (found : Option (Target × List (ℤ × ℤ))) (j : Bytes)
      → IsForeign event_count_key j
      → KeepsAt j (store_found s d found)
  unfolding store_found store_minutes return
  store_found-foreign none j h = KeepsAt-return j tt
  store_found-foreign (some (target, minutes)) j h =
      KeepsAt-then_exec j (group_minutes d s.local minutes []) _ (λ groups e.
        KeepsAt-bind_exec j _ _ (store_parts-foreign target groups j h)
          (λ more. KeepsAt-return j tt))

  pub event_count-foreign :
      (fl : Float64) (f : ℕ) (now : Time) (r : KubeWatchResult TS) (m : KubeMetadata)
      (o : KubeInvolvedObject) (j : Bytes)
      → IsForeign event_count_key j ⊎ (eqb r.kind event_kind ≡ false)
      → KeepsAt j (update_event_count_table s d fl f now r m o)
  unfolding update_event_count_table KeepsAt
  event_count-foreign fl f now r m o j h t = elim (Bool-cases (eqb r.kind event_kind)) [
    | inr e ↦ rw e
    | inl e ↦ rw e (elim h [
      | inr e' ↦ absurd (cc)
      | inl g ↦
          KeepsAt-then_exec j (counts_to_store s d fl f now t r m o) (store_found s d)
            (λ found e. store_found-foreign found j g) t
    ])
  ]

  write_at-IsAtomic : (r : KubeWatchResult TS) (key : Option Bytes) → IsAtomic (write_at s d r key)
  unfolding write_at return
  write_at-IsAtomic r none t = inl refl
  write_at-IsAtomic r (some k) t = set_value-IsAtomic watch_key watch_codec k r t

  -- The updates of the watch table, the watch activity table and the resource summary table: each succeeds
  -- or changes nothing at all.
  pub updates_all_or_nothing :
      (r : KubeWatchResult TS) (m : KubeMetadata) (keep_minor : Bool)
      → IsAtomic (update_kube_watch_table s d r m keep_minor)
        × IsAtomic (update_watch_activity_table s d r m)
        × IsAtomic (update_resource_summary_table s d r m)
  unfolding update_kube_watch_table update_watch_activity_table update_resource_summary_table
      put_watch_activity
  updates_all_or_nothing r m keep_minor = (
    λ t.
        IsAtomic-then_exec (key_to_write s d t r m keep_minor) (write_at s d r)
          (write_at-IsAtomic r) t,
    λ t. elim (Bool-cases (eqb r.kind event_kind)) [
      | inl e ↦ rw e (inl refl)
      | inr e ↦ rw e (
          IsAtomic-then_exec (activity_to_write s d t r m)
            (λ row. put_watch_activity s d row.0 row.1)
            (λ row. set_value-IsAtomic activity_key activity_codec (to_string row.1) row.0) t)
    ],
    λ t. elim (Bool-cases (eqb r.kind event_kind)) [
      | inl e ↦ rw e (inl refl)
      | inr e ↦ rw e (
          IsAtomic-then_exec (summary_to_write s d t r m)
            (λ row. set_value summary_key summary_codec row.0 row.1)
            (λ row. set_value-IsAtomic summary_key summary_codec row.0 row.1) t)
    ],
  )

  -- Processing a watch record changes the value of no key but those that parse as a watch key and, for an
  -- event, as an event count key, for any other record, as a watch activity or a resource summary
  -- key: each other key has after it the value that it had before.
  pub process_record_frame :
      (fl : Float64) (f : ℕ) (keep_minor : Bool) (now : Time) (r : KubeWatchResult TS)
      (st st' : State) (j : Bytes)
      → process_record s d fl f keep_minor now r st ≡ going st'
      → IsForeign watch_key j
      → ((eqb r.kind event_kind ≡ true) × IsForeign event_count_key j)
        ⊎ ((eqb r.kind event_kind ≡ false) × IsForeign activity_key j × IsForeign summary_key j)
      → lookup j st'.db.entries ≡ lookup j st.db.entries
  unfolding KeepsAt
  process_record_frame fl f keep_minor now r st st' j e hw h =
      process_record-Relates (λ b b'. lookup j b'.entries ≡ lookup j b.entries) s d fl f keep_minor
        (λ a b c p q. q ∙ p) now r st st'
        (record {
          event_count = λ m o.
              event_count-foreign fl f now r m o j
                (elim h [ inl (k, g) ↦ inl g | inr (k, a, b) ↦ inr k ]);
          activity =
              λ m. activity-foreign r m j (elim h [ inl (k, g) ↦ inr k | inr (k, a, b) ↦ inl a ]);
          watch = λ m. watch-foreign r m keep_minor j hw;
          summary =
              λ m. summary-foreign r m j (elim h [ inl (k, g) ↦ inr k | inr (k, a, b) ↦ inl b ]);
        })
        e
