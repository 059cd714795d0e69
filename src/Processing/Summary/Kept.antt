-- ===== src/Processing/Summary/Kept.antt =====
-- The rows of the resource summary table over a run of the processing.
use sloop.Base.{ℕ, Bool, true, ◌≡◌, ◌∙◌, refl, ap, subst, arith, List, inl, inr, Bool-cases}
use sloop.Base.Bytes.{Bytes, eqb, eqb_iff}
use sloop.Base.Outcome.{Outcome, ok, >>=-eq-ok}
use sloop.GoTime.{Time, Duration}
use sloop.KubeExtractor.{KubeMetadata, event_kind}
use sloop.Mock.{MockDb, MockTxn, Exec, lookup}
use sloop.Typed.Schema.{KubeWatchResult, ResourceSummary}
use sloop.Typed.SummaryKey.{ResourceSummaryKey, summary_key, parse}
use sloop.Typed.Table.{get_value, validate_key}
use sloop.Typed.Table.Frame.{KeepsAt}
use sloop.Typed.Table.Values.{RoundTrips}
use sloop.Typed.Table.Written.{value_from_lookup}
use sloop.Typed.Tables.Disjoint.{summary_key-IsForeign}
use sloop.Processing.Services.{Services}
use sloop.Processing.EventCount.{Float64}
use sloop.Processing.Summary.{update_resource_summary_table}
use sloop.Processing.Summary.Row.{IsRowAfter, summary-IsRowAfter}
use sloop.Processing.Runner.{State, going, process_all}
use sloop.Processing.Runner.Relate.{Relates, process_all-Relates}
use sloop.Processing.Runner.Frame.{
  watch-foreign, activity-foreign, event_count-foreign, updates_all_or_nothing,
}

module _ (s : Services) where
  open s use {TS, summary_codec}

  -- The row at a key of the table.
  abbrev pub row_at : Bytes → MockDb → Outcome (ResourceSummary TS)
  row_at j b = get_value summary_key summary_codec (record { read_only = true; db = b }) j

  -- A later row of the same object: still deleted if it was, and created at the same time.
  pub record Later (v w : ResourceSummary TS) : Type 0 where
    pub still_deleted : v.deleted_at_end ≡ true → w.deleted_at_end ≡ true
    pub same_creation : w.create_time ≡ v.create_time

  -- A row stays, and becomes a later one.
  abbrev pub RowStays : Bytes → MockDb → MockDb → Type 0
  RowStays j b b' =
      (v : ResourceSummary TS)
      → row_at j b ≡ ok v
      → (w : ResourceSummary TS) × (row_at j b' ≡ ok w) × Later v w

  same_row : (j : Bytes) (b b' : MockDb) → row_at j b' ≡ row_at j b → RowStays j b b'
  same_row j b b' e v h = (v, e ∙ h, record { still_deleted = λ x. x; same_creation = refl })

  RowStays-trans : (j : Bytes) (a b c : MockDb) → RowStays j a b → RowStays j b c → RowStays j a c
  RowStays-trans j a b c f g v h =
      let (w, e, l) = f v h in
      let (x, e', l') = g w e in
      (
        x,
        e',
        record {
          still_deleted = λ d. l'.still_deleted (l.still_deleted d);
          same_creation = l'.same_creation ∙ l.same_creation;
        },
      )

  -- The reading does not depend on the kind of the transaction.
  row_reads :
      (t t' : MockTxn) (j : Bytes)
      → lookup j t'.db.entries ≡ lookup j t.db.entries
      → get_value summary_key summary_codec t' j ≡ get_value summary_key summary_codec t j
  row_reads = value_from_lookup summary_key summary_codec

  row_key :
      (j : Bytes) (b : MockDb) (v : ResourceSummary TS)
      → row_at j b ≡ ok v
      → (k : ResourceSummaryKey) × (parse j ≡ ok k)
  unfolding get_value validate_key
  row_key j b v h =
      let (u, e, q) = >>=-eq-ok (validate_key summary_key j) _ h in
      let (k, e', q') = >>=-eq-ok (parse j) _ e in (k, e')

  -- A step that leaves the value of a key that is foreign to the other tables keeps the row.
  foreign_step :
      (j : Bytes) (fn : Exec (Unit {0}))
      → ((k : ResourceSummaryKey) → parse j ≡ ok k → KeepsAt j fn)
      → Relates (RowStays j) fn
  unfolding KeepsAt
  foreign_step j fn h t v e =
      let (k, p) = row_key j t.db v e in same_row j t.db (fn t).1.db (row_reads _ _ j (h k p t)) v e

  module _ (d : Duration) where
    row_after-Later :
        (r : KubeWatchResult TS) (m : KubeMetadata) (v w : ResourceSummary TS)
        → IsRowAfter s d (ok v) r m w
        → Later v w
    unfolding IsRowAfter
    row_after-Later r m v w (l, f, c, e) = record {
      still_deleted = λ h. ground (arith, e, h);
      same_creation = c;
    }

    summary_step :
        (r : KubeWatchResult TS) (m : KubeMetadata) (j : Bytes)
        → RoundTrips summary_codec
        → Relates (RowStays j) (update_resource_summary_table s d r m)
    unfolding update_resource_summary_table
    summary_step r m j c t v h = elim (Bool-cases (eqb r.kind event_kind)) [
      | inl e ↦ (v, rw e h, record { still_deleted = λ x. x; same_creation = refl })
      | inr e ↦ elim ((updates_all_or_nothing s d r m true).2 t) [
        | inr same ↦ (
          v,
          ap (λ x. row_at j x.db) same ∙ h,
          record { still_deleted = λ x. x; same_creation = refl },
        )
        | inl done ↦
            let (key, w, (here, there), after) = summary-IsRowAfter s d t r m c e done in
            let t' = (update_resource_summary_table s d r m t).1 in
            let before : get_value summary_key summary_codec t j ≡ ok v =
              row_reads _ t j refl ∙ h in
            elim (Bool-cases (eqb key j)) [
              | inl q ↦
                  let eq : key ≡ j = (eqb_iff key j).0 q in
                  (
                    w,
                    row_reads t' _ j refl
                        ∙ subst (λ x. get_value summary_key summary_codec t' x ≡ ok w) eq here,
                    row_after-Later r m v w (
                        subst (λ x. IsRowAfter s d x r m w)
                          (ap (get_value summary_key summary_codec t) eq ∙ before) after),
                  )
              | inr q ↦ (
                v,
                row_reads t' _ j refl ∙ there j q ∙ before,
                record { still_deleted = λ x. x; same_creation = refl },
              )
            ]
      ]
    ]

  -- With an encoding that round-trips, if a run over any records, in any order, comes to their end,
  -- whatever failed and was logged: a row of the resource summary table is not lost, stays marked as
  -- deleted if it is, and keeps its time of creation.
  pub summary_rows_stay :
      (d : Duration) (fl : Float64) (f : ℕ) (keep_minor : Bool)
      (records : List (Time × KubeWatchResult TS)) (st st' : State) (j : Bytes)
      → RoundTrips summary_codec
      → process_all s d fl f keep_minor records st ≡ going st'
      → RowStays j st.db st'.db
  summary_rows_stay d fl f keep_minor records st st' j c =
      process_all-Relates (RowStays j) s d fl f keep_minor (RowStays-trans j)
        (λ b. same_row j b b refl)
        (λ now r. record {
          event_count = λ m o. foreign_step j _ (λ k p.
              event_count-foreign s d fl f now r m o j (inl ((summary_key-IsForeign j k p).1)));
          activity = λ m.
              foreign_step j _
                (λ k p. activity-foreign s d r m j (inl ((summary_key-IsForeign j k p).2)));
          watch = λ m.
              foreign_step j _
                (λ k p. watch-foreign s d r m keep_minor j ((summary_key-IsForeign j k p).0));
          summary = λ m. summary_step d r m j c;
        })
        records st st'
