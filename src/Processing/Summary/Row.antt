-- ===== src/Processing/Summary/Row.antt =====
-- The row of the resource summary table that a watch record leaves.
use sloop.Base.{
  Bool, true, false, ◌||◌, ◌≡◌, ◌∙◌, refl, sym, ap, subst, arith, List, [], if◌then◌else◌,
  Bool-cases, inl, inr,
}
use sloop.Base.Bytes.{Bytes, eqb}
use sloop.Base.Outcome.{
  Outcome, ok, err, panic, running, is_key_not_found, ◌>>=◌, >>=-eq-ok, or_err, bad_time,
}
use sloop.GoTime.{in_utc, Duration}
use sloop.KubeExtractor.{KubeMetadata, event_kind}
use sloop.Mock.{MockTxn}
use sloop.Typed.Schema.{KubeWatchResult, ResourceSummary}
use sloop.Typed.SummaryKey.{summary_key, new_key, to_string}
use sloop.Typed.Table.{get_value, set_value}
use sloop.Typed.Table.Frame.{then_exec-cases}
use sloop.Typed.Table.Values.{RoundTrips}
use sloop.Typed.Table.Written.{IsWritten, set_value-IsWritten}
use sloop.Processing.Services.{Services}
use sloop.Processing.Summary.{
  is_add, is_delete, string_to_protobuf_timestamp, first_value, get_resource_summary_value,
  get_relationships, summary_to_write, update_resource_summary_table,
}

module _ (s : Services) (d : Duration) where
  open s use {TS, timestamp, summary_codec}

  -- What a row is after a record, by what the table had at its key: a new row takes the time of its
  -- creation from the payload; an old row keeps that time, keeps the first time that it was seen but
  -- for an addition, and once deleted stays so.
  unfoldable pub IsRowAfter :
      Outcome (ResourceSummary TS) → KubeWatchResult TS → KubeMetadata → ResourceSummary TS → Type 0
  IsRowAfter (ok old) r m v =
      (v.last_seen ≡ r.timestamp)
      × (v.first_seen ≡ (if is_add r.watch_type then r.timestamp else old.first_seen))
      × (v.create_time ≡ old.create_time)
      × (v.deleted_at_end ≡ is_delete r.watch_type || old.deleted_at_end)
  IsRowAfter (err e) r m v =
      (is_key_not_found e ≡ true)
      × (v.last_seen ≡ r.timestamp)
      × (v.first_seen ≡ r.timestamp)
      × (string_to_protobuf_timestamp s d m.creation_timestamp ≡ ok v.create_time)
      × (v.deleted_at_end ≡ is_delete r.watch_type)
  IsRowAfter panic r m v = ⊥
  IsRowAfter running r m v = ⊥

  -- The row that is written for the value that `first_value` gives.
  abbrev finish : KubeWatchResult TS → ResourceSummary TS → List Bytes → ResourceSummary TS
  finish r v rels = record v {
    last_seen = r.timestamp;
    deleted_at_end = (if is_delete r.watch_type then true else v.deleted_at_end);
    relationships = rels;
  }

  -- A new row, before the record is taken in.
  abbrev first_row : KubeWatchResult TS → TS → ResourceSummary TS
  first_row r create_time = record {
    first_seen = r.timestamp;
    last_seen = r.timestamp;
    create_time = create_time;
    deleted_at_end = false;
    relationships = [];
  }

  if_or : (a b : Bool) → (if a then true else b) ≡ a || b
  if_or a b = ground arith

  or_false : (a : Bool) → (a || false) ≡ a
  or_false a = ground arith

  finish-IsRowAfter :
      (stored : Outcome (ResourceSummary TS)) (r : KubeWatchResult TS) (m : KubeMetadata)
      (v : ResourceSummary TS) (rels : List Bytes)
      → first_value s d stored m r ≡ ok v
      → IsRowAfter stored r m (finish r v rels)
  unfolding first_value IsRowAfter
  finish-IsRowAfter (ok old) r m v rels e =
      let q : (if is_add r.watch_type then record old { first_seen = r.timestamp } else old) ≡ v =
        cc in
      subst (λ x. IsRowAfter (ok old) r m (finish r x rels)) q
        (elim (Bool-cases (is_add r.watch_type)) [
          | inl a ↦ rw a (refl, refl, refl, if_or (is_delete r.watch_type) old.deleted_at_end)
          | inr a ↦ rw a (refl, refl, refl, if_or (is_delete r.watch_type) old.deleted_at_end)
        ])
  finish-IsRowAfter (err e) r m v rels h = elim (Bool-cases (is_key_not_found e)) [
    | inr a ↦ absurd (cc (rw a at h))
    | inl a ↦
        let h' : (do
          create_time ← string_to_protobuf_timestamp s d m.creation_timestamp
          ok (first_row r create_time))
            ≡ ok v =
          rw a at h in
        let (create_time, e1, e2) =
          >>=-eq-ok (string_to_protobuf_timestamp s d m.creation_timestamp)
            (λ create_time. ok (first_row r create_time)) h' in
        let q : first_row r create_time ≡ v = cc in
        subst (λ x. IsRowAfter (err e) r m (finish r x rels)) q
          (
            a,
            refl,
            refl,
            e1,
            if_or (is_delete r.watch_type) false ∙ or_false (is_delete r.watch_type),
          )
  ]
  finish-IsRowAfter panic r m v rels e = absurd (cc)
  finish-IsRowAfter running r m v rels e = absurd (cc)

  assemble :
      (t : MockTxn) (r : KubeWatchResult TS) (m : KubeMetadata) (k key : Bytes)
      (u w v : ResourceSummary TS) (rels : List Bytes)
      → first_value s d (get_value summary_key summary_codec t k) m r ≡ ok u
      → ok (finish r u u.relationships) ≡ ok w
      → ◌≡◌ {A = Outcome (Bytes × ResourceSummary TS)}
          (ok (k, record w { relationships = rels }))
          (ok (key, v))
      → IsRowAfter (get_value summary_key summary_codec t key) r m v
  assemble t r m k key u w v rels e h5 h4 =
      let ek : k ≡ key = cc in
      let ew : finish r u u.relationships ≡ w = cc in
      let ev : (record w { relationships = rels }) ≡ v = cc in
      let here : IsRowAfter (get_value summary_key summary_codec t k) r m (finish r u rels) =
        finish-IsRowAfter (get_value summary_key summary_codec t k) r m u rels e in
      let with_rels : ResourceSummary TS → ResourceSummary TS =
        λ x. record x { relationships = rels } in
      let same : finish r u rels ≡ v = ap with_rels ew ∙ ev in
      subst (λ x. IsRowAfter (get_value summary_key summary_codec t x) r m v) ek
        (subst (λ x. IsRowAfter (get_value summary_key summary_codec t k) r m x) same here)

  pub summary_to_write-IsRowAfter :
      (t : MockTxn) (r : KubeWatchResult TS) (m : KubeMetadata) (key : Bytes)
      (v : ResourceSummary TS)
      → summary_to_write s d t r m ≡ ok (key, v)
      → IsRowAfter (get_value summary_key summary_codec t key) r m v
  unfolding summary_to_write get_resource_summary_value
  summary_to_write-IsRowAfter t r m key v h =
      let (time, e1, h1) = >>=-eq-ok (or_err (timestamp r.timestamp) bad_time) _ h in
      let (k, e2, h2) = >>=-eq-ok (new_key d (in_utc time) r.kind m.namespace m.name m.uid) _ h1 in
      let (w, e3, h3) = >>=-eq-ok (get_resource_summary_value s d t (to_string k) m r) _ h2 in
      let (rels, e4, h4) =
        >>=-eq-ok (get_relationships s d time m.namespace m.owner_references) _ h3 in
      let (u, e5, h5) =
        >>=-eq-ok (first_value s d (get_value summary_key summary_codec t (to_string k)) m r) _
          e3 in
      assemble t r m (to_string k) key u w v rels e5 h5 h4

  -- With an encoding that round-trips: when the update of the resource summary table for a record that is
  -- no event succeeds, there are a key and a row such that the table has the row at the key, at each
  -- other key what it had, and the row is the one after the record: last seen at its time, first seen
  -- at its time if the row is new or the record an addition and as before otherwise, created when the
  -- old row says or, for a new one, the payload, and deleted if the record says so or the old row did.
  pub summary-IsRowAfter :
      (t : MockTxn) (r : KubeWatchResult TS) (m : KubeMetadata)
      → RoundTrips summary_codec
      → eqb r.kind event_kind ≡ false
      → (update_resource_summary_table s d r m t).0 ≡ ok tt
      → (key : Bytes) × (v : ResourceSummary TS) × IsWritten summary_key summary_codec key v t
          (update_resource_summary_table s d r m t).1
        × IsRowAfter (get_value summary_key summary_codec t key) r m v
  unfolding update_resource_summary_table
  summary-IsRowAfter t r m c k = rw k (λ done.
      elim (then_exec-cases (summary_to_write s d t r m)
        (λ row. set_value summary_key summary_codec row.0 row.1) t) [
          | inr (same, never) ↦ absurd (never tt done)
          | inl ((key, v), e, q) ↦ (
            key,
            v,
            rw q (
                set_value-IsWritten summary_key summary_codec key v t c
                  (sym (ap (λ x. x.0) q) ∙ done)),
            summary_to_write-IsRowAfter t r m key v e,
          )
        ])
