-- ===== src/Processing/Watch/Stored.antt =====
-- What becomes of a watch record in the watch table.
use sloop.Base.{
  Bool, true, false, not, ◌&&◌, ◌≡◌, ◌∙◌, sym, ap, subst, arith, Option, none, some, if◌then◌else◌,
  Bool-cases, inl, inr, ◌⊎◌,
}
use sloop.Base.Bytes.{Bytes, eqb}
use sloop.Base.Outcome.{Outcome, ok, ◌>>=◌, >>=-eq-ok}
use sloop.GoTime.{Duration}
use sloop.KubeExtractor.{KubeMetadata, node_kind, node_has_major_update}
use sloop.Mock.{MockTxn}
use sloop.Typed.Schema.{KubeWatchResult}
use sloop.Typed.WatchKey.{WatchTableKey, watch_key, to_string}
use sloop.Typed.Table.{return}
use sloop.Typed.Table.Frame.{then_exec-cases}
use sloop.Typed.Table.Values.{RoundTrips}
use sloop.Typed.Table.Written.{IsWritten, set_value-IsWritten}
use sloop.Processing.Services.{Services}
use sloop.Processing.Watch.{
  to_watch_table_key, get_last_kube_watch_result, does_node_have_major_updates, key_to_write,
  write_at, update_kube_watch_table,
}

module _ (s : Services) (d : Duration) where
  open s use {TS, json, watch_codec}

  -- The record is one of a node, minor updates of nodes are not kept, and the last record of the node
  -- in the same partition differs in nothing but its version and its heartbeats.
  pub record IsMinor (t : MockTxn) (r : KubeWatchResult TS) (m : KubeMetadata) (keep_minor : Bool)
      : Type 0 where
    pub node : eqb r.kind node_kind ≡ true
    pub not_kept : keep_minor ≡ false
    pub prev : KubeWatchResult TS
    pub is_last :
        get_last_kube_watch_result s d t r.timestamp r.kind m.namespace m.name ≡ ok (some prev)
    pub same : node_has_major_update json prev.payload r.payload ≡ ok false

  no_major_updates :
      (t : MockTxn) (r : KubeWatchResult TS) (m : KubeMetadata)
      → does_node_have_major_updates s d t r m ≡ ok false
      → (prev : KubeWatchResult TS) × (get_last_kube_watch_result s d t r.timestamp r.kind
            m.namespace m.name
          ≡ ok (some prev))
        × (node_has_major_update json prev.payload r.payload ≡ ok false)
  unfolding does_node_have_major_updates
  no_major_updates t r m h =
      let (prev_value, e, q) =
        >>=-eq-ok (get_last_kube_watch_result s d t r.timestamp r.kind m.namespace m.name) _ h in
      found prev_value e q
    where
      found :
          (prev_value : Option (KubeWatchResult TS))
          → get_last_kube_watch_result s d t r.timestamp r.kind m.namespace m.name ≡ ok prev_value
          → (elim prev_value as (λ x. Outcome Bool) [
            | none ↦ ok true
            | some prev ↦ node_has_major_update json prev.payload r.payload
          ])
            ≡ ok false
          → (prev : KubeWatchResult TS) × (get_last_kube_watch_result s d t r.timestamp r.kind
                m.namespace m.name
              ≡ ok (some prev))
            × (node_has_major_update json prev.payload r.payload ≡ ok false)
      found none e q = absurd (cc)
      found (some prev) e q = (prev, e, q)

  -- Where the record goes, by what is known of the key that is returned.
  abbrev Destination : MockTxn → KubeWatchResult TS → KubeMetadata → Bool → Option Bytes → Type 0
  Destination t r m keep_minor key =
      ((key ≡ none) × IsMinor t r m keep_minor)
      ⊎ ((k : WatchTableKey) × (to_watch_table_key s d r.timestamp r.kind m.namespace m.name ≡ ok k)
          × (key ≡ some (to_string k)))

  and_parts : (a b : Bool) → (a && not b) ≡ true → (a ≡ true) × (b ≡ false)
  and_parts a b h = ground (arith, h)

  node-Destination :
      (t : MockTxn) (r : KubeWatchResult TS) (m : KubeMetadata) (keep_minor has : Bool)
      (k : WatchTableKey) (key : Option Bytes)
      → to_watch_table_key s d r.timestamp r.kind m.namespace m.name ≡ ok k
      → (eqb r.kind node_kind && not keep_minor) ≡ true
      → does_node_have_major_updates s d t r m ≡ ok has
      → ok (if has then some (to_string k) else none) ≡ ok key
      → Destination t r m keep_minor key
  node-Destination t r m keep_minor true k key e n u q = inr (k, e, cc)
  node-Destination t r m keep_minor false k key e n u q =
      let (a, b) = and_parts (eqb r.kind node_kind) keep_minor n in
      let (prev, last, same) = no_major_updates t r m u in
      inl (cc, record { node = a; not_kept = b; prev = prev; is_last = last; same = same })

  key_to_write-Destination :
      (t : MockTxn) (r : KubeWatchResult TS) (m : KubeMetadata) (keep_minor : Bool)
      (key : Option Bytes)
      → key_to_write s d t r m keep_minor ≡ ok key
      → Destination t r m keep_minor key
  unfolding key_to_write
  key_to_write-Destination t r m keep_minor key h =
      let (k, e, q) =
        >>=-eq-ok (to_watch_table_key s d r.timestamp r.kind m.namespace m.name) _ h in
      elim (Bool-cases (eqb r.kind node_kind && not keep_minor)) [
        | inl n ↦
            let q' : (do
              has ← does_node_have_major_updates s d t r m
              ok (if has then some (to_string k) else none))
                ≡ ok key =
              rw n at q in
            let (has, u, p) = >>=-eq-ok (does_node_have_major_updates s d t r m) _ q' in
            node-Destination t r m keep_minor has k key e n u p
        | inr n ↦ let q' : ok (some (to_string k)) ≡ ok key = rw n at q in inr (k, e, cc)
      ]

  -- With an encoding that round-trips: when the update of the watch table succeeds, either it was for a
  -- minor update of a node and changed nothing, or the table has the record at the key of its time,
  -- kind, namespace and name, and at each other key what it had.
  pub watch_record_stored :
      (t : MockTxn) (r : KubeWatchResult TS) (m : KubeMetadata) (keep_minor : Bool)
      → RoundTrips watch_codec
      → (update_kube_watch_table s d r m keep_minor t).0 ≡ ok tt
      → (IsMinor t r m keep_minor × ((update_kube_watch_table s d r m keep_minor t).1 ≡ t))
        ⊎ ((k : WatchTableKey) × (to_watch_table_key s d r.timestamp r.kind m.namespace m.name
              ≡ ok k)
            × IsWritten watch_key watch_codec
                (to_string k)
                r
                t
                (update_kube_watch_table s d r m keep_minor t).1)
  unfolding update_kube_watch_table write_at return
  watch_record_stored t r m keep_minor c done =
      elim (then_exec-cases (key_to_write s d t r m keep_minor) (write_at s d r) t) [
        | inr (same, never) ↦ absurd (never tt done)
        | inl (key, e, q) ↦
            let written : (write_at s d r key t).0 ≡ ok tt = sym (ap (λ x. x.0) q) ∙ done in
            elim (key_to_write-Destination t r m keep_minor key e) [
              | inl (none_written, minor) ↦
                  inl (minor, ap (λ x. x.1) q ∙ ap (λ x. (write_at s d r x t).1) none_written)
              | inr (k, at, is_key) ↦
                  let there : (write_at s d r (some (to_string k)) t).0 ≡ ok tt =
                    subst (λ x. (write_at s d r x t).0 ≡ ok tt) is_key written in
                  inr (
                    k,
                    at,
                    subst (IsWritten watch_key watch_codec (to_string k) r t)
                        (sym (ap (λ x. x.1) q ∙ ap (λ x. (write_at s d r x t).1) is_key))
                        (set_value-IsWritten watch_key watch_codec (to_string k) r t c there),
                  )
            ]
      ]
