-- ===== src/Queries/Run/Events.antt =====
-- pkg/sloop/queries/eventquery.go: which events the query for an object's events returns.
use sloop.Base.{ℕ, Bool, true, ◌≡◌, refl, List, [], ◌∷◌, none, some, All, subst, arith}
use sloop.Base.Int.{◌≤ℤ◌, eqb_ℤ→eq}
use sloop.Base.Bytes.{Bytes, eqb_iff}
use sloop.Base.Outcome.{Outcome, ok, err, panic, running, >>=-eq-ok}
use sloop.GoTime.{ZonedTime, Duration}
use sloop.KubeExtractor.{EventInfo, KubeInvolvedObject, extract_event_info, extract_involved_object}
use sloop.Mock.{MockTxn}
use sloop.Typed.Schema.{KubeWatchResult}
use sloop.Typed.WatchKey.{WatchTableKey, watch_key, same}
use sloop.Typed.Table.{predicate_fns}
use sloop.Typed.Table.RangeRead.{FromStore, passes}
use sloop.Typed.Table.RangeReadSound.{range_read_sound}
use sloop.Processing.Services.{Services}
use sloop.Queries.RowFilter.{
  Selected, test_ok, out_of_range, is_event_val_in_time_range, match_event_involved_object,
}
use sloop.Queries.Run.{EventOutput, event_outputs, event_key_prefix, get_event_data}

test_ok-holds :
    {A : Type 0} (test : A → Bool) (o : Outcome A)
    → test_ok test o ≡ true
    → (a : A) × (o ≡ ok a) × (test a ≡ true)
unfolding test_ok
test_ok-holds test (ok a) h = (a, refl, h)
test_ok-holds test (err e) h = absurd (cc)
test_ok-holds test panic h = absurd (cc)
test_ok-holds test running h = absurd (cc)

pub same-eq : (j k : WatchTableKey) → same j k ≡ true → j ≡ k
unfolding same
same-eq j k h =
    let e1 = (eqb_iff j.partition_id k.partition_id).0 (ground (arith, h)) in
    let e2 = (eqb_iff j.kind k.kind).0 (ground (arith, h)) in
    let e3 = (eqb_iff j.namespace k.namespace).0 (ground (arith, h)) in
    let e4 = (eqb_iff j.name k.name).0 (ground (arith, h)) in
    let e5 = eqb_ℤ→eq j.timestamp k.timestamp (ground (arith, h)) in rw (e1, e2, e3, e4, e5)

module _ (s : Services) (start_time end_time : ZonedTime) (params : Selected) where
  open s use {TS, timestamp, json, watch_codec}

  -- The payload is that of an event about an object of the kind, and the event meets the query.
  abbrev pub IsAskedFor : Bytes → Type 0
  IsAskedFor payload =
      ((info : EventInfo) × (extract_event_info json payload ≡ ok info)
        × (info.first_timestamp ≤ℤ end_time.instant)
        × (start_time.instant ≤ℤ info.last_timestamp))
      × ((involved : KubeInvolvedObject) × (extract_involved_object json payload ≡ ok involved)
          × (involved.kind ≡ params.kind))

  passed-IsAskedFor :
      (val : KubeWatchResult TS)
      → is_event_val_in_time_range timestamp json start_time.instant end_time.instant val ≡ true
      → match_event_involved_object timestamp json params val ≡ true
      → IsAskedFor val.payload
  unfolding is_event_val_in_time_range match_event_involved_object out_of_range
  passed-IsAskedFor val h k =
      let (info, e, r) = test_ok-holds _ (extract_event_info json val.payload) h in
      let (involved, g, q) = test_ok-holds _ (extract_involved_object json val.payload) k in
      ((info, e, ground (arith, r), ground (arith, r)), (involved, g, (eqb_iff _ _).0 q))

  outputs-IsAskedFor :
      (t : MockTxn) (texts : List Bytes) (rows : List (WatchTableKey × KubeWatchResult TS))
      → All
          (FromStore watch_key watch_codec t none
            (some (
              predicate_fns (
                is_event_val_in_time_range timestamp json start_time.instant end_time.instant
                ∷ match_event_involved_object timestamp json params
                ∷ [])))
            texts)
          rows
      → All (λ o. IsAskedFor o.payload) (event_outputs rows)
  unfolding event_outputs predicate_fns passes
  outputs-IsAskedFor t texts [] a = tt
  outputs-IsAskedFor t texts ((key, val) ∷ rows) ((text, b, c, d, e, p), a) = (
    passed-IsAskedFor val (ground (arith, p)) (ground (arith, p)),
    outputs-IsAskedFor t texts rows a,
  )

  -- If the query for the events of an object returns, the payload of each event that it returns decodes
  -- as an event that begins no later than the end of the query and ends no earlier than its start, about
  -- an object of the kind that is asked for.
  pub event_data-IsAskedFor :
      (equal_fold : Bytes → Bytes → Bool) (f : ℕ) (d : Duration) (t : MockTxn)
      (outputs : List EventOutput)
      → get_event_data s equal_fold f d t start_time end_time params ≡ ok outputs
      → All (λ o. IsAskedFor o.payload) outputs
  unfolding get_event_data
  event_data-IsAskedFor equal_fold f d t outputs h =
      let ((rows, stats), e, q) = >>=-eq-ok _ _ h in
      let (ps, g, a, c1, c2, c3) =
        range_read_sound watch_key watch_codec t none _ f d (some (event_key_prefix params))
          start_time end_time same-eq e in
      let same_outputs : event_outputs rows ≡ outputs = cc in
      subst (λ x. All (λ o. IsAskedFor o.payload) x) same_outputs (outputs-IsAskedFor t _ rows a)
