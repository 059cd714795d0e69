-- ===== src/Examples/Timeline.antt =====
-- Payloads and rows of a timeline.
use sloop.Base.{
  ℕ, ◌+◌, Bool, true, false, ◌≡◌, ◌≤◌, refl, ap, sym, ◌∙◌, Bool-cases, arith, List, [], ◌∷◌, ◌++◌,
  Option, none, some, All, inl, inr, ◌⊎◌, if◌then◌else◌,
}
use sloop.Base.Int.{ℤ, pos, eqb_ℤ, eqb_ℤ→eq, ◌≤ℤ◌, ◌<ℤ◌, leb_ℤ}
use sloop.Base.Bytes.{Bytes, codes}
use sloop.Base.Outcome.{Outcome, ok}
use sloop.GoTime.{Time}
use sloop.Mock.{MockDb, get, view}
use sloop.Mock.Refine.{
  Op, put, put_in_view, remove, drop, apply_all, specified_all, map_of, read_of, mock_refines_map,
}
use sloop.Typed.Schema.{ResourceSummary}
use sloop.Typed.SummaryKey.{ResourceSummaryKey}
use sloop.Queries.Payloads.{PayloadOutput, remove_dupe_payloads}
use sloop.Queries.Payloads.Replay.{IsSortedByTime, NoRepeats, payload_at, dupes_replay}
use sloop.Queries.HeatMap.{
  Overlay, TimelineRow, Rows, adjust_row, adjust_start, res_sum_rows_to_d3_gantt_map,
}
use sloop.Queries.HeatMap.Overlays.{AreInside, overlays_inside, early_overlay_collapses}
use sloop.Queries.HeatMap.Rows.{Shown, rows_show_newest}
use sloop.Queries.TimeFilter.{time_filter_res_sum_value}
use sloop.Queries.TimeFilter.Clip.{
  IsReadBack, IsClipped, not_before, not_after, kept_summary-IsClipped,
}
use sloop.Examples.Services.{timestamp, timestamp_proto, first_time, second_time}

abbrev some_ops : List Op
some_ops =
    put (codes "a1") (codes "x")
    ∷ put (codes "a2") (codes "y")
    ∷ put_in_view (codes "a1") (codes "z")
    ∷ remove (codes "a2")
    ∷ drop (codes "b")
    ∷ []

abbrev some_db : MockDb
some_db = record { entries = (codes "b1", codes "w") ∷ [] }

mock_refines_map_example :
    (view (λ t. (get t (codes "a1"), t)) (apply_all some_ops some_db)).0
    ≡ read_of (specified_all some_ops (map_of some_db) (codes "a1"))
mock_refines_map_example = mock_refines_map some_ops some_db (codes "a1")

abbrev output : ℕ → Bytes → PayloadOutput
output n text = record { payload_time = pos n; payload = text; payload_key = [] }

-- A sort for the example: insertion by the time.
insert_output : PayloadOutput → List PayloadOutput → List PayloadOutput
insert_output p [] = p ∷ []
insert_output p (q ∷ qs) =
    let rest = insert_output p qs in
    if leb_ℤ p.payload_time q.payload_time then p ∷ q ∷ qs else q ∷ rest

abbrev sort_outputs : List PayloadOutput → List PayloadOutput
sort_outputs [] = []
sort_outputs (p ∷ ps) = insert_output p (sort_outputs ps)

All-insert :
    (t : ℤ) (p : PayloadOutput) (ps : List PayloadOutput)
    → t ≤ℤ p.payload_time
    → All (λ q. t ≤ℤ q.payload_time) ps
    → All (λ q. t ≤ℤ q.payload_time) (insert_output p ps)
unfolding insert_output
All-insert t p [] h a = (h, tt)
All-insert t p (q ∷ qs) h (a, rest) = elim (Bool-cases (leb_ℤ p.payload_time q.payload_time)) [
  | inl e ↦ rw e (h, (a, rest))
  | inr e ↦ rw e (a, All-insert t p qs h rest)
]

All-later :
    (p q : ℤ) (qs : List PayloadOutput)
    → p ≤ℤ q
    → All (λ x. q ≤ℤ x.payload_time) qs
    → All (λ x. p ≤ℤ x.payload_time) qs
All-later p q [] h a = tt
All-later p q (x ∷ qs) h (a, rest) = (omega (arith, h, a), All-later p q qs h rest)

insert_step :
    (p q : PayloadOutput) (qs rest : List PayloadOutput) (b : Bool)
    → leb_ℤ p.payload_time q.payload_time ≡ b
    → IsSortedByTime (q ∷ qs)
    → All (λ x. q.payload_time ≤ℤ x.payload_time) rest ⊎ (b ≡ true)
    → IsSortedByTime rest
    → IsSortedByTime (if b then p ∷ q ∷ qs else q ∷ rest)
insert_step p q qs rest true e (a, s) h r =
    let le : p.payload_time ≤ℤ q.payload_time = ground (arith, e) in
    ((le, All-later p.payload_time q.payload_time qs le a), (a, s))
insert_step p q qs rest false e (a, s) (inl h) r = (h, r)
insert_step p q qs rest false e (a, s) (inr h) r = absurd (cc)

insert-IsSortedByTime :
    (p : PayloadOutput) (ps : List PayloadOutput)
    → IsSortedByTime ps
    → IsSortedByTime (insert_output p ps)
unfolding insert_output
insert-IsSortedByTime p [] s = (tt, tt)
insert-IsSortedByTime p (q ∷ qs) (a, s) =
    insert_step p q qs (insert_output p qs) (leb_ℤ p.payload_time q.payload_time) refl (a, s)
      (elim (Bool-cases (leb_ℤ p.payload_time q.payload_time)) [
        | inl e ↦ inr e
        | inr e ↦
            let le : q.payload_time ≤ℤ p.payload_time = ground (arith, e) in
            inl (All-insert q.payload_time p qs le a)
      ])
      (insert-IsSortedByTime p qs s)

sort-IsSortedByTime : (ps : List PayloadOutput) → IsSortedByTime (sort_outputs ps)
sort-IsSortedByTime [] = tt
sort-IsSortedByTime (p ∷ ps) = insert-IsSortedByTime p (sort_outputs ps) (sort-IsSortedByTime ps)

abbrev outputs : List PayloadOutput
outputs = output 9 (codes "b") ∷ output 3 (codes "a") ∷ output 5 (codes "a") ∷ []

dupes_replay_example :
    NoRepeats [] (remove_dupe_payloads sort_outputs outputs)
    × ((time : ℤ)
        → payload_at time [] (remove_dupe_payloads sort_outputs outputs)
          ≡ payload_at time [] (sort_outputs outputs))
dupes_replay_example = dupes_replay sort_outputs sort-IsSortedByTime outputs

abbrev overlay : ℕ → Overlay
overlay n = record {
  text = codes "Failed:3";
  start_date = pos n;
  duration = pos 60;
  end_date = pos (n + 60);
}

abbrev row : TimelineRow
row = record {
  text = codes "web";
  duration = pos 100;
  kind = codes "Pod";
  namespace = codes "shop";
  overlays = overlay 960 ∷ overlay 1080 ∷ [];
  changed_at = [];
  no_change_at = [];
  start_date = pos 1000;
  end_date = pos 1100;
}

overlays_inside_example : AreInside (adjust_row row)
unfolding sloop.Base.Int.◌+ℤ◌
overlays_inside_example = overlays_inside row (omega arith) (
  record {
    consistent = record { ends = refl; not_negative = omega arith };
    at_most_minute = omega arith;
    begins_before_end = omega arith;
    ends_behind_start = omega arith;
  },
  (
    record {
      consistent = record { ends = refl; not_negative = omega arith };
      at_most_minute = omega arith;
      begins_before_end = omega arith;
      ends_behind_start = omega arith;
    },
    tt,
  ),
)

early_overlay_collapses_example :
    ((adjust_start (pos 5000) (overlay 960)).start_date ≡ (overlay 960).end_date)
    × ((adjust_start (pos 5000) (overlay 960)).duration ≡ pos 0)
    × ((adjust_start (pos 5000) (overlay 960)).start_date <ℤ pos 5000)
unfolding sloop.Base.Int.◌+ℤ◌
early_overlay_collapses_example =
    early_overlay_collapses (pos 5000) (overlay 960)
      (record { ends = refl; not_negative = omega arith }) refl (omega arith) (omega arith)

abbrev key : Bytes → ResourceSummaryKey
key partition = record {
  partition_id = partition;
  kind = codes "Pod";
  namespace = codes "shop";
  name = codes "web";
  uid = codes "u1";
}

abbrev summary : Bool → ResourceSummary Bool
summary last = record {
  first_seen = false;
  last_seen = last;
  create_time = false;
  deleted_at_end = false;
  relationships = [];
}

abbrev summaries : List (ResourceSummaryKey × ResourceSummary Bool)
summaries = (key (codes "1"), summary false) ∷ (key (codes "2"), summary true) ∷ []

abbrev rows_of : Outcome Rows → Rows
rows_of (ok rows) = rows
rows_of _ = []

abbrev rows : Rows
rows = rows_of (res_sum_rows_to_d3_gantt_map timestamp summaries)

rows_show_newest_example : All (Shown timestamp rows) summaries
unfolding res_sum_rows_to_d3_gantt_map
rows_show_newest_example = rows_show_newest timestamp summaries rows refl

abbrev clipped : ResourceSummary Bool
clipped = record {
  first_seen = false;
  last_seen = true;
  create_time = true;
  deleted_at_end = false;
  relationships = [];
}

read_back_of :
    (t : Time) (value first second : Bool)
    → eqb_ℤ t first_time ≡ first
    → eqb_ℤ t second_time ≡ second
    → (if second then some true else if first then some false else none) ≡ some value
    → timestamp value ≡ some t
read_back_of t true first true e1 e2 h = ap some (sym (eqb_ℤ→eq t second_time e2))
read_back_of t false first true e1 e2 h = absurd (cc)
read_back_of t false true false e1 e2 h = ap some (sym (eqb_ℤ→eq t first_time e1))
read_back_of t true true false e1 e2 h = absurd (cc)
read_back_of t value false false e1 e2 h = absurd (cc)

read_back : IsReadBack timestamp timestamp_proto
read_back t value h = read_back_of t value (eqb_ℤ t first_time) (eqb_ℤ t second_time) refl refl h

kept_summary-IsClipped_example :
    IsClipped timestamp timestamp_proto second_time second_time first_time second_time clipped
    × (second_time ≤ℤ not_before second_time first_time)
    × (not_after second_time second_time ≤ℤ second_time)
    × (((second_time <ℤ first_time) ⊎ (second_time <ℤ second_time))
        ⊎ (not_before second_time first_time ≤ℤ not_after second_time second_time))
unfolding time_filter_res_sum_value
kept_summary-IsClipped_example =
    kept_summary-IsClipped timestamp timestamp_proto (summary true) clipped second_time second_time
      first_time second_time read_back refl refl refl
