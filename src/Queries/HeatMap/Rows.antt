-- ===== src/Queries/HeatMap/Rows.antt =====
-- The row that the timeline has for an object that has summaries in several partitions.
use sloop.Base.{
  true, false, ◌≡◌, ◌∙◌, refl, sym, ap, subst, arith, ◌↔◌, List, [], ◌∷◌, Option, none, some, All,
  Bool-cases, inl, inr, map_get, map_put, map_get-map_put,
}
use sloop.Base.Int.{ℤ, ◌≤ℤ◌, ltb_ℤ}
use sloop.Base.Bytes.{eqb_iff, eqb_refl}
use sloop.Base.Outcome.{ok, >>=-eq-ok, or_err, bad_time}
use sloop.GoTime.{Time, unix}
use sloop.Typed.Schema.{ResourceSummary}
use sloop.Typed.SummaryKey.{ResourceSummaryKey, same, set_partition_id}
use sloop.Queries.HeatMap.{
  TimelineRow, Rows, take_newest, newest_of, res_sum_row_to_d3_gantt, d3_gantt_loop,
  res_sum_rows_to_d3_gantt_map,
}

pub same_iff : (k j : ResourceSummaryKey) → (same k j ≡ true) ↔ (k ≡ j)
unfolding same
same_iff k j = (
  λ h.
      let e1 : k.partition_id ≡ j.partition_id =
        ground (arith, h, eqb_iff k.partition_id j.partition_id) in
      let e2 : k.kind ≡ j.kind = ground (arith, h, eqb_iff k.kind j.kind) in
      let e3 : k.namespace ≡ j.namespace = ground (arith, h, eqb_iff k.namespace j.namespace) in
      let e4 : k.name ≡ j.name = ground (arith, h, eqb_iff k.name j.name) in
      let e5 : k.uid ≡ j.uid = ground (arith, h, eqb_iff k.uid j.uid) in cc (e1, e2, e3, e4, e5),
  λ h.
      subst (λ x. same k x ≡ true) h
        (rw (
          eqb_refl k.partition_id,
          eqb_refl k.kind,
          eqb_refl k.namespace,
          eqb_refl k.name,
          eqb_refl k.uid,
        )),
)

-- The map has a row for the object that does not end before a date.
abbrev pub LastsUntil : ResourceSummaryKey → ℤ → Rows → Type 0
LastsUntil k date rows =
    (row : TimelineRow) × (map_get same k rows ≡ some row) × (date ≤ℤ row.end_date)

ltb_ℤ→le : (a b : ℤ) → ltb_ℤ a b ≡ true → a ≤ℤ b
ltb_ℤ→le a b h = ground (arith, h)

not_ltb_ℤ : (a b : ℤ) → ltb_ℤ a b ≡ false → b ≤ℤ a
not_ltb_ℤ a b h = ground (arith, h)

take_newest-bounds :
    (left right : TimelineRow)
    → (left.end_date ≤ℤ (take_newest left right).end_date)
      × (right.end_date ≤ℤ (take_newest left right).end_date)
unfolding take_newest
take_newest-bounds left right = elim (Bool-cases (ltb_ℤ right.end_date left.end_date)) [
  | inl e ↦ rw e (omega arith, ltb_ℤ→le right.end_date left.end_date e)
  | inr e ↦ rw e (not_ltb_ℤ right.end_date left.end_date e, omega arith)
]

newest_of-bounds :
    (row : TimelineRow) (old : Option TimelineRow) → row.end_date ≤ℤ (newest_of row old).end_date
unfolding newest_of
newest_of-bounds row none = omega arith
newest_of-bounds row (some old) = (take_newest-bounds row old).0

newest_of-old :
    (row r : TimelineRow) (old : Option TimelineRow)
    → old ≡ some r
    → r.end_date ≤ℤ (newest_of row old).end_date
unfolding newest_of
newest_of-old row r none e = absurd (cc)
newest_of-old row r (some old) e =
    let q : old ≡ r = cc in
    subst (λ x. x.end_date ≤ℤ (take_newest row old).end_date) q (take_newest-bounds row old).1

new-LastsUntil :
    (k : ResourceSummaryKey) (row : TimelineRow) (rows : Rows)
    → LastsUntil k row.end_date (map_put same k (newest_of row (map_get same k rows)) rows)
new-LastsUntil k row rows =
    let new = newest_of row (map_get same k rows) in
    (
      new,
      map_get-map_put same same_iff k k new rows ∙ rw ((same_iff k k).1 refl),
      newest_of-bounds row (map_get same k rows),
    )

old-LastsUntil :
    (k j : ResourceSummaryKey) (row : TimelineRow) (rows : Rows) (date : ℤ)
    → LastsUntil j date rows
    → LastsUntil j date (map_put same k (newest_of row (map_get same k rows)) rows)
old-LastsUntil k j row rows date (old, e, b) = elim (Bool-cases (same k j)) [
  | inl q ↦
      let eq : k ≡ j = (same_iff k j).0 q in
      let new = newest_of row (map_get same k rows) in
      let held : map_get same k rows ≡ some old = rw eq e in
      let more : old.end_date ≤ℤ new.end_date = newest_of-old row old (map_get same k rows) held in
      (new, map_get-map_put same same_iff k j new rows ∙ rw q, omega (arith, b, more))
  | inr q ↦ (old, map_get-map_put same same_iff k j _ rows ∙ rw q e, b)
]

same_end : (a b : TimelineRow) → ok a ≡ ok b → a.end_date ≡ b.end_date
same_end a b h = let q : a ≡ b = cc in ap (λ x. x.end_date) q

module _ {TS : Type 0} (timestamp : TS → Option Time) where
  -- The timeline shows the object at least until the summary was last seen.
  abbrev pub Shown : Rows → ResourceSummaryKey × ResourceSummary TS → Type 0
  Shown rows (key, value) =
      (last_ts : Time)
      → timestamp value.last_seen ≡ some last_ts
      → LastsUntil (set_partition_id key []) (unix last_ts) rows

  row_end :
      (key : ResourceSummaryKey) (value : ResourceSummary TS) (row : TimelineRow) (last_ts : Time)
      → res_sum_row_to_d3_gantt timestamp key value ≡ ok row
      → timestamp value.last_seen ≡ some last_ts
      → row.end_date ≡ unix last_ts
  unfolding res_sum_row_to_d3_gantt
  row_end key value row last_ts h e =
      let (a, e1, q1) = >>=-eq-ok (or_err (timestamp value.create_time) bad_time) _ h in
      let (b, e2, q2) = >>=-eq-ok (or_err (timestamp value.last_seen) bad_time) _ q1 in
      let e2' : ok last_ts ≡ ok b = rw e at e2 in
      let same_time : b ≡ last_ts = cc in sym (same_end _ row q2) ∙ ap unix same_time

  loop_keeps :
      (summaries : List (ResourceSummaryKey × ResourceSummary TS)) (result rows : Rows)
      (j : ResourceSummaryKey) (date : ℤ)
      → d3_gantt_loop timestamp summaries result ≡ ok rows
      → LastsUntil j date result
      → LastsUntil j date rows
  unfolding d3_gantt_loop
  loop_keeps [] result rows j date h l = let q : result ≡ rows = cc in subst (LastsUntil j date) q l
  loop_keeps ((key, value) ∷ summaries) result rows j date h l =
      let k = set_partition_id key [] in
      let (row, e, q) = >>=-eq-ok (res_sum_row_to_d3_gantt timestamp k value) _ h in
      loop_keeps summaries (map_put same k (newest_of row (map_get same k result)) result) rows j
        date q (old-LastsUntil k j row result date l)

  loop_shows :
      (summaries : List (ResourceSummaryKey × ResourceSummary TS)) (result rows : Rows)
      → d3_gantt_loop timestamp summaries result ≡ ok rows
      → All (Shown rows) summaries
  unfolding d3_gantt_loop
  loop_shows [] result rows h = tt
  loop_shows ((key, value) ∷ summaries) result rows h =
      let k = set_partition_id key [] in
      let (row, e, q) = >>=-eq-ok (res_sum_row_to_d3_gantt timestamp k value) _ h in
      let next = map_put same k (newest_of row (map_get same k result)) result in
      (
        λ last_ts t.
            subst (λ x. LastsUntil k x rows) (row_end k value row last_ts e t)
              (loop_keeps summaries next rows k row.end_date q (new-LastsUntil k row result)),
        loop_shows summaries next rows q,
      )

  -- If the rows of the timeline are made of the summaries of all partitions, in whatever order, each
  -- summary's object has a row under its key without a partition, and that row does not end before the
  -- summary was last seen.
  pub rows_show_newest :
      (summaries : List (ResourceSummaryKey × ResourceSummary TS)) (rows : Rows)
      → res_sum_rows_to_d3_gantt_map timestamp summaries ≡ ok rows
      → All (Shown rows) summaries
  unfolding res_sum_rows_to_d3_gantt_map
  rows_show_newest summaries rows h = loop_shows summaries [] rows h
