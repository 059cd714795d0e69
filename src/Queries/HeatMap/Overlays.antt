-- ===== src/Queries/HeatMap/Overlays.antt =====
-- The overlays of a row after they were adjusted to it.
use sloop.Base.{◌&&◌, ◌≡◌, arith, List, [], ◌∷◌, map, All, Bool-cases, inl, inr}
use sloop.Base.Int.{ℤ, pos, ◌+ℤ◌, ◌-ℤ◌, ◌≤ℤ◌, ◌<ℤ◌, ltb_ℤ, leb_ℤ, int_laws}
use sloop.Queries.HeatMap.Dates.{
  add_zero, cancel, shifted, shortened, positive, parts_of, nothing_left, not_moved,
  sub_not_positive, short, overshoot, is_moved, le→leb_ℤ, shrinks,
}
use sloop.Queries.HeatMap.{
  Overlay, TimelineRow, limit, move_start, move_end, adjust_start, adjust_end, adjust_row,
}

-- The end is the start and the duration, which is not negative.
pub record IsConsistent (ol : Overlay) : Type 0 where
  pub ends : ol.start_date +ℤ ol.duration ≡ ol.end_date
  pub not_negative : pos 0 ≤ℤ ol.duration

-- The overlay lies in a time.
pub record IsInside (from to : ℤ) (ol : Overlay) : Type 0 where
  pub from_le : from ≤ℤ ol.start_date
  pub le_to : ol.end_date ≤ℤ to

move_start-IsConsistent : (e : ℤ) (ol : Overlay) → IsConsistent ol → IsConsistent (move_start e ol)
unfolding move_start
move_start-IsConsistent e ol h = elim (Bool-cases (leb_ℤ (ol.duration -ℤ e) (pos 0))) [
  | inl q ↦ rw q (record { ends = add_zero ol.end_date; not_negative = omega arith })
  | inr q ↦ rw q (record {
    ends = shifted ol.start_date ol.duration ol.end_date e h.ends;
    not_negative = positive ol.duration e q;
  })
]

move_end-IsConsistent : (e : ℤ) (ol : Overlay) → IsConsistent ol → IsConsistent (move_end e ol)
unfolding move_end
move_end-IsConsistent e ol h = elim (Bool-cases (leb_ℤ (ol.duration -ℤ e) (pos 0))) [
  | inl q ↦ rw q (record { ends = add_zero ol.start_date; not_negative = omega arith })
  | inr q ↦ rw q (record {
    ends = shortened ol.start_date ol.duration ol.end_date e h.ends;
    not_negative = positive ol.duration e q;
  })
]

adjust_start-IsConsistent :
    (from : ℤ) (ol : Overlay) → IsConsistent ol → IsConsistent (adjust_start from ol)
unfolding adjust_start
adjust_start-IsConsistent from ol h =
    let e = from -ℤ ol.start_date in
    elim (Bool-cases (ltb_ℤ (pos 0) e && ltb_ℤ e limit)) [
      | inl q ↦ rw q (move_start-IsConsistent e ol h)
      | inr q ↦ rw q h
    ]

adjust_end-IsConsistent :
    (to : ℤ) (ol : Overlay) → IsConsistent ol → IsConsistent (adjust_end to ol)
unfolding adjust_end
adjust_end-IsConsistent to ol h =
    let e = ol.end_date -ℤ to in
    elim (Bool-cases (ltb_ℤ (pos 0) e && ltb_ℤ e limit)) [
      | inl q ↦ rw q (move_end-IsConsistent e ol h)
      | inr q ↦ rw q h
    ]

-- An overlay of at most a minute that meets the time of the row.
pub record Meets (from to : ℤ) (ol : Overlay) : Type 0 where
  pub consistent : IsConsistent ol
  pub at_most_minute : ol.duration ≤ℤ pos 60
  pub begins_before_end : ol.start_date ≤ℤ to
  pub ends_behind_start : from ≤ℤ ol.end_date

move_start_from :
    (from : ℤ) (ol : Overlay)
    → IsConsistent ol
    → from ≤ℤ ol.end_date
    → (move_start (from -ℤ ol.start_date) ol).start_date ≡ from
unfolding move_start
move_start_from from ol h b =
    let e = from -ℤ ol.start_date in
    elim (Bool-cases (leb_ℤ (ol.duration -ℤ e) (pos 0))) [
      | inl q ↦ rw q (nothing_left ol.start_date ol.duration ol.end_date from h.ends b q)
      | inr q ↦ rw q (cancel ol.start_date from)
    ]

move_start_end : (e : ℤ) (ol : Overlay) → (move_start e ol).end_date ≡ ol.end_date
unfolding move_start
move_start_end e ol = elim (Bool-cases (leb_ℤ (ol.duration -ℤ e) (pos 0))) [
  | inl q ↦ rw q
  | inr q ↦ rw q
]

-- The start of an overlay that meets the row lies in the row.
adjust_start_inside :
    (from to : ℤ) (ol : Overlay)
    → from ≤ℤ to
    → Meets from to ol
    → (from ≤ℤ (adjust_start from ol).start_date) × ((adjust_start from ol).start_date ≤ℤ to)
unfolding adjust_start
adjust_start_inside from to ol f m =
    let e = from -ℤ ol.start_date in
    elim (Bool-cases (ltb_ℤ (pos 0) e && ltb_ℤ e limit)) [
      | inl q ↦
          let at : (move_start e ol).start_date ≡ from =
            move_start_from from ol m.consistent m.ends_behind_start in
          let (p1, p2) = parts_of (move_start e ol).start_date from at in
          rw q (p2, omega (arith, p1, f))
      | inr q ↦
          let small =
            short ol.start_date ol.duration ol.end_date from m.consistent.ends m.at_most_minute
              m.ends_behind_start in
          rw q (sub_not_positive from ol.start_date (not_moved e small q), m.begins_before_end)
    ]

-- What the end of an overlay becomes.
move_end_bounds :
    (to : ℤ) (ol : Overlay) → ol.start_date ≤ℤ to → (move_end (ol.end_date -ℤ to) ol).end_date ≤ℤ to
unfolding move_end
move_end_bounds to ol h =
    let e = ol.end_date -ℤ to in
    elim (Bool-cases (leb_ℤ (ol.duration -ℤ e) (pos 0))) [
      | inl q ↦ rw q h
      | inr q ↦ rw q (omega int_laws)
    ]

adjust_end_start : (to : ℤ) (ol : Overlay) → (adjust_end to ol).start_date ≡ ol.start_date
unfolding adjust_end move_end
adjust_end_start to ol =
    let e = ol.end_date -ℤ to in
    elim (Bool-cases (ltb_ℤ (pos 0) e && ltb_ℤ e limit)) [
      | inl q ↦
          rw q
            (elim (Bool-cases (leb_ℤ (ol.duration -ℤ e) (pos 0))) [ inl p ↦ rw p | inr p ↦ rw p ])
      | inr q ↦ rw q
    ]

-- The end of an overlay that begins in the row and lasts at most a minute.
adjust_end_inside :
    (to : ℤ) (ol : Overlay)
    → IsConsistent ol
    → ol.duration ≤ℤ pos 60
    → ol.start_date ≤ℤ to
    → (adjust_end to ol).end_date ≤ℤ to
unfolding adjust_end
adjust_end_inside to ol c m b =
    let e = ol.end_date -ℤ to in
    elim (Bool-cases (ltb_ℤ (pos 0) e && ltb_ℤ e limit)) [
      | inl q ↦ rw q (move_end_bounds to ol b)
      | inr q ↦ rw q (
          sub_not_positive ol.end_date to
            (not_moved e (overshoot ol.start_date ol.duration ol.end_date to c.ends m b) q))
    ]

adjust_start_short :
    (from : ℤ) (ol : Overlay)
    → IsConsistent ol
    → ol.duration ≤ℤ pos 60
    → (adjust_start from ol).duration ≤ℤ pos 60
unfolding adjust_start move_start
adjust_start_short from ol c m =
    let e = from -ℤ ol.start_date in
    elim (Bool-cases (ltb_ℤ (pos 0) e && ltb_ℤ e limit)) [
      | inl q ↦ rw q (elim (Bool-cases (leb_ℤ (ol.duration -ℤ e) (pos 0))) [
        | inl p ↦ rw p (omega arith)
        | inr p ↦ rw p (shrinks ol.duration e m q)
      ])
      | inr q ↦ rw q m
    ]

abbrev pub AllMeet : TimelineRow → Type 0
AllMeet row = All (Meets row.start_date row.end_date) row.overlays

abbrev pub AreInside : TimelineRow → Type 0
AreInside row = All (λ ol. IsConsistent ol × IsInside row.start_date row.end_date ol) row.overlays

adjusted-IsInside :
    (from to : ℤ) (ol : Overlay)
    → from ≤ℤ to
    → Meets from to ol
    → IsConsistent (adjust_end to (adjust_start from ol))
      × IsInside from to (adjust_end to (adjust_start from ol))
adjusted-IsInside from to ol f m =
    let moved = adjust_start from ol in
    let c = adjust_start-IsConsistent from ol m.consistent in
    let (lo, hi) = adjust_start_inside from to ol f m in
    let (p1, p2) =
      parts_of (adjust_end to moved).start_date moved.start_date (adjust_end_start to moved) in
    (
      adjust_end-IsConsistent to moved c,
      record {
        from_le = omega (arith, lo, p2);
        le_to =
            adjust_end_inside to moved c (adjust_start_short from ol m.consistent m.at_most_minute)
              hi;
      },
    )

All-adjusted :
    (from to : ℤ) (ols : List Overlay)
    → from ≤ℤ to
    → All (Meets from to) ols
    → All
        (λ ol. IsConsistent ol × IsInside from to ol)
        (map (adjust_end to) (map (adjust_start from) ols))
All-adjusted from to [] f h = tt
All-adjusted from to (ol ∷ ols) f (h, hs) =
    (adjusted-IsInside from to ol f h, All-adjusted from to ols f hs)

-- If a row does not end before it begins, and each of its overlays lasts at most a minute, ends where its
-- start and duration say, and shares a moment with the row, then after the adjustment each overlay
-- lies in the time of the row and still ends where its start and duration say.
pub overlays_inside :
    (row : TimelineRow) → row.start_date ≤ℤ row.end_date → AllMeet row → AreInside (adjust_row row)
unfolding adjust_row
overlays_inside row f h = All-adjusted row.start_date row.end_date row.overlays f h

-- An overlay of a minute that ends before its row begins, by less than 59940 seconds, is collapsed to its
-- end, outside the row.
pub early_overlay_collapses :
    (from : ℤ) (ol : Overlay)
    → IsConsistent ol
    → ol.duration ≡ pos 60
    → ol.end_date <ℤ from
    → from ≤ℤ ol.end_date +ℤ pos 59_939
    → ((adjust_start from ol).start_date ≡ ol.end_date)
      × ((adjust_start from ol).duration ≡ pos 0)
      × ((adjust_start from ol).start_date <ℤ from)
unfolding adjust_start move_start
early_overlay_collapses from ol c d b l =
    let e = from -ℤ ol.start_date in
    let (p1, p2) = parts_of (ol.start_date +ℤ ol.duration) ol.end_date c.ends in
    let (q1, q2) = parts_of ol.duration (pos 60) d in
    let positive_e : pos 0 <ℤ e = omega (int_laws, p1, p2, q1, q2, b) in
    let below : e <ℤ limit = omega (int_laws, p1, p2, q1, q2, l) in
    let nothing : ol.duration -ℤ e ≤ℤ pos 0 = omega (int_laws, p1, p2, q1, q2, b) in
    let moved = is_moved e positive_e below in
    let gone = le→leb_ℤ (ol.duration -ℤ e) (pos 0) nothing in
    (rw (moved, gone), rw (moved, gone), rw (moved, gone) b)
