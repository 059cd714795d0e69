-- ===== src/Queries/HeatMap/Shared.antt =====
-- Rows of the timeline that share no overlays are adjusted each on its own.
use sloop.Base.{
  true, false, ◌≡◌, ◌∙◌, refl, ap, List, [], ◌∷◌, Option, none, some, map, All, if◌then◌else◌,
  map_get, map_put, map_get-map_put, Bool-cases, Option-cases, inl, inr,
}
use sloop.Typed.SummaryKey.{ResourceSummaryKey, same}
use sloop.Queries.HeatMap.{
  Overlay, TimelineRow, Rows, overlay_key, merge_heatmap_with_resources, adjust_start, adjust_end,
  adjust_row, adjust_at, adjust_loop, adjust_overlays,
}
use sloop.Queries.HeatMap.Rows.{same_iff}

abbrev OverlayMap : Type 0
OverlayMap = List (ResourceSummaryKey × List Overlay)

map_each : (Overlay → Overlay) → Option (List Overlay) → Option (List Overlay)
map_each f none = none
map_each f (some ols) = some (map f ols)

adjust_at-none :
    (key : ResourceSummaryKey) (f : Overlay → Overlay) (overlays : OverlayMap)
    → map_get same key overlays ≡ none
    → adjust_at key f overlays ≡ overlays
unfolding adjust_at
adjust_at-none key f overlays n = rw (adjust_at, n) refl

adjust_at-some :
    (key : ResourceSummaryKey) (f : Overlay → Overlay) (overlays : OverlayMap) (ols : List Overlay)
    → map_get same key overlays ≡ some ols
    → adjust_at key f overlays ≡ map_put same key (map f ols) overlays
unfolding adjust_at
adjust_at-some key f overlays ols n = rw (adjust_at, n) refl

-- What is read at a key after the overlays at one were adjusted.
get-adjust_at :
    (key got : ResourceSummaryKey) (f : Overlay → Overlay) (overlays : OverlayMap)
    → map_get same got (adjust_at key f overlays)
      ≡ (if same key got then map_each f (map_get same got overlays) else map_get same got overlays)
unfolding map_each
get-adjust_at key got f overlays = elim (Option-cases (map_get same key overlays)) [
  | inl n ↦ rw (adjust_at-none key f overlays n) (elim (Bool-cases (same key got)) [
    | inl q ↦
        let e : key ≡ got = (same_iff key got).0 q in
        let n' : map_get same got overlays ≡ none = rw e at n in rw (q, n') refl
    | inr q ↦ rw q refl
  ])
  | inr (ols, n) ↦
      rw
        (
          adjust_at-some key f overlays ols n,
          map_get-map_put same same_iff key got (map f ols) overlays,
        )
        (elim (Bool-cases (same key got)) [
          | inl q ↦
              let e : key ≡ got = (same_iff key got).0 q in
              let n' : map_get same got overlays ≡ some ols = rw e at n in rw (q, n') refl
          | inr q ↦ rw q refl
        ])
]

-- No row has the key in the map of overlays.
abbrev Unshared : ResourceSummaryKey → Rows → Type 0
Unshared key rows = All (λ r. same (overlay_key r.0) key ≡ false) rows

-- No two rows have the same key there.
abbrev NoneShared : Rows → Type 0
NoneShared [] = Unit
NoneShared ((key, row) ∷ rows) =
    Unshared (overlay_key key) rows
    × All (λ r. same (overlay_key key) (overlay_key r.0) ≡ false) rows
    × NoneShared rows

get-adjust_loop :
    (f : TimelineRow → Overlay → Overlay) (got : ResourceSummaryKey) (rows : Rows)
    (overlays : OverlayMap)
    → Unshared got rows
    → map_get same got (adjust_loop f rows overlays) ≡ map_get same got overlays
unfolding adjust_loop
get-adjust_loop f got [] overlays u = refl
get-adjust_loop f got ((key, row) ∷ rows) overlays (q, u) =
    get-adjust_loop f got rows (adjust_at (overlay_key key) (f row) overlays) u
    ∙ get-adjust_at (overlay_key key) got (f row) overlays
    ∙ rw q refl

-- Each row finds the overlays that it had, adjusted by itself alone.
Found : (TimelineRow → Overlay → Overlay) → OverlayMap → OverlayMap → Rows → Type 0
Found f before after rows =
    All
      (λ r.
        map_get same (overlay_key r.0) after
        ≡ map_each (f r.1) (map_get same (overlay_key r.0) before))
      rows

Found-apart :
    (f : TimelineRow → Overlay → Overlay) (g : Overlay → Overlay) (key : ResourceSummaryKey)
    (rows : Rows) (before after : OverlayMap)
    → All (λ r. same key (overlay_key r.0) ≡ false) rows
    → Found f (adjust_at key g before) after rows
    → Found f before after rows
unfolding Found
Found-apart f g key [] before after u h = tt
Found-apart f g key ((k, row) ∷ rows) before after (q, u) (h, hs) =
    let same_read : map_get same (overlay_key k) (adjust_at key g before)
        ≡ map_get same (overlay_key k) before =
      get-adjust_at key (overlay_key k) g before ∙ rw q refl in
    (h ∙ ap (map_each (f row)) same_read, Found-apart f g key rows before after u hs)

adjust_loop-Found :
    (f : TimelineRow → Overlay → Overlay) (rows : Rows) (overlays : OverlayMap)
    → NoneShared rows
    → Found f overlays (adjust_loop f rows overlays) rows
unfolding adjust_loop Found
adjust_loop-Found f [] overlays u = tt
adjust_loop-Found f ((key, row) ∷ rows) overlays (u, v, us) =
    let started = adjust_at (overlay_key key) (f row) overlays in
    let own : same (overlay_key key) (overlay_key key) ≡ true = (same_iff _ _).1 refl in
    (
      get-adjust_loop f (overlay_key key) rows started u
          ∙ get-adjust_at (overlay_key key) (overlay_key key) (f row) overlays
          ∙ rw own refl,
      Found-apart f (f row) (overlay_key key) rows overlays (adjust_loop f rows started) v
          (adjust_loop-Found f rows started us),
    )

abbrev with_read : TimelineRow → Option (List Overlay) → TimelineRow
with_read row found = record row { overlays = elim found [ none ↦ [] | some os ↦ os ] }

merged_row :
    (row : TimelineRow) (before started ended : Option (List Overlay))
    → started ≡ map_each (adjust_start row.start_date) before
    → ended ≡ map_each (adjust_end row.end_date) started
    → with_read row ended ≡ adjust_row (with_read row before)
unfolding map_each adjust_row
merged_row row none started ended p q = rw (q, p) refl
merged_row row (some ols) started ended p q = rw (q, p) refl

merged :
    (rows : Rows) (before started ended : OverlayMap)
    → Found (λ row. adjust_start row.start_date) before started rows
    → Found (λ row. adjust_end row.end_date) started ended rows
    → merge_heatmap_with_resources rows ended
      ≡ map (λ r. (r.0, adjust_row r.1)) (merge_heatmap_with_resources rows before)
unfolding Found merge_heatmap_with_resources
merged [] before started ended p q = refl
merged ((key, row) ∷ rows) before started ended (p, ps) (q, qs) =
    let head =
      merged_row row (map_get same (overlay_key key) before)
        (map_get same (overlay_key key) started) (map_get same (overlay_key key) ended) p q in
    let rest = merged rows before started ended ps qs in
    ap (λ r. (key, r) ∷ merge_heatmap_with_resources rows ended) head
    ∙ ap (λ rs. (key, adjust_row (with_read row (map_get same (overlay_key key) before))) ∷ rs) rest

-- If no two rows have the same key in the map of overlays, as two nodes of one name have, each row is
-- adjusted as `adjust_row` says, from the overlays that it has in the map.
pub adjust_overlays_apart :
    (rows : Rows) (overlays : OverlayMap)
    → NoneShared rows
    → adjust_overlays rows overlays
      ≡ map (λ r. (r.0, adjust_row r.1)) (merge_heatmap_with_resources rows overlays)
unfolding adjust_overlays
adjust_overlays_apart rows overlays u =
    let started = adjust_loop (λ row. adjust_start row.start_date) rows overlays in
    merged rows overlays started (adjust_loop (λ row. adjust_end row.end_date) rows started)
      (adjust_loop-Found (λ row. adjust_start row.start_date) rows overlays u)
      (adjust_loop-Found (λ row. adjust_end row.end_date) rows started u)
