-- ===== src/Typed/Tables/Disjoint.antt =====
-- No key belongs to two tables: the name of the table stands in it.
use sloop.Base.{false, ◌≡◌, ◌∙◌, sym, refl, List, [], ◌∷◌, some, get_elem?, Bool-cases, inl, inr}
use sloop.Base.Bytes.{Bytes, eqb, eqb_iff}
use sloop.Base.Outcome.{ok, >>=-eq-ok}
use sloop.Common.{parse_key}
use sloop.Typed.Key.{KeyType}
use sloop.Typed.WatchKey.{watch_key}
use sloop.Typed.SummaryKey.{summary_key}
use sloop.Typed.EventCountKey.{event_count_key}
use sloop.Typed.ActivityKey.{activity_key}
use sloop.Typed.Table.Frame.{IsForeign}
use sloop.Typed.WatchKey
use sloop.Typed.SummaryKey
use sloop.Typed.EventCountKey
use sloop.Typed.ActivityKey

-- A key that parses has the name of the table as its second part.
abbrev Names : KeyType → Bytes → Type 0
Names K j =
    (parts : List Bytes) × (parse_key j ≡ ok parts) × (get_elem? parts 1 ≡ some K.table_name)

from_parts-table_watch :
    (parts : List Bytes) (k : WatchKey.WatchTableKey)
    → WatchKey.from_parts parts ≡ ok k
    → get_elem? parts 1 ≡ some WatchKey.table_name
unfolding WatchKey.from_parts
from_parts-table_watch [] k h = absurd (cc)
from_parts-table_watch (a ∷ []) k h = absurd (cc)
from_parts-table_watch (a ∷ b ∷ []) k h = absurd (cc)
from_parts-table_watch (a ∷ b ∷ c ∷ []) k h = absurd (cc)
from_parts-table_watch (a ∷ b ∷ c ∷ d ∷ []) k h = absurd (cc)
from_parts-table_watch (a ∷ b ∷ c ∷ d ∷ m ∷ []) k h = absurd (cc)
from_parts-table_watch (a ∷ b ∷ c ∷ d ∷ m ∷ n ∷ []) k h = absurd (cc)
from_parts-table_watch (a ∷ b ∷ c ∷ d ∷ m ∷ n ∷ u ∷ w ∷ ps) k h = absurd (cc)
from_parts-table_watch (a ∷ b ∷ c ∷ d ∷ m ∷ n ∷ u ∷ []) k h =
    elim (Bool-cases (eqb b WatchKey.table_name)) [
      | inl q ↦ rw ((eqb_iff b WatchKey.table_name).0 q)
      | inr q ↦ absurd (cc (rw q at h))
    ]

parse-Names_watch :
    (j : Bytes) (k : WatchKey.WatchTableKey) → WatchKey.parse j ≡ ok k → Names watch_key j
unfolding WatchKey.parse
parse-Names_watch j k h =
    let (parts, e1, e2) = >>=-eq-ok (parse_key j) WatchKey.from_parts h in
    (parts, e1, from_parts-table_watch parts k e2)

from_parts-table_summary :
    (parts : List Bytes) (k : SummaryKey.ResourceSummaryKey)
    → SummaryKey.from_parts parts ≡ ok k
    → get_elem? parts 1 ≡ some SummaryKey.table_name
unfolding SummaryKey.from_parts
from_parts-table_summary [] k h = absurd (cc)
from_parts-table_summary (a ∷ []) k h = absurd (cc)
from_parts-table_summary (a ∷ b ∷ []) k h = absurd (cc)
from_parts-table_summary (a ∷ b ∷ c ∷ []) k h = absurd (cc)
from_parts-table_summary (a ∷ b ∷ c ∷ d ∷ []) k h = absurd (cc)
from_parts-table_summary (a ∷ b ∷ c ∷ d ∷ m ∷ []) k h = absurd (cc)
from_parts-table_summary (a ∷ b ∷ c ∷ d ∷ m ∷ n ∷ []) k h = absurd (cc)
from_parts-table_summary (a ∷ b ∷ c ∷ d ∷ m ∷ n ∷ u ∷ w ∷ ps) k h = absurd (cc)
from_parts-table_summary (a ∷ b ∷ c ∷ d ∷ m ∷ n ∷ u ∷ []) k h =
    elim (Bool-cases (eqb b SummaryKey.table_name)) [
      | inl q ↦ rw ((eqb_iff b SummaryKey.table_name).0 q)
      | inr q ↦ absurd (cc (rw q at h))
    ]

parse-Names_summary :
    (j : Bytes) (k : SummaryKey.ResourceSummaryKey)
    → SummaryKey.parse j ≡ ok k
    → Names summary_key j
unfolding SummaryKey.parse
parse-Names_summary j k h =
    let (parts, e1, e2) = >>=-eq-ok (parse_key j) SummaryKey.from_parts h in
    (parts, e1, from_parts-table_summary parts k e2)

from_parts-table_event_count :
    (parts : List Bytes) (k : EventCountKey.EventCountKey)
    → EventCountKey.from_parts parts ≡ ok k
    → get_elem? parts 1 ≡ some EventCountKey.table_name
unfolding EventCountKey.from_parts
from_parts-table_event_count [] k h = absurd (cc)
from_parts-table_event_count (a ∷ []) k h = absurd (cc)
from_parts-table_event_count (a ∷ b ∷ []) k h = absurd (cc)
from_parts-table_event_count (a ∷ b ∷ c ∷ []) k h = absurd (cc)
from_parts-table_event_count (a ∷ b ∷ c ∷ d ∷ []) k h = absurd (cc)
from_parts-table_event_count (a ∷ b ∷ c ∷ d ∷ m ∷ []) k h = absurd (cc)
from_parts-table_event_count (a ∷ b ∷ c ∷ d ∷ m ∷ n ∷ []) k h = absurd (cc)
from_parts-table_event_count (a ∷ b ∷ c ∷ d ∷ m ∷ n ∷ u ∷ w ∷ ps) k h = absurd (cc)
from_parts-table_event_count (a ∷ b ∷ c ∷ d ∷ m ∷ n ∷ u ∷ []) k h =
    elim (Bool-cases (eqb b EventCountKey.table_name)) [
      | inl q ↦ rw ((eqb_iff b EventCountKey.table_name).0 q)
      | inr q ↦ absurd (cc (rw q at h))
    ]

parse-Names_event_count :
    (j : Bytes) (k : EventCountKey.EventCountKey)
    → EventCountKey.parse j ≡ ok k
    → Names event_count_key j
unfolding EventCountKey.parse
parse-Names_event_count j k h =
    let (parts, e1, e2) = >>=-eq-ok (parse_key j) EventCountKey.from_parts h in
    (parts, e1, from_parts-table_event_count parts k e2)

from_parts-table_activity :
    (parts : List Bytes) (k : ActivityKey.WatchActivityKey)
    → ActivityKey.from_parts parts ≡ ok k
    → get_elem? parts 1 ≡ some ActivityKey.table_name
unfolding ActivityKey.from_parts
from_parts-table_activity [] k h = absurd (cc)
from_parts-table_activity (a ∷ []) k h = absurd (cc)
from_parts-table_activity (a ∷ b ∷ []) k h = absurd (cc)
from_parts-table_activity (a ∷ b ∷ c ∷ []) k h = absurd (cc)
from_parts-table_activity (a ∷ b ∷ c ∷ d ∷ []) k h = absurd (cc)
from_parts-table_activity (a ∷ b ∷ c ∷ d ∷ m ∷ []) k h = absurd (cc)
from_parts-table_activity (a ∷ b ∷ c ∷ d ∷ m ∷ n ∷ []) k h = absurd (cc)
from_parts-table_activity (a ∷ b ∷ c ∷ d ∷ m ∷ n ∷ u ∷ w ∷ ps) k h = absurd (cc)
from_parts-table_activity (a ∷ b ∷ c ∷ d ∷ m ∷ n ∷ u ∷ []) k h =
    elim (Bool-cases (eqb b ActivityKey.table_name)) [
      | inl q ↦ rw ((eqb_iff b ActivityKey.table_name).0 q)
      | inr q ↦ absurd (cc (rw q at h))
    ]

parse-Names_activity :
    (j : Bytes) (k : ActivityKey.WatchActivityKey)
    → ActivityKey.parse j ≡ ok k
    → Names activity_key j
unfolding ActivityKey.parse
parse-Names_activity j k h =
    let (parts, e1, e2) = >>=-eq-ok (parse_key j) ActivityKey.from_parts h in
    (parts, e1, from_parts-table_activity parts k e2)

named_apart :
    (K L : KeyType) (j : Bytes) → eqb K.table_name L.table_name ≡ false → Names K j → Names L j → ⊥
named_apart K L j h (ps, e1, e2) (qs, f1, f2) =
    let same : ok ps ≡ ok qs = sym e1 ∙ f1 in
    let lists : ps ≡ qs = cc in
    let names : K.table_name ≡ L.table_name = cc in
    absurd (cc ((eqb_iff K.table_name L.table_name).1 names, h))

-- A key of the resource summary table is a key of no other table.
pub summary_key-IsForeign :
    (j : Bytes) (k : SummaryKey.ResourceSummaryKey)
    → SummaryKey.parse j ≡ ok k
    → IsForeign watch_key j × IsForeign event_count_key j × IsForeign activity_key j
unfolding eqb
summary_key-IsForeign j k h =
    let n = parse-Names_summary j k h in
    (
      λ w e. named_apart summary_key watch_key j refl n (parse-Names_watch j w e),
      λ w e. named_apart summary_key event_count_key j refl n (parse-Names_event_count j w e),
      λ w e. named_apart summary_key activity_key j refl n (parse-Names_activity j w e),
    )
