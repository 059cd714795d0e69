-- ===== src/Typed/Tables.antt =====
-- pkg/sloop/store/typed/tables.go: the four tables over one database.
pub mod Watch
pub mod Summary
pub mod EventCount
pub mod Activity
pub mod Bounds
pub mod Disjoint
use sloop.Base.{ℕ, List, [], ◌∷◌, ◌++◌, Option, none, some, ◌-◌, length, get_elem?}
use sloop.Base.Bytes.{Bytes}
use sloop.Base.Outcome.{Outcome, ok, err, panic, running, ◌>>=◌}
use sloop.Mock.{MockDb, MockTxn, sort_strings, view}
use sloop.Typed.Key.{KeyType}
use sloop.Typed.Table.{get_min_max_partitions}
use sloop.Typed.WatchKey.{watch_key}
use sloop.Typed.SummaryKey.{summary_key}
use sloop.Typed.EventCountKey.{event_count_key}
use sloop.Typed.ActivityKey.{activity_key}

abbrev pub get_table_names : List Bytes
get_table_names =
    watch_key.table_name ∷ summary_key.table_name ∷ event_count_key.table_name
    ∷ activity_key.table_name ∷ []

abbrev pub get_tables : List KeyType
get_tables = event_count_key ∷ summary_key ∷ watch_key ∷ activity_key ∷ []

-- The first and the last partition of each table that has any.
unfoldable pub all_partitions : List KeyType → MockTxn → Outcome (List Bytes)
all_partitions [] t = ok []
all_partitions (table ∷ tables) t = do
  bounds ← get_min_max_partitions table t
  rest ← all_partitions tables t
  elim bounds [ none ↦ ok rest | some (min_par, max_par) ↦ ok (min_par ∷ max_par ∷ rest) ]

unfoldable pub last_of : Bytes → List Bytes → Bytes
last_of x [] = x
last_of x (y ∷ ys) = last_of y ys

-- The first and the last of the sorted partitions.
unfoldable pub min_and_max : List Bytes → Option (Bytes × Bytes)
unfolding last_of
min_and_max [] = none
min_and_max (p ∷ ps) = some (p, last_of p ps)

unfoldable pub get_min_and_max_partition_with_txn : MockTxn → Outcome (Option (Bytes × Bytes))
unfolding all_partitions min_and_max
get_min_and_max_partition_with_txn t = do
  partitions ← all_partitions get_tables t
  ok (min_and_max (sort_strings partitions))

unfoldable pub get_min_and_max_partition : MockDb → Outcome (Option (Bytes × Bytes))
unfolding get_min_and_max_partition_with_txn view
get_min_and_max_partition b = (view (λ t. (get_min_and_max_partition_with_txn t, t)) b).0
