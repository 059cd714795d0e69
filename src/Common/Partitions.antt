-- ===== src/Common/Partitions.antt =====
-- pkg/sloop/common/partition_utilities.go: how many keys each partition and each table has.
pub mod Counts
use sloop.Base.{
  ℕ, zero, suc, ◌+◌, Bool, true, false, ◌≡◌, List, [], ◌∷◌, Option, none, some, length, get_elem?,
  if◌then◌else◌,
}
use sloop.Base.Bytes.{Bytes, eqb}
use sloop.Base.Outcome.{Outcome, ok, err, panic, running, ◌>>=◌}
use sloop.Mock.{
  MockDb, MockTxn, MockIterator, view, new_iterator, rewind, next, valid, item_key, sort_strings,
}
use sloop.Common.{parse_key}
use sloop.Common.Deletion.{forward}

pub record SloopKey : Type 0 where
  pub table_name : Bytes
  pub partition_id : Bytes

-- Indexing past the end is a panic.
pub nth : List Bytes → ℕ → Outcome Bytes
nth parts n = elim (get_elem? parts n) [ none ↦ panic | some p ↦ ok p ]

unfoldable pub get_sloop_key : Bytes → Outcome SloopKey
unfolding parse_key nth
get_sloop_key key = do
  parts ← parse_key key
  table ← nth parts 1
  partition ← nth parts 2
  ok (record { table_name = table; partition_id = partition })

pub record PartitionInfo : Type 0 where
  pub total_key_count : ℕ
  pub table_name_to_key_count : List (Bytes × ℕ)

abbrev pub InfoMap : Type 0
InfoMap = List (Bytes × PartitionInfo)

-- m[table]++
unfoldable pub increment : Bytes → List (Bytes × ℕ) → List (Bytes × ℕ)
increment table [] = (table, 1) ∷ []
increment table ((name, n) ∷ m) =
    if eqb name table then (name, n + 1) ∷ m else (name, n) ∷ increment table m

-- The entry of the key's partition, made when it is missing, with the key counted.
unfoldable pub count_key : SloopKey → InfoMap → InfoMap
unfolding increment
count_key key [] =
    (
      key.partition_id,
      record { total_key_count = 1; table_name_to_key_count = increment key.table_name [] },
    )
    ∷ []
count_key key ((id, info) ∷ m) =
    if eqb id key.partition_id
    then (
      id,
      record {
        total_key_count = info.total_key_count + 1;
        table_name_to_key_count = increment key.table_name info.table_name_to_key_count;
      },
    )
      ∷ m
    else (id, info) ∷ count_key key m

-- One round: a key that does not parse is skipped.
unfoldable pub visit_key : Bytes → InfoMap × ℕ → Outcome (InfoMap × ℕ)
unfolding get_sloop_key count_key
visit_key key (m, total) = elim (get_sloop_key key) [
  | err e ↦ ok (m, total)
  | ok k ↦ ok (count_key k m, total + 1)
  | panic ↦ panic
  | running ↦ running
]

-- The loop over the iterator, on a bound for its rounds.
unfoldable pub visit_keys : ℕ → MockIterator → InfoMap × ℕ → Outcome (InfoMap × ℕ)
unfolding visit_key valid item_key next
visit_keys zero i s = running
visit_keys (suc f) i s = elim (valid i) [
  | false ↦ ok s
  | true ↦ elim (item_key i) [
    | none ↦ panic
    | some k ↦ (do s' ← visit_key k s; visit_keys f (next i) s')
  ]
]

unfoldable pub get_partitions_info : MockDb → Outcome (InfoMap × ℕ)
unfolding visit_keys new_iterator rewind view
get_partitions_info b =
    (view
      (λ t.
        (visit_keys (suc (length t.db.entries)) (rewind (new_iterator (forward []) t)) ([], 0), t))
      b).0

ids_of : InfoMap → List Bytes
ids_of [] = []
ids_of ((id, info) ∷ m) = id ∷ ids_of m

unfoldable pub get_sorted_partition_ids : InfoMap → List Bytes
unfolding ids_of
get_sorted_partition_ids m = sort_strings (ids_of m)

-- m[table], with 0 for a missing name
unfoldable pub table_key_count : Bytes → List (Bytes × ℕ) → ℕ
table_key_count table [] = 0
table_key_count table ((name, n) ∷ m) = if eqb name table then n else table_key_count table m

-- m[id], with `none` for nil
unfoldable pub info_of : Bytes → InfoMap → Option PartitionInfo
info_of id [] = none
info_of id ((j, info) ∷ m) = if eqb j id then some info else info_of id m
