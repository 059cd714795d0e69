-- ===== src/Typed/Tables/Watch.antt =====
-- pkg/sloop/store/typed/watchtablegen.go: the table of KubeWatchResult values, generated from
-- pkg/sloop/store/typed/tabletemplate.go.
use sloop.Base.{ℕ, Bool, List, Option}
use sloop.Base.Bytes.{Bytes}
use sloop.Base.Outcome.{Outcome}
use sloop.GoTime.{ZonedTime, Duration}
use sloop.Mock.{MockTxn, Exec}
use sloop.Partition.Sequence
use sloop.Typed.WatchKey.{watch_key}
use sloop.Typed.Table
use sloop.Typed.Table.RangeRead
use sloop.Typed.Table.{Codec, RangeReadStats, Search}

abbrev Key : Type 0
Key = watch_key.Key

-- What the `Open` function puts in the table.
abbrev pub table_name : Bytes
table_name = watch_key.table_name

abbrev pub get_min_key : MockTxn → Option Bytes
get_min_key = Table.get_min_key watch_key

abbrev pub get_max_key : MockTxn → Option Bytes
get_max_key = Table.get_max_key watch_key

abbrev pub get_min_max_partitions : MockTxn → Outcome (Option (Bytes × Bytes))
get_min_max_partitions = Table.get_min_max_partitions watch_key

abbrev pub get_max_partition : MockTxn → Outcome (Option Bytes)
get_max_partition = Table.get_max_partition watch_key

abbrev pub get_min_partition : MockTxn → Outcome (Option Bytes)
get_min_partition = Table.get_min_partition watch_key

-- Two further arguments of this and the next operations: the bound on the partitions that are
-- listed, and the duration of a partition.
abbrev pub get_unique_partition_list : ℕ → Duration → MockTxn → Outcome (List Bytes)
get_unique_partition_list = Table.get_unique_partition_list watch_key

abbrev pub get_last_matching_key_in_partition :
    MockTxn → Bytes → Key → Key → Outcome (Search watch_key)
get_last_matching_key_in_partition = Table.get_last_matching_key_in_partition watch_key

abbrev pub get_previous_key : ℕ → Duration → MockTxn → Key → Key → Outcome Key
get_previous_key = Table.get_previous_key watch_key

abbrev pub get_partitions_from_time_range :
    ℕ → Duration → ZonedTime → ZonedTime → Outcome (List Bytes)
get_partitions_from_time_range = Sequence.get_partitions_from_time_range

abbrev pub key_predicate_fns : List (Bytes → Bool) → Bytes → Bool
key_predicate_fns = Table.predicate_fns

module _ {V : Type 0} (c : Codec V) where
  abbrev pub val_predicate_fns : List (V → Bool) → V → Bool
  val_predicate_fns = Table.predicate_fns

  abbrev pub set : Bytes → V → Exec (Unit {0})
  set = Table.set_value watch_key c

  abbrev pub get : MockTxn → Bytes → Outcome V
  get = Table.get_value watch_key c

  abbrev pub range_read :
      MockTxn
      → Option (Bytes → Bool)
      → Option (V → Bool)
      → ℕ
      → Duration
      → Option Key
      → ZonedTime
      → ZonedTime
      → Outcome (List (Key × V) × RangeReadStats)
  range_read = RangeRead.range_read watch_key c
