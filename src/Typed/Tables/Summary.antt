-- ===== src/Typed/Tables/Summary.antt =====
-- pkg/sloop/store/typed/resourcesummarytablegen.go: the table of ResourceSummary values, generated from
-- pkg/sloop/store/typed/tabletemplate.go.
use sloop.Base.{ℕ, Bool, List, Option}
use sloop.Base.Bytes.{Bytes}
use sloop.Base.Outcome.{Outcome}
use sloop.GoTime.{ZonedTime, Duration}
use sloop.Mock.{MockTxn, Exec}
use sloop.Partition.Sequence
use sloop.Typed.SummaryKey.{summary_key}
use sloop.Typed.Table
use sloop.Typed.Table.RangeRead
use sloop.Typed.Table.{Codec, RangeReadStats, Search}

abbrev Key : Type 0
Key = summary_key.Key

-- What the `Open` function puts in the table.
abbrev pub table_name : Bytes
table_name = summary_key.table_name

abbrev pub get_min_key : MockTxn → Option Bytes
get_min_key = Table.get_min_key summary_key

abbrev pub get_max_key : MockTxn → Option Bytes
get_max_key = Table.get_max_key summary_key

abbrev pub get_min_max_partitions : MockTxn → Outcome (Option (Bytes × Bytes))
get_min_max_partitions = Table.get_min_max_partitions summary_key

abbrev pub get_max_partition : MockTxn → Outcome (Option Bytes)
get_max_partition = Table.get_max_partition summary_key

abbrev pub get_min_partition : MockTxn → Outcome (Option Bytes)
get_min_partition = Table.get_min_partition summary_key

-- Two further arguments of this and the next operations: the bound on the partitions that are
-- listed, and the duration of a partition.
abbrev pub get_unique_partition_list : ℕ → Duration → MockTxn → Outcome (List Bytes)
get_unique_partition_list = Table.get_unique_partition_list summary_key

abbrev pub get_last_matching_key_in_partition :
    MockTxn → Bytes → Key → Key → Outcome (Search summary_key)
get_last_matching_key_in_partition = Table.get_last_matching_key_in_partition summary_key

abbrev pub get_previous_key : ℕ → Duration → MockTxn → Key → Key → Outcome Key
get_previous_key = Table.get_previous_key summary_key

abbrev pub get_partitions_from_time_range :
    ℕ → Duration → ZonedTime → ZonedTime → Outcome (List Bytes)
get_partitions_from_time_range = Sequence.get_partitions_from_time_range

abbrev pub key_predicate_fns : List (Bytes → Bool) → Bytes → Bool
key_predicate_fns = Table.predicate_fns

module _ {V : Type 0} (c : Codec V) where
  abbrev pub val_predicate_fns : List (V → Bool) → V → Bool
  val_predicate_fns = Table.predicate_fns

  abbrev pub set : Bytes → V → Exec (Unit {0})
  set = Table.set_value summary_key c

  abbrev pub get : MockTxn → Bytes → Outcome V
  get = Table.get_value summary_key c

  abbrev pub range_read :
      MockTxn
      → Option (Bytes → Bool)
      → Option (V → Bool)
      → ℕ
      → Duration
      → Option Key
      → ZonedTime
      → ZonedTime
      → Outcome (List (Key × V) × RangeReadStats)
  range_read = RangeRead.range_read summary_key c
