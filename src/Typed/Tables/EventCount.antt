-- ===== src/Typed/Tables/EventCount.antt =====
-- pkg/sloop/store/typed/eventcounttablegen.go: the table of ResourceEventCounts values, generated from
-- pkg/sloop/store/typed/tabletemplate.go, and `GetOrDefault` of
-- pkg/sloop/store/typed/eventcounttable.go.
use sloop.Base.{[], some, ℕ, Bool, List, Option}
use sloop.Base.Bytes.{Bytes}
use sloop.Base.Outcome.{or_default, Outcome}
use sloop.GoTime.{ZonedTime, Duration}
use sloop.Mock.{MockTxn, Exec}
use sloop.Partition.Sequence
use sloop.Typed.EventCountKey.{event_count_key}
use sloop.Typed.Table
use sloop.Typed.Table.RangeRead
use sloop.Typed.Schema.{ResourceEventCounts}
use sloop.Typed.Table.{Codec, RangeReadStats, Search}

abbrev Key : Type 0
Key = event_count_key.Key

-- What the `Open` function puts in the table.
abbrev pub table_name : Bytes
table_name = event_count_key.table_name

abbrev pub get_min_key : MockTxn → Option Bytes
get_min_key = Table.get_min_key event_count_key

abbrev pub get_max_key : MockTxn → Option Bytes
get_max_key = Table.get_max_key event_count_key

abbrev pub get_min_max_partitions : MockTxn → Outcome (Option (Bytes × Bytes))
get_min_max_partitions = Table.get_min_max_partitions event_count_key

abbrev pub get_max_partition : MockTxn → Outcome (Option Bytes)
get_max_partition = Table.get_max_partition event_count_key

abbrev pub get_min_partition : MockTxn → Outcome (Option Bytes)
get_min_partition = Table.get_min_partition event_count_key

-- Two further arguments of this and the next operations: the bound on the partitions that are
-- listed, and the duration of a partition.
abbrev pub get_unique_partition_list : ℕ → Duration → MockTxn → Outcome (List Bytes)
get_unique_partition_list = Table.get_unique_partition_list event_count_key

abbrev pub get_last_matching_key_in_partition :
    MockTxn → Bytes → Key → Key → Outcome (Search event_count_key)
get_last_matching_key_in_partition = Table.get_last_matching_key_in_partition event_count_key

abbrev pub get_previous_key : ℕ → Duration → MockTxn → Key → Key → Outcome Key
get_previous_key = Table.get_previous_key event_count_key

abbrev pub get_partitions_from_time_range :
    ℕ → Duration → ZonedTime → ZonedTime → Outcome (List Bytes)
get_partitions_from_time_range = Sequence.get_partitions_from_time_range

abbrev pub key_predicate_fns : List (Bytes → Bool) → Bytes → Bool
key_predicate_fns = Table.predicate_fns

module _ {V : Type 0} (c : Codec V) where
  abbrev pub val_predicate_fns : List (V → Bool) → V → Bool
  val_predicate_fns = Table.predicate_fns

  abbrev pub set : Bytes → V → Exec (Unit {0})
  set = Table.set_value event_count_key c

  abbrev pub get : MockTxn → Bytes → Outcome V
  get = Table.get_value event_count_key c

  abbrev pub range_read :
      MockTxn
      → Option (Bytes → Bool)
      → Option (V → Bool)
      → ℕ
      → Duration
      → Option Key
      → ZonedTime
      → ZonedTime
      → Outcome (List (Key × V) × RangeReadStats)
  range_read = RangeRead.range_read event_count_key c

-- The row at a key, or a new one.
unfoldable pub get_or_default :
    Codec ResourceEventCounts → MockTxn → Bytes → Outcome ResourceEventCounts
get_or_default c t key = or_default (get c t key) (record { map_min_to_events = some [] })
