-- ===== src/Examples/Collection.antt =====
-- The garbage collection on a few keys.
use sloop.Base.{
  ℕ, zero, suc, ◌+◌, ◌≤◌, ◌<◌, ◌≡◌, refl, inl, inr, Bool, true, false, List, [], ◌∷◌, Option, none,
  some, if◌then◌else◌, All, arith,
}
use sloop.Base.Int.{pos}
use sloop.Base.Bytes.{Bytes, codes}
use sloop.Base.Outcome.{ok, panic, running}
use sloop.GoTime.{hour, Duration}
use sloop.Mock.{MockDb, Data, lookup, keys_of, sort_strings}
use sloop.Common.Deletion.{delete_keys_with_prefix}
use sloop.Common.Deletion.Safety.{Unselected, deletion_frame, deletion_never_ends}
use sloop.Common.Partitions.{PartitionInfo, InfoMap, get_partitions_info, info_of, table_key_count}
use sloop.Common.Partitions.Counts.{
  total_of, key_count, number_of, parses, belongs, partitions_info_exact,
}
use sloop.Typed.Tables.{get_table_names}
use sloop.StoreManager.{
  Removed, size_loop, time_loop, delete_partition, do_cleanup, nothing_cleaned, GcFloat,
  clean_up_time_condition,
}
use sloop.StoreManager.Selection.{
  Known, keys_in, Chosen, size_loop_least, Cut, time_loop_returns, time_loop_panics,
}
use sloop.StoreManager.Run.{cleanup_empties}
use sloop.StoreManager.Removal.{in_partition, counted_in, partition_dropped}

abbrev first_hour : Bytes
first_hour = codes "001546311600"

abbrev second_hour : Bytes
second_hour = codes "001546315200"

abbrev event_key : Bytes
event_key = codes "/eventcount/001546311600/Pod/user-j/sync-123/sam"

abbrev watch_text : Bytes
watch_text = codes "/watch/001546311600/Pod/user-j/sync-123/1546311845000000006"

abbrev later_text : Bytes
later_text = codes "/watch/001546315200/Pod/user-j/sync-123/1546315845000000006"

abbrev db : MockDb
db = record {
  entries = (later_text, codes "c") ∷ (event_key, codes "a") ∷ (watch_text, codes "b") ∷ [];
}

abbrev first_info : PartitionInfo
first_info = record {
  total_key_count = 2;
  table_name_to_key_count = (codes "eventcount", 1) ∷ (codes "watch", 1) ∷ [];
}

abbrev second_info : PartitionInfo
second_info = record { total_key_count = 1; table_name_to_key_count = (codes "watch", 1) ∷ [] }

abbrev infos : InfoMap
infos = (first_hour, first_info) ∷ (second_hour, second_info) ∷ []

partitions_info_exact_example :
    (m : InfoMap) × (get_partitions_info db
      ≡ ok (m, number_of parses (sort_strings (keys_of db.entries))))
    × (total_of m ≡ number_of parses (sort_strings (keys_of db.entries)))
    × ((id table : Bytes)
        → key_count id table m ≡ number_of (belongs id table) (sort_strings (keys_of db.entries)))
partitions_info_exact_example = partitions_info_exact db

first_known : info_of first_hour infos ≡ some first_info
unfolding info_of sloop.Base.Bytes.eqb
first_known = refl

second_known : info_of second_hour infos ≡ some second_info
unfolding info_of sloop.Base.Bytes.eqb
second_known = refl

enough_keys : 2 ≤ 0 + keys_in infos (first_hour ∷ second_hour ∷ [])
unfolding keys_in sloop.StoreManager.Selection.keys_of_partition info_of sloop.Base.Bytes.eqb
enough_keys = omega arith

size_loop_least_example :
    (taken : List Bytes) × (size_loop 2 infos 0 (first_hour ∷ second_hour ∷ []) ≡ ok taken)
    × Chosen 2 infos 0 (first_hour ∷ second_hour ∷ []) taken
size_loop_least_example =
    size_loop_least 2 infos 0 (first_hour ∷ second_hour ∷ [])
      ((first_info, first_known), ((second_info, second_known), tt)) enough_keys

time_loop_returns_example :
    (taken : List Bytes) × (time_loop hour second_hour hour (first_hour ∷ second_hour ∷ [])
      ≡ ok taken)
    × Cut hour second_hour hour (first_hour ∷ second_hour ∷ []) taken
time_loop_returns_example =
    time_loop_returns second_hour hour (inl (refl, refl)) (first_hour ∷ second_hour ∷ [])
      (omega arith) (inr (inl refl))

abbrev half_hour : Duration
half_hour = pos 1_800_000_000_000

second_old : clean_up_time_condition hour second_hour second_hour half_hour ≡ ok true
unfolding clean_up_time_condition sloop.Partition.get_time_range_for_partition
    sloop.Partition.get_time_for_partition sloop.Base.Bytes.Decimal.parse_int sloop.GoTime.from_unix
    sloop.GoTime.add sloop.GoTime.sub
second_old = refl

time_loop_panics_example : time_loop hour second_hour half_hour (second_hour ∷ []) ≡ panic
time_loop_panics_example =
    time_loop_panics second_hour half_hour (inl (refl, refl)) (second_hour ∷ []) (second_old, tt)

other_hour : Unselected (codes "/watch/001546311600") later_text
unfolding sloop.Base.Bytes.has_prefix
other_hour = refl

deletion_frame_example :
    lookup later_text (delete_keys_with_prefix 9 (codes "/watch/001546311600") db 10 1).1.entries
    ≡ lookup later_text db.entries
deletion_frame_example =
    deletion_frame (codes "/watch/001546311600") later_text other_hour 9 10 1 db

keys_in_order : sort_strings (keys_of db.entries) ≡ event_key ∷ watch_text ∷ later_text ∷ []
unfolding sort_strings sloop.Mock.insert_sorted sloop.Base.Bytes.lt_bytes
keys_in_order = refl

event_key_first : Unselected (codes "/watch/001546311600") event_key
unfolding sloop.Base.Bytes.has_prefix
event_key_first = refl

deletion_never_ends_example :
    delete_keys_with_prefix 1000 (codes "/watch/001546311600") db 10 1 ≡ (running, db)
deletion_never_ends_example =
    deletion_never_ends 1000 (codes "/watch/001546311600") 10 1 db event_key
      (watch_text ∷ later_text ∷ []) (omega arith) keys_in_order event_key_first

partition_dropped_example :
    ((delete_partition 9 first_hour db 10 false first_info).0
      ≡ ok (record {
        deleted = counted_in first_info get_table_names;
        to_delete = counted_in first_info get_table_names;
        errors = [];
      }))
    × ((k : Bytes)
        → lookup k (delete_partition 9 first_hour db 10 false first_info).1.entries
          ≡ (if in_partition get_table_names first_hour k then none else lookup k db.entries))
partition_dropped_example = partition_dropped 9 first_hour 10 first_info db

later_outside : in_partition get_table_names first_hour later_text ≡ false
unfolding in_partition sloop.Base.Bytes.has_prefix
later_outside = refl

watch_counted : 0 < table_key_count (codes "watch") first_info.table_name_to_key_count
unfolding table_key_count sloop.Base.Bytes.eqb
watch_counted = omega arith

-- No size is over a limit here; the rest of the arithmetic is not reached.
abbrev never_over : GcFloat
never_over = record {
  F = Unit {0};
  zero_f = tt;
  one_f = tt;
  of_int = λ n. tt;
  times = λ x y. tt;
  minus = λ x y. tt;
  over = λ x y. tt;
  less = λ x y. false;
  less_eq = λ x y. true;
  ceil_to_uint64 = λ x. 0;
}

abbrev two_hours : Duration
two_hours = pos 7_200_000_000_000

nothing_chosen :
    (do_cleanup never_over 9 hour db two_hours (pos 100) (pos 10) 10 tt true).0 ≡ ok nothing_cleaned
unfolding do_cleanup sloop.StoreManager.get_partitions_to_delete sloop.StoreManager.clean_partitions
    sloop.StoreManager.finish_cleanup sloop.StoreManager.has_files_on_disk_exceeded_threshold
    sloop.Typed.Tables.get_min_and_max_partition
    sloop.Typed.Tables.get_min_and_max_partition_with_txn sloop.Typed.Tables.all_partitions
    sloop.Typed.Table.get_min_max_partitions sloop.Typed.Table.get_min_partition
    sloop.Typed.Table.get_max_partition sloop.Typed.Table.partition_of_stored
    sloop.Typed.Table.get_min_key sloop.Typed.Table.get_max_key sloop.Typed.Tables.min_and_max
    sloop.Typed.Tables.last_of clean_up_time_condition sloop.Partition.get_time_range_for_partition
    sloop.Partition.get_time_for_partition sloop.GoTime.from_unix sloop.GoTime.add sloop.GoTime.sub
    sloop.Mock.view sloop.Mock.valid sloop.Mock.valid_for_prefix sloop.Mock.item_key sloop.Mock.seek
    sloop.Mock.new_iterator sort_strings sloop.Mock.insert_sorted sloop.Mock.search_strings
    sloop.Base.Bytes.lt_bytes sloop.Base.Bytes.has_prefix sloop.Base.Bytes.eqb
    sloop.Base.Bytes.Split.split sloop.Base.Bytes.Split.split_from sloop.Common.parse_key
    sloop.Common.check_parts sloop.Base.Bytes.Decimal.parse_int sloop.Typed.WatchKey.parse
    sloop.Typed.WatchKey.from_parts sloop.Typed.SummaryKey.parse sloop.Typed.SummaryKey.from_parts
    sloop.Typed.EventCountKey.parse sloop.Typed.EventCountKey.from_parts
    sloop.Typed.ActivityKey.parse sloop.Typed.ActivityKey.from_parts
nothing_chosen = refl

cleanup_empties_example :
    lookup later_text
      (do_cleanup never_over 9 hour db two_hours (pos 100) (pos 10) 10 tt true).1.entries
    ≡ none
cleanup_empties_example =
    cleanup_empties never_over 9 hour db two_hours (pos 100) (pos 10) 10 tt nothing_cleaned
      later_text nothing_chosen refl
