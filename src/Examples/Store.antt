-- ===== src/Examples/Store.antt =====
-- The database and the tables on a few keys.
use sloop.Queries.Run.Events.{same-eq}
use sloop.Base.{
  ℕ, zero, suc, ◌≤◌, ◌<◌, ◌≡◌, ◌≢◌, ◌⊎◌, refl, inl, inr, Bool, true, false, List, [], ◌∷◌, Option,
  none, some, length, if◌then◌else◌, All, arith,
}
use sloop.Base.Int.{pos}
use sloop.Base.Bytes.{Bytes, codes, eqb, eqb_iff, has_prefix, le_bytes}
use sloop.Base.Outcome.{ok, err, read_only_txn, bad_key}
use sloop.GoTime.{in_utc, hour}
use sloop.Partition.Sequence.{get_partitions_from_time_range}
use sloop.Mock.{
  MockDb, MockTxn, Data, IteratorOptions, lookup, keys_of, get, set, delete_key, drop_prefix, seek,
  new_iterator, visit_prefix, sort_strings, item_key,
}
use sloop.Mock.Scan.{with_prefix, seek_visits_prefix}
use sloop.Mock.Reverse.{IsGreatestBelow, reverse_seek_greatest}
use sloop.Typed.Table.{Codec, RangeReadStats, set_value, get_value, get_min_max_partitions}
use sloop.Typed.Table.Values.{RoundTrips, get_value-set_value}
use sloop.Typed.Table.RangeRead.{range_read, FromStore}
use sloop.Typed.Table.RangeReadSound.{range_read_sound, texts_of}
use sloop.Typed.Tables.{get_min_and_max_partition_with_txn, get_tables}
use sloop.Typed.Tables.Bounds.{min_and_max_cover}
use sloop.Typed.WatchKey.{watch_key, WatchTableKey, same}

abbrev key_a : Bytes
key_a = codes "/eventcount/001546311600/Pod/user-j/sync-123/sam"

abbrev key_b : Bytes
key_b = codes "/watch/001546311600/Pod/user-j/sync-123/1546311845000000006"

abbrev key_c : Bytes
key_c = codes "/watch/001546315200/Pod/user-j/sync-123/1546315845000000006"

abbrev three_keys : Data
three_keys = (key_c, codes "c") ∷ (key_a, codes "a") ∷ (key_b, codes "b") ∷ []

abbrev writing : MockTxn
writing = record { read_only = false; db = record { entries = three_keys } }

seek_visits_prefix_example :
    visit_prefix 9
      (codes "/watch/")
      (seek (codes "/watch/") (new_iterator (record { prefix = []; reversed = false }) writing))
    ≡ ok (with_prefix (codes "/watch/") (sort_strings (keys_of three_keys)))
seek_visits_prefix_example = seek_visits_prefix writing [] (codes "/watch/") 9 (omega arith)

reverse_seek_greatest_example : IsGreatestBelow (codes "/watch/0015463124") (keys_of three_keys) (
    item_key (
      seek
        (codes "/watch/0015463124")
        (new_iterator (record { prefix = []; reversed = true }) writing)))
reverse_seek_greatest_example = reverse_seek_greatest writing [] (codes "/watch/0015463124")

-- Values that are their own encoding.
abbrev plain : Codec Bytes
plain = record { marshal = some; unmarshal = some }

plain-RoundTrips : RoundTrips plain
plain-RoundTrips v b h = cc h

abbrev watch_b : WatchTableKey
watch_b = record {
  partition_id = codes "001546311600";
  kind = codes "Pod";
  namespace = codes "user-j";
  name = codes "sync-123";
  timestamp = pos 1_546_311_845_000_000_006;
}

key_b_parses : watch_key.parse key_b ≡ ok watch_b
unfolding sloop.Typed.WatchKey.parse sloop.Base.Bytes.Split.split eqb
    sloop.Base.Bytes.Decimal.parse_int
key_b_parses = refl

key_a_refused : watch_key.parse (codes "/watch/001546311600") ≡ err bad_key
unfolding sloop.Typed.WatchKey.parse sloop.Base.Bytes.Split.split
key_a_refused = refl

get_value-set_value_example :
    ((writing.read_only ≡ false)
      × ((set_value watch_key plain key_b (codes "new") writing).0 ≡ ok tt)
      × (get_value watch_key plain (set_value watch_key plain key_b (codes "new") writing).1 key_c
          ≡ (if eqb key_b key_c
              then ok (codes "new")
              else get_value watch_key plain writing key_c)))
    ⊎ ((writing.read_only ≡ true)
        × (set_value watch_key plain key_b (codes "new") writing ≡ (err read_only_txn, writing)))
get_value-set_value_example =
    get_value-set_value watch_key plain key_b key_c (codes "new") watch_b (codes "new") writing
      plain-RoundTrips key_b_parses refl

bounds_found :
    get_min_and_max_partition_with_txn writing
    ≡ ok (some (codes "001546311600", codes "001546315200"))
unfolding get_min_and_max_partition_with_txn sloop.Typed.Tables.all_partitions
    get_min_max_partitions sloop.Typed.Table.get_min_partition sloop.Typed.Table.get_max_partition
    sloop.Typed.Table.partition_of_stored sloop.Typed.Table.get_min_key
    sloop.Typed.Table.get_max_key sloop.Typed.Tables.min_and_max sloop.Typed.Tables.last_of
    sloop.Mock.valid sloop.Mock.valid_for_prefix item_key seek new_iterator sort_strings
    sloop.Mock.insert_sorted sloop.Mock.search_strings sloop.Base.Bytes.lt_bytes has_prefix eqb
    sloop.Base.Bytes.Split.split sloop.Base.Bytes.Split.split_from sloop.Common.parse_key
    sloop.Common.check_parts sloop.Base.Bytes.Decimal.parse_int sloop.Typed.WatchKey.parse
    sloop.Typed.WatchKey.from_parts sloop.Typed.SummaryKey.parse sloop.Typed.SummaryKey.from_parts
    sloop.Typed.EventCountKey.parse sloop.Typed.EventCountKey.from_parts
    sloop.Typed.ActivityKey.parse sloop.Typed.ActivityKey.from_parts
bounds_found = refl

min_and_max_cover_example :
    All
      (λ K.
        (a b : Bytes)
        → get_min_max_partitions K writing ≡ ok (some (a, b))
        → (le_bytes (codes "001546311600") a ≡ true) × (le_bytes b (codes "001546315200") ≡ true))
      get_tables
min_and_max_cover_example =
    min_and_max_cover writing (codes "001546311600") (codes "001546315200") bounds_found

abbrev one_row : List (WatchTableKey × Bytes)
one_row = (watch_b, codes "b") ∷ []

abbrev one_row_stats : RangeReadStats
one_row_stats = record {
  table_name = codes "watch";
  partition_count = 1;
  rows_visited_count = 1;
  rows_passed_key_predicate_count = 1;
  rows_passed_value_predicate_count = 1;
}

one_row_read :
    range_read watch_key plain writing none none 5 hour none
      (in_utc (pos 1_546_311_845_000_000_000))
      (in_utc (pos 1_546_311_846_000_000_000))
    ≡ ok (one_row, one_row_stats)
unfolding range_read sloop.Typed.Table.RangeRead.read_partitions
    sloop.Typed.Table.RangeRead.read_partition sloop.Typed.Table.RangeRead.read_rows
    sloop.Typed.Table.RangeRead.read_row sloop.Typed.Table.RangeRead.read_value
    sloop.Typed.Table.RangeRead.put_row sloop.Typed.Table.RangeRead.passes
    sloop.Typed.Table.RangeRead.seek_str get lookup visit_prefix sloop.Mock.next
    get_partitions_from_time_range sloop.Partition.Sequence.partitions_loop
    sloop.Partition.get_partition_id sloop.Base.Bytes.Decimal.format_padded sloop.GoTime.to_uint64
    sloop.GoTime.floor_to sloop.GoTime.unix sloop.Partition.Sequence.next_partition sloop.GoTime.add
    sloop.GoTime.from_unix sloop.Mock.valid sloop.Mock.valid_for_prefix item_key seek new_iterator
    sort_strings sloop.Mock.insert_sorted sloop.Mock.search_strings sloop.Base.Bytes.lt_bytes
    has_prefix eqb sloop.Base.Bytes.Split.split sloop.Base.Bytes.Split.split_from
    sloop.Common.parse_key sloop.Common.check_parts sloop.Base.Bytes.Decimal.parse_int
    sloop.Typed.WatchKey.parse sloop.Typed.WatchKey.from_parts
one_row_read = refl

range_read_sound_example :
    (ps : List Bytes) × (get_partitions_from_time_range 5 hour
        (in_utc (pos 1_546_311_845_000_000_000))
        (in_utc (pos 1_546_311_846_000_000_000))
      ≡ ok ps)
    × All
        (FromStore watch_key plain writing none none
          (texts_of watch_key plain writing none none none ps))
        one_row
    × (1 ≤ 1)
    × (1 ≤ 1)
    × (length one_row ≤ 1)
range_read_sound_example =
    range_read_sound watch_key plain writing none none 5 hour none
      (in_utc (pos 1_546_311_845_000_000_000)) (in_utc (pos 1_546_311_846_000_000_000)) same-eq
      one_row_read
