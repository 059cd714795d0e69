-- ===== src/Examples/EventQuery.antt =====
-- The query for the events of a pod.
use sloop.Base.{ℕ, true, ◌≡◌, refl, List, [], ◌∷◌, ◌++◌, some, All}
use sloop.Base.Int.{pos}
use sloop.Base.Bytes.{Bytes, codes, eqb}
use sloop.Base.Outcome.{ok}
use sloop.GoTime.{hour, in_utc}
use sloop.Mock.{MockTxn}
use sloop.Typed.Schema.{watch_add}
use sloop.Typed.WatchKey.{WatchTableKey}
use sloop.Processing.Services.{Services}
use sloop.Queries.RowFilter.{Selected}
use sloop.Queries.Run.{EventOutput, get_event_data}
use sloop.Queries.Run.Events.{IsAskedFor, event_data-IsAskedFor}
use sloop.Examples.Services.{services, json, first_time, second_time}

-- Every payload decodes as an event of the first time.
abbrev event_services : Services
event_services = record services {
  json = record json {
    event = λ payload. some (record {
      reason = codes "Failed";
      first_timestamp = codes "now";
      last_timestamp = codes "now";
      count = pos 3;
      event_type = codes "Warning";
    });
  };
}

abbrev event_text : Bytes
event_text = codes "/watch/001546311600/Event/shop/web.1/1546311905000000000"

abbrev reading : MockTxn
reading = record {
  read_only = true;
  db = record { entries = (event_text, 1 ∷ 0 ∷ 5 ∷ codes "Eventu1") ∷ [] };
}

abbrev asked_for : Selected
asked_for = record {
  kind = codes "Pod";
  namespace = codes "shop";
  name_match = [];
  name = codes "web";
  uuid = [];
}

abbrev output : EventOutput
output = record {
  partition_id = codes "001546311600";
  namespace = codes "shop";
  name = codes "web.1";
  watch_timestamp = second_time;
  kind = codes "Event";
  watch_type = watch_add;
  payload = codes "u1";
  event_key = event_text;
}

one_event :
    get_event_data event_services eqb 5 hour reading
      (in_utc first_time)
      (in_utc second_time)
      asked_for
    ≡ ok (output ∷ [])
unfolding get_event_data sloop.Queries.Run.event_key_prefix sloop.Queries.Run.event_outputs
    sloop.KubeExtractor.is_clusters_scoped_resource sloop.KubeExtractor.extract_event_info
    sloop.KubeExtractor.extract_involved_object sloop.Queries.RowFilter.test_ok
    sloop.Queries.RowFilter.out_of_range sloop.Queries.RowFilter.is_event_val_in_time_range
    sloop.Queries.RowFilter.match_event_involved_object sloop.Typed.Table.predicate_fns
    sloop.Examples.Services.unmarshal_watch sloop.Examples.Services.type_of
    sloop.Typed.WatchKey.to_string sloop.Typed.WatchKey.is_name_already_delimited
    sloop.Typed.WatchKey.set_partition_id sloop.Typed.Key.path sloop.Base.Bytes.Split.join_from
    sloop.Base.Bytes.Decimal.format_int sloop.Base.Bytes.Decimal.format_uint
    sloop.Base.Bytes.Decimal.emit sloop.GoTime.unix_nano sloop.GoTime.to_int64
    sloop.Typed.Table.RangeRead.range_read sloop.Typed.Table.RangeRead.read_partitions
    sloop.Typed.Table.RangeRead.read_partition sloop.Typed.Table.RangeRead.read_rows
    sloop.Typed.Table.RangeRead.read_row sloop.Typed.Table.RangeRead.read_value
    sloop.Typed.Table.RangeRead.put_row sloop.Typed.Table.RangeRead.passes
    sloop.Typed.Table.RangeRead.seek_str sloop.Mock.get sloop.Mock.lookup sloop.Mock.visit_prefix
    sloop.Mock.next sloop.Partition.Sequence.get_partitions_from_time_range
    sloop.Partition.Sequence.partitions_loop sloop.Partition.get_partition_id
    sloop.Base.Bytes.Decimal.format_padded sloop.GoTime.to_uint64 sloop.GoTime.floor_to
    sloop.GoTime.unix sloop.Partition.Sequence.next_partition sloop.GoTime.add
    sloop.GoTime.from_unix sloop.Mock.valid sloop.Mock.valid_for_prefix sloop.Mock.item_key
    sloop.Mock.seek sloop.Mock.new_iterator sloop.Mock.sort_strings sloop.Mock.insert_sorted
    sloop.Mock.search_strings sloop.Base.Bytes.lt_bytes sloop.Base.Bytes.has_prefix eqb
    sloop.Base.Bytes.Split.split sloop.Base.Bytes.Split.split_from sloop.Common.parse_key
    sloop.Common.check_parts sloop.Base.Bytes.Decimal.parse_int sloop.Typed.WatchKey.parse
    sloop.Typed.WatchKey.from_parts
one_event = refl

event_data-IsAskedFor_example :
    All
      (λ o. IsAskedFor event_services (in_utc first_time) (in_utc second_time) asked_for o.payload)
      (output ∷ [])
event_data-IsAskedFor_example =
    event_data-IsAskedFor event_services (in_utc first_time) (in_utc second_time) asked_for eqb 5
      hour reading (output ∷ []) one_event
