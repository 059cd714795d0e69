-- ===== src/Examples/Keys.antt =====
-- Keys of the four tables that are printed and read back.
use sloop.Base.{◌≡◌, refl, [], arith}
use sloop.Base.Int.{pos}
use sloop.Base.Bytes.{Bytes, codes}
use sloop.Base.Outcome.{ok, err, bad_key}
use sloop.Common.{slash}
use sloop.Examples.{lacks?-Lacks, partition}
use sloop.Typed.WatchKey
use sloop.Typed.SummaryKey
use sloop.Typed.EventCountKey
use sloop.Typed.ActivityKey

abbrev pod_watch : WatchKey.WatchTableKey
pod_watch = record {
  partition_id = partition;
  kind = codes "Pod";
  namespace = codes "user-j";
  name = codes "sync-123";
  timestamp = pos 1_546_311_845_000_000_006;
}

abbrev pod_watch-IsPlain : WatchKey.IsPlain pod_watch
pod_watch-IsPlain = record {
  partition_id = lacks?-Lacks slash partition refl;
  kind = lacks?-Lacks slash (codes "Pod") refl;
  namespace = lacks?-Lacks slash (codes "user-j") refl;
  name = lacks?-Lacks slash (codes "sync-123") refl;
}

parse-to_string_watch_example : WatchKey.parse (WatchKey.to_string pod_watch) ≡ ok pod_watch
parse-to_string_watch_example =
    WatchKey.parse-to_string_watch pod_watch pod_watch-IsPlain (omega arith)

abbrev pod_summary : Bytes → SummaryKey.ResourceSummaryKey
pod_summary uid = record {
  partition_id = partition;
  kind = codes "Pod";
  namespace = codes "user-j";
  name = codes "sync-123";
  uid = uid;
}

abbrev pod_summary-IsPlain : SummaryKey.IsPlain (pod_summary (codes "sam-partition"))
pod_summary-IsPlain = record {
  partition_id = lacks?-Lacks slash partition refl;
  kind = lacks?-Lacks slash (codes "Pod") refl;
  namespace = lacks?-Lacks slash (codes "user-j") refl;
  name = lacks?-Lacks slash (codes "sync-123") refl;
  uid = lacks?-Lacks slash (codes "sam-partition") refl;
}

abbrev bare_summary-IsPlain : SummaryKey.IsPlain (pod_summary [])
bare_summary-IsPlain = record {
  partition_id = lacks?-Lacks slash partition refl;
  kind = lacks?-Lacks slash (codes "Pod") refl;
  namespace = lacks?-Lacks slash (codes "user-j") refl;
  name = lacks?-Lacks slash (codes "sync-123") refl;
  uid = tt;
}

parse-to_string_summary_no_uid_example :
    SummaryKey.parse (SummaryKey.to_string (pod_summary [])) ≡ err bad_key
parse-to_string_summary_no_uid_example =
    SummaryKey.parse-to_string_summary_no_uid (pod_summary []) bare_summary-IsPlain refl

abbrev pod_events : Bytes → EventCountKey.EventCountKey
pod_events uid = record {
  partition_id = partition;
  kind = codes "Pod";
  namespace = codes "user-j";
  name = codes "sync-123";
  uid = uid;
}

abbrev pod_events-IsPlain : EventCountKey.IsPlain (pod_events (codes "sam-partition"))
pod_events-IsPlain = record {
  partition_id = lacks?-Lacks slash partition refl;
  kind = lacks?-Lacks slash (codes "Pod") refl;
  namespace = lacks?-Lacks slash (codes "user-j") refl;
  name = lacks?-Lacks slash (codes "sync-123") refl;
  uid = lacks?-Lacks slash (codes "sam-partition") refl;
}

abbrev pod_activity : ActivityKey.WatchActivityKey
pod_activity = record {
  partition_id = partition;
  kind = codes "Pod";
  namespace = codes "user-j";
  name = codes "sync-123";
  uid = [];
}

abbrev pod_activity-IsPlain : ActivityKey.IsPlain pod_activity
pod_activity-IsPlain = record {
  partition_id = lacks?-Lacks slash partition refl;
  kind = lacks?-Lacks slash (codes "Pod") refl;
  namespace = lacks?-Lacks slash (codes "user-j") refl;
  name = lacks?-Lacks slash (codes "sync-123") refl;
  uid = tt;
}
