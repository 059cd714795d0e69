-- ===== src/Processing/Services.antt =====
-- The libraries that pkg/sloop/processing calls: timestamps of protobuf, JSON, and the encodings of the
-- values of the tables.
use sloop.Base.{Option}
use sloop.GoTime.{Location, Time}
use sloop.KubeExtractor.{Json}
use sloop.Typed.Schema.{KubeWatchResult, ResourceSummary, ResourceEventCounts, WatchActivity}
use sloop.Typed.Table.{Codec}

pub record Services : Type 1 where
  -- a `*timestamp.Timestamp`, nil included
  pub TS : Type 0
  -- ptypes.Timestamp and ptypes.TimestampProto
  pub timestamp : TS → Option Time
  pub timestamp_proto : Time → Option TS
  pub json : Json
  -- time.Local, the location of time.Now() and time.Unix
  pub local : Location
  pub watch_codec : Codec (KubeWatchResult TS)
  pub summary_codec : Codec (ResourceSummary TS)
  pub event_count_codec : Codec ResourceEventCounts
  pub activity_codec : Codec WatchActivity
