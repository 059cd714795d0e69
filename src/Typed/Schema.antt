-- ===== src/Typed/Schema.antt =====
-- The values of the four tables, pkg/sloop/store/typed/schema.proto, with Go's reading of them: a map may
-- be nil. A timestamp of protobuf is of a type that the library has, `TS` here.
use sloop.Base.{Bool, List, Option}
use sloop.Base.Int.{ℤ}
use sloop.Base.Bytes.{Bytes}

pub data WatchType : Type 0 where
  watch_add watch_update watch_delete : WatchType

pub record KubeWatchResult (TS : Type 0) : Type 0 where
  pub timestamp : TS
  pub kind : Bytes
  pub watch_type : WatchType
  pub payload : Bytes

pub record ResourceSummary (TS : Type 0) : Type 0 where
  pub first_seen : TS
  pub last_seen : TS
  pub create_time : TS
  pub deleted_at_end : Bool
  pub relationships : List Bytes

-- A map from reason and severity to an int32
pub record EventCounts : Type 0 where
  pub map_reason_to_count : Option (List (Bytes × ℤ))

-- A map from the Unix time of a minute
pub record ResourceEventCounts : Type 0 where
  pub map_min_to_events : Option (List (ℤ × EventCounts))

pub record WatchActivity : Type 0 where
  pub no_change_at : List ℤ
  pub changed_at : List ℤ
