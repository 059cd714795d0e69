-- ===== src/Examples/Services.antt =====
-- Concrete libraries for the examples: two timestamps, payloads that are the uid of a pod, and
-- encodings that round-trip.
use sloop.Base.{
  ℕ, Bool, true, false, ◌≡◌, refl, ap, subst, List, [], ◌∷◌, ◌++◌, Option, none, some, length, take,
  drop, ◌==◌, if◌then◌else◌,
}
use sloop.Base.Int.{pos, eqb_ℤ}
use sloop.Base.Bytes.{Bytes, codes, eqb}
use sloop.GoTime.{Time, utc}
use sloop.KubeExtractor.{Json, KubeMetadata}
use sloop.Typed.Schema.{
  WatchType, watch_add, watch_update, watch_delete, KubeWatchResult, ResourceSummary,
  ResourceEventCounts, WatchActivity,
}
use sloop.Typed.Table.{Codec}
use sloop.Typed.Table.Values.{RoundTrips}
use sloop.Processing.Services.{Services}

abbrev pub first_time : Time
first_time = pos 1_546_311_845_000_000_000

abbrev pub second_time : Time
second_time = pos 1_546_311_905_000_000_000

abbrev pub timestamp : Bool → Option Time
timestamp true = some second_time
timestamp false = some first_time

abbrev pub timestamp_proto : Time → Option Bool
timestamp_proto t =
    if eqb_ℤ t second_time then some true else if eqb_ℤ t first_time then some false else none

abbrev pub pod : Bytes → KubeMetadata
pod uid = record {
  name = codes "web";
  namespace = codes "shop";
  uid = uid;
  self_link = [];
  resource_version = codes "7";
  creation_timestamp = codes "now";
  owner_references = [];
}

-- A payload is the uid of a pod; the text `now` is the only time.
abbrev pub json : Json
json = record {
  metadata = λ payload. some (pod payload);
  involved_object = λ payload.
      some (record {
        kind = codes "Pod";
        name = codes "web";
        namespace = codes "shop";
        uid = payload;
      });
  event = λ payload. none;
  parse_rfc3339 = λ text. if eqb text (codes "now") then some first_time else none;
  Container = Bytes;
  parse_json = λ text. some text;
  removed = λ path doc. some doc;
  children = λ path doc. 0;
  to_text = λ doc. doc;
}

unfoldable pub bit : Bool → ℕ
bit true = 1
bit false = 0

bit_lem : (b : Bool) → (bit b == 1) ≡ b
unfolding bit
bit_lem true = refl
bit_lem false = refl

unfoldable pub marshal_summary : ResourceSummary Bool → Option Bytes
unfolding bit
marshal_summary v = elim v.relationships [
  | [] ↦ some (bit v.first_seen ∷ bit v.last_seen ∷ bit v.create_time ∷ bit v.deleted_at_end ∷ [])
  | r ∷ rs ↦ none
]

unfoldable pub unmarshal_summary : Bytes → Option (ResourceSummary Bool)
unmarshal_summary (a ∷ b ∷ c ∷ d ∷ []) = some (record {
  first_seen = a == 1;
  last_seen = b == 1;
  create_time = c == 1;
  deleted_at_end = d == 1;
  relationships = [];
})
unmarshal_summary _ = none

abbrev pub summary_codec : Codec (ResourceSummary Bool)
summary_codec = record { marshal = marshal_summary; unmarshal = unmarshal_summary }

summary_round_trip :
    (f l c d : Bool) (rels : List Bytes) (b : Bytes)
    → marshal_summary (record {
      first_seen = f;
      last_seen = l;
      create_time = c;
      deleted_at_end = d;
      relationships = rels;
    })
      ≡ some b
    → unmarshal_summary b
      ≡ some (record {
        first_seen = f;
        last_seen = l;
        create_time = c;
        deleted_at_end = d;
        relationships = rels;
      })
unfolding marshal_summary unmarshal_summary
summary_round_trip f l c d [] b h =
    let q : bit f ∷ bit l ∷ bit c ∷ bit d ∷ [] ≡ b = cc in
    subst
      (λ x.
        unmarshal_summary x
        ≡ some (record {
          first_seen = f;
          last_seen = l;
          create_time = c;
          deleted_at_end = d;
          relationships = [];
        }))
      q (rw (bit_lem f, bit_lem l, bit_lem c, bit_lem d))
summary_round_trip f l c d (r ∷ rs) b h = absurd (cc)

pub summary_codec-RoundTrips : RoundTrips summary_codec
summary_codec-RoundTrips v b h =
    summary_round_trip v.first_seen v.last_seen v.create_time v.deleted_at_end v.relationships b h

unfoldable pub type_number : WatchType → ℕ
type_number watch_add = 0
type_number watch_update = 1
type_number watch_delete = 2

unfoldable pub type_of : ℕ → WatchType
type_of n = if n == 0 then watch_add else if n == 1 then watch_update else watch_delete

type_lem : (t : WatchType) → type_of (type_number t) ≡ t
unfolding type_of type_number
type_lem watch_add = refl
type_lem watch_update = refl
type_lem watch_delete = refl

unfoldable pub marshal_watch : KubeWatchResult Bool → Option Bytes
unfolding bit type_number
marshal_watch r =
    some (bit r.timestamp ∷ type_number r.watch_type ∷ length r.kind ∷ (r.kind ++ r.payload))

unfoldable pub unmarshal_watch : Bytes → Option (KubeWatchResult Bool)
unfolding type_of
unmarshal_watch (a ∷ t ∷ n ∷ rest) = some (record {
  timestamp = a == 1;
  kind = take n rest;
  watch_type = type_of t;
  payload = drop n rest;
})
unmarshal_watch _ = none

abbrev pub watch_codec : Codec (KubeWatchResult Bool)
watch_codec = record { marshal = marshal_watch; unmarshal = unmarshal_watch }

take_back : (xs ys : Bytes) → take (length xs) (xs ++ ys) ≡ xs
take_back [] ys = refl
take_back (x ∷ xs) ys = ap (λ l. x ∷ l) (take_back xs ys)

drop_back : (xs ys : Bytes) → drop (length xs) (xs ++ ys) ≡ ys
drop_back [] ys = refl
drop_back (x ∷ xs) ys = drop_back xs ys

watch_round_trip :
    (r : KubeWatchResult Bool) → (b : Bytes) → marshal_watch r ≡ some b → unmarshal_watch b ≡ some r
unfolding marshal_watch unmarshal_watch
watch_round_trip r b h =
    let q : bit r.timestamp ∷ type_number r.watch_type ∷ length r.kind ∷ (r.kind ++ r.payload) ≡ b =
      cc in
    subst (λ x. unmarshal_watch x ≡ some r) q
      (rw (
        bit_lem r.timestamp,
        type_lem r.watch_type,
        take_back r.kind r.payload,
        drop_back r.kind r.payload,
      ))

pub watch_codec-RoundTrips : RoundTrips watch_codec
watch_codec-RoundTrips = watch_round_trip

-- A row without minutes is no bytes, and its map is nil when it is read.
unfoldable pub marshal_counts : ResourceEventCounts → Option Bytes
marshal_counts r = elim r.map_min_to_events [ none ↦ some [] | some m ↦ none ]

unfoldable pub unmarshal_counts : Bytes → Option ResourceEventCounts
unmarshal_counts b = some (record { map_min_to_events = none })

unfoldable pub marshal_activity : WatchActivity → Option Bytes
marshal_activity a = none

unfoldable pub unmarshal_activity : Bytes → Option WatchActivity
unmarshal_activity b = none

abbrev pub services : Services
services = record {
  TS = Bool;
  timestamp = timestamp;
  timestamp_proto = timestamp_proto;
  json = json;
  local = utc;
  watch_codec = watch_codec;
  summary_codec = summary_codec;
  event_count_codec = record { marshal = marshal_counts; unmarshal = unmarshal_counts };
  activity_codec = record { marshal = marshal_activity; unmarshal = unmarshal_activity };
}
