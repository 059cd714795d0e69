-- ===== src/KubeExtractor.antt =====
-- pkg/sloop/kubeextractor: what is taken from the JSON payload of a watch record, in kubeextractor.go,
-- events.go, nodededupe.go and kinds.go. The JSON decoders are parameters.
pub mod Names
use sloop.Base.{
  ℕ, zero, suc, ◌+◌, Bool, not, ◌||◌, List, [], ◌∷◌, Option, none, some, if◌then◌else◌,
}
use sloop.Base.Int.{ℤ, pos}
use sloop.Base.Bytes.{Bytes, codes, eqb}
use sloop.Base.Bytes.Decimal.{format_int}
use sloop.Base.Outcome.{Outcome, ok, err, ◌>>=◌, or_err, bad_payload}
use sloop.GoTime.{Time, zero_time}

abbrev pub node_kind : Bytes
node_kind = codes "Node"

abbrev pub namespace_kind : Bytes
namespace_kind = codes "Namespace"

abbrev pub event_kind : Bytes
event_kind = codes "Event"

pub record KubeMetadataOwnerReference : Type 0 where
  pub kind : Bytes
  pub name : Bytes
  pub uid : Bytes

pub record KubeMetadata : Type 0 where
  pub name : Bytes
  pub namespace : Bytes
  pub uid : Bytes
  pub self_link : Bytes
  pub resource_version : Bytes
  pub creation_timestamp : Bytes
  pub owner_references : List KubeMetadataOwnerReference

pub record KubeInvolvedObject : Type 0 where
  pub kind : Bytes
  pub name : Bytes
  pub namespace : Bytes
  pub uid : Bytes

pub record EventInfo : Type 0 where
  pub reason : Bytes
  pub event_type : Bytes
  pub first_timestamp : Time
  pub last_timestamp : Time
  pub count : ℤ

-- The fields of an event before its times are parsed.
pub record EventFields : Type 0 where
  pub reason : Bytes
  pub first_timestamp : Bytes
  pub last_timestamp : Bytes
  pub count : ℤ
  pub event_type : Bytes

-- json.Unmarshal into the structs of the three extractors, time.Parse of RFC 3339, and the documents
-- of package gabs: `removed` sets the value at a path to "removed", `children` counts the children
-- at a path.
pub record Json : Type 1 where
  pub metadata : Bytes → Option KubeMetadata
  pub involved_object : Bytes → Option KubeInvolvedObject
  pub event : Bytes → Option EventFields
  pub parse_rfc3339 : Bytes → Option Time
  pub Container : Type 0
  pub parse_json : Bytes → Option Container
  pub removed : List Bytes → Container → Option Container
  pub children : List Bytes → Container → ℕ
  pub to_text : Container → Bytes

abbrev pub no_metadata : KubeMetadata
no_metadata = record {
  name = [];
  namespace = [];
  uid = [];
  self_link = [];
  resource_version = [];
  creation_timestamp = [];
  owner_references = [];
}

abbrev pub no_involved_object : KubeInvolvedObject
no_involved_object = record { kind = []; name = []; namespace = []; uid = [] }

unfoldable pub is_clusters_scoped_resource : Bytes → Bool
is_clusters_scoped_resource selected_kind =
    eqb selected_kind node_kind || eqb selected_kind namespace_kind

module _ (js : Json) where
  open js use {
    metadata, involved_object, event, parse_rfc3339, Container, parse_json, removed, children,
    to_text,
  }

  unfoldable pub extract_metadata : Bytes → Outcome KubeMetadata
  extract_metadata payload = or_err (metadata payload) bad_payload

  unfoldable pub extract_involved_object : Bytes → Outcome KubeInvolvedObject
  extract_involved_object payload = or_err (involved_object payload) bad_payload

  -- A time that does not parse is the zero time.
  time_or_zero : Bytes → Time
  time_or_zero text = elim (parse_rfc3339 text) [ none ↦ zero_time | some t ↦ t ]

  unfoldable pub extract_event_info : Bytes → Outcome EventInfo
  unfolding time_or_zero
  extract_event_info payload = do
    r ← or_err (event payload) bad_payload
    ok (record {
      reason = r.reason;
      event_type = r.event_type;
      first_timestamp = time_or_zero r.first_timestamp;
      last_timestamp = time_or_zero r.last_timestamp;
      count = r.count;
    })

  -- The loop over the conditions of a node, `rounds` of them from position `idx` on.
  unfoldable pub remove_heartbeats : ℕ → ℕ → Container → Outcome Container
  remove_heartbeats zero idx doc = ok doc
  remove_heartbeats (suc rounds) idx doc = do
    doc' ←
        or_err
          (removed
            (codes "status"
              ∷ codes "conditions"
              ∷ format_int (pos idx)
              ∷ codes "lastHeartbeatTime"
              ∷ [])
            doc)
          bad_payload
    remove_heartbeats rounds (idx + 1) doc'

  unfoldable pub remove_res_ver_and_timestamp : Bytes → Outcome Bytes
  unfolding remove_heartbeats
  remove_res_ver_and_timestamp node_json = do
    doc ← or_err (parse_json node_json) bad_payload
    doc' ← or_err (removed (codes "metadata" ∷ codes "resourceVersion" ∷ []) doc) bad_payload
    done ← remove_heartbeats (children (codes "status" ∷ codes "conditions" ∷ []) doc') 0 doc'
    ok (to_text done)

  unfoldable pub node_has_major_update : Bytes → Bytes → Outcome Bool
  unfolding remove_res_ver_and_timestamp
  node_has_major_update node1 node2 = do
    clean1 ← remove_res_ver_and_timestamp node1
    clean2 ← remove_res_ver_and_timestamp node2
    ok (not (eqb clean1 clean2))
