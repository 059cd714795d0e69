-- ===== src/Typed/SummaryKey.antt =====
-- pkg/sloop/store/typed/resourcesummarytable.go: the keys of the table `ressum`.
use sloop.Base.{
  Bool, not, ◌&&◌, ◌≡◌, ◌≢◌, List, [], ◌∷◌, arith, if◌then◌else◌, Bool-cases, inl, inr,
}
use sloop.Base.Bytes.{Bytes, codes, eqb, eqb_iff}
use sloop.Base.Bytes.Split.{Lacks}
use sloop.Base.Outcome.{Outcome, ok, err, ◌>>=◌, bad_key, bad_table}
use sloop.GoTime.{ZonedTime, Duration}
use sloop.Partition.{get_partition_id}
use sloop.Common.{slash, parse_key, check_parts}
use sloop.Typed.Key.{KeyType, path, split-path}

pub record ResourceSummaryKey : Type 0 where
  pub partition_id : Bytes
  pub kind : Bytes
  pub namespace : Bytes
  pub name : Bytes
  pub uid : Bytes

abbrev pub table_name : Bytes
table_name = codes "ressum"

unfoldable pub from_parts : List Bytes → Outcome ResourceSummaryKey
from_parts (_ ∷ table ∷ partition_id ∷ kind ∷ namespace ∷ name ∷ uid ∷ []) =
    if not (eqb table table_name)
    then err bad_table
    else ok (record {
      partition_id = partition_id;
      kind = kind;
      namespace = namespace;
      name = name;
      uid = uid;
    })
from_parts _ = err bad_key

unfoldable pub parse : Bytes → Outcome ResourceSummaryKey
unfolding parse_key from_parts
parse key = do parts ← parse_key key; from_parts parts

unfoldable pub to_string : ResourceSummaryKey → Bytes
unfolding path
to_string k =
    if eqb k.uid []
    then path (table_name ∷ k.partition_id ∷ k.kind ∷ k.namespace ∷ k.name ∷ [])
    else path (table_name ∷ k.partition_id ∷ k.kind ∷ k.namespace ∷ k.name ∷ k.uid ∷ [])

-- ResourceSummaryKey{Kind: kind, ...}, with no partition
unfoldable pub new_comparator : Bytes → Bytes → Bytes → Bytes → ResourceSummaryKey
new_comparator kind namespace name uid = record {
  partition_id = [];
  kind = kind;
  namespace = namespace;
  name = name;
  uid = uid;
}

unfoldable pub set_partition_id : ResourceSummaryKey → Bytes → ResourceSummaryKey
set_partition_id k p = record k { partition_id = p }

unfoldable pub same : ResourceSummaryKey → ResourceSummaryKey → Bool
same k j =
    eqb k.partition_id j.partition_id
    && (eqb k.kind j.kind
        && (eqb k.namespace j.namespace && (eqb k.name j.name && eqb k.uid j.uid)))

abbrev pub summary_key : KeyType
summary_key = record {
  Key = ResourceSummaryKey;
  table_name = table_name;
  parse = parse;
  to_string = to_string;
  partition_id = λ k. k.partition_id;
  set_partition_id = set_partition_id;
  same = same;
}

-- No field holds a slash.
pub record IsPlain (k : ResourceSummaryKey) : Type 0 where
  pub partition_id : Lacks slash k.partition_id
  pub kind : Lacks slash k.kind
  pub namespace : Lacks slash k.namespace
  pub name : Lacks slash k.name
  pub uid : Lacks slash k.uid

unfoldable pub new_key :
    Duration → ZonedTime → Bytes → Bytes → Bytes → Bytes → Outcome ResourceSummaryKey
new_key d timestamp kind namespace name uid = do
  partition_id ← get_partition_id d timestamp
  ok (record {
    partition_id = partition_id;
    kind = kind;
    namespace = namespace;
    name = name;
    uid = uid;
  })

parse-path :
    (k : ResourceSummaryKey)
    → IsPlain k
    → parse (path (table_name ∷ k.partition_id ∷ k.kind ∷ k.namespace ∷ k.name ∷ k.uid ∷ [])) ≡ ok k
unfolding parse parse_key check_parts from_parts eqb
parse-path k p = rw (
    split-path (table_name ∷ k.partition_id ∷ k.kind ∷ k.namespace ∷ k.name ∷ k.uid ∷ [])
      ((omega arith), (p.partition_id, (p.kind, (p.namespace, (p.name, (p.uid, tt)))))))

-- A resource summary key whose fields hold no slash and whose uid is not empty is read back from its text.
pub parse-to_string_summary :
    (k : ResourceSummaryKey) → IsPlain k → k.uid ≢ [] → parse (to_string k) ≡ ok k
unfolding to_string
parse-to_string_summary k p h = elim (Bool-cases (eqb k.uid [])) [
  | inl e ↦ absurd (h ((eqb_iff k.uid []).0 e))
  | inr e ↦ rw e (parse-path k p)
]

-- With an empty uid the text of a resource summary key whose fields hold no slash has one part too few: it is
-- refused as a key of the table.
pub parse-to_string_summary_no_uid :
    (k : ResourceSummaryKey) → IsPlain k → k.uid ≡ [] → parse (to_string k) ≡ err bad_key
unfolding to_string parse parse_key check_parts
parse-to_string_summary_no_uid k p h = rw ((eqb_iff k.uid []).1 h) (
    rw (
      split-path (table_name ∷ k.partition_id ∷ k.kind ∷ k.namespace ∷ k.name ∷ [])
        ((omega arith), (p.partition_id, (p.kind, (p.namespace, (p.name, tt)))))))
