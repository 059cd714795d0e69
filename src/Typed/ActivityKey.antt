-- ===== src/Typed/ActivityKey.antt =====
-- pkg/sloop/store/typed/watchactivitytable.go: the keys of the table `watchactivity`.
use sloop.Base.{Bool, not, ◌&&◌, ◌≡◌, List, [], ◌∷◌, arith, if◌then◌else◌}
use sloop.Base.Bytes.{Bytes, codes, eqb}
use sloop.Base.Bytes.Split.{Lacks}
use sloop.Base.Outcome.{Outcome, ok, err, ◌>>=◌, bad_key, bad_table}
use sloop.Common.{slash, parse_key, check_parts}
use sloop.Typed.Key.{KeyType, path, split-path}

pub record WatchActivityKey : Type 0 where
  pub partition_id : Bytes
  pub kind : Bytes
  pub namespace : Bytes
  pub name : Bytes
  pub uid : Bytes

abbrev pub table_name : Bytes
table_name = codes "watchactivity"

unfoldable pub from_parts : List Bytes → Outcome WatchActivityKey
from_parts (_ ∷ table ∷ partition_id ∷ kind ∷ namespace ∷ name ∷ uid ∷ []) =
    if not (eqb table table_name)
    then err bad_table
    else ok (record {
      partition_id = partition_id;
      kind = kind;
      namespace = namespace;
      name = name;
      uid = uid;
    })
from_parts _ = err bad_key

unfoldable pub parse : Bytes → Outcome WatchActivityKey
unfolding parse_key from_parts
parse key = do parts ← parse_key key; from_parts parts

unfoldable pub to_string : WatchActivityKey → Bytes
unfolding path
to_string k = path (table_name ∷ k.partition_id ∷ k.kind ∷ k.namespace ∷ k.name ∷ k.uid ∷ [])

-- WatchActivityKey{Kind: kind, ...}, with no partition
unfoldable pub new_comparator : Bytes → Bytes → Bytes → Bytes → WatchActivityKey
new_comparator kind namespace name uid = record {
  partition_id = [];
  kind = kind;
  namespace = namespace;
  name = name;
  uid = uid;
}

unfoldable pub set_partition_id : WatchActivityKey → Bytes → WatchActivityKey
set_partition_id k p = record k { partition_id = p }

unfoldable pub same : WatchActivityKey → WatchActivityKey → Bool
same k j =
    eqb k.partition_id j.partition_id
    && (eqb k.kind j.kind
        && (eqb k.namespace j.namespace && (eqb k.name j.name && eqb k.uid j.uid)))

abbrev pub activity_key : KeyType
activity_key = record {
  Key = WatchActivityKey;
  table_name = table_name;
  parse = parse;
  to_string = to_string;
  partition_id = λ k. k.partition_id;
  set_partition_id = set_partition_id;
  same = same;
}

-- No field holds a slash.
pub record IsPlain (k : WatchActivityKey) : Type 0 where
  pub partition_id : Lacks slash k.partition_id
  pub kind : Lacks slash k.kind
  pub namespace : Lacks slash k.namespace
  pub name : Lacks slash k.name
  pub uid : Lacks slash k.uid

unfoldable pub new_key : Bytes → Bytes → Bytes → Bytes → Bytes → WatchActivityKey
new_key partition_id kind namespace name uid = record {
  partition_id = partition_id;
  kind = kind;
  namespace = namespace;
  name = name;
  uid = uid;
}

parse-path :
    (k : WatchActivityKey)
    → IsPlain k
    → parse (path (table_name ∷ k.partition_id ∷ k.kind ∷ k.namespace ∷ k.name ∷ k.uid ∷ [])) ≡ ok k
unfolding parse parse_key check_parts from_parts eqb
parse-path k p = rw (
    split-path (table_name ∷ k.partition_id ∷ k.kind ∷ k.namespace ∷ k.name ∷ k.uid ∷ [])
      ((omega arith), (p.partition_id, (p.kind, (p.namespace, (p.name, (p.uid, tt)))))))

-- A watch activity key whose fields hold no slash is read back from its text, with any uid.
pub parse-to_string_activity : (k : WatchActivityKey) → IsPlain k → parse (to_string k) ≡ ok k
unfolding to_string
parse-to_string_activity k p = parse-path k p
