-- ===== src/Typed/WatchKey.antt =====
-- pkg/sloop/store/typed/watchtable.go: the keys of the table `watch`.
use sloop.Base.{
  ◌^◌, ◌<◌, Bool, false, not, ◌&&◌, ◌||◌, ◌≡◌, List, [], ◌∷◌, ◌++◌, arith, if◌then◌else◌,
  Bool-cases, inl, inr, some,
}
use sloop.Base.Int.{pos, negsuc, eqb_ℤ}
use sloop.Base.Bytes.{Bytes, codes, eqb}
use sloop.Base.Bytes.Split.{Lacks}
use sloop.Base.Bytes.Decimal.{format_int, parse_int}
use sloop.Base.Bytes.Decimal.Laws.{parse_int-format_int, format_int-Lacks}
use sloop.Base.Outcome.{Outcome, ok, err, ◌>>=◌, or_err, bad_key, bad_table, bad_number}
use sloop.GoTime.{Time, is_zero, unix_nano, from_unix_nano, unix_nano_lem}
use sloop.Common.{slash, parse_key, check_parts}
use sloop.Typed.Key.{KeyType, path, split-path}

pub record WatchTableKey : Type 0 where
  pub partition_id : Bytes
  pub kind : Bytes
  pub namespace : Bytes
  pub name : Bytes
  pub timestamp : Time

abbrev pub table_name : Bytes
table_name = codes "watch"

unfoldable pub new_key : Bytes → Bytes → Bytes → Bytes → Time → WatchTableKey
new_key partition_id kind namespace name timestamp = record {
  partition_id = partition_id;
  kind = kind;
  namespace = namespace;
  name = name;
  timestamp = timestamp;
}

unfoldable pub new_comparator : Bytes → Bytes → Bytes → Time → WatchTableKey
unfolding new_key
new_comparator kind namespace name timestamp = new_key [] kind namespace name timestamp

unfoldable pub from_parts : List Bytes → Outcome WatchTableKey
from_parts (_ ∷ table ∷ partition_id ∷ kind ∷ namespace ∷ name ∷ ts ∷ []) =
    if not (eqb table table_name) then err bad_table else (do
      tsint ← or_err (parse_int ts) bad_number
      ok (record {
        partition_id = partition_id;
        kind = kind;
        namespace = namespace;
        name = name;
        timestamp = from_unix_nano tsint;
      }))
from_parts _ = err bad_key

unfoldable pub parse : Bytes → Outcome WatchTableKey
unfolding parse_key from_parts
parse key = do parts ← parse_key key; from_parts parts

-- The last byte of the name is a dot or a slash.
unfoldable pub is_name_already_delimited : Bytes → Bool
is_name_already_delimited [] = false
is_name_already_delimited (c ∷ []) = eqb (c ∷ []) (codes ".") || eqb (c ∷ []) (codes "/")
is_name_already_delimited (c ∷ d ∷ name) = is_name_already_delimited (d ∷ name)

unfoldable pub to_string : WatchTableKey → Bytes
unfolding path is_name_already_delimited
to_string k =
    if eqb k.name [] && is_zero k.timestamp
    then path (table_name ∷ k.partition_id ∷ k.kind ∷ k.namespace ∷ []) ++ slash ∷ []
    else if is_zero k.timestamp
    then (if is_name_already_delimited k.name
        then path (table_name ∷ k.partition_id ∷ k.kind ∷ k.namespace ∷ k.name ∷ [])
        else path (table_name ∷ k.partition_id ∷ k.kind ∷ k.namespace ∷ k.name ∷ []) ++ slash ∷ [])
    else path (
        table_name
        ∷ k.partition_id
        ∷ k.kind
        ∷ k.namespace
        ∷ k.name
        ∷ format_int (unix_nano k.timestamp)
        ∷ [])

unfoldable pub set_partition_id : WatchTableKey → Bytes → WatchTableKey
set_partition_id k p = record k { partition_id = p }

unfoldable pub same : WatchTableKey → WatchTableKey → Bool
same k j =
    eqb k.partition_id j.partition_id
    && (eqb k.kind j.kind
        && (eqb k.namespace j.namespace && (eqb k.name j.name && eqb_ℤ k.timestamp j.timestamp)))

abbrev pub watch_key : KeyType
watch_key = record {
  Key = WatchTableKey;
  table_name = table_name;
  parse = parse;
  to_string = to_string;
  partition_id = λ k. k.partition_id;
  set_partition_id = set_partition_id;
  same = same;
}

-- No field holds a slash.
pub record IsPlain (k : WatchTableKey) : Type 0 where
  pub partition_id : Lacks slash k.partition_id
  pub kind : Lacks slash k.kind
  pub namespace : Lacks slash k.namespace
  pub name : Lacks slash k.name

-- The instants that UnixNano represents: an int64 of nanoseconds.
abbrev pub InInt64 : Time → Type 0
InInt64 (pos n) = n < 2 ^ 63
InInt64 (negsuc n) = n < 2 ^ 63

InInt64-print :
    (t : Time)
    → InInt64 t
    → (is_zero t ≡ false) × (unix_nano t ≡ t) × (parse_int (format_int t) ≡ some t)
InInt64-print (pos n) h =
    let (a, b, c, d) = unix_nano_lem n h in (c, a, (parse_int-format_int n h).0)
InInt64-print (negsuc n) h =
    let (a, b, c, d) = unix_nano_lem n h in (d, b, (parse_int-format_int n h).1)

parse-path :
    (k : WatchTableKey) (t : Bytes)
    → IsPlain k
    → Lacks slash t
    → parse_int t ≡ some k.timestamp
    → parse (path (table_name ∷ k.partition_id ∷ k.kind ∷ k.namespace ∷ k.name ∷ t ∷ [])) ≡ ok k
unfolding parse parse_key check_parts from_parts eqb
parse-path k t p l e = rw (
  split-path (table_name ∷ k.partition_id ∷ k.kind ∷ k.namespace ∷ k.name ∷ t ∷ [])
      ((omega arith), (p.partition_id, (p.kind, (p.namespace, (p.name, (l, tt)))))),
  e,
)

to_string_dated :
    (k : WatchTableKey)
    → is_zero k.timestamp ≡ false
    → to_string k
      ≡ path (
          table_name
          ∷ k.partition_id
          ∷ k.kind
          ∷ k.namespace
          ∷ k.name
          ∷ format_int (unix_nano k.timestamp)
          ∷ [])
unfolding to_string
to_string_dated k z = elim (Bool-cases (eqb k.name [])) [
  | inl e ↦ ground (arith, e, z)
  | inr e ↦ ground (arith, e, z)
]

-- A watch key whose fields hold no slash and whose timestamp is an int64 of nanoseconds is read back
-- from its text.
pub parse-to_string_watch :
    (k : WatchTableKey) → IsPlain k → InInt64 k.timestamp → parse (to_string k) ≡ ok k
parse-to_string_watch k p h =
    let (z, u, e) = InInt64-print k.timestamp h in
    rw (to_string_dated k z, u)
      (parse-path k (format_int k.timestamp) p
        (format_int-Lacks slash k.timestamp (omega arith) (omega arith)) e)
