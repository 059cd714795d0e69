-- ===== src/Common/Partitions/Counts.antt =====
-- The counts of keys for each partition and table agree with the keys of the database.
use sloop.Base.{
  ℕ, zero, suc, ◌+◌, ◌<◌, Bool, true, false, ◌&&◌, ◌≡◌, ◌⊎◌, ◌∙◌, refl, ap, inl, inr, arith, List,
  [], ◌∷◌, some, length, drop, ◌==◌, if◌then◌else◌, Bool-cases,
}
use sloop.Base.Bytes.{Bytes, eqb, eqb_iff}
use sloop.Base.Outcome.{Error, Outcome, ok, err, panic, running, ◌>>=◌}
use sloop.Common.Deletion.{forward}
use sloop.Mock.{
  Data, MockDb, MockIterator, keys_of, sort_strings, view, new_iterator, rewind, next, item_key,
}
use sloop.Base.Bytes.Split.{split}
use sloop.Mock.Scan.{get_elem?-drop, get_elem?-drop_nil, drop-next, valid-some, valid-none}
use sloop.Mock.Sort.{length-sort_strings}
use sloop.Common.{check_parts, parse_key, slash}
use sloop.Common.Partitions.{
  SloopKey, InfoMap, get_sloop_key, increment, count_key, visit_key, visit_keys,
  get_partitions_info, nth, table_key_count,
}

-- The keys of a table in a partition, as the map has them.
pub key_count : Bytes → Bytes → InfoMap → ℕ
unfolding table_key_count
key_count id table [] = 0
key_count id table ((j, info) ∷ m) =
    if eqb j id then table_key_count table info.table_name_to_key_count else key_count id table m

pub total_of : InfoMap → ℕ
total_of [] = 0
total_of ((j, info) ∷ m) = info.total_key_count + total_of m

-- Is this the table and the partition of the key?
pub belongs : Bytes → Bytes → Bytes → Bool
belongs id table key = elim (get_sloop_key key) [
  | ok k ↦ eqb k.partition_id id && eqb k.table_name table
  | err e ↦ false
  | panic ↦ false
  | running ↦ false
]

pub parses : Bytes → Bool
parses key = elim (get_sloop_key key) [
  | ok k ↦ true
  | err e ↦ false
  | panic ↦ false
  | running ↦ false
]

pub number_of : (Bytes → Bool) → List Bytes → ℕ
number_of test [] = 0
number_of test (k ∷ ks) = (if test k then 1 else 0) + number_of test ks

table_key_count-increment :
    (table name : Bytes) (m : List (Bytes × ℕ))
    → table_key_count table (increment name m)
      ≡ table_key_count table m + (if eqb name table then 1 else 0)
unfolding table_key_count increment
table_key_count-increment table name [] = ground arith
table_key_count-increment table name ((j, n) ∷ m) = ground (
  arith,
  eqb_iff j name,
  eqb_iff j table,
  eqb_iff name table,
  table_key_count-increment table name m,
)

key_count-count_key :
    (id table : Bytes) (k : SloopKey) (m : InfoMap)
    → key_count id table (count_key k m)
      ≡ key_count id table m + (if eqb k.partition_id id && eqb k.table_name table then 1 else 0)
unfolding key_count count_key table_key_count increment
key_count-count_key id table k [] = ground arith
key_count-count_key id table k ((j, info) ∷ m) = ground (
  arith,
  eqb_iff j id,
  eqb_iff j k.partition_id,
  eqb_iff k.partition_id id,
  table_key_count-increment table k.table_name info.table_name_to_key_count,
  key_count-count_key id table k m,
)

total_of-count_key : (k : SloopKey) (m : InfoMap) → total_of (count_key k m) ≡ total_of m + 1
unfolding total_of count_key
total_of-count_key k [] = omega arith
total_of-count_key k ((j, info) ∷ m) = ground (arith, total_of-count_key k m)

-- The state after one key that parses or not.
pub count_one : Bytes → InfoMap × ℕ → InfoMap × ℕ
count_one key (m, n) = elim (get_sloop_key key) [
  | ok k ↦ (count_key k m, n + 1)
  | err e ↦ (m, n)
  | panic ↦ (m, n)
  | running ↦ (m, n)
]

length-keys_of : (m : Data) → length (keys_of m) ≡ length m
length-keys_of [] = refl
length-keys_of ((k, v) ∷ m) = ap suc (length-keys_of m)

count_all : List Bytes → InfoMap × ℕ → InfoMap × ℕ
count_all [] s = s
count_all (k ∷ ks) s = count_all ks (count_one k s)

-- A key parses or is refused.
abbrev Parsed : Outcome SloopKey → Type 0
Parsed (ok k) = Unit
Parsed (err e) = Unit
Parsed panic = ⊥
Parsed running = ⊥

of_seven :
    (parts : List Bytes)
    → Parsed (do
      ps ← check_parts parts
      table ← nth ps 1
      partition ← nth ps 2
      ok (record { table_name = table; partition_id = partition }))
unfolding check_parts nth
of_seven [] = tt
of_seven (p ∷ []) = tt
of_seven (p ∷ q ∷ []) = tt
of_seven (p ∷ q ∷ r ∷ ps) = elim (Bool-cases (length (p ∷ q ∷ r ∷ ps) == 7)) [
  | inl e ↦ elim (Bool-cases (eqb p [])) [ inl e2 ↦ rw (e, e2) tt | inr e2 ↦ rw (e, e2) tt ]
  | inr e ↦ rw e tt
]

get_sloop_key-Parsed : (key : Bytes) → Parsed (get_sloop_key key)
unfolding get_sloop_key parse_key
get_sloop_key-Parsed key = of_seven (split slash key)

visit_agrees :
    (o : Outcome SloopKey) (m : InfoMap) (n : ℕ)
    → Parsed o
    → (elim o as (λ x. Outcome (InfoMap × ℕ)) [
      | err e ↦ ok (m, n)
      | ok k ↦ ok (count_key k m, n + 1)
      | panic ↦ panic
      | running ↦ running
    ])
      ≡ ok (elim o as (λ x. InfoMap × ℕ) [
        | ok k ↦ (count_key k m, n + 1)
        | err e ↦ (m, n)
        | panic ↦ (m, n)
        | running ↦ (m, n)
      ])
visit_agrees (ok k) m n h = refl
visit_agrees (err e) m n h = refl
visit_agrees panic m n h = absurd h
visit_agrees running m n h = absurd h

visit_key_lem : (key : Bytes) (s : InfoMap × ℕ) → visit_key key s ≡ ok (count_one key s)
unfolding visit_key count_one
visit_key_lem key (m, n) = visit_agrees (get_sloop_key key) m n (get_sloop_key-Parsed key)

visit_keys_lem :
    (f : ℕ) (i : MockIterator) (ks : List Bytes) (s : InfoMap × ℕ)
    → drop i.current_idx i.keys ≡ ks
    → length ks < f
    → visit_keys f i s ≡ ok (count_all ks s)
unfolding visit_keys count_all
visit_keys_lem zero i ks s e h = absurd (omega arith)
visit_keys_lem (suc f) i [] s e h =
    let v = valid-none i (get_elem?-drop_nil i.current_idx i.keys e) in rw (v, visit_keys)
visit_keys_lem (suc f) i (k ∷ ks) s e h =
    let (at, behind) = get_elem?-drop i.current_idx i.keys k ks e in
    let v = valid-some i k at in
    let key : item_key i ≡ some k = unfold item_key in at in
    rw (v, visit_keys, key, visit_key_lem k s)
      (visit_keys_lem f (next i) ks (count_one k s) (drop-next i ks behind) (omega arith))

Parsed-cases :
    (o : Outcome SloopKey) → Parsed o → ((k : SloopKey) × (o ≡ ok k)) ⊎ ((e : Error) × (o ≡ err e))
Parsed-cases (ok k) h = inl (k, refl)
Parsed-cases (err e) h = inr (e, refl)
Parsed-cases panic h = absurd h
Parsed-cases running h = absurd h

-- One key adds 1 to the total and to the sum of the totals of the partitions if it parses, and to
-- the count of a partition and a table if it belongs there.
one-total :
    (key : Bytes) (m : InfoMap) (n : ℕ)
    → (count_one key (m, n)).1 ≡ n + (if parses key then 1 else 0)
unfolding count_one parses
one-total key m n = ground arith

one-sum :
    (key : Bytes) (m : InfoMap) (n : ℕ)
    → total_of (count_one key (m, n)).0 ≡ total_of m + (if parses key then 1 else 0)
unfolding count_one parses
one-sum key m n = elim (Parsed-cases (get_sloop_key key) (get_sloop_key-Parsed key)) [
  | inl (k, q) ↦ rw (q, count_one, parses) (total_of-count_key k m)
  | inr (e, q) ↦ rw (q, count_one, parses) (omega arith)
]

one-count :
    (id table key : Bytes) (m : InfoMap) (n : ℕ)
    → key_count id table (count_one key (m, n)).0
      ≡ key_count id table m + (if belongs id table key then 1 else 0)
unfolding count_one belongs
one-count id table key m n = elim (Parsed-cases (get_sloop_key key) (get_sloop_key-Parsed key)) [
  | inl (k, q) ↦ rw (q, count_one, belongs) (key_count-count_key id table k m)
  | inr (e, q) ↦ rw (q, count_one, belongs) (omega arith)
]

all-total :
    (ks : List Bytes) (s : InfoMap × ℕ)
    → ((count_all ks s).1 ≡ s.1 + number_of parses ks)
      × (total_of (count_all ks s).0 ≡ total_of s.0 + number_of parses ks)
unfolding count_all number_of
all-total [] s = (omega arith, omega arith)
all-total (k ∷ ks) (m, n) =
    let (a, b) = all-total ks (count_one k (m, n)) in
    (omega (arith, a, one-total k m n), omega (arith, b, one-sum k m n))

all-count :
    (id table : Bytes) (ks : List Bytes) (s : InfoMap × ℕ)
    → key_count id table (count_all ks s).0
      ≡ key_count id table s.0 + number_of (belongs id table) ks
unfolding count_all number_of
all-count id table [] s = omega arith
all-count id table (k ∷ ks) (m, n) =
    omega (arith, all-count id table ks (count_one k (m, n)), one-count id table k m n)

-- For every database `get_partitions_info` ends with a map and a total. The total, and the sum of the
-- totals of the partitions in the map, are the number of keys that parse; the count of a table in a
-- partition is the number of keys that parse to that table and that partition.
pub partitions_info_exact :
    (b : MockDb)
    → let ks = sort_strings (keys_of b.entries) in
      (m : InfoMap) × (get_partitions_info b ≡ ok (m, number_of parses ks))
      × (total_of m ≡ number_of parses ks)
      × ((id table : Bytes) → key_count id table m ≡ number_of (belongs id table) ks)
unfolding get_partitions_info view rewind new_iterator total_of key_count
partitions_info_exact b =
    let ks = sort_strings (keys_of b.entries) in
    let i = rewind (new_iterator (forward []) (record { read_only = true; db = b })) in
    let (a, c) = all-total ks ([], 0) in
    (
      (count_all ks ([], 0)).0,
      visit_keys_lem (suc (length b.entries)) i ks ([], 0) refl
            (omega (arith, length-sort_strings (keys_of b.entries), length-keys_of b.entries))
          ∙ ap (λ n. ok ((count_all ks ([], 0)).0, n)) (omega (arith, a)),
      omega (arith, c),
      λ id table. omega (arith, all-count id table ks ([], 0)),
    )
