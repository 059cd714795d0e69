-- ===== src/Mock.antt =====
-- pkg/sloop/store/untyped/badgerwrap/mock.go: the in-memory database behind the interface of
-- badgerwrap/api.go. The lock is held for the whole of a transaction, so a transaction is one step.
-- A Go map is an association list in which each key stands once; its random order is not used, since
-- every reader sorts the keys.
pub mod Sort
pub mod MapLaws
pub mod Refine
pub mod Scan
pub mod Reverse
use mathlib.Core.List.{reverse}
use sloop.Base.{
  ℕ, zero, suc, ◌+◌, ◌-◌, ◌<◌, ◌≤◌, Bool, true, false, not, ◌≡◌, List, [], ◌∷◌, Option, none, some,
  map, length, get_elem?, ltb, if◌then◌else◌, arith,
}
use sloop.Base.Bytes.{Bytes, eqb, lt_bytes, le_bytes, has_prefix}
use sloop.Base.Outcome.{Outcome, ok, err, panic, running, ◌>>=◌, key_not_found, read_only_txn}

abbrev pub Data : Type 0
Data = List (Bytes × Bytes)

-- m[k], with `none` for a missing key
unfoldable pub lookup : Bytes → Data → Option Bytes
lookup k [] = none
lookup k ((j, v) ∷ m) = if eqb j k then some v else lookup k m

-- m[k] = v
unfoldable pub insert : Bytes → Bytes → Data → Data
insert key val [] = (key, val) ∷ []
insert key val ((at, old) ∷ rest) =
    if eqb at key then (at, val) ∷ rest else (at, old) ∷ insert key val rest

-- delete(m, k)
unfoldable pub delete : Bytes → Data → Data
delete k [] = []
delete k ((j, w) ∷ m) = let rest = delete k m in if eqb j k then rest else (j, w) ∷ rest

abbrev pub keys_of : Data → List Bytes
keys_of [] = []
keys_of ((k, v) ∷ m) = k ∷ keys_of m

pub record MockDb : Type 0 where
  pub entries : Data

pub record MockTxn : Type 0 where
  pub read_only : Bool
  pub db : MockDb

-- A step of a transaction that may fail keeps the writes made before it failed.
abbrev pub Exec : Type 0 → Type 0
Exec A = MockTxn → Outcome A × MockTxn

unfoldable pub open_db : MockDb
open_db = record { entries = [] }

-- Update and View: what `fn` returns, and the database that it leaves
unfoldable pub update : {A : Type 0} → Exec A → MockDb → Outcome A × MockDb
update fn b = let (r, t) = fn (record { read_only = false; db = b }) in (r, t.db)

unfoldable pub view : {A : Type 0} → Exec A → MockDb → Outcome A × MockDb
view fn b = let (r, t) = fn (record { read_only = true; db = b }) in (r, t.db)

without_prefix : Bytes → Data → Data
without_prefix p [] = []
without_prefix p ((k, v) ∷ m) =
    let rest = without_prefix p m in if has_prefix k p then rest else (k, v) ∷ rest

unfoldable pub drop_prefix : Bytes → MockDb → MockDb
unfolding without_prefix
drop_prefix p b = record { entries = without_prefix p b.entries }

-- The LSM size; the value log counts as 0.
size_of : Data → ℕ
size_of [] = 0
size_of ((k, v) ∷ m) = length k + length v + size_of m

unfoldable pub size : MockDb → ℕ × ℕ
unfolding size_of
size b = (size_of b.entries, 0)

unfoldable pub get : MockTxn → Bytes → Outcome Bytes
get t key = elim (lookup key t.db.entries) [ none ↦ err key_not_found | some v ↦ ok v ]

unfoldable pub set : Bytes → Bytes → Exec (Unit {0})
set key val t =
    if t.read_only
    then (err read_only_txn, t)
    else (ok tt, record t { db = record { entries = insert key val t.db.entries } })

unfoldable pub delete_key : Bytes → Exec (Unit {0})
delete_key key t =
    if t.read_only
    then (err read_only_txn, t)
    else (ok tt, record t { db = record { entries = delete key t.db.entries } })

unfoldable pub insert_sorted : Bytes → List Bytes → List Bytes
insert_sorted x [] = x ∷ []
insert_sorted x (y ∷ ys) = if le_bytes x y then x ∷ y ∷ ys else y ∷ insert_sorted x ys

-- sort.Strings
unfoldable pub sort_strings : List Bytes → List Bytes
unfolding insert_sorted
sort_strings [] = []
sort_strings (x ∷ xs) = insert_sorted x (sort_strings xs)

-- sort.SearchStrings: the first position in a sorted list at which the element is not below `x`
unfoldable pub search_strings : List Bytes → Bytes → ℕ
search_strings [] x = 0
search_strings (y ∷ ys) x = if lt_bytes y x then suc (search_strings ys x) else 0

-- The option `Prefix` is kept and not used.
pub record IteratorOptions : Type 0 where
  pub prefix : Bytes
  pub reversed : Bool

pub record MockIterator : Type 0 where
  pub opt : IteratorOptions
  pub current_idx : ℕ
  pub entries : Data
  pub keys : List Bytes

unfoldable pub new_iterator : IteratorOptions → MockTxn → MockIterator
new_iterator opt t = record {
  opt = opt;
  current_idx = 0;
  entries = t.db.entries;
  keys =
      (let sorted = sort_strings (keys_of t.db.entries) in
        if opt.reversed then reverse sorted else sorted);
}

unfoldable pub next : MockIterator → MockIterator
next i = record i { current_idx = i.current_idx + 1 }

unfoldable pub rewind : MockIterator → MockIterator
rewind i = record i { current_idx = 0 }

unfoldable pub seek : Bytes → MockIterator → MockIterator
seek key i =
    if not i.opt.reversed
    then record i { current_idx = search_strings i.keys key }
    else (let sorted = sort_strings i.keys in
        record i { current_idx = length sorted - search_strings sorted key; keys = reverse sorted })

unfoldable pub valid : MockIterator → Bool
valid i = ltb i.current_idx (length i.keys)

-- The key of `Item()`; there is no item past the end.
unfoldable pub item_key : MockIterator → Option Bytes
item_key i = get_elem? i.keys i.current_idx

unfoldable pub valid_for_prefix : Bytes → MockIterator → Bool
valid_for_prefix p i = elim (get_elem? i.keys i.current_idx) [
  | none ↦ false
  | some k ↦ has_prefix k p
]

-- `for ; it.ValidForPrefix(p); it.Next() { ... it.Item().Key() ... }`: the keys that are visited.
unfoldable pub visit_prefix : ℕ → Bytes → MockIterator → Outcome (List Bytes)
unfolding valid_for_prefix next item_key
visit_prefix zero p i = running
visit_prefix (suc f) p i = elim (valid_for_prefix p i) [
  | true ↦ elim (item_key i) [
    | none ↦ panic
    | some k ↦ (do rest ← visit_prefix f p (next i); ok (k ∷ rest))
  ]
  | false ↦ ok []
]
