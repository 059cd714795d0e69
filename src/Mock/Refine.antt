-- ===== src/Mock/Refine.antt =====
-- The database of the mock as a map from keys to values, which forgets the order of its entries.
use sloop.Base.{
  ◌≡◌, ◌∙◌, refl, ap, List, [], ◌∷◌, Option, none, some, if◌then◌else◌, Option-cases, inl, inr,
}
use sloop.Base.Bytes.{Bytes, eqb, has_prefix}
use sloop.Base.Outcome.{Outcome, ok, err, key_not_found}
use sloop.Mock.{MockDb, lookup, get, set, delete_key, update, view, drop_prefix}
use sloop.Mock.MapLaws.{lookup-insert, lookup-delete, drop_prefix_exact}

-- The abstract view: what each key has.
abbrev pub Map : Type 0
Map = Bytes → Option Bytes

-- One use of the database: a write in a transaction that may write or in one that may not, a deletion
-- likewise, and the removal of a prefix.
pub data Op : Type 0 where
  put put_in_view : Bytes → Bytes → Op
  remove remove_in_view : Bytes → Op
  drop : Bytes → Op

pub apply : Op → MockDb → MockDb
unfolding update view set delete_key drop_prefix
apply (put k v) b = (update (set k v) b).1
apply (put_in_view k v) b = (view (set k v) b).1
apply (remove k) b = (update (delete_key k) b).1
apply (remove_in_view k) b = (view (delete_key k) b).1
apply (drop p) b = drop_prefix p b

pub specified : Op → Map → Map
specified (put k v) m j = if eqb k j then some v else m j
specified (put_in_view k v) m j = m j
specified (remove k) m j = if eqb k j then none else m j
specified (remove_in_view k) m j = m j
specified (drop p) m j = if has_prefix j p then none else m j

pub apply_all : List Op → MockDb → MockDb
unfolding apply
apply_all [] b = b
apply_all (o ∷ ops) b = apply_all ops (apply o b)

pub specified_all : List Op → Map → Map
unfolding specified
specified_all [] m = m
specified_all (o ∷ ops) m = specified_all ops (specified o m)

abbrev pub map_of : MockDb → Map
map_of b j = lookup j b.entries

-- What a read returns for what a key has.
abbrev pub read_of : Option Bytes → Outcome Bytes
read_of none = err key_not_found
read_of (some v) = ok v

apply-specified :
    (o : Op) (b : MockDb) (j : Bytes) → map_of (apply o b) j ≡ specified o (map_of b) j
unfolding apply specified update view set delete_key
apply-specified (put k v) b j = lookup-insert k j v b.entries
apply-specified (put_in_view k v) b j = refl
apply-specified (remove k) b j = lookup-delete k j b.entries
apply-specified (remove_in_view k) b j = refl
apply-specified (drop p) b j = drop_prefix_exact p j b

specified_cong :
    (o : Op) (m n : Map)
    → ((j : Bytes) → m j ≡ n j)
    → (j : Bytes) → specified o m j ≡ specified o n j
unfolding specified
specified_cong (put k v) m n h j = ap (λ x. if eqb k j then some v else x) (h j)
specified_cong (put_in_view k v) m n h j = h j
specified_cong (remove k) m n h j = ap (λ x. if eqb k j then none else x) (h j)
specified_cong (remove_in_view k) m n h j = h j
specified_cong (drop p) m n h j = ap (λ x. if has_prefix j p then none else x) (h j)

all_cong :
    (ops : List Op) (m n : Map)
    → ((j : Bytes) → m j ≡ n j)
    → (j : Bytes) → specified_all ops m j ≡ specified_all ops n j
unfolding specified_all
all_cong [] m n h j = h j
all_cong (o ∷ ops) m n h j = all_cong ops (specified o m) (specified o n) (specified_cong o m n h) j

all-specified :
    (ops : List Op) (b : MockDb) (j : Bytes)
    → map_of (apply_all ops b) j ≡ specified_all ops (map_of b) j
unfolding apply_all specified_all
all-specified [] b j = refl
all-specified (o ∷ ops) b j =
    all-specified ops (apply o b) j
    ∙ all_cong ops (map_of (apply o b)) (specified o (map_of b)) (apply-specified o b) j

read_lookup : (b : MockDb) (j : Bytes) → (view (λ t. (get t j, t)) b).0 ≡ read_of (map_of b j)
unfolding view get
read_lookup b j = elim (Option-cases (lookup j b.entries)) [
  | inl e ↦ rw (get, e)
  | inr (v, e) ↦ rw (get, e)
]

-- Whatever writes, deletions and removals of prefixes are done to a database, in transactions that may
-- write or that may not, a read of any key afterwards returns what the specification on maps says,
-- started from what the database had: a write sets its key, a deletion unsets it, the removal of a
-- prefix unsets the keys that have it, and a transaction that may not write changes nothing.
pub mock_refines_map :
    (ops : List Op) (b : MockDb) (j : Bytes)
    → (view (λ t. (get t j, t)) (apply_all ops b)).0 ≡ read_of (specified_all ops (map_of b) j)
mock_refines_map ops b j = read_lookup (apply_all ops b) j ∙ ap read_of (all-specified ops b j)
