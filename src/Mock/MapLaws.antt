-- ===== src/Mock/MapLaws.antt =====
-- The map of the mock, and what a transaction may change.
use sloop.Base.{
  true, false, ◌≡◌, refl, ◌⊎◌, ◌↔◌, inl, inr, arith, [], ◌∷◌, none, some, if◌then◌else◌, Has,
  Bool-cases,
}
use sloop.Base.Bytes.{Bytes, eqb, eqb_iff, eqb_refl, has_prefix}
use sloop.Base.Outcome.{ok, err, key_not_found, read_only_txn}
use sloop.Mock.{
  Data, MockDb, MockTxn, lookup, insert, delete, keys_of, without_prefix, drop_prefix, get, set,
  delete_key,
}

pub lookup-insert :
    (key asked val : Bytes) (entries : Data)
    → lookup asked (insert key val entries)
      ≡ (if eqb key asked then some val else lookup asked entries)
unfolding lookup insert
lookup-insert key asked val [] = refl
lookup-insert key asked val ((at, old) ∷ rest) =
    ground
      (arith, lookup-insert key asked val rest, eqb_iff key asked, eqb_iff at key, eqb_iff at asked)

pub lookup-delete :
    (k j : Bytes) (m : Data) → lookup j (delete k m) ≡ (if eqb k j then none else lookup j m)
unfolding lookup delete
lookup-delete k j [] = ground arith
lookup-delete k j ((i, w) ∷ m) =
    ground (arith, eqb_iff k j, eqb_iff i k, eqb_iff i j, lookup-delete k j m)

-- A key stands in the list of keys exactly when it is looked up to a value.
pub Has-keys_of : (k : Bytes) (m : Data) → Has k (keys_of m) ↔ ((v : Bytes) × (lookup k m ≡ some v))
unfolding lookup
Has-keys_of k [] = (λ h. elim h [ ], λ h. cc (h.1))
Has-keys_of k ((j, w) ∷ m) = elim (Bool-cases (eqb j k)) [
  | inl e ↦ let q = (eqb_iff j k).0 e in rw e (λ h. (w, refl), λ h. inl (cc))
  | inr e ↦
      let (f, g) = Has-keys_of k m in
      rw e (
        λ h. elim h [ inl q ↦ absurd (ground (arith, q, eqb_refl k)) | inr n ↦ f n ],
        λ h. inr (g h),
      )
]

lookup-without_prefix :
    (p k : Bytes) (m : Data)
    → lookup k (without_prefix p m) ≡ (if has_prefix k p then none else lookup k m)
unfolding lookup without_prefix
lookup-without_prefix p k [] = ground arith
lookup-without_prefix p k ((i, w) ∷ m) = ground (arith, eqb_iff i k, lookup-without_prefix p k m)

-- DropPrefix removes the keys that have the prefix and leaves every other key with its value.
pub drop_prefix_exact :
    (p k : Bytes) (b : MockDb)
    → lookup k (drop_prefix p b).entries ≡ (if has_prefix k p then none else lookup k b.entries)
unfolding drop_prefix
drop_prefix_exact p k b = lookup-without_prefix p k b.entries

-- What a transaction reads after it has set a key: the new value at that key, and at any other key
-- what it read before. A read-only transaction is refused and leaves the database as it was.
pub get-set :
    (t : MockTxn) (k j v : Bytes)
    → ((t.read_only ≡ false)
        × ((set k v t).0 ≡ ok tt)
        × (get (set k v t).1 j ≡ (if eqb k j then ok v else get t j)))
      ⊎ ((t.read_only ≡ true) × (set k v t ≡ (err read_only_txn, t)))
unfolding get set
get-set t k j v = elim (Bool-cases t.read_only) [
  | inl r ↦ inr (r, rw r)
  | inr r ↦ inl (r, rw r, ground (arith, r, lookup-insert k j v t.db.entries))
]

-- What a transaction reads after it has deleted a key: no such key at that key, and at any other
-- key what it read before. A read-only transaction is refused and leaves the database as it was.
pub get-delete_key :
    (t : MockTxn) (k j : Bytes)
    → ((t.read_only ≡ false)
        × ((delete_key k t).0 ≡ ok tt)
        × (get (delete_key k t).1 j ≡ (if eqb k j then err key_not_found else get t j)))
      ⊎ ((t.read_only ≡ true) × (delete_key k t ≡ (err read_only_txn, t)))
unfolding get delete_key
get-delete_key t k j = elim (Bool-cases t.read_only) [
  | inl r ↦ inr (r, rw r)
  | inr r ↦ inl (r, rw r, ground (arith, r, lookup-delete k j t.db.entries))
]
