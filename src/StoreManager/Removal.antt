-- ===== src/StoreManager/Removal.antt =====
-- What the deletion of a partition removes, and what it leaves.
use sloop.Base.{
  ℕ, ◌+◌, ◌<◌, Bool, true, false, ◌||◌, ◌≡◌, ◌∙◌, refl, ap, arith, List, [], ◌∷◌, ◌++◌, Option,
  none, if◌then◌else◌, drop,
}
use sloop.Base.Bytes.{Bytes, has_prefix}
use sloop.Base.Outcome.{Error, Outcome, ok, err, panic, running, ◌>>=◌}
use sloop.Mock.{MockDb, lookup, drop_prefix, keys_of, sort_strings}
use sloop.Mock.MapLaws.{drop_prefix_exact}
use sloop.Common.Deletion.{move_prefix, delete_keys_with_prefix}
use sloop.Common.Deletion.Safety.{Unselected, deletion_frame, deletion_never_ends}
use sloop.Common.Partitions.{PartitionInfo, table_key_count}
use sloop.Typed.Tables.{get_table_names}
use sloop.StoreManager.{Removed, partition_prefix, remove_tables, delete_partition, add_removed}
use sloop.Typed.WatchKey.{watch_key}

-- Does the key belong to the partition in one of the tables, or to what badger has moved of it?
unfoldable pub in_partition : List Bytes → Bytes → Bytes → Bool
in_partition [] partition k = false
in_partition (table ∷ tables) partition k =
    (has_prefix k (partition_prefix table partition)
      || has_prefix k (move_prefix ++ partition_prefix table partition))
    || in_partition tables partition k

pub counted_in : PartitionInfo → List Bytes → ℕ
counted_in info [] = 0
counted_in info (table ∷ tables) =
    table_key_count table info.table_name_to_key_count + counted_in info tables

or_false_left : (a c : Bool) → (a || c) ≡ false → a ≡ false
or_false_left a c h = ground (arith, h)

or_false_right : (a c : Bool) → (a || c) ≡ false → c ≡ false
or_false_right a c h = ground (arith, h)

after_keys :
    (P : MockDb → Type 0) (m : Outcome (Option Error × ℕ × ℕ)) (b : MockDb)
    (go : Option Error × ℕ × ℕ → Outcome Removed × MockDb)
    → P b
    → ((x : Option Error × ℕ × ℕ) → P (go x).1)
    → P (
        (elim m as (λ x. Outcome Removed × MockDb) [
          | ok x ↦ go x
          | err e ↦ (err e, b)
          | panic ↦ (panic, b)
          | running ↦ (running, b)
        ]).1)
after_keys P (ok x) b go h hs = hs x
after_keys P (err e) b go h hs = h
after_keys P panic b go h hs = h
after_keys P running b go h hs = h

abbrev Same : Bytes → MockDb → MockDb → Type 0
Same k b c = lookup k c.entries ≡ lookup k b.entries

module _ (f : ℕ) (partition : Bytes) (size : ℕ) (info : PartitionInfo) where
  dropped_tables :
      (tables : List Bytes) (b : MockDb)
      → ((remove_tables f partition size false info tables b).0
          ≡ ok (record {
            deleted = counted_in info tables;
            to_delete = counted_in info tables;
            errors = [];
          }))
        × ((k : Bytes)
            → lookup k (remove_tables f partition size false info tables b).1.entries
              ≡ (if in_partition tables partition k then none else lookup k b.entries))
  unfolding remove_tables in_partition counted_in
  dropped_tables [] b = (refl, λ k. refl)
  dropped_tables (table ∷ tables) b =
      let p = partition_prefix table partition in
      let b1 = drop_prefix (move_prefix ++ p) (drop_prefix p b) in
      let (r, h) = dropped_tables tables b1 in
      (
        rw r,
        λ k.
            h k
            ∙ ground (
              arith,
              drop_prefix_exact (move_prefix ++ p) k (drop_prefix p b),
              drop_prefix_exact p k b,
            ),
      )

  -- With the deletion of keys off, deleting a partition succeeds, reports the counts that the map
  -- has for its tables, and removes exactly the keys that begin with a table's name and the
  -- partition, or with "!badger!move" before these; every other key keeps its value.
  pub partition_dropped :
      (b : MockDb)
      → ((delete_partition f partition b size false info).0
          ≡ ok (record {
            deleted = counted_in info get_table_names;
            to_delete = counted_in info get_table_names;
            errors = [];
          }))
        × ((k : Bytes)
            → lookup k (delete_partition f partition b size false info).1.entries
              ≡ (if in_partition get_table_names partition k then none else lookup k b.entries))
  unfolding delete_partition
  partition_dropped b = dropped_tables get_table_names b

  kept_tables :
      (tables : List Bytes) (b : MockDb) (k : Bytes)
      → in_partition tables partition k ≡ false
      → lookup k (remove_tables f partition size true info tables b).1.entries ≡ lookup k b.entries
  unfolding remove_tables in_partition
  kept_tables [] b k h = refl
  kept_tables (table ∷ tables) b k h =
      let p = partition_prefix table partition in
      let n = table_key_count table info.table_name_to_key_count in
      let b1 : MockDb = (delete_keys_with_prefix f p b size n).1 in
      let out : Unselected p k = or_false_left _ _ h in
      let same : Same k b b1 = deletion_frame p k out f size n b in
      after_keys (Same k b) (delete_keys_with_prefix f p b size n).0 b1
        (λ (e, d, w). (
          do x ← (remove_tables f partition size true info tables b1).0; ok (add_removed d w e x),
          (remove_tables f partition size true info tables b1).1,
        ))
        same (λ x. kept_tables tables b1 k (or_false_right _ _ h) ∙ same)

  -- With the deletion of keys on, whatever it returns and however many rounds it runs, deleting a
  -- partition leaves the value of every key that it would not remove with the deletion of keys off.
  pub partition_frame :
      (b : MockDb) (k : Bytes)
      → in_partition get_table_names partition k ≡ false
      → lookup k (delete_partition f partition b size true info).1.entries ≡ lookup k b.entries
  unfolding delete_partition
  partition_frame b k h = kept_tables get_table_names b k h

  stuck_table :
      (table : Bytes) (tables : List Bytes) (b : MockDb)
      → delete_keys_with_prefix f
          (partition_prefix table partition)
          b
          size
          (table_key_count table info.table_name_to_key_count)
        ≡ (running, b)
      → remove_tables f partition size true info (table ∷ tables) b ≡ (running, b)
  unfolding remove_tables
  stuck_table table tables b h = rw (ap (λ r. r.0) h, remove_tables, ap (λ r. r.1) h)

  -- With the deletion of keys on, deleting a partition that has watch records never ends, and changes
  -- nothing, if the first key of the database in byte order is not one of these records.
  pub partition_never_removed :
      (b : MockDb) (k : Bytes) (ks : List Bytes)
      → 0 < table_key_count watch_key.table_name info.table_name_to_key_count
      → sort_strings (keys_of b.entries) ≡ k ∷ ks
      → Unselected (partition_prefix watch_key.table_name partition) k
      → delete_partition f partition b size true info ≡ (running, b)
  unfolding delete_partition
  partition_never_removed b k ks n e out =
      stuck_table watch_key.table_name (drop 1 get_table_names) b (
        deletion_never_ends f (partition_prefix watch_key.table_name partition) size
          (table_key_count watch_key.table_name info.table_name_to_key_count) b k ks n e out)
