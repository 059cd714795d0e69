-- ===== src/StoreManager.antt =====
-- pkg/sloop/storemanager/storemanager.go: which partitions the garbage collection deletes, and how.
-- Metrics, logs and the loops that sleep between two runs are left out.
pub mod Selection
pub mod Removal
pub mod Run
use sloop.Base.{
  ℕ, zero, suc, ◌+◌, ◌*◌, Bool, true, false, not, ◌||◌, ◌≡◌, List, [], ◌∷◌, ◌++◌, Option, none,
  some, length, drop, ltb, ◌==◌, if◌then◌else◌,
}
use sloop.Base.Int.{ℤ, pos, ltb_ℤ}
use sloop.Base.Bytes.{Bytes, eqb}
use sloop.Base.Outcome.{Error, Outcome, ok, err, panic, running, ◌>>=◌}
use sloop.GoTime.{Time, Duration, sub}
use sloop.Partition.{get_time_range_for_partition}
use sloop.Mock.{MockDb, drop_prefix}
use sloop.Common.{slash}
use sloop.Common.Deletion.{move_prefix, delete_keys_with_prefix}
use sloop.Common.Partitions.{
  PartitionInfo, InfoMap, get_partitions_info, get_sorted_partition_ids, table_key_count, info_of,
}
use sloop.Typed.Tables.{get_min_and_max_partition, get_table_names}

-- float64 arithmetic, as far as the garbage collection uses it.
pub record GcFloat : Type 1 where
  pub F : Type 0
  pub zero_f : F
  pub one_f : F
  -- float64(n)
  pub of_int : ℤ → F
  pub times : F → F → F
  pub minus : F → F → F
  pub over : F → F → F
  -- x < y and x <= y
  pub less : F → F → Bool
  pub less_eq : F → F → Bool
  -- uint64(math.Ceil(x))
  pub ceil_to_uint64 : F → ℕ

module _ (fl : GcFloat) where
  open fl use {F, zero_f, one_f, of_int, times, minus, over, less, less_eq, ceil_to_uint64}

  unfoldable pub has_files_on_disk_exceeded_threshold : ℤ → ℤ → F → Bool
  has_files_on_disk_exceeded_threshold disk_size_bytes size_limit_bytes gc_threshold =
      less (times gc_threshold (of_int size_limit_bytes)) (of_int disk_size_bytes)

  unfoldable pub clean_up_file_size_condition : ℤ → ℤ → F → Bool → ℤ → Bool
  unfolding has_files_on_disk_exceeded_threshold
  clean_up_file_size_condition disk_size_bytes size_limit_bytes gc_threshold enable_delete_keys
        num =
      if enable_delete_keys
      then ltb_ℤ (pos 0) num
      else has_files_on_disk_exceeded_threshold disk_size_bytes size_limit_bytes gc_threshold

  unfoldable pub get_garbage_collection_ratio : F → ℤ → F → F
  get_garbage_collection_ratio current_disk_size size_limit_bytes gc_threshold =
      let size_threshold = times gc_threshold (of_int size_limit_bytes) in
      if less size_threshold current_disk_size
      then over (minus current_disk_size size_threshold) current_disk_size
      else zero_f

  unfoldable pub get_number_of_keys_to_delete : F → ℕ → ℕ
  get_number_of_keys_to_delete ratio total_key_count =
      if less_eq ratio zero_f || less one_f ratio
      then 0
      else ceil_to_uint64 (times ratio (of_int (pos total_key_count)))

-- A partition that does not parse counts as young.
unfoldable pub clean_up_time_condition : Duration → Bytes → Bytes → Duration → Outcome Bool
clean_up_time_condition d min_partition max_partition time_limit =
    elim (get_time_range_for_partition d min_partition) [
      | err e ↦ ok false
      | panic ↦ panic
      | running ↦ running
      | ok (oldest, x) ↦ elim (get_time_range_for_partition d max_partition) [
        | err e ↦ ok false
        | panic ↦ panic
        | running ↦ running
        | ok (y, latest) ↦ ok (ltb_ℤ time_limit (sub latest oldest))
      ]
    ]

-- The loop over the sorted partitions until enough keys are collected: past the end of the list, and
-- at a partition that the map does not have, it panics.
unfoldable pub size_loop : ℕ → InfoMap → ℕ → List Bytes → Outcome (List Bytes)
unfolding info_of
size_loop num m keys_to_be_collected [] = if ltb keys_to_be_collected num then panic else ok []
size_loop num m keys_to_be_collected (p ∷ ps) = elim (ltb keys_to_be_collected num) [
  | false ↦ ok []
  | true ↦ elim (info_of p m) [
    | none ↦ panic
    | some info ↦ (do
      rest ← size_loop num m (keys_to_be_collected + info.total_key_count) ps
      ok (p ∷ rest))
  ]
]

unfoldable pub get_partitions_to_delete_when_size_condition_has_been_met :
    (fl : GcFloat) → ℤ → ℤ → fl.F → ℕ → InfoMap → List Bytes → Outcome (List Bytes)
unfolding size_loop get_garbage_collection_ratio get_number_of_keys_to_delete
get_partitions_to_delete_when_size_condition_has_been_met fl size_limit_bytes disk_size_bytes
      gc_threshold total m sorted =
    let ratio =
      get_garbage_collection_ratio fl (fl.of_int disk_size_bytes) size_limit_bytes gc_threshold in
    size_loop (get_number_of_keys_to_delete fl ratio total) m 0 sorted

-- The loop over the partitions that are left: those that are old enough, and the first that is not.
-- The partition behind the last one is read for a metric, so it has to be there.
unfoldable pub time_loop : Duration → Bytes → Duration → List Bytes → Outcome (List Bytes)
unfolding clean_up_time_condition
time_loop d max_partition time_limit [] = panic
time_loop d max_partition time_limit (p ∷ ps) = do
  old ← clean_up_time_condition d p max_partition time_limit
  elim old [
    | false ↦ ok []
    | true ↦ (do rest ← time_loop d max_partition time_limit ps; ok (p ∷ rest))
  ]

-- The choice among the sorted partitions, with the condition on the size decided.
unfoldable pub choose_partitions :
    (fl : GcFloat)
    → Duration
    → Bytes
    → Duration
    → ℤ
    → ℤ
    → fl.F
    → ℕ
    → InfoMap
    → List Bytes
    → Bool
    → Outcome (List Bytes)
unfolding get_partitions_to_delete_when_size_condition_has_been_met time_loop
choose_partitions fl d max_partition time_limit size_limit_bytes disk_size_bytes gc_threshold total
      m sorted size_met =
    do
      by_size ←
          if size_met
          then get_partitions_to_delete_when_size_condition_has_been_met fl size_limit_bytes
              disk_size_bytes gc_threshold total m sorted
          else ok []
      if length by_size == length sorted then ok by_size else (do
        by_time ← time_loop d max_partition time_limit (drop (length by_size) sorted)
        ok (by_size ++ by_time))

unfoldable pub get_partitions_to_delete :
    (fl : GcFloat) → Duration → MockDb → Duration → ℤ → ℤ → fl.F → Outcome (List Bytes × InfoMap)
unfolding choose_partitions has_files_on_disk_exceeded_threshold
get_partitions_to_delete fl d b time_limit size_limit_bytes disk_size_bytes gc_threshold = do
  bounds ← get_min_and_max_partition b
  elim bounds [
    | none ↦ ok ([], [])
    | some (min_partition, max_partition) ↦ (do
      let size_met =
          has_files_on_disk_exceeded_threshold fl disk_size_bytes size_limit_bytes gc_threshold
      need_clean_up ←
          if size_met
          then ok true
          else clean_up_time_condition d min_partition max_partition time_limit
      if not need_clean_up then ok ([], []) else (do
        counted ← get_partitions_info b
        chosen ←
            choose_partitions fl d max_partition time_limit size_limit_bytes disk_size_bytes
              gc_threshold counted.1 counted.0 (get_sorted_partition_ids counted.0) size_met
        ok (chosen, counted.0)))
  ]

-- "/%s/%s"
abbrev pub partition_prefix : Bytes → Bytes → Bytes
partition_prefix table partition = slash ∷ (table ++ slash ∷ partition)

-- What is deleted, what was to be deleted, and the errors.
pub record Removed : Type 0 where
  pub deleted : ℕ
  pub to_delete : ℕ
  pub errors : List Error

abbrev pub add_removed : ℕ → ℕ → Option Error → Removed → Removed
add_removed n w none r = record {
  deleted = n + r.deleted;
  to_delete = w + r.to_delete;
  errors = r.errors;
}
add_removed n w (some e) r = record {
  deleted = n + r.deleted;
  to_delete = w + r.to_delete;
  errors = e ∷ r.errors;
}

-- The loop over the tables; the first number bounds the rounds of each deletion of keys.
unfoldable pub remove_tables :
    ℕ → Bytes → ℕ → Bool → PartitionInfo → List Bytes → MockDb → Outcome Removed × MockDb
unfolding table_key_count
remove_tables f partition batch_size enable_delete_keys info [] b =
    (ok (record { deleted = 0; to_delete = 0; errors = [] }), b)
remove_tables f partition batch_size enable_delete_keys info (table ∷ tables) b =
    let prefix = partition_prefix table partition in
    let n = table_key_count table info.table_name_to_key_count in
    elim enable_delete_keys [
      | true ↦
          let (r, b1) = delete_keys_with_prefix f prefix b batch_size n in
          elim r [
            | ok (e, k, w) ↦
                let (rest, b2) =
                  remove_tables f partition batch_size enable_delete_keys info tables b1 in
                (do x ← rest; ok (add_removed k w e x), b2)
            | err e ↦ (err e, b1)
            | panic ↦ (panic, b1)
            | running ↦ (running, b1)
          ]
      | false ↦
          let b1 = drop_prefix (move_prefix ++ prefix) (drop_prefix prefix b) in
          let (rest, b2) = remove_tables f partition batch_size enable_delete_keys info tables b1 in
          (do x ← rest; ok (add_removed n n none x), b2)
    ]

unfoldable pub delete_partition :
    ℕ → Bytes → MockDb → ℕ → Bool → PartitionInfo → Outcome Removed × MockDb
unfolding remove_tables
delete_partition f min_partition b batch_size enable_delete_keys info =
    remove_tables f min_partition batch_size enable_delete_keys info get_table_names b

-- What a run of the garbage collection returns: was anything cleaned up, what was deleted, what was
-- to be deleted, and did a deletion fail?
pub record Cleanup : Type 0 where
  pub performed : Bool
  pub deleted : ℕ
  pub to_delete : ℕ
  pub failed : Bool

-- The loop over the partitions, with what is done so far. A partition that the map does not have is a
-- nil pointer.
unfoldable pub clean_partitions :
    ℕ → ℕ → Bool → InfoMap → List Bytes → Cleanup → MockDb → Outcome Cleanup × MockDb
unfolding delete_partition
clean_partitions f batch_size enable_delete_keys m [] so_far b = (ok so_far, b)
clean_partitions f batch_size enable_delete_keys m (p ∷ ps) so_far b = elim (info_of p m) [
  | none ↦ (panic, b)
  | some info ↦
      let (r, b1) = delete_partition f p b batch_size enable_delete_keys info in
      elim r [
        | err e ↦ (err e, b1)
        | panic ↦ (panic, b1)
        | running ↦ (running, b1)
        | ok removed ↦ elim removed.errors [
          | e ∷ es ↦ (ok (record so_far { performed = false; failed = true }), b1)
          | [] ↦
              clean_partitions f batch_size enable_delete_keys m ps
                (record {
                  performed = true;
                  deleted = so_far.deleted + removed.deleted;
                  to_delete = so_far.to_delete + removed.to_delete;
                  failed = false;
                })
                b1
        ]
      ]
]

abbrev pub nothing_cleaned : Cleanup
nothing_cleaned = record { performed = false; deleted = 0; to_delete = 0; failed = false }

-- The last step of a run that deletes keys: DropPrefix with the empty prefix.
unfoldable pub finish_cleanup : Bool → Outcome Cleanup × MockDb → Outcome Cleanup × MockDb
finish_cleanup enable_delete_keys (ok c, b) =
    if c.failed
    then (ok c, b)
    else if enable_delete_keys
    then (ok c, drop_prefix [] b)
    else (ok c, b)
finish_cleanup enable_delete_keys (err e, b) = (err e, b)
finish_cleanup enable_delete_keys (panic, b) = (panic, b)
finish_cleanup enable_delete_keys (running, b) = (running, b)

unfoldable pub do_cleanup :
    (fl : GcFloat)
    → ℕ
    → Duration
    → MockDb
    → Duration
    → ℤ
    → ℤ
    → ℕ
    → fl.F
    → Bool
    → Outcome Cleanup × MockDb
unfolding get_partitions_to_delete clean_partitions finish_cleanup
do_cleanup fl f d b time_limit size_limit_bytes disk_size_bytes batch_size gc_threshold
      enable_delete_keys =
    elim (get_partitions_to_delete fl d b time_limit size_limit_bytes disk_size_bytes
      gc_threshold) [
        | err e ↦ (err e, b)
        | panic ↦ (panic, b)
        | running ↦ (running, b)
        | ok (ps, m) ↦
            finish_cleanup enable_delete_keys
              (clean_partitions f batch_size enable_delete_keys m ps nothing_cleaned b)
      ]
