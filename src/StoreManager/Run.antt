-- ===== src/StoreManager/Run.antt =====
-- What a run of the garbage collection leaves in the database.
use sloop.Base.{ℕ, Bool, true, false, ◌≡◌, ◌∙◌, refl, List, [], ◌∷◌, none, if◌then◌else◌}
use sloop.Base.Int.{ℤ}
use sloop.Base.Bytes.{Bytes, has_prefix}
use sloop.Base.Outcome.{Outcome, ok, err, panic, running}
use sloop.GoTime.{Duration}
use sloop.Mock.{MockDb, lookup, drop_prefix}
use sloop.Mock.MapLaws.{drop_prefix_exact}
use sloop.Common.Partitions.{InfoMap}
use sloop.StoreManager.{
  Cleanup, GcFloat, finish_cleanup, do_cleanup, get_partitions_to_delete, clean_partitions,
  nothing_cleaned,
}

has_prefix-nil : (k : Bytes) → has_prefix k [] ≡ true
unfolding has_prefix
has_prefix-nil [] = refl
has_prefix-nil (c ∷ k) = refl

abbrev finished : Bool → Cleanup → MockDb → Outcome Cleanup × MockDb
finished failed x b = if failed then (ok x, b) else (ok x, drop_prefix [] b)

finish_ok :
    (failed : Bool) (x c : Cleanup) (b : MockDb) (k : Bytes)
    → x.failed ≡ failed
    → (finished failed x b).0 ≡ ok c
    → c.failed ≡ false
    → lookup k (finished failed x b).1.entries ≡ none
finish_ok true x c b k t h e = absurd (cc (t, h, e))
finish_ok false x c b k t h e = drop_prefix_exact [] k b ∙ rw (has_prefix-nil k)

finish-empty :
    (r : Outcome Cleanup × MockDb) (c : Cleanup) (k : Bytes)
    → (finish_cleanup true r).0 ≡ ok c
    → c.failed ≡ false
    → lookup k (finish_cleanup true r).1.entries ≡ none
unfolding finish_cleanup
finish-empty (ok x, b) c k h e = finish_ok x.failed x c b k refl h e
finish-empty (err e1, b) c k h e = cc
finish-empty (panic, b) c k h e = cc
finish-empty (running, b) c k h e = cc

cleanup-empty :
    (found : Outcome (List Bytes × InfoMap)) (f size : ℕ) (b : MockDb) (c : Cleanup) (k : Bytes)
    → let r = elim found as (λ x. Outcome Cleanup × MockDb) [
      | err e ↦ (err e, b)
      | panic ↦ (panic, b)
      | running ↦ (running, b)
      | ok (ps, m) ↦ finish_cleanup true (clean_partitions f size true m ps nothing_cleaned b)
    ] in
      r.0 ≡ ok c → c.failed ≡ false → lookup k r.1.entries ≡ none
cleanup-empty (ok (ps, m)) f size b c k h e =
    finish-empty (clean_partitions f size true m ps nothing_cleaned b) c k h e
cleanup-empty (err e1) f size b c k h e = cc
cleanup-empty panic f size b c k h e = cc
cleanup-empty running f size b c k h e = cc

-- With the deletion of keys on, a run of the garbage collection that ends without an error leaves no
-- key in the database of mock.go, whatever the limits are.
pub cleanup_empties :
    (fl : GcFloat) (f : ℕ) (d : Duration) (b : MockDb) (time_limit : Duration)
    (size_limit_bytes disk_size_bytes : ℤ) (batch_size : ℕ) (gc_threshold : fl.F) (c : Cleanup)
    (k : Bytes)
    → (do_cleanup fl f d b time_limit size_limit_bytes disk_size_bytes batch_size gc_threshold
        true).0
      ≡ ok c
    → c.failed ≡ false
    → lookup k
        (do_cleanup fl f d b time_limit size_limit_bytes disk_size_bytes batch_size gc_threshold
          true).1.entries
      ≡ none
unfolding do_cleanup
cleanup_empties fl f d b time_limit size_limit_bytes disk_size_bytes batch_size gc_threshold c k h
      e =
    cleanup-empty
      (get_partitions_to_delete fl d b time_limit size_limit_bytes disk_size_bytes gc_threshold) f
      batch_size b c k h e
