-- ===== src/Common/Deletion.antt =====
-- pkg/sloop/common/db_utilities.go: deletion of the keys with a prefix, in batches, and the counts of
-- keys, with `GetKeysForPrefix` of partition_utilities.go. The database is the one of
-- badgerwrap/mock.go.
pub mod Safety
use sloop.Base.{
  ℕ, zero, suc, ◌+◌, Bool, true, false, ◌||◌, List, [], ◌∷◌, ◌++◌, Option, none, some, length, ltb,
  ◌==◌, if◌then◌else◌,
}
use sloop.Base.Bytes.{Bytes, codes}
use sloop.Base.Outcome.{Error, Outcome, ok, err, panic, running, ◌>>=◌}
use sloop.Mock.{
  MockDb, MockTxn, Exec, MockIterator, IteratorOptions, update, view, delete_key, new_iterator,
  rewind, next, valid_for_prefix, item_key, visit_prefix,
}

abbrev pub forward : Bytes → IteratorOptions
forward p = record { prefix = p; reversed = false }

-- "!badger!move"
abbrev pub move_prefix : Bytes
move_prefix = codes "!badger!move"

-- The loop over the keys of the transaction, from `n` deleted keys on. The error and the count are
-- what `deleteKeys` returns.
unfoldable pub delete_loop : List Bytes → ℕ → Exec (Option Error × ℕ)
delete_loop [] n t = (ok (none, n), t)
delete_loop (k ∷ ks) n t =
    let (r, t1) = delete_key k t in
    elim r [
      | ok u ↦ delete_loop ks (n + 1) t1
      | err e ↦ (ok (some e, n), t1)
      | panic ↦ (panic, t1)
      | running ↦ (running, t1)
    ]

unfoldable pub delete_keys : List Bytes → MockDb → Outcome (Option Error × ℕ) × MockDb
unfolding delete_loop update
delete_keys keys b = update (delete_loop keys 0) b

unfoldable pub in_batch : Bytes → MockIterator → Bool
unfolding valid_for_prefix
in_batch p i = valid_for_prefix p i || valid_for_prefix (move_prefix ++ p) i

-- The keys of a batch; `n` of them are read already.
unfoldable pub batch_loop : ℕ → Bytes → ℕ → ℕ → MockIterator → Outcome (List Bytes)
unfolding in_batch next item_key
batch_loop zero p batch_size n i = running
batch_loop (suc f) p batch_size n i = elim (in_batch p i) [
  | true ↦ elim (item_key i) [
    | none ↦ panic
    | some k ↦ elim (n + 1 == batch_size) [
      | true ↦ ok (k ∷ [])
      | false ↦ (do rest ← batch_loop f p batch_size (n + 1) (next i); ok (k ∷ rest))
    ]
  ]
  | false ↦ ok []
]

-- One round more than there are keys is enough.
unfoldable pub keys_this_batch : Bytes → ℕ → MockDb → Outcome (List Bytes) × MockDb
unfolding batch_loop new_iterator rewind view
keys_this_batch p batch_size b =
    view
      (λ t. (
        batch_loop (suc (length t.db.entries)) p batch_size 0
            (rewind (new_iterator (forward []) t)),
        t,
      ))
      b

-- The loop until enough keys are deleted; the first number bounds its rounds. The results are the
-- error, the number of deleted keys and the number that was to be deleted.
unfoldable pub delete_rounds :
    ℕ → Bytes → ℕ → ℕ → ℕ → MockDb → Outcome (Option Error × ℕ × ℕ) × MockDb
unfolding keys_this_batch delete_keys
delete_rounds zero p batch_size wanted deleted b = (running, b)
delete_rounds (suc f) p batch_size wanted deleted b = elim (ltb deleted wanted) [
  | false ↦ (ok (none, deleted, wanted), b)
  | true ↦
      let (keys, b1) = keys_this_batch p batch_size b in
      elim keys [
        | ok [] ↦ delete_rounds f p batch_size wanted deleted b1
        | ok (k ∷ ks) ↦
            let (r, b2) = delete_keys (k ∷ ks) b1 in
            elim r [
              | ok (none, n) ↦ delete_rounds f p batch_size wanted (deleted + n) b2
              | ok (some e, n) ↦ (ok (some e, deleted + n, wanted), b2)
              | err e ↦ (err e, b2)
              | panic ↦ (panic, b2)
              | running ↦ (running, b2)
            ]
        | err e ↦ (err e, b1)
        | panic ↦ (panic, b1)
        | running ↦ (running, b1)
      ]
]

unfoldable pub delete_keys_with_prefix :
    ℕ → Bytes → MockDb → ℕ → ℕ → Outcome (Option Error × ℕ × ℕ) × MockDb
unfolding delete_rounds
delete_keys_with_prefix f p b batch_size wanted = delete_rounds f p batch_size wanted 0 b

unfoldable pub get_keys_for_prefix : MockDb → Bytes → Outcome (List Bytes)
unfolding visit_prefix new_iterator rewind view
get_keys_for_prefix b p =
    (view
      (λ t. (visit_prefix (suc (length t.db.entries)) p (rewind (new_iterator (forward p) t)), t))
      b).0

unfoldable pub get_total_key_count : MockDb → Bytes → Outcome ℕ
unfolding visit_prefix new_iterator rewind view
get_total_key_count b p =
    (view
      (λ t. (
        (do
          keys ← visit_prefix (suc (length t.db.entries)) p (rewind (new_iterator (forward p) t))
          ok (length keys)),
        t,
      ))
      b).0
