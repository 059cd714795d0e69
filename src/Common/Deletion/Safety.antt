-- ===== src/Common/Deletion/Safety.antt =====
-- What the deletion of the keys with a prefix leaves alone, and when it never ends.
use sloop.Base.{
  ℕ, zero, suc, ◌+◌, ◌<◌, true, false, ◌||◌, ◌≡◌, ◌∙◌, refl, ap, inl, inr, arith, List, [], ◌∷◌,
  ◌++◌, Option, none, some, length, subst, ltb, ◌==◌, All, Bool-cases, Option-cases,
}
use sloop.Base.Bytes.{Bytes, eqb, eqb_iff, has_prefix}
use sloop.Base.Outcome.{Error, Outcome, ok, err, panic, running, ◌>>=◌, >>=-eq-ok}
use sloop.Mock.{
  Data, MockDb, MockTxn, MockIterator, lookup, delete, keys_of, sort_strings, update, view,
  delete_key, new_iterator, rewind, next, valid_for_prefix, item_key,
}
use sloop.Mock.MapLaws.{lookup-delete}
use sloop.Common.Deletion.{
  forward, move_prefix, delete_loop, delete_keys, in_batch, batch_loop, keys_this_batch,
  delete_rounds, delete_keys_with_prefix,
}

-- What lets the loop over the iterator go on at a key.
abbrev pub Selected : Bytes → Bytes → Type 0
Selected p k = (has_prefix k p || has_prefix k (move_prefix ++ p)) ≡ true

in_batch-Selected :
    (p : Bytes) (i : MockIterator) (k : Bytes)
    → in_batch p i ≡ true
    → item_key i ≡ some k
    → Selected p k
unfolding in_batch valid_for_prefix item_key
in_batch-Selected p i k h e = ground (arith, h, e)

batch_go :
    (p : Bytes) (m : Outcome (List Bytes)) (k : Bytes) (keys : List Bytes)
    → Selected p k
    → ((rest : List Bytes) → m ≡ ok rest → All (Selected p) rest)
    → (do rest ← m; ok (k ∷ rest)) ≡ ok keys
    → All (Selected p) keys
batch_go p m k keys s ih h =
    let (rest, e, q) = >>=-eq-ok m (λ rest. ok (k ∷ rest)) h in
    let e2 : k ∷ rest ≡ keys = cc in subst (λ ks. All (Selected p) ks) e2 (s, ih rest e)

batch_loop-Selected :
    (f : ℕ) (p : Bytes) (size n : ℕ) (i : MockIterator) (keys : List Bytes)
    → batch_loop f p size n i ≡ ok keys
    → All (Selected p) keys
unfolding batch_loop
batch_loop-Selected zero p size n i keys h = cc
batch_loop-Selected (suc f) p size n i keys h = elim (Bool-cases (in_batch p i)) [
  | inr e1 ↦
      (let e : ok [] ≡ ok keys = rw (e1, batch_loop) at h in
        let e2 : [] ≡ keys = cc in subst (λ ks. All (Selected p) ks) e2 tt)
  | inl e1 ↦ elim (Option-cases (item_key i)) [
    | inl gone ↦ absurd (cc (rw (e1, batch_loop, gone) at h))
    | inr (k, at) ↦
        let s = in_batch-Selected p i k e1 at in
        elim (Bool-cases (n + 1 == size)) [
          | inl full ↦
              (let e : ok (k ∷ []) ≡ ok keys = rw (e1, batch_loop, at, full) at h in
                let e2 : k ∷ [] ≡ keys = cc in subst (λ ks. All (Selected p) ks) e2 (s, tt))
          | inr more ↦
              batch_go p (batch_loop f p size (n + 1) (next i)) k keys s
                (batch_loop-Selected f p size (n + 1) (next i)) (rw (e1, batch_loop, at, more) at h)
        ]
  ]
]

module _ (k : Bytes) where
  delete_loop_frame :
      (keys : List Bytes) (n : ℕ) (t : MockTxn)
      → All (λ j. eqb j k ≡ false) keys
      → lookup k (delete_loop keys n t).1.db.entries ≡ lookup k t.db.entries
  unfolding delete_loop delete_key
  delete_loop_frame [] n t h = refl
  delete_loop_frame (j ∷ keys) n t (h, hs) = elim (Bool-cases t.read_only) [
    | inl e ↦ rw e
    | inr e ↦ rw e (
        delete_loop_frame keys (n + 1)
          (record { read_only = false; db = record { entries = delete j t.db.entries } }) hs
        ∙ lookup-delete j k t.db.entries
        ∙ rw h)
  ]

-- The case where neither prefix stands before the key.
abbrev pub Unselected : Bytes → Bytes → Type 0
Unselected p k = (has_prefix k p || has_prefix k (move_prefix ++ p)) ≡ false

other_key :
    (p k : Bytes) (keys : List Bytes)
    → Unselected p k
    → All (Selected p) keys
    → All (λ j. eqb j k ≡ false) keys
other_key p k [] out h = tt
other_key p k (j ∷ keys) out (h, hs) = (
  elim (Bool-cases (eqb j k)) [
    | inl e ↦
        let q = (eqb_iff j k).0 e in
        absurd (cc (h, out, ap (λ x. has_prefix x p || has_prefix x (move_prefix ++ p)) q))
    | inr e ↦ e
  ],
  other_key p k keys out hs,
)

keys_this_batch-Selected :
    (p : Bytes) (size : ℕ) (b : MockDb) (keys : List Bytes)
    → (keys_this_batch p size b).0 ≡ ok keys
    → All (Selected p) keys
unfolding keys_this_batch view
keys_this_batch-Selected p size b keys h =
    batch_loop-Selected (suc (length b.entries)) p size 0
      (rewind (new_iterator (forward []) (record { read_only = true; db = b }))) keys h

keys_this_batch-db : (p : Bytes) (size : ℕ) (b : MockDb) → (keys_this_batch p size b).1 ≡ b
unfolding keys_this_batch view
keys_this_batch-db p size b = refl

abbrev Result : Type 0
Result = Outcome (Option Error × ℕ × ℕ) × MockDb

-- Whatever the deletion of a batch returns, a property of the database that it leaves is one of the
-- database in the end, if the rounds that follow keep it.
after_delete :
    (P : MockDb → Type 0) (m : Outcome (Option Error × ℕ)) (b : MockDb) (wanted deleted : ℕ)
    (go : ℕ → Result)
    → P b
    → ((n : ℕ) → P (go n).1)
    → P (
        (elim m as (λ x. Result) [
          | ok (none, n) ↦ go n
          | ok (some e, n) ↦ (ok (some e, deleted + n, wanted), b)
          | err e ↦ (err e, b)
          | panic ↦ (panic, b)
          | running ↦ (running, b)
        ]).1)
after_delete P (ok (none, n)) b wanted deleted go h hs = hs n
after_delete P (ok (some e, n)) b wanted deleted go h hs = h
after_delete P (err e) b wanted deleted go h hs = h
after_delete P panic b wanted deleted go h hs = h
after_delete P running b wanted deleted go h hs = h

after_batch :
    (P : MockDb → Type 0) (m : Outcome (List Bytes)) (b : MockDb) (go : Result)
    (with_keys : Bytes → List Bytes → Result)
    → P b
    → P go.1
    → ((k : Bytes) (ks : List Bytes) → m ≡ ok (k ∷ ks) → P (with_keys k ks).1)
    → P (
        (elim m as (λ x. Result) [
          | ok [] ↦ go
          | ok (k ∷ ks) ↦ with_keys k ks
          | err e ↦ (err e, b)
          | panic ↦ (panic, b)
          | running ↦ (running, b)
        ]).1)
after_batch P (ok []) b go with_keys h hg hs = hg
after_batch P (ok (k ∷ ks)) b go with_keys h hg hs = hs k ks refl
after_batch P (err e) b go with_keys h hg hs = h
after_batch P panic b go with_keys h hg hs = h
after_batch P running b go with_keys h hg hs = h

module _ (p k : Bytes) (out : Unselected p k) where
  delete_keys_frame :
      (keys : List Bytes) (b : MockDb)
      → All (Selected p) keys
      → lookup k (delete_keys keys b).1.entries ≡ lookup k b.entries
  unfolding delete_keys update
  delete_keys_frame keys b h =
      delete_loop_frame k keys 0 (record { read_only = false; db = b }) (other_key p k keys out h)

  abbrev Same : Data → MockDb → Type 0
  Same m b = lookup k b.entries ≡ lookup k m

  delete_rounds_frame :
      (f size wanted deleted : ℕ) (b : MockDb)
      → Same b.entries (delete_rounds f p size wanted deleted b).1
  unfolding delete_rounds
  delete_rounds_frame zero size wanted deleted b = refl
  delete_rounds_frame (suc f) size wanted deleted b = elim (Bool-cases (ltb deleted wanted)) [
    | inr e ↦ rw (e, delete_rounds)
    | inl e ↦
        let after : List Bytes → MockDb = λ ks. (delete_keys ks b).1 in
        let go : List Bytes → ℕ → Result =
          λ ks n. delete_rounds f p size wanted (deleted + n) (after ks) in
        rw (e, delete_rounds, keys_this_batch-db p size b)
          (after_batch (Same b.entries) (keys_this_batch p size b).0 b
            (delete_rounds f p size wanted deleted b)
            (λ j ks. elim (delete_keys (j ∷ ks) b).0 as (λ x. Result) [
              | ok (none, n) ↦ go (j ∷ ks) n
              | ok (some e, n) ↦ (ok (some e, deleted + n, wanted), after (j ∷ ks))
              | err e ↦ (err e, after (j ∷ ks))
              | panic ↦ (panic, after (j ∷ ks))
              | running ↦ (running, after (j ∷ ks))
            ])
            refl (delete_rounds_frame f size wanted deleted b)
            (λ j ks q.
              let same =
                delete_keys_frame (j ∷ ks) b (keys_this_batch-Selected p size b (j ∷ ks) q) in
              after_delete (Same b.entries) (delete_keys (j ∷ ks) b).0 (after (j ∷ ks)) wanted
                deleted (go (j ∷ ks)) same
                (λ n. delete_rounds_frame f size wanted (deleted + n) (after (j ∷ ks)) ∙ same)))
  ]

  -- However many rounds it runs and whatever it returns, the deletion of the keys with a prefix leaves
  -- the value of every key that has neither that prefix nor the prefix after "!badger!move".
  pub deletion_frame :
      (f size wanted : ℕ) (b : MockDb)
      → lookup k (delete_keys_with_prefix f p b size wanted).1.entries ≡ lookup k b.entries
  unfolding delete_keys_with_prefix
  deletion_frame f size wanted b = delete_rounds_frame f size wanted 0 b

batch_stuck :
    (f : ℕ) (p : Bytes) (size n : ℕ) (i : MockIterator)
    → in_batch p i ≡ false
    → batch_loop (suc f) p size n i ≡ ok []
unfolding batch_loop
batch_stuck f p size n i h = rw (h, batch_loop)

first-Unselected :
    (p k : Bytes) (ks : List Bytes) (b : MockDb)
    → Unselected p k
    → sort_strings (keys_of b.entries) ≡ k ∷ ks
    → in_batch p (rewind (new_iterator (forward []) (record { read_only = true; db = b }))) ≡ false
unfolding in_batch valid_for_prefix rewind new_iterator
first-Unselected p k ks b h e = ground (arith, h, e)

no_keys_this_batch :
    (p : Bytes) (size : ℕ) (b : MockDb) (k : Bytes) (ks : List Bytes)
    → Unselected p k
    → sort_strings (keys_of b.entries) ≡ k ∷ ks
    → keys_this_batch p size b ≡ (ok [], b)
unfolding keys_this_batch view
no_keys_this_batch p size b k ks h e =
    ap (λ m. (m, b))
      (batch_stuck (length b.entries) p size 0
        (rewind (new_iterator (forward []) (record { read_only = true; db = b })))
        (first-Unselected p k ks b h e))

stuck_round :
    (f : ℕ) (p : Bytes) (size wanted deleted : ℕ) (b : MockDb)
    → deleted < wanted
    → keys_this_batch p size b ≡ (ok [], b)
    → delete_rounds (suc f) p size wanted deleted b ≡ delete_rounds f p size wanted deleted b
unfolding delete_rounds
stuck_round f p size wanted deleted b h e =
    let t : ltb deleted wanted ≡ true = ground (arith, h) in
    rw (t, delete_rounds, ap (λ r. r.0) e, keys_this_batch-db p size b)

stuck_rounds :
    (f : ℕ) (p : Bytes) (size wanted deleted : ℕ) (b : MockDb)
    → deleted < wanted
    → keys_this_batch p size b ≡ (ok [], b)
    → delete_rounds f p size wanted deleted b ≡ (running, b)
stuck_rounds zero p size wanted deleted b h e = unfold delete_rounds in refl
stuck_rounds (suc f) p size wanted deleted b h e =
    stuck_round f p size wanted deleted b h e ∙ stuck_rounds f p size wanted deleted b h e

-- If any key is to be deleted, and the first key of the whole database in byte order has neither the
-- prefix nor the prefix after "!badger!move", then no number of rounds ends the deletion, and it
-- changes nothing.
pub deletion_never_ends :
    (f : ℕ) (p : Bytes) (size wanted : ℕ) (b : MockDb) (k : Bytes) (ks : List Bytes)
    → 0 < wanted
    → sort_strings (keys_of b.entries) ≡ k ∷ ks
    → Unselected p k
    → delete_keys_with_prefix f p b size wanted ≡ (running, b)
unfolding delete_keys_with_prefix
deletion_never_ends f p size wanted b k ks w e h =
    stuck_rounds f p size wanted 0 b w (no_keys_this_batch p size b k ks h e)
