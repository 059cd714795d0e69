-- ===== src/Mock/Scan.antt =====
-- A forward iterator that seeks a prefix and runs while the prefix lasts visits exactly the keys
-- with that prefix, in order.
use sloop.Base.{
  ℕ, zero, suc, ◌+◌, ◌≤◌, ◌<◌, true, false, not, ◌≡◌, ◌∙◌, sym, refl, inl, inr, arith, ap, List, [],
  ◌∷◌, length, if◌then◌else◌, All, Bool-cases, drop, get_elem?, keep, keep_yes, keep_no,
  length-drop-le, none, some,
}
use sloop.Base.Bytes.{Bytes, lt_bytes, le_bytes, has_prefix}
use sloop.Base.Bytes.Order.{le_bytes_trans, le_bytes-has_prefix, has_prefix_range}
use sloop.Base.Outcome.{ok, ◌>>=◌}
use sloop.Mock.{
  MockTxn, MockIterator, new_iterator, seek, next, visit_prefix, valid, sort_strings,
  search_strings, keys_of,
}
use sloop.Mock.Sort.{IsSorted, sort_strings-IsSorted, length-sort_strings}

-- The leading keys that have the prefix.
pub while_prefix : Bytes → List Bytes → List Bytes
while_prefix p [] = []
while_prefix p (k ∷ ks) = if has_prefix k p then k ∷ while_prefix p ks else []

pub get_elem?-drop :
    {A : Type 0} (i : ℕ) (xs : List A) (x : A) (rest : List A)
    → drop i xs ≡ x ∷ rest
    → (get_elem? xs i ≡ some x) × (drop (suc i) xs ≡ rest)
get_elem?-drop zero [] x rest h = absurd (cc)
get_elem?-drop zero (y ∷ ys) x rest h = (cc, cc)
get_elem?-drop (suc i) [] x rest h = absurd (cc)
get_elem?-drop (suc i) (y ∷ ys) x rest h = get_elem?-drop i ys x rest h

pub get_elem?-drop_nil : {A : Type 0} (i : ℕ) (xs : List A) → drop i xs ≡ [] → get_elem? xs i ≡ none
get_elem?-drop_nil zero [] h = refl
get_elem?-drop_nil zero (y ∷ ys) h = absurd (cc)
get_elem?-drop_nil (suc i) [] h = refl
get_elem?-drop_nil (suc i) (y ∷ ys) h = get_elem?-drop_nil i ys h

get_elem?-lt : {A : Type 0} (i : ℕ) (xs : List A) (x : A) → get_elem? xs i ≡ some x → i < length xs
get_elem?-lt i [] x h = absurd (cc)
get_elem?-lt zero (y ∷ ys) x h = omega arith
get_elem?-lt (suc i) (y ∷ ys) x h = omega (arith, get_elem?-lt i ys x h)

get_elem?-ge : {A : Type 0} (i : ℕ) (xs : List A) → get_elem? xs i ≡ none → length xs ≤ i
get_elem?-ge i [] h = omega arith
get_elem?-ge zero (y ∷ ys) h = absurd (cc)
get_elem?-ge (suc i) (y ∷ ys) h = omega (arith, get_elem?-ge i ys h)

pub valid-some :
    (i : MockIterator) (k : Bytes) → get_elem? i.keys i.current_idx ≡ some k → valid i ≡ true
unfolding valid
valid-some i k h = ground (arith, get_elem?-lt i.current_idx i.keys k h)

pub valid-none : (i : MockIterator) → get_elem? i.keys i.current_idx ≡ none → valid i ≡ false
unfolding valid
valid-none i h = ground (arith, get_elem?-ge i.current_idx i.keys h)

module _ (f : ℕ) (p : Bytes) (i : MockIterator) where
  visit_step :
      (k : Bytes)
      → get_elem? i.keys i.current_idx ≡ some k
      → has_prefix k p ≡ true
      → visit_prefix (suc f) p i ≡ (do rest ← visit_prefix f p (next i); ok (k ∷ rest))
  unfolding visit_prefix
  visit_step k e h = ground (arith, e, h)

  visit_end : get_elem? i.keys i.current_idx ≡ none → visit_prefix (suc f) p i ≡ ok []
  unfolding visit_prefix
  visit_end e = ground (arith, e)

  visit_stop :
      (k : Bytes)
      → get_elem? i.keys i.current_idx ≡ some k
      → has_prefix k p ≡ false
      → visit_prefix (suc f) p i ≡ ok []
  unfolding visit_prefix
  visit_stop k e h = ground (arith, e, h)

pub drop-next :
    (i : MockIterator) (ks : List Bytes)
    → drop (suc i.current_idx) i.keys ≡ ks
    → drop (next i).current_idx (next i).keys ≡ ks
unfolding next
drop-next i ks e = let q : i.current_idx + 1 ≡ suc i.current_idx = omega arith in rw q e

-- The loop reads the list of keys from the current position on.
pub visit_prefix_lem :
    (f : ℕ) (p : Bytes) (i : MockIterator) (ks : List Bytes)
    → drop i.current_idx i.keys ≡ ks
    → length ks < f
    → visit_prefix f p i ≡ ok (while_prefix p ks)
visit_prefix_lem zero p i ks e h = absurd (omega arith)
visit_prefix_lem (suc f) p i [] e h =
    visit_end f p i (get_elem?-drop_nil i.current_idx i.keys e) ∙ (unfold while_prefix in refl)
visit_prefix_lem (suc f) p i (k ∷ ks) e h =
    let (at, behind) = get_elem?-drop i.current_idx i.keys k ks e in
    elim (Bool-cases (has_prefix k p)) [
      | inl t ↦
          visit_step f p i k at t
          ∙ (rw (visit_prefix_lem f p (next i) ks (drop-next i ks behind) (omega arith))
              (unfold while_prefix in rw t))
      | inr t ↦ visit_stop f p i k at t ∙ (unfold while_prefix in rw t)
    ]

abbrev pub with_prefix : Bytes → List Bytes → List Bytes
with_prefix p = keep (λ k. has_prefix k p)

keep_none :
    (p k : Bytes) (ks : List Bytes)
    → le_bytes p k ≡ true
    → has_prefix k p ≡ false
    → All (λ y. le_bytes k y ≡ true) ks
    → with_prefix p ks ≡ []
keep_none p k [] a b c = unfold keep in refl
keep_none p k (y ∷ ys) a b (c, cs) =
    keep_no _ y ys (has_prefix_range p k y a b c) ∙ keep_none p k ys a b cs

while_yes :
    (p k : Bytes) (ks : List Bytes)
    → has_prefix k p ≡ true
    → while_prefix p (k ∷ ks) ≡ k ∷ while_prefix p ks
unfolding while_prefix
while_yes p k ks h = rw h

while_no : (p k : Bytes) (ks : List Bytes) → has_prefix k p ≡ false → while_prefix p (k ∷ ks) ≡ []
unfolding while_prefix
while_no p k ks h = rw h

prefix_not_below : (k p : Bytes) → lt_bytes k p ≡ true → has_prefix k p ≡ false
prefix_not_below k p t = elim (Bool-cases (has_prefix k p)) [
  | inl h ↦ absurd (cc (le_bytes-has_prefix k p h, ap not t))
  | inr h ↦ h
]

search_strings-zero :
    (p k : Bytes) (ks : List Bytes)
    → le_bytes p k ≡ true
    → All (λ y. le_bytes k y ≡ true) ks
    → search_strings ks p ≡ 0
unfolding search_strings
search_strings-zero p k [] a c = refl
search_strings-zero p k (y ∷ ys) a (c, cs) = ground (arith, le_bytes_trans p k y a c)

-- From the first key that is not below the prefix, those with the prefix come at once.
while_prefix-sorted :
    (p : Bytes) (ks : List Bytes)
    → IsSorted ks
    → while_prefix p (drop (search_strings ks p) ks) ≡ with_prefix p ks
while_prefix-sorted p [] s = unfold search_strings while_prefix keep in refl
while_prefix-sorted p (k ∷ ks) (a, s) = elim (Bool-cases (lt_bytes k p)) [
  | inl t ↦
      let skip : search_strings (k ∷ ks) p ≡ suc (search_strings ks p) =
        unfold search_strings in rw t in
      rw skip (while_prefix-sorted p ks s ∙ sym (keep_no _ k ks (prefix_not_below k p t)))
  | inr t ↦
      let le : le_bytes p k ≡ true = rw t in
      let here : search_strings (k ∷ ks) p ≡ 0 = unfold search_strings in rw t in
      let ih : while_prefix p ks ≡ with_prefix p ks =
        rw (search_strings-zero p k ks le a) at (while_prefix-sorted p ks s) in
      rw here (elim (Bool-cases (has_prefix k p)) [
        | inl h ↦
            rw (keep_yes (λ y. has_prefix y p) k ks h) (while_yes p k ks h ∙ ap (λ t. k ∷ t) ih)
        | inr h ↦
            rw (keep_no (λ y. has_prefix y p) k ks h, keep_none p k ks le h a) (while_no p k ks h)
      ])
]

-- A forward iterator over any database that seeks a prefix and runs as long as the keys have it ends
-- within one round more than there are keys, and visits exactly the keys of the database that have
-- the prefix, in byte order.
pub seek_visits_prefix :
    (t : MockTxn) (o p : Bytes) (f : ℕ)
    → length (keys_of t.db.entries) < f
    → visit_prefix f p (seek p (new_iterator (record { prefix = o; reversed = false }) t))
      ≡ ok (with_prefix p (sort_strings (keys_of t.db.entries)))
unfolding seek new_iterator
seek_visits_prefix t o p f h =
    let ks = sort_strings (keys_of t.db.entries) in
    let n = search_strings ks p in
    visit_prefix_lem f p (seek p (new_iterator (record { prefix = o; reversed = false }) t))
      (drop n ks) refl
      (omega (arith, length-drop-le n ks, length-sort_strings (keys_of t.db.entries)))
    ∙ ap ok (while_prefix-sorted p ks (sort_strings-IsSorted (keys_of t.db.entries)))
