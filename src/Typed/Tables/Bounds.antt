-- ===== src/Typed/Tables/Bounds.antt =====
-- The first and the last partition over all tables.
use sloop.Base.{true, ◌≡◌, sym, inl, inr, List, [], ◌∷◌, Option, none, some, Has, All, subst}
use sloop.Base.Bytes.{Bytes, le_bytes}
use sloop.Base.Bytes.Order.{le_bytes_refl, le_bytes_trans}
use sloop.Base.Outcome.{Outcome, ok, ◌>>=◌, >>=-eq-ok}
use sloop.Mock.{MockTxn, sort_strings}
use sloop.Mock.Sort.{IsSorted, sort_strings-IsSorted, Has-sort_strings}
use sloop.Typed.Key.{KeyType}
use sloop.Typed.Table.{get_min_max_partitions}
use sloop.Typed.Tables.{
  all_partitions, get_tables, last_of, min_and_max, get_min_and_max_partition_with_txn,
}

All-Has : (P : Bytes → Type 0) (x : Bytes) (xs : List Bytes) → All P xs → Has x xs → P x
All-Has P x [] h m = absurd m
All-Has P x (y ∷ ys) (h, hs) m = elim m [
  | inl e ↦ subst P (sym e) h
  | inr m' ↦ All-Has P x ys hs m'
]

last_of-max :
    (x : Bytes) (xs : List Bytes)
    → IsSorted (x ∷ xs)
    → All (λ y. le_bytes y (last_of x xs) ≡ true) (x ∷ xs)
unfolding last_of
last_of-max x [] s = (le_bytes_refl x, tt)
last_of-max x (y ∷ ys) ((h, hs), s) =
    let (a, rest) = last_of-max y ys s in (le_bytes_trans x y (last_of y ys) h a, (a, rest))

abbrev Between : Bytes → Bytes → Bytes → Type 0
Between lo hi p = (le_bytes lo p ≡ true) × (le_bytes p hi ≡ true)

min_and_max-Between :
    (ps : List Bytes) (lo hi p : Bytes)
    → IsSorted ps
    → min_and_max ps ≡ some (lo, hi)
    → Has p ps
    → Between lo hi p
unfolding min_and_max
min_and_max-Between [] lo hi p s e m = absurd m
min_and_max-Between (q ∷ qs) lo hi p (h, s) e m =
    let e1 : q ≡ lo = cc in
    let e2 : last_of q qs ≡ hi = cc in
    (
      subst (λ x. le_bytes x p ≡ true) e1
          (All-Has (λ y. le_bytes q y ≡ true) p (q ∷ qs) (le_bytes_refl q, h) m),
      subst (λ x. le_bytes p x ≡ true) e2
          (All-Has (λ y. le_bytes y (last_of q qs) ≡ true) p (q ∷ qs) (last_of-max q qs (h, s)) m),
    )

abbrev Listed : MockTxn → List Bytes → KeyType → Type 0
Listed t ps K = (a b : Bytes) → get_min_max_partitions K t ≡ ok (some (a, b)) → Has a ps × Has b ps

Listed-more :
    (t : MockTxn) (a b : Bytes) (ps : List Bytes) (tables : List KeyType)
    → All (Listed t ps) tables
    → All (Listed t (a ∷ b ∷ ps)) tables
Listed-more t a b ps [] h = tt
Listed-more t a b ps (K ∷ Ks) (h, hs) =
    (λ x y e. (inr (inr ((h x y e).0)), inr (inr ((h x y e).1))), Listed-more t a b ps Ks hs)

-- Adding the bounds of a table keeps what is listed, and lists them.
listed_step :
    (t : MockTxn) (K : KeyType) (Ks : List KeyType) (bounds : Option (Bytes × Bytes))
    (rest ps : List Bytes)
    → get_min_max_partitions K t ≡ ok bounds
    → (elim bounds as (λ x. Outcome (List Bytes)) [
      | none ↦ ok rest
      | some (min_par, max_par) ↦ ok (min_par ∷ max_par ∷ rest)
    ])
      ≡ ok ps
    → All (Listed t rest) Ks
    → All (Listed t ps) (K ∷ Ks)
listed_step t K Ks none rest ps e q h =
    let e2 : rest ≡ ps = cc in
    (λ a b e3. absurd (cc (e, e3)), subst (λ l. All (Listed t l) Ks) e2 h)
listed_step t K Ks (some (lo, hi)) rest ps e q h =
    let e2 : lo ∷ hi ∷ rest ≡ ps = cc in
    subst (λ l. All (Listed t l) (K ∷ Ks)) e2
      (λ a b e3. (inl (cc (e, e3)), inr (inl (cc (e, e3)))), Listed-more t lo hi rest Ks h)

all_partitions-Listed :
    (tables : List KeyType) (t : MockTxn) (ps : List Bytes)
    → all_partitions tables t ≡ ok ps
    → All (Listed t ps) tables
unfolding all_partitions
all_partitions-Listed [] t ps h = tt
all_partitions-Listed (K ∷ Ks) t ps h =
    let (bounds, e, q) =
      >>=-eq-ok (get_min_max_partitions K t)
        (λ bounds. do
          rest ← all_partitions Ks t
          elim bounds [ none ↦ ok rest | some (min_par, max_par) ↦ ok (min_par ∷ max_par ∷ rest) ])
        h in
    let (rest, e2, q2) =
      >>=-eq-ok (all_partitions Ks t)
        (λ rest. elim bounds [
          | none ↦ ok rest
          | some (min_par, max_par) ↦ ok (min_par ∷ max_par ∷ rest)
        ])
        q in
    listed_step t K Ks bounds rest ps e q2 (all_partitions-Listed Ks t rest e2)

covered :
    (t : MockTxn) (lo hi : Bytes) (ps : List Bytes)
    → ((p : Bytes) → Has p ps → Between lo hi p)
    → (tables : List KeyType) → All (Listed t ps) tables
    → All
        (λ K.
          (a b : Bytes)
          → get_min_max_partitions K t ≡ ok (some (a, b))
          → (le_bytes lo a ≡ true) × (le_bytes b hi ≡ true))
        tables
covered t lo hi ps bound [] h = tt
covered t lo hi ps bound (K ∷ Ks) (h, hs) = (
  λ a b e. ((bound a ((h a b e).0)).0, (bound b ((h a b e).1)).1),
  covered t lo hi ps bound Ks hs,
)

-- When the first and the last partition over all tables are found, then for each of the four tables
-- that has a first and a last partition of its own, both lie between them in byte order.
pub min_and_max_cover :
    (t : MockTxn) (lo hi : Bytes)
    → get_min_and_max_partition_with_txn t ≡ ok (some (lo, hi))
    → All
        (λ K.
          (a b : Bytes)
          → get_min_max_partitions K t ≡ ok (some (a, b))
          → (le_bytes lo a ≡ true) × (le_bytes b hi ≡ true))
        get_tables
unfolding get_min_and_max_partition_with_txn
min_and_max_cover t lo hi h =
    let (ps, e, q) =
      >>=-eq-ok (all_partitions get_tables t) (λ ps. ok (min_and_max (sort_strings ps))) h in
    let q2 : min_and_max (sort_strings ps) ≡ some (lo, hi) = cc in
    let bound : (p : Bytes) → Has p ps → Between lo hi p = λ p m.
      min_and_max-Between (sort_strings ps) lo hi p (sort_strings-IsSorted ps) q2
        ((Has-sort_strings p ps).1 m) in
    covered t lo hi ps bound get_tables (all_partitions-Listed get_tables t ps e)
