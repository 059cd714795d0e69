-- ===== src/Mock/Sort.antt =====
-- `sort_strings` returns the same strings in the byte order.
use sloop.Base.{
  suc, true, ◌≡◌, refl, ◌⊎◌, ◌↔◌, inl, inr, arith, List, [], ◌∷◌, length, Has, All, Bool-cases,
}
use sloop.Base.Bytes.{Bytes, le_bytes}
use sloop.Base.Bytes.Order.{le_bytes_trans, lt_bytes_asymm}
use sloop.Mock.{insert_sorted, sort_strings}

abbrev pub IsSorted : List Bytes → Type 0
IsSorted [] = Unit
IsSorted (x ∷ xs) = All (λ y. le_bytes x y ≡ true) xs × IsSorted xs

All-insert_sorted :
    (x y : Bytes) (ys : List Bytes)
    → le_bytes x y ≡ true
    → All (λ z. le_bytes x z ≡ true) ys
    → All (λ z. le_bytes x z ≡ true) (insert_sorted y ys)
unfolding insert_sorted
All-insert_sorted x y [] h k = (h, tt)
All-insert_sorted x y (z ∷ zs) h (k, ks) = elim (Bool-cases (le_bytes y z)) [
  | inl e ↦ rw e (h, (k, ks))
  | inr e ↦ rw e (k, All-insert_sorted x y zs h ks)
]

All-above :
    (x y : Bytes) (zs : List Bytes)
    → le_bytes x y ≡ true
    → All (λ z. le_bytes y z ≡ true) zs
    → All (λ z. le_bytes x z ≡ true) zs
All-above x y [] h k = tt
All-above x y (z ∷ zs) h (k, ks) = (le_bytes_trans x y z h k, All-above x y zs h ks)

insert_sorted-IsSorted : (x : Bytes) (ys : List Bytes) → IsSorted ys → IsSorted (insert_sorted x ys)
unfolding insert_sorted
insert_sorted-IsSorted x [] s = (tt, tt)
insert_sorted-IsSorted x (y ∷ ys) (a, s) = elim (Bool-cases (le_bytes x y)) [
  | inl e ↦ rw e ((e, All-above x y ys e a), (a, s))
  | inr e ↦
      let le : le_bytes y x ≡ true = ground (arith, lt_bytes_asymm y x) in
      rw e (All-insert_sorted y x ys le a, insert_sorted-IsSorted x ys s)
]

pub sort_strings-IsSorted : (xs : List Bytes) → IsSorted (sort_strings xs)
unfolding sort_strings
sort_strings-IsSorted [] = tt
sort_strings-IsSorted (x ∷ xs) =
    insert_sorted-IsSorted x (sort_strings xs) (sort_strings-IsSorted xs)

Has-insert_sorted :
    (a x : Bytes) (ys : List Bytes) → Has a (insert_sorted x ys) ↔ ((a ≡ x) ⊎ Has a ys)
unfolding insert_sorted
Has-insert_sorted a x [] = (λ h. h, λ h. h)
Has-insert_sorted a x (y ∷ ys) = elim (Bool-cases (le_bytes x y)) [
  | inl e ↦ rw e (λ h. h, λ h. h)
  | inr e ↦
      let (f, g) = Has-insert_sorted a x ys in
      rw e (
        λ h. elim h [
          | inl q ↦ inr (inl q)
          | inr m ↦ elim (f m) [ inl q ↦ inl q | inr k ↦ inr (inr k) ]
        ],
        λ h. elim h [
          | inl q ↦ inr (g (inl q))
          | inr m ↦ elim m [ inl q ↦ inl q | inr k ↦ inr (g (inr k)) ]
        ],
      )
]

pub Has-sort_strings : (a : Bytes) (xs : List Bytes) → Has a (sort_strings xs) ↔ Has a xs
unfolding sort_strings
Has-sort_strings a [] = (λ h. h, λ h. h)
Has-sort_strings a (x ∷ xs) =
    let (f, g) = Has-insert_sorted a x (sort_strings xs) in
    let (f', g') = Has-sort_strings a xs in
    (
      λ h. elim (f h) [ inl q ↦ inl q | inr m ↦ inr (f' m) ],
      λ h. g (elim h [ inl q ↦ inl q | inr m ↦ inr (g' m) ]),
    )

length-insert_sorted : (x : Bytes) (ys : List Bytes) → length (insert_sorted x ys) ≡ suc (length ys)
unfolding insert_sorted
length-insert_sorted x [] = refl
length-insert_sorted x (y ∷ ys) = ground (arith, length-insert_sorted x ys)

pub length-sort_strings : (xs : List Bytes) → length (sort_strings xs) ≡ length xs
unfolding sort_strings
length-sort_strings [] = refl
length-sort_strings (x ∷ xs) =
    omega (arith, length-insert_sorted x (sort_strings xs), length-sort_strings xs)
