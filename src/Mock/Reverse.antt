-- ===== src/Mock/Reverse.antt =====
-- A reverse iterator that seeks a key stands at the greatest key strictly below it.
use mathlib.Core.List.{reverse, reverse-cons}
use sloop.Base.{
  ℕ, zero, suc, ◌-◌, ◌≤◌, ◌<◌, true, false, ◌≡◌, ◌∙◌, sym, subst, refl, ◌≢◌, ◌⊎◌, ◌↔◌, inl, inr,
  arith, List, [], ◌∷◌, ◌++◌, length, length-append, if◌then◌else◌, Has, All, Bool-cases,
  Option-cases, get_elem?, none, some, Option,
}
use sloop.Base.Bytes.{Bytes, lt_bytes, le_bytes}
use sloop.Base.Bytes.Order.{lt_bytes_irrefl, le_bytes_trans, le_bytes_refl}
use sloop.Mock.{MockTxn, new_iterator, seek, item_key, sort_strings, search_strings, keys_of}
use sloop.Mock.Sort.{IsSorted, sort_strings-IsSorted, Has-sort_strings}

-- The last of the leading keys below `x`.
pub last_below : Bytes → List Bytes → Option Bytes
last_below x [] = none
last_below x (y ∷ ys) =
    if lt_bytes y x then elim (last_below x ys) [ none ↦ some y | some z ↦ some z ] else none

length-reverse : (ys : List Bytes) → length (reverse ys) ≡ length ys
length-reverse [] = refl
length-reverse (y ∷ ys) =
    rw (reverse-cons y ys) (omega (arith, length-append (reverse ys) (y ∷ []), length-reverse ys))

get_elem?-append :
    (xs : List Bytes) (y : Bytes) (i : ℕ)
    → ((i < length xs) × (get_elem? (xs ++ y ∷ []) i ≡ get_elem? xs i))
      ⊎ ((i ≡ length xs) × (get_elem? (xs ++ y ∷ []) i ≡ some y))
      ⊎ ((length xs < i) × (get_elem? (xs ++ y ∷ []) i ≡ none))
get_elem?-append [] y zero = inr (inl (refl, refl))
get_elem?-append [] y (suc i) = inr (inr (omega arith, refl))
get_elem?-append (x ∷ xs) y zero = inl (omega arith, refl)
get_elem?-append (x ∷ xs) y (suc i) = elim (get_elem?-append xs y i) [
  | inl (h, e) ↦ inl (omega arith, e)
  | inr r ↦ elim r [
    | inl (h, e) ↦ inr (inl (omega arith, e))
    | inr (h, e) ↦ inr (inr (omega arith, e))
  ]
]

search_strings-le : (x : Bytes) (ys : List Bytes) → search_strings ys x ≤ length ys
unfolding search_strings
search_strings-le x [] = omega arith
search_strings-le x (y ∷ ys) = ground (arith, search_strings-le x ys)

module _ (x y : Bytes) (ys : List Bytes) where
  last_below_here : lt_bytes y x ≡ true → last_below x ys ≡ none → last_below x (y ∷ ys) ≡ some y
  unfolding last_below
  last_below_here t e = ground (arith, t, e)

  last_below_there :
      (z : Bytes) → lt_bytes y x ≡ true → last_below x ys ≡ some z → last_below x (y ∷ ys) ≡ some z
  unfolding last_below
  last_below_there z t e = ground (arith, t, e)

  last_below_stop : lt_bytes y x ≡ false → last_below x (y ∷ ys) ≡ none
  unfolding last_below
  last_below_stop t = ground (arith, t)

  search_below : lt_bytes y x ≡ true → search_strings (y ∷ ys) x ≡ suc (search_strings ys x)
  unfolding search_strings
  search_below t = rw t

  search_stop : lt_bytes y x ≡ false → search_strings (y ∷ ys) x ≡ 0
  unfolding search_strings
  search_stop t = rw t

last_below-none : (x : Bytes) (ys : List Bytes) → search_strings ys x ≡ 0 → last_below x ys ≡ none
last_below-none x [] h = unfold last_below in refl
last_below-none x (y ∷ ys) h = elim (Bool-cases (lt_bytes y x)) [
  | inl t ↦ absurd (omega (arith, search_below x y ys t))
  | inr t ↦ last_below_stop x y ys t
]

last_below-some :
    (x : Bytes) (ys : List Bytes)
    → 0 < search_strings ys x
    → (z : Bytes) × (last_below x ys ≡ some z)
last_below-some x [] h = absurd (unfold search_strings in omega arith)
last_below-some x (y ∷ ys) h = elim (Bool-cases (lt_bytes y x)) [
  | inl t ↦ elim (Option-cases (last_below x ys)) [
    | inl e ↦ (y, last_below_here x y ys t e)
    | inr (z, e) ↦ (z, last_below_there x y ys z t e)
  ]
  | inr t ↦ absurd (omega (arith, search_stop x y ys t))
]

-- The position that the reverse search computes holds the last of the leading keys below `x`.
last_below-search :
    (x : Bytes) (ys : List Bytes)
    → get_elem? (reverse ys) (length ys - search_strings ys x) ≡ last_below x ys
last_below-search x [] = unfold last_below in refl
last_below-search x (y ∷ ys) = rw (reverse-cons y ys) (elim (Bool-cases (lt_bytes y x)) [
  | inl t ↦
      let n = search_strings ys x in
      let bound = search_strings-le x ys in
      let l = length-reverse ys in
      let idx : length (y ∷ ys) - search_strings (y ∷ ys) x ≡ length ys - n =
        omega (arith, search_below x y ys t) in
      rw idx (elim (get_elem?-append (reverse ys) y (length ys - n)) [
        | inl (h, e) ↦
            let (z, q) = last_below-some x ys (omega arith) in
            e ∙ last_below-search x ys ∙ q ∙ sym (last_below_there x y ys z t q)
        | inr r ↦ elim r [
          | inl (h, e) ↦ e ∙ sym (last_below_here x y ys t (last_below-none x ys (omega arith)))
          | inr (h, e) ↦ absurd (omega arith)
        ]
      ])
  | inr t ↦
      let l = length-reverse ys in
      let idx : length (y ∷ ys) - search_strings (y ∷ ys) x ≡ suc (length ys) =
        omega (arith, search_stop x y ys t) in
      rw idx (elim (get_elem?-append (reverse ys) y (suc (length ys))) [
        | inl (h, e) ↦ absurd (omega arith)
        | inr r ↦ elim r [
          | inl (h, e) ↦ absurd (omega arith)
          | inr (h, e) ↦ e ∙ sym (last_below_stop x y ys t)
        ]
      ])
])

-- What a key found below `x` means in a sorted list.
abbrev pub IsGreatestBelow : Bytes → List Bytes → Option Bytes → Type 0
IsGreatestBelow x ys none = (a : Bytes) → Has a ys → lt_bytes a x ≡ false
IsGreatestBelow x ys (some k) =
    Has k ys
    × (lt_bytes k x ≡ true)
    × ((a : Bytes) → Has a ys → lt_bytes a x ≡ true → le_bytes a k ≡ true)

All-Has : (P : Bytes → Type 0) (ys : List Bytes) (a : Bytes) → All P ys → Has a ys → P a
All-Has P [] a hs h = elim h [ ]
All-Has P (y ∷ ys) a (h, hs) (inl e) = subst P (sym e) h
All-Has P (y ∷ ys) a (h, hs) (inr m) = All-Has P ys a hs m

above_none :
    (x y : Bytes) (ys : List Bytes) (a : Bytes)
    → lt_bytes y x ≡ false
    → All (λ z. le_bytes y z ≡ true) ys
    → Has a (y ∷ ys)
    → lt_bytes a x ≡ false
above_none x y ys a t al (inl e) = rw e t
above_none x y ys a t al (inr m) =
    let above : le_bytes x y ≡ true = rw t in
    let le = le_bytes_trans x y a above (All-Has (λ z. le_bytes y z ≡ true) ys a al m) in
    ground (arith, le)

last_below-IsGreatestBelow :
    (x : Bytes) (ys : List Bytes) → IsSorted ys → IsGreatestBelow x ys (last_below x ys)
last_below-IsGreatestBelow x [] s = unfold last_below in (λ a h. elim h [ ])
last_below-IsGreatestBelow x (y ∷ ys) (al, s) = elim (Bool-cases (lt_bytes y x)) [
  | inl t ↦
      let ih = last_below-IsGreatestBelow x ys s in
      elim (Option-cases (last_below x ys)) [
        | inl e ↦
            let ih' : IsGreatestBelow x ys none = subst (IsGreatestBelow x ys) e ih in
            rw (last_below_here x y ys t e) (
              inl refl,
              t,
              λ a h l. elim h [ inl q ↦ rw q (le_bytes_refl y) | inr m ↦ absurd (cc (ih' a m, l)) ],
            )
        | inr (z, e) ↦
            let ih' : IsGreatestBelow x ys (some z) = subst (IsGreatestBelow x ys) e ih in
            rw (last_below_there x y ys z t e) (
              inr ih'.0,
              ih'.1,
              λ a h l. elim h [
                | inl q ↦ rw q (All-Has (λ z. le_bytes y z ≡ true) ys z al ih'.0)
                | inr m ↦ ih'.2 a m l
              ],
            )
      ]
  | inr t ↦ rw (last_below_stop x y ys t) (λ a h. above_none x y ys a t al h)
]

Has-append : (a : Bytes) (xs ys : List Bytes) → Has a (xs ++ ys) ↔ (Has a xs ⊎ Has a ys)
Has-append a [] ys = (λ h. inr h, λ h. elim h [ inl q ↦ absurd q | inr m ↦ m ])
Has-append a (x ∷ xs) ys =
    let (f, g) = Has-append a xs ys in
    (
      λ h. elim h [
        | inl q ↦ inl (inl q)
        | inr m ↦ elim (f m) [ inl l ↦ inl (inr l) | inr r ↦ inr r ]
      ],
      λ h. elim h [
        | inl l ↦ elim l [ inl q ↦ inl q | inr m ↦ inr (g (inl m)) ]
        | inr r ↦ inr (g (inr r))
      ],
    )

Has-reverse : (a : Bytes) (xs : List Bytes) → Has a (reverse xs) ↔ Has a xs
Has-reverse a [] = (λ h. h, λ h. h)
Has-reverse a (x ∷ xs) =
    let (f, g) = Has-append a (reverse xs) (x ∷ []) in
    let (f', g') = Has-reverse a xs in
    rw (reverse-cons x xs) (
      λ h. elim (f h) [ inl m ↦ inr (f' m) | inr m ↦ elim m [ inl q ↦ inl q | inr v ↦ absurd v ] ],
      λ h. g (elim h [ inl q ↦ inr (inl q) | inr m ↦ inl (g' m) ]),
    )

IsGreatestBelow-same :
    (x : Bytes) (xs ys : List Bytes) (r : Option Bytes)
    → ((a : Bytes) → Has a xs ↔ Has a ys)
    → IsGreatestBelow x xs r
    → IsGreatestBelow x ys r
IsGreatestBelow-same x xs ys none e h = λ a m. h a ((e a).1 m)
IsGreatestBelow-same x xs ys (some k) e (m, l, g) = ((e k).0 m, l, λ a n. g a ((e a).1 n))

-- A reverse iterator over any database that seeks a text stands at the greatest key of the database
-- that is strictly below the text in byte order, and at no key exactly when there is none below it.
pub reverse_seek_greatest :
    (t : MockTxn) (o x : Bytes)
    → IsGreatestBelow x
        (keys_of t.db.entries)
        (item_key (seek x (new_iterator (record { prefix = o; reversed = true }) t)))
unfolding item_key seek new_iterator
reverse_seek_greatest t o x =
    let sorted = reverse (sort_strings (keys_of t.db.entries)) in
    rw (last_below-search x (sort_strings sorted)) (
      IsGreatestBelow-same x (sort_strings sorted) (keys_of t.db.entries) _
        (λ a.
          let (f, g) = Has-sort_strings a sorted in
          let (f', g') = Has-reverse a (sort_strings (keys_of t.db.entries)) in
          let (f'', g'') = Has-sort_strings a (keys_of t.db.entries) in
          (λ h. f'' (f' (f h)), λ h. g (g' (g'' h))))
        (last_below-IsGreatestBelow x (sort_strings sorted) (sort_strings-IsSorted sorted)))

-- So a reverse seek of a key that is in the database does not stop at it.
pub reverse_seek_skips_present :
    (t : MockTxn) (o x : Bytes)
    → Has x (keys_of t.db.entries)
    → item_key (seek x (new_iterator (record { prefix = o; reversed = true }) t)) ≢ some x
reverse_seek_skips_present t o x h e =
    let g = reverse_seek_greatest t o x in
    let g' : IsGreatestBelow x (keys_of t.db.entries) (some x) =
      subst (IsGreatestBelow x (keys_of t.db.entries)) e g in
    cc (g'.1, lt_bytes_irrefl x)
