-- ===== src/StoreManager/Selection.antt =====
-- Which partitions the garbage collection chooses.
use sloop.Base.{
  ℕ, ◌+◌, ◌≤◌, ◌<◌, true, false, ◌≡◌, ◌∙◌, refl, ap, ◌⊎◌, inl, inr, arith, List, [], ◌∷◌, ◌++◌,
  none, some, ltb, Has, All, Bool-cases, Option-cases,
}
use sloop.Base.Int.{◌≤ℤ◌, ltb_ℤ, +ℤ_parts, -ℤ_parts, ◌+ℤ◌}
use sloop.Base.Bytes.{Bytes}
use sloop.Base.Bytes.Decimal.{parse_int}
use sloop.Base.Outcome.{Error, ok, err, panic, ◌>>=◌, bad_number}
use sloop.GoTime.{Time, Duration, hour, day, sub, add, from_unix}
use sloop.Partition.{get_time_for_partition, get_time_range_for_partition, IsPeriod}
use sloop.Common.Partitions.{PartitionInfo, InfoMap, info_of}
use sloop.StoreManager.{clean_up_time_condition, size_loop, time_loop}

unfoldable pub keys_of_partition : InfoMap → Bytes → ℕ
keys_of_partition m p = elim (info_of p m) [ none ↦ 0 | some info ↦ info.total_key_count ]

unfoldable pub keys_in : InfoMap → List Bytes → ℕ
keys_in m [] = 0
keys_in m (p ∷ ps) = keys_of_partition m p + keys_in m ps

abbrev pub Known : InfoMap → Bytes → Type 0
Known m p = (info : PartitionInfo) × (info_of p m ≡ some info)

size_loop_stop :
    (num : ℕ) (m : InfoMap) (c : ℕ) (ps : List Bytes) → num ≤ c → size_loop num m c ps ≡ ok []
unfolding size_loop
size_loop_stop num m c [] h = ground (arith, h)
size_loop_stop num m c (p ∷ ps) h = ground (arith, h)

size_loop_go :
    (num : ℕ) (m : InfoMap) (c : ℕ) (p : Bytes) (ps : List Bytes)
    → c < num
    → Known m p
    → size_loop num m c (p ∷ ps)
      ≡ (do rest ← size_loop num m (c + keys_of_partition m p) ps; ok (p ∷ rest))
unfolding size_loop keys_of_partition
size_loop_go num m c p ps h (info, e) =
    let t : ltb c num ≡ true = ground (arith, h) in rw (t, size_loop, e, keys_of_partition)

-- The chosen partitions lead the list and have enough keys, and without the last of them not.
pub record Chosen (num : ℕ) (m : InfoMap) (c : ℕ) (ps taken : List Bytes) : Type 0 where
  pub rest : List Bytes
  pub leads : ps ≡ taken ++ rest
  pub enough : num ≤ c + keys_in m taken
  pub least : (front : List Bytes) (p : Bytes) → taken ≡ front ++ p ∷ [] → c + keys_in m front < num

no_last : (front : List Bytes) (p : Bytes) → [] ≡ front ++ p ∷ [] → ⊥
no_last [] p e = cc
no_last (q ∷ front) p e = cc

least_cons :
    (num : ℕ) (m : InfoMap) (c : ℕ) (p : Bytes) (taken : List Bytes)
    → c < num
    → ((front : List Bytes) (q : Bytes)
        → taken ≡ front ++ q ∷ []
        → c + keys_of_partition m p + keys_in m front < num)
    → (front : List Bytes) (q : Bytes) → p ∷ taken ≡ front ++ q ∷ []
    → c + keys_in m front < num
unfolding keys_in
least_cons num m c p taken h least [] q e = omega (arith, h)
least_cons num m c p taken h least (x ∷ front) q e =
    let e1 : p ≡ x = cc in
    let e2 : taken ≡ front ++ q ∷ [] = cc in
    omega (arith, least front q e2, ap (keys_of_partition m) e1)

-- A list of partitions that the map knows, with enough keys in all, has the loop on the size return.
-- What it returns leads the list, has at least the number of keys that was asked for with those that
-- were collected before, and would not have it without its last partition.
pub size_loop_least :
    (num : ℕ) (m : InfoMap) (c : ℕ) (ps : List Bytes)
    → All (Known m) ps
    → num ≤ c + keys_in m ps
    → (taken : List Bytes) × (size_loop num m c ps ≡ ok taken) × Chosen num m c ps taken
unfolding keys_in
size_loop_least num m c [] k h = (
  [],
  size_loop_stop num m c [] (omega arith),
  record { rest = []; leads = refl; enough = h; least = λ front p e. absurd (no_last front p e) },
)
size_loop_least num m c (p ∷ ps) (k, ks) h = elim (Bool-cases (ltb c num)) [
  | inr e ↦ (
    [],
    size_loop_stop num m c (p ∷ ps) (ground (arith, e)),
    record {
      rest = p ∷ ps;
      leads = refl;
      enough = ground (arith, e);
      least = λ front q e2. absurd (no_last front q e2);
    },
  )
  | inl e ↦
      let lt : c < num = ground (arith, e) in
      let (taken, r, ch) =
        size_loop_least num m (c + keys_of_partition m p) ps ks (omega (arith, h)) in
      (
        p ∷ taken,
        size_loop_go num m c p ps lt k ∙ rw r,
        record {
          rest = ch.rest;
          leads = ap (λ l. p ∷ l) ch.leads;
          enough = omega (arith, ch.enough);
          least = least_cons num m c p taken lt ch.least;
        },
      )
]

abbrev Old : Duration → Bytes → Duration → Bytes → Type 0
Old d mx limit p = clean_up_time_condition d p mx limit ≡ ok true

-- The chosen partitions are old enough, and the partition behind them is not.
pub record Cut (d : Duration) (mx : Bytes) (limit : Duration) (ps taken : List Bytes) : Type 0 where
  pub young : Bytes
  pub rest : List Bytes
  pub leads : ps ≡ taken ++ young ∷ rest
  pub all_old : All (Old d mx limit) taken
  pub is_young : clean_up_time_condition d young mx limit ≡ ok false

module _ {d : Duration} {k : ℕ} (mx : Bytes) (limit : Duration) (period : IsPeriod d k) where
  range_cases :
      (p : Bytes)
      → ((t : Time) × (get_time_range_for_partition d p ≡ ok (t, add t d)))
        ⊎ ((e : Error) × (get_time_range_for_partition d p ≡ err e))
  unfolding get_time_range_for_partition get_time_for_partition
  range_cases p = elim period [
    | inl (e, f) ↦ elim (Option-cases (parse_int p)) [
      | inl n ↦ inr (bad_number, rw n)
      | inr (s, q) ↦ inl (from_unix s, rw (q, e))
    ]
    | inr (e, f) ↦ elim (Option-cases (parse_int p)) [
      | inl n ↦ inr (bad_number, rw n)
      | inr (s, q) ↦ inl (from_unix s, rw (q, e))
    ]
  ]

  sub-add : (t : Time) → sub (add t d) t ≡ d
  unfolding sub add
  sub-add t = elim period [
    | inl (e, f) ↦ rw e (ground (arith, +ℤ_parts t hour, -ℤ_parts (t +ℤ hour) t))
    | inr (e, f) ↦ rw e (ground (arith, +ℤ_parts t day, -ℤ_parts (t +ℤ day) t))
  ]

  condition_cases :
      (p : Bytes)
      → (clean_up_time_condition d p mx limit ≡ ok true)
        ⊎ (clean_up_time_condition d p mx limit ≡ ok false)
  unfolding clean_up_time_condition
  condition_cases p = elim (range_cases p) [
    | inr (e, q) ↦ inr (rw (q, clean_up_time_condition))
    | inl (t, q) ↦ elim (range_cases mx) [
      | inr (e, q2) ↦ inr (rw (q, clean_up_time_condition, q2))
      | inl (u, q2) ↦ elim (Bool-cases (ltb_ℤ limit (sub (add u d) t))) [
        | inl b ↦ inl (rw (q, clean_up_time_condition, q2) (ap ok b))
        | inr b ↦ inr (rw (q, clean_up_time_condition, q2) (ap ok b))
      ]
    ]
  ]

  last_young : d ≤ℤ limit → clean_up_time_condition d mx mx limit ≡ ok false
  unfolding clean_up_time_condition
  last_young h = elim (range_cases mx) [
    | inr (e, q) ↦ rw (q, clean_up_time_condition)
    | inl (t, q) ↦ rw (q, clean_up_time_condition, q, sub-add t) (ap ok (ground (arith, h)))
  ]

  young_step :
      (p : Bytes) (ps : List Bytes)
      → clean_up_time_condition d p mx limit ≡ ok false
      → time_loop d mx limit (p ∷ ps) ≡ ok []
  unfolding time_loop
  young_step p ps h = rw h

  Old-step :
      (p : Bytes) (ps : List Bytes)
      → Old d mx limit p
      → time_loop d mx limit (p ∷ ps) ≡ (do rest ← time_loop d mx limit ps; ok (p ∷ rest))
  unfolding time_loop
  Old-step p ps h = rw h

  -- If the list has the newest partition, a partition lasts an hour or a day, and the limit is at
  -- least that long, then the loop on the time returns without reading past the end. What it returns
  -- leads the list and consists of partitions that are old enough; the one behind them is not.
  pub time_loop_returns :
      (ps : List Bytes)
      → d ≤ℤ limit
      → Has mx ps
      → (taken : List Bytes) × (time_loop d mx limit ps ≡ ok taken) × Cut d mx limit ps taken
  time_loop_returns [] h has = absurd has
  time_loop_returns (p ∷ ps) h has = elim (condition_cases p) [
    | inr y ↦ (
      [],
      young_step p ps y,
      record { young = p; rest = ps; leads = refl; all_old = tt; is_young = y },
    )
    | inl o ↦ elim has [
      | inl e ↦ absurd (cc (o, last_young h, e, ap (λ x. clean_up_time_condition d x mx limit) e))
      | inr m ↦
          let (taken, r, cut) = time_loop_returns ps h m in
          (
            p ∷ taken,
            Old-step p ps o ∙ rw r,
            record {
              young = cut.young;
              rest = cut.rest;
              leads = ap (λ l. p ∷ l) cut.leads;
              all_old = (o, cut.all_old);
              is_young = cut.is_young;
            },
          )
    ]
  ]

  -- If every partition is old enough, the loop on the time reads past the end of the list, a panic.
  pub time_loop_panics :
      (ps : List Bytes) → All (Old d mx limit) ps → time_loop d mx limit ps ≡ panic
  unfolding time_loop
  time_loop_panics [] h = refl
  time_loop_panics (p ∷ ps) (h, hs) = Old-step p ps h ∙ rw (time_loop_panics ps hs)
