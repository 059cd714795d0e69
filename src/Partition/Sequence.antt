-- ===== src/Partition/Sequence.antt =====
-- The loop of `GetPartitionsFromTimeRange` and of `GetUniquePartitionList` in
-- pkg/sloop/store/typed/tabletemplate.go: from one partition to another by steps of the duration.
use sloop.Base.{
  ◌↔◌, ℕ, zero, suc, ◌+◌, ◌-◌, ◌*◌, ◌/◌, ◌%◌, ◌≤◌, ◌<◌, true, false, ◌≡◌, ◌∙◌, ap, inl, inr, arith,
  List, [], ◌∷◌, ltb, ltb→lt, Bool-cases,
}
use sloop.Base.Int.{pos}
use sloop.Base.Bytes.{Bytes, le_bytes}
use sloop.Base.Bytes.Order.{lt_bytes_asymm, le_bytes_refl}
use sloop.Base.Bytes.Decimal.{format_padded, parse_int}
use sloop.Base.Bytes.Decimal.Laws.{id_limit, parse_int-format12, lt_bytes-format12}
use sloop.Base.Outcome.{Outcome, ok, running, ◌>>=◌, or_err, bad_number}
use sloop.GoTime.{utc, Location, ZonedTime, in_utc, Duration, second_ns, from_unix, add}
use sloop.Partition.{IsPeriod, get_partition_id}
use sloop.Partition.Range.{
  IsAhead, utc-IsAhead, FromEpoch, at, time_limit, start_of, get_partition_id_lem,
}

-- parTime := time.Unix(partInt, 0).UTC().Add(parDuration); curPar = GetPartitionId(parTime)
unfoldable pub next_partition : Duration → Bytes → Outcome Bytes
next_partition d cur = do
  part_int ← or_err (parse_int cur) bad_number
  get_partition_id d (in_utc (add (from_unix part_int) d))

-- One unit of fuel for each round. With an error the source also returns the names so far, which
-- no caller reads.
unfoldable pub partitions_loop : ℕ → Duration → Bytes → Bytes → Outcome (List Bytes)
partitions_loop zero d cur last = running
partitions_loop (suc f) d cur last = elim (le_bytes cur last) [
  | true ↦ (do next ← next_partition d cur; rest ← partitions_loop f d next last; ok (cur ∷ rest))
  | false ↦ ok []
]

unfoldable pub get_partitions_from_time_range :
    ℕ → Duration → ZonedTime → ZonedTime → Outcome (List Bytes)
unfolding partitions_loop
get_partitions_from_time_range f d start_time end_time = do
  start_partition ← get_partition_id d start_time
  end_partition ← get_partition_id d end_time
  partitions_loop f d start_partition end_partition

-- The names of `c` partitions of `k` seconds, from the one that starts at `s`.
abbrev pub partition_names : ℕ → ℕ → ℕ → List Bytes
partition_names k s zero = []
partition_names k s (suc c) = format_padded 12 s ∷ partition_names k (s + k) c

add_step :
    {d : Duration} {k : ℕ} (s : ℕ)
    → IsPeriod d k
    → add (from_unix (pos s)) d ≡ pos ((s + k) * second_ns)
unfolding add from_unix
add_step s (inl (e, f)) = rw (e, f) (ground arith)
add_step s (inr (e, f)) = rw (e, f) (ground arith)

-- The first partition of UTC behind the start of another.
abbrev pub after_first : ℕ → ℕ → ℕ
after_first k s = (s + k) / k * k

start_of_next :
    {d : Duration} {k : ℕ} (s : ℕ)
    → IsPeriod d k
    → start_of k 0 ((s + k) * second_ns) ≡ after_first k s
start_of_next s (inl (e, f)) = rw f (omega arith)
start_of_next s (inr (e, f)) = rw f (omega arith)

pub after_first_bounds :
    {d : Duration} {k : ℕ} (s : ℕ)
    → IsPeriod d k
    → (s < after_first k s) × (after_first k s ≤ s + k) × (after_first k s % k ≡ 0)
after_first_bounds s (inl (e, f)) = rw f (omega arith, omega arith, omega arith)
after_first_bounds s (inr (e, f)) = rw f (omega arith, omega arith, omega arith)

aligned_next : {d : Duration} {k : ℕ} (s : ℕ) → IsPeriod d k → s % k ≡ 0 → after_first k s ≡ s + k
aligned_next s (inl (e, f)) a = rw f (let a' = rw f at a in omega arith)
aligned_next s (inr (e, f)) a = rw f (let a' = rw f at a in omega arith)

next_partition_lem :
    {d : Duration} {k : ℕ} (s : ℕ)
    → IsPeriod d k
    → s + k < id_limit
    → next_partition d (format_padded 12 s) ≡ ok (format_padded 12 (after_first k s))
unfolding next_partition
next_partition_lem {k = k} s p h = rw (
  parse_int-format12 s (omega arith),
  add_step s p,
  get_partition_id_lem utc 0 ((s + k) * second_ns) p utc-IsAhead (omega arith) (omega arith),
  start_of_next s p,
)

le_bytes-format12 :
    (m n : ℕ) → n < id_limit → m ≤ n → le_bytes (format_padded 12 m) (format_padded 12 n) ≡ true
le_bytes-format12 m n h le = elim (Bool-cases (ltb m n)) [
  | inl t ↦ ground (
    arith,
    lt_bytes-format12 m n (omega arith) h (ltb→lt m n t),
    lt_bytes_asymm (format_padded 12 m) (format_padded 12 n),
  )
  | inr t ↦ let same : m ≡ n = ground arith in rw same (le_bytes_refl (format_padded 12 n))
]

module _ (d : Duration) (f : ℕ) (cur last : Bytes) where
  loop_step :
      {next : Bytes}
      → le_bytes cur last ≡ true
      → next_partition d cur ≡ ok next
      → partitions_loop (suc f) d cur last
        ≡ (do rest ← partitions_loop f d next last; ok (cur ∷ rest))
  unfolding partitions_loop
  loop_step h e = ground (arith, h, e)

  loop_stop : le_bytes cur last ≡ false → partitions_loop (suc f) d cur last ≡ ok []
  unfolding partitions_loop
  loop_stop h = ground (arith, h)

below_limit :
    {d : Duration} {k : ℕ} (e n : ℕ)
    → IsPeriod d k
    → FromEpoch k e n
    → start_of k e n + k < id_limit
    → n < time_limit
below_limit e n (inl (q, f)) c h = let c' = rw f at c in let h' = rw f at h in omega arith
below_limit e n (inr (q, f)) c h = let c' = rw f at c in let h' = rw f at h in omega arith

aligned_step : {d : Duration} {k : ℕ} (s : ℕ) → IsPeriod d k → s % k ≡ 0 → (s + k) % k ≡ 0
aligned_step s (inl (e, f)) a = rw f (let a' = rw f at a in omega arith)
aligned_step s (inr (e, f)) a = rw f (let a' = rw f at a in omega arith)

-- From a partition of UTC on the loop visits each partition once and stops behind the last.
partitions_loop_lem :
    {d : Duration} {k : ℕ} (c f s last : ℕ)
    → IsPeriod d k
    → s % k ≡ 0
    → last < s + c * k
    → s + c * k ≤ last + k
    → last + k < id_limit
    → c < f
    → partitions_loop f d (format_padded 12 s) (format_padded 12 last) ≡ ok (partition_names k s c)
partitions_loop_lem c zero s last p a lt le h fuel = absurd (omega arith)
partitions_loop_lem zero (suc f) s last p a lt le h fuel =
    let below = lt_bytes-format12 last s (omega arith) (omega arith) (omega arith) in
    loop_stop _ f (format_padded 12 s) (format_padded 12 last) (ground (arith, below))
partitions_loop_lem {k = k} (suc c) (suc f) s last p a lt le h fuel =
    let next =
      next_partition_lem s p (omega arith)
      ∙ ap (λ x. ok (format_padded 12 x)) (aligned_next s p a) in
    rw (
      loop_step _ f (format_padded 12 s) (format_padded 12 last)
          (le_bytes-format12 s last (omega arith) (omega arith)) next,
      partitions_loop_lem c f (s + k) last p (aligned_step s p a) (omega arith) (omega arith) h
          (omega arith),
    )

-- The number of partitions of UTC that start behind one second and not behind another.
abbrev pub steps_behind : ℕ → ℕ → ℕ → ℕ
steps_behind k a b = (b + k - after_first k a) / k

pub steps_bounds :
    {d : Duration} {k : ℕ} (a b : ℕ)
    → IsPeriod d k
    → a ≤ b
    → (b < after_first k a + steps_behind k a b * k)
      × (after_first k a + steps_behind k a b * k ≤ b + k)
steps_bounds a b (inl (e, f)) h = rw f (omega arith, omega arith)
steps_bounds a b (inr (e, f)) h = rw f (omega arith, omega arith)

-- From the start of any partition.
pub loop_from :
    {d : Duration} {k : ℕ} (f a b : ℕ)
    → IsPeriod d k
    → a ≤ b
    → b + k < id_limit
    → steps_behind k a b + 1 < f
    → partitions_loop f d (format_padded 12 a) (format_padded 12 b)
      ≡ ok (format_padded 12 a ∷ partition_names k (after_first k a) (steps_behind k a b))
loop_from zero a b p h lim fuel = absurd (omega arith)
loop_from {k = k} (suc f) a b p h lim fuel =
    let (low, high, aligned) = after_first_bounds a p in
    let (lt, le) = steps_bounds a b p h in
    rw (
      loop_step _ f (format_padded 12 a) (format_padded 12 b)
          (le_bytes-format12 a b (omega arith) h) (next_partition_lem a p (omega arith)),
      partitions_loop_lem (steps_behind k a b) f (after_first k a) b p aligned lt le lim
          (omega arith),
    )

next_aligned :
    {d : Duration} {k : ℕ} (e n : ℕ)
    → IsPeriod d k
    → FromEpoch k e n
    → (after_first k (start_of k e n) ≡ start_of k e n + k) ↔ (e % k ≡ 0)
next_aligned e n (inl (q, f)) c =
    let c' = rw f at c in rw f (λ h. omega (arith, h, c'), λ h. omega (arith, h, c'))
next_aligned e n (inr (q, f)) c =
    let c' = rw f at c in rw f (λ h. omega (arith, h, c'), λ h. omega (arith, h, c'))

-- For an hourly or daily duration, two times in locations whose clocks keep their distance to UTC,
-- whose partitions start at the epoch or later, in order, and end below the limit of twelve digits,
-- and with fuel for two rounds more than there are partitions of UTC behind the first: the loop ends
-- and returns the partition of the first time in its location and then, in order, all partitions of
-- UTC that start behind it and no later than the partition of the last time in its location. These
-- are consecutive partitions exactly when the first clock is ahead by a number of whole periods.
pub get_partitions_complete :
    {d : Duration} {k : ℕ} (f : ℕ) (loc1 loc2 : Location) (e1 e2 m n : ℕ)
    → IsPeriod d k
    → IsAhead loc1 e1
    → IsAhead loc2 e2
    → FromEpoch k e1 m
    → FromEpoch k e2 n
    → start_of k e1 m ≤ start_of k e2 n
    → m < time_limit
    → start_of k e2 n + k < id_limit
    → steps_behind k (start_of k e1 m) (start_of k e2 n) + 1 < f
    → (get_partitions_from_time_range f d (at loc1 m) (at loc2 n)
        ≡ ok (
            format_padded 12 (start_of k e1 m)
            ∷ partition_names k
                (after_first k (start_of k e1 m))
                (steps_behind k (start_of k e1 m) (start_of k e2 n))))
      × ((after_first k (start_of k e1 m) ≡ start_of k e1 m + k) ↔ (e1 % k ≡ 0))
unfolding get_partitions_from_time_range
get_partitions_complete {k = k} f loc1 loc2 e1 e2 m n p z1 z2 c1 c2 le h lim fuel =
    let a = start_of k e1 m in
    let b = start_of k e2 n in
    (
      rw
          (
            get_partition_id_lem loc1 e1 m p z1 c1 h,
            get_partition_id_lem loc2 e2 n p z2 c2 (below_limit e2 n p c2 lim),
          )
          (loop_from f a b p le lim fuel),
      next_aligned e1 m p c1,
    )
