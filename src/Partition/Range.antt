-- ===== src/Partition/Range.antt =====
-- A partition is the interval of time that its name stands for.
use sloop.Base.{
  some, ap, ◌∙◌, ℕ, ◌+◌, ◌-◌, ◌*◌, ◌/◌, ◌%◌, sym, ◌≤◌, ◌<◌, true, ◌≡◌, ◌⊎◌, inl, inr, arith, ltb,
  ltb→lt, ◌↔◌, Bool-cases,
}
use sloop.Base.Int.{ℤ, ◌+ℤ◌, ◌-ℤ◌, int_laws, eqb_ℤ, pos, ◌≤ℤ◌, ◌<ℤ◌}
use sloop.Base.Bytes.{Bytes, lt_bytes}
use sloop.Base.Bytes.Decimal.{format_padded, parse_int}
use sloop.Base.Bytes.Decimal.Laws.{id_limit, parse_int-format12, lt_bytes-format12}
use sloop.Base.Outcome.{ok, err, panic, panic, bad_partition_duration}
use sloop.GoTime.{
  in_utc, Location, ZonedTime, utc, Time, Duration, hour, second_ns, unix, from_unix, add, floor_to,
  to_uint64,
}
use sloop.Partition.{
  IsPeriod, get_partition_id, get_time_for_partition, get_time_range_for_partition,
  check_partition_duration,
}

-- The clock of the location is ahead of that of UTC by `e` seconds at every instant, or behind by a
-- day less `e` seconds, which gives the same hours and days: time.FixedZone, or a location while it
-- does not change its clock.
pub record IsAhead (loc : Location) (e : ℕ) : Type 0 where
  pub hours : (s : ℤ) → loc.start_of_hour s ≡ floor_to (s +ℤ pos e) 3600 -ℤ pos e
  pub days : (s : ℤ) → loc.start_of_day s ≡ floor_to (s +ℤ pos e) 86400 -ℤ pos e

minus_zero : (s : ℤ) (k : ℕ) → floor_to s k ≡ floor_to (s +ℤ pos 0) k -ℤ pos 0
minus_zero s k =
    let plus : s +ℤ pos 0 ≡ s = omega int_laws in
    let minus : floor_to s k -ℤ pos 0 ≡ floor_to s k = omega int_laws in rw plus (sym minus)

pub utc-IsAhead : IsAhead utc 0
utc-IsAhead = record { hours = λ s. minus_zero s 3600; days = λ s. minus_zero s 86400 }

-- The seconds at which the partition of the instant `n` starts.
abbrev pub start_of : ℕ → ℕ → ℕ → ℕ
start_of k e n = (n / second_ns + e) / k * k - e

-- That is no earlier than the epoch.
abbrev pub FromEpoch : ℕ → ℕ → ℕ → Type 0
FromEpoch k e n = e ≤ (n / second_ns + e) / k * k

-- The instants that a name of twelve digits can stand for: up to the year 33658.
abbrev pub time_limit : ℕ
time_limit = id_limit * second_ns

abbrev pub at : Location → ℕ → ZonedTime
at loc n = record { instant = pos n; location = loc }

to_uint64-floor_to :
    (k e n : ℕ)
    → e ≤ (n + e) / k * k
    → (n + e) / k * k - e < id_limit
    → to_uint64 (floor_to (pos n +ℤ pos e) k -ℤ pos e) ≡ (n + e) / k * k - e
unfolding to_uint64 floor_to ◌+ℤ◌ ◌-ℤ◌
to_uint64-floor_to k e n le h = ground (arith, le, h)

pub get_partition_id_lem :
    {d : Duration} {k : ℕ} (loc : Location) (e n : ℕ)
    → IsPeriod d k
    → IsAhead loc e
    → FromEpoch k e n
    → n < time_limit
    → get_partition_id d (at loc n) ≡ ok (format_padded 12 (start_of k e n))
unfolding get_partition_id unix
get_partition_id_lem loc e n (inl (q, f)) z c h =
    let c' = rw f at c in
    rw (q, f, z.hours, to_uint64-floor_to 3600 e (n / second_ns) c' (omega arith))
get_partition_id_lem loc e n (inr (q, f)) z c h =
    let c' = rw f at c in
    rw (q, f, z.days, to_uint64-floor_to 86400 e (n / second_ns) c' (omega arith))

pub get_time_for_partition_lem :
    (s : ℕ) → s < id_limit → get_time_for_partition (format_padded 12 s) ≡ ok (pos (s * second_ns))
unfolding get_time_for_partition from_unix
get_time_for_partition_lem s h = rw (parse_int-format12 s h) (ground arith)

pub get_time_range_for_partition_lem :
    {d : Duration} {k : ℕ} (s : ℕ)
    → IsPeriod d k
    → s < id_limit
    → get_time_range_for_partition d (format_padded 12 s)
      ≡ ok (pos (s * second_ns), pos ((s + k) * second_ns))
unfolding get_time_range_for_partition add
get_time_range_for_partition_lem s (inl (e, f)) h =
    rw (e, f, get_time_for_partition_lem s h) (ground arith)
get_time_range_for_partition_lem s (inr (e, f)) h =
    rw (e, f, get_time_for_partition_lem s h) (ground arith)

start_of_bounds :
    {d : Duration} {k : ℕ} (e n : ℕ)
    → IsPeriod d k
    → FromEpoch k e n
    → (start_of k e n * second_ns ≤ n) × (n < (start_of k e n + k) * second_ns)
start_of_bounds e n (inl (q, f)) c = let c' = rw f at c in rw f (omega arith, omega arith)
start_of_bounds e n (inr (q, f)) c = let c' = rw f at c in rw f (omega arith, omega arith)

start_of_mono :
    {d : Duration} {k : ℕ} (e m n : ℕ) → IsPeriod d k → m ≤ n → start_of k e m ≤ start_of k e n
start_of_mono e m n (inl (q, f)) h = rw f (omega arith)
start_of_mono e m n (inr (q, f)) h = rw f (omega arith)

epoch_mono :
    {d : Duration} {k : ℕ} (e m n : ℕ) → IsPeriod d k → m ≤ n → FromEpoch k e m → FromEpoch k e n
epoch_mono e m n (inl (q, f)) h c = rw f (let c' = rw f at c in omega arith)
epoch_mono e m n (inr (q, f)) h c = rw f (let c' = rw f at c in omega arith)

pub start_of_limit :
    {d : Duration} {k : ℕ} (e n : ℕ) → IsPeriod d k → n < time_limit → start_of k e n < id_limit
start_of_limit e n (inl (q, f)) h = rw f (omega arith)
start_of_limit e n (inr (q, f)) h = rw f (omega arith)

start_of_idem :
    {d : Duration} {k : ℕ} (e n : ℕ)
    → IsPeriod d k
    → FromEpoch k e n
    → FromEpoch k e (start_of k e n * second_ns)
      × (start_of k e (start_of k e n * second_ns) ≡ start_of k e n)
start_of_idem e n (inl (q, f)) c = let c' = rw f at c in rw f (omega arith, omega arith)
start_of_idem e n (inr (q, f)) c = let c' = rw f at c in rw f (omega arith, omega arith)

-- The start of a partition in UTC, the period of which holds it.
utc_start :
    {d : Duration} {k : ℕ} (e n : ℕ)
    → IsPeriod d k
    → FromEpoch k e n
    → (start_of k 0 (start_of k e n * second_ns) ≡ start_of k e n) ↔ (e % k ≡ 0)
utc_start e n (inl (q, f)) c =
    let c' = rw f at c in rw f (λ h. omega (arith, h, c'), λ h. omega (arith, h, c'))
utc_start e n (inr (q, f)) c =
    let c' = rw f at c in rw f (λ h. omega (arith, h, c'), λ h. omega (arith, h, c'))

pub format12_injective :
    (a b : ℕ) → a < id_limit → b < id_limit → format_padded 12 a ≡ format_padded 12 b → a ≡ b
format12_injective a b ha hb h =
    let e : some (pos a) ≡ some (pos b) =
      sym (parse_int-format12 a ha) ∙ ap parse_int h ∙ parse_int-format12 b hb in
    cc e

same_name :
    (a b : ℕ)
    → a < id_limit
    → b < id_limit
    → (ok (format_padded 12 a) ≡ ok (format_padded 12 b)) ↔ (a ≡ b)
same_name a b ha hb = (
  λ h. let e : format_padded 12 a ≡ format_padded 12 b = cc in format12_injective a b ha hb e,
  λ h. rw h,
)

-- For an hourly or daily duration, a location whose clock keeps its distance to UTC, and an instant
-- whose partition starts at the epoch or later, up to the last second that twelve digits count:
-- `get_partition_id` returns a name for the time there, `get_time_range_for_partition` reads that
-- name back as a range that starts no later than the instant and ends after it, and the start of the
-- range gets the same name again in the same location. In UTC it gets that name exactly when the
-- clock is ahead by a number of whole periods.
pub partition_contains :
    {d : Duration} {k : ℕ} (loc : Location) (e n : ℕ)
    → IsPeriod d k
    → IsAhead loc e
    → FromEpoch k e n
    → n < time_limit
    → (id : Bytes) × (lo : Time) × (hi : Time) × (get_partition_id d (at loc n) ≡ ok id)
      × (get_time_range_for_partition d id ≡ ok (lo, hi))
      × (lo ≤ℤ pos n)
      × (pos n <ℤ hi)
      × (get_partition_id d (record { instant = lo; location = loc }) ≡ ok id)
      × ((get_partition_id d (in_utc lo) ≡ ok id) ↔ (e % k ≡ 0))
partition_contains {d} {k} loc e n p z c h =
    let s = start_of k e n in
    let fits = start_of_limit e n p h in
    let (low, high) = start_of_bounds e n p c in
    let (c', idem) = start_of_idem e n p c in
    let renamed =
      get_partition_id_lem utc 0 (s * second_ns) p utc-IsAhead (omega arith) (omega arith) in
    let in_limit = start_of_limit 0 (s * second_ns) p (omega arith) in
    let named = same_name (start_of k 0 (s * second_ns)) s in_limit fits in
    let aligned = utc_start e n p c in
    (
      format_padded 12 s,
      pos (s * second_ns),
      pos ((s + k) * second_ns),
      get_partition_id_lem loc e n p z c h,
      get_time_range_for_partition_lem s p fits,
      omega arith,
      omega arith,
      rw (get_partition_id_lem loc e (s * second_ns) p z c' (omega arith), idem),
      (λ q. aligned.0 (named.0 (sym renamed ∙ q)), λ q. renamed ∙ named.1 (aligned.1 q)),
    )

-- For an hourly or daily duration, one location whose clock keeps its distance to UTC, and two
-- instants whose partitions start at the epoch or later, up to the limit of twelve digits: either
-- both lie in the partition of one name and one start, or the name of the earlier instant is
-- strictly below the other in byte order and its partition starts strictly earlier.
pub partition_order :
    {d : Duration} {k : ℕ} (loc : Location) (e m n : ℕ) {a b : Bytes} {ta tb : Time}
    → IsPeriod d k
    → IsAhead loc e
    → FromEpoch k e m
    → m ≤ n
    → n < time_limit
    → get_partition_id d (at loc m) ≡ ok a
    → get_partition_id d (at loc n) ≡ ok b
    → get_time_for_partition a ≡ ok ta
    → get_time_for_partition b ≡ ok tb
    → ((a ≡ b) × (ta ≡ tb)) ⊎ ((lt_bytes a b ≡ true) × (ta <ℤ tb))
partition_order {k = k} loc e m n {a} {b} {ta} {tb} p z c le h ea eb eta etb =
    let sm = start_of k e m in
    let sn = start_of k e n in
    let fits : sn < id_limit = start_of_limit e n p h in
    let mono : sm ≤ sn = start_of_mono e m n p le in
    let later : FromEpoch k e n = epoch_mono e m n p le c in
    let fa : a ≡ format_padded 12 sm = cc (get_partition_id_lem loc e m p z c (omega arith)) in
    let fb : b ≡ format_padded 12 sn = cc (get_partition_id_lem loc e n p z later h) in
    let ga : ta ≡ pos (sm * second_ns) = cc (get_time_for_partition_lem sm (omega arith)) in
    let gb : tb ≡ pos (sn * second_ns) = cc (get_time_for_partition_lem sn fits) in
    elim (Bool-cases (ltb sm sn)) [
      | inl t ↦ inr (
        rw (fa, fb) (lt_bytes-format12 sm sn (omega arith) fits (ltb→lt sm sn t)),
        rw (ga, gb) (let lt = ltb→lt sm sn t in omega arith),
      )
      | inr t ↦ let same : sm ≡ sn = ground arith in inl (cc, cc)
    ]

-- A duration that `check_partition_duration` accepts makes `get_partition_id` return a name for
-- every instant: the panic for an invalid duration is not reached.
pub checked_duration_never_panics :
    (d e : Duration) (t : ZonedTime)
    → check_partition_duration d ≡ ok e
    → (id : Bytes) × (get_partition_id e t ≡ ok id)
unfolding check_partition_duration get_partition_id
checked_duration_never_panics d e t h = elim (Bool-cases (eqb_ℤ e hour)) [
  | inl a ↦ (format_padded 12 (to_uint64 (t.location.start_of_hour (unix t.instant))), rw a)
  | inr a ↦ (format_padded 12 (to_uint64 (t.location.start_of_day (unix t.instant))), ground arith)
]

-- Without the check a duration that is neither an hour nor a day panics, for every instant, and
-- the check refuses exactly such a duration.
pub unchecked_duration_panics :
    (d : Duration) (t : ZonedTime)
    → (get_partition_id d t ≡ panic) ↔ (check_partition_duration d ≡ err bad_partition_duration)
unfolding check_partition_duration get_partition_id
unchecked_duration_panics d t = (λ h. ground arith, λ h. ground arith)
