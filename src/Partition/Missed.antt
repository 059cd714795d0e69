-- ===== src/Partition/Missed.antt =====
-- What GetPartitionsFromTimeRange in pkg/sloop/store/typed/tabletemplate.go leaves out when the start of
-- the range is not in UTC, as the records of the tables are.
use sloop.Base.{ℕ, zero, suc, ◌+◌, ◌*◌, ◌≤◌, ◌<◌, ◌≡◌, inl, inr, arith, List, ◌∷◌, Has}
use sloop.Base.Bytes.{Bytes}
use sloop.Base.Bytes.Decimal.{format_padded}
use sloop.Base.Bytes.Decimal.Laws.{id_limit}
use sloop.Base.Outcome.{ok}
use sloop.GoTime.{Duration, Location, utc}
use sloop.Partition.{IsPeriod, get_partition_id}
use sloop.Partition.Range.{
  IsAhead, utc-IsAhead, FromEpoch, at, start_of, time_limit, get_partition_id_lem,
  format12_injective,
}
use sloop.Partition.Sequence.{
  get_partitions_from_time_range, partition_names, steps_behind, after_first, after_first_bounds,
  steps_bounds, get_partitions_complete,
}

not_among :
    (k s u c : ℕ)
    → u < s
    → s + c * k < id_limit + k
    → ¬ Has (format_padded 12 u) (partition_names k s c)
not_among k s u zero lt h q = q
not_among k s u (suc c) lt h (inl q) =
    let same = format12_injective u s (omega arith) (omega arith) q in omega (arith, same, lt)
not_among k s u (suc c) lt h (inr q) = not_among k (s + k) u c (omega arith) (omega arith) q

not_first :
    (k a u c s : ℕ)
    → u < a
    → a < s
    → a < id_limit
    → s + c * k < id_limit + k
    → ¬ Has (format_padded 12 u) (format_padded 12 a ∷ partition_names k s c)
not_first k a u c s lt lt' fits h (inl q) =
    let same = format12_injective u a (omega arith) fits q in omega (arith, same, lt)
not_first k a u c s lt lt' fits h (inr q) = not_among k s u c (omega arith) h q

-- For an hourly or daily duration, two locations whose clocks keep their distance to UTC and two times
-- as in `get_partitions_complete`: if the period of the first time in its location begins later than
-- its period in UTC, the partition in which a record of that very instant is stored is not among
-- those that the range has.
pub first_partition_missed :
    {d : Duration} {k : ℕ} (f : ℕ) (loc1 loc2 : Location) (e1 e2 m n : ℕ)
    → IsPeriod d k
    → IsAhead loc1 e1
    → IsAhead loc2 e2
    → FromEpoch k e1 m
    → FromEpoch k e2 n
    → start_of k e1 m ≤ start_of k e2 n
    → m < time_limit
    → start_of k e2 n + k < id_limit
    → steps_behind k (start_of k e1 m) (start_of k e2 n) + 1 < f
    → start_of k 0 m < start_of k e1 m
    → (ps : List Bytes) × (id : Bytes) × (get_partitions_from_time_range f d (at loc1 m) (at loc2 n)
        ≡ ok ps)
      × (get_partition_id d (at utc m) ≡ ok id)
      × ¬ Has id ps
first_partition_missed {k = k} f loc1 loc2 e1 e2 m n p z1 z2 c1 c2 le h lim fuel early =
    let a = start_of k e1 m in
    let b = start_of k e2 n in
    let u = start_of k 0 m in
    let (listed, aligned) =
      get_partitions_complete f loc1 loc2 e1 e2 m n p z1 z2 c1 c2 le h lim fuel in
    let (low, high, multiple) = after_first_bounds a p in
    let (lt, within) = steps_bounds a b p le in
    (
      format_padded 12 a ∷ partition_names k (after_first k a) (steps_behind k a b),
      format_padded 12 u,
      listed,
      get_partition_id_lem utc 0 m p utc-IsAhead (omega arith) h,
      not_first k a u (steps_behind k a b) (after_first k a) early low (omega arith) (omega arith),
    )
