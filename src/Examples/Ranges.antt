-- ===== src/Examples/Ranges.antt =====
-- Partitions of concrete instants.
use sloop.Base.{List, ◌∷◌, ◌%◌, ◌↔◌, Has, ℕ, ◌+◌, ◌*◌, ◌≡◌, ◌⊎◌, inl, inr, suc, arith, refl, true}
use sloop.Base.Int.{◌+ℤ◌, ◌-ℤ◌, pos, ◌≤ℤ◌, ◌<ℤ◌}
use sloop.Base.Bytes.{Bytes, codes, lt_bytes}
use sloop.Base.Outcome.{ok}
use sloop.GoTime.{Location, utc, in_utc, floor_to, Time, hour, day, second_ns}
use sloop.Partition.{
  get_partition_id, get_time_for_partition, get_time_range_for_partition, check_partition_duration,
}
use sloop.Base.Bytes.Decimal.{format_padded}
use sloop.Partition.Range.{IsAhead, utc-IsAhead, at, partition_contains, partition_order}
use sloop.Partition.Sequence.{
  get_partitions_from_time_range, get_partitions_complete, partition_names, after_first,
}

-- 2019-01-01 03:04:05 and 06:04:05
abbrev early : ℕ
early = 1_546_311_845_000_000_006

abbrev late : ℕ
late = 1_546_322_645_000_000_006

-- A location whose clock is ahead by `e` seconds.
abbrev zone : ℕ → Location
zone e = record {
  start_of_hour = λ s. floor_to (s +ℤ pos e) 3600 -ℤ pos e;
  start_of_day = λ s. floor_to (s +ℤ pos e) 86400 -ℤ pos e;
}

zone-IsAhead : (e : ℕ) → IsAhead (zone e) e
zone-IsAhead e = record { hours = λ s. refl; days = λ s. refl }

-- Five and a half hours ahead of UTC, and nine ahead.
abbrev half_hours : Location
half_hours = zone 19800

abbrev ahead : Location
ahead = zone 32400

partition_contains_example :
    (id : Bytes) × (lo : Time) × (hi : Time) × (get_partition_id hour (at half_hours early) ≡ ok id)
    × (get_time_range_for_partition hour id ≡ ok (lo, hi))
    × (lo ≤ℤ pos early)
    × (pos early <ℤ hi)
    × (get_partition_id hour (record { instant = lo; location = half_hours }) ≡ ok id)
    × ((get_partition_id hour (in_utc lo) ≡ ok id) ↔ (19800 % 3600 ≡ 0))
partition_contains_example =
    partition_contains half_hours 19800 early (inl (refl, refl)) (zone-IsAhead 19800) (omega arith)
      (omega arith)

early_id : get_partition_id hour (at ahead early) ≡ ok (codes "001546311600")
unfolding get_partition_id sloop.Base.Bytes.Decimal.format_padded sloop.GoTime.to_uint64
    sloop.GoTime.floor_to sloop.GoTime.unix ◌+ℤ◌ ◌-ℤ◌
early_id = refl

late_id : get_partition_id hour (at ahead late) ≡ ok (codes "001546322400")
unfolding get_partition_id sloop.Base.Bytes.Decimal.format_padded sloop.GoTime.to_uint64
    sloop.GoTime.floor_to sloop.GoTime.unix ◌+ℤ◌ ◌-ℤ◌
late_id = refl

early_time : get_time_for_partition (codes "001546311600") ≡ ok (pos 1_546_311_600_000_000_000)
unfolding get_time_for_partition sloop.Base.Bytes.Decimal.parse_int sloop.GoTime.from_unix
early_time = refl

late_time : get_time_for_partition (codes "001546322400") ≡ ok (pos 1_546_322_400_000_000_000)
unfolding get_time_for_partition sloop.Base.Bytes.Decimal.parse_int sloop.GoTime.from_unix
late_time = refl

partition_order_example :
    ((codes "001546311600" ≡ codes "001546322400")
      × (pos 1_546_311_600_000_000_000 ≡ pos 1_546_322_400_000_000_000))
    ⊎ ((lt_bytes (codes "001546311600") (codes "001546322400") ≡ true)
        × (pos 1_546_311_600_000_000_000 <ℤ pos 1_546_322_400_000_000_000))
partition_order_example =
    partition_order ahead 32400 early late (inl (refl, refl)) (zone-IsAhead 32400) (omega arith)
      (omega arith) (omega arith) early_id late_id early_time late_time

hour_checked : check_partition_duration hour ≡ ok hour
unfolding check_partition_duration
hour_checked = refl

get_partitions_complete_example :
    (get_partitions_from_time_range 9 hour (at ahead early) (at utc late)
      ≡ ok (format_padded 12 1546311600 ∷ partition_names 3600 1546315200 3))
    × ((after_first 3600 1546311600 ≡ 1546315200) ↔ (32400 % 3600 ≡ 0))
get_partitions_complete_example =
    get_partitions_complete 9 ahead utc 32400 0 early late (inl (refl, refl)) (zone-IsAhead 32400)
      utc-IsAhead (omega arith) (omega arith) (omega arith) (omega arith) (omega arith)
      (omega arith)
