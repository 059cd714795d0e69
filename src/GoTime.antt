-- ===== src/GoTime.antt =====
-- Package time, as far as the program uses it. A Time is the instant in nanoseconds since the Unix
-- epoch, a `ZonedTime` is one with its location, where the program asks for it, a Duration is a signed number of nanoseconds. Instants lie within the years that an
-- int64 of seconds can count, so that no sum of seconds wraps around.
use sloop.Base.{ℕ, suc, ◌-◌, ◌/◌, ◌%◌, ◌^◌, ◌<◌, Bool, false, ◌≡◌, arith, ltb, leb, if◌then◌else◌}
use sloop.Base.Int.{ℤ, pos, negsuc, ◌+ℤ◌, ◌-ℤ◌, ◌*ℤ◌, floor_div, ltb_ℤ, eqb_ℤ}

abbrev pub Time : Type 0
Time = ℤ

abbrev pub Duration : Type 0
Duration = ℤ

abbrev pub second_ns : ℕ
second_ns = 1_000_000_000

-- time.Minute, time.Hour and 24 * time.Hour
abbrev pub minute : Duration
minute = pos 60_000_000_000

abbrev pub hour : Duration
hour = pos 3_600_000_000_000

abbrev pub day : Duration
day = pos 86_400_000_000_000

-- time.Time{}: the first of January of the year 1
abbrev pub zero_time : Time
zero_time = negsuc 62_135_596_799_999_999_999

abbrev pub max_duration : ℕ
max_duration = 2 ^ 63 - 1

abbrev pub is_zero : Time → Bool
is_zero t = eqb_ℤ t zero_time

-- time.Unix(sec, 0)
unfoldable pub from_unix : ℤ → Time
unfolding ◌*ℤ◌
from_unix s = s *ℤ pos second_ns

-- t.Unix()
unfoldable pub unix : Time → ℤ
unfolding floor_div
unix t = floor_div t second_ns

-- t.Add(d)
unfoldable pub add : Time → Duration → Time
unfolding ◌+ℤ◌
add t d = t +ℤ d

-- The nearest Duration: 2 ^ 63 - 1 nanoseconds at most, - 2 ^ 63 at least.
unfoldable pub saturate : ℤ → Duration
saturate (pos n) = if leb n max_duration then pos n else pos max_duration
saturate (negsuc n) = if leb n max_duration then negsuc n else negsuc max_duration

-- t.Sub(u)
unfoldable pub sub : Time → Time → Duration
unfolding ◌-ℤ◌ saturate
sub t u = saturate (t -ℤ u)

abbrev pub before : Time → Time → Bool
before t u = ltb_ℤ t u

abbrev pub after : Time → Time → Bool
after t u = ltb_ℤ u t

abbrev pub equal : Time → Time → Bool
equal t u = eqb_ℤ t u

-- The greatest multiple of `k` that is not above `s`.
unfoldable pub floor_to : ℤ → ℕ → ℤ
unfolding ◌*ℤ◌ floor_div
floor_to s k = floor_div s k *ℤ pos k

-- A *time.Location, as far as it is asked: from the Unix seconds of an instant those of the start of
-- the hour and of the day that the clock of the location shows, which are
-- time.Date(t.Year(), t.Month(), t.Day(), t.Hour(), 0, 0, 0, t.Location()) and the same at 0 hours.
pub record Location : Type 0 where
  pub start_of_hour : ℤ → ℤ
  pub start_of_day : ℤ → ℤ

abbrev pub utc : Location
utc = record { start_of_hour = λ s. floor_to s 3600; start_of_day = λ s. floor_to s 86400 }

pub record ZonedTime : Type 0 where
  pub instant : Time
  pub location : Location

-- t.UTC(); what ptypes.Timestamp returns is in UTC too.
abbrev pub in_utc : Time → ZonedTime
in_utc t = record { instant = t; location = utc }

-- t.Round(time.Minute): half a minute is rounded up
unfoldable pub round_minute : Time → Time
unfolding floor_to ◌+ℤ◌
round_minute t = floor_to (t +ℤ pos 30_000_000_000) 60_000_000_000

-- uint64(n) of an int64
unfoldable pub to_uint64 : ℤ → ℕ
to_uint64 (pos n) = n % 2 ^ 64
to_uint64 (negsuc n) = 2 ^ 64 - 1 - n % 2 ^ 64

-- int64(n) of a uint64
unfoldable pub to_int64 : ℕ → ℤ
to_int64 n = if ltb n (2 ^ 63) then pos n else negsuc (2 ^ 64 - 1 - n)

-- What a sum or a difference of two ints, of 64 bits, wraps around to.
unfoldable pub wrap_int : ℤ → ℤ
unfolding to_uint64 to_int64
wrap_int n = to_int64 (to_uint64 n)

-- t.UnixNano() wraps around outside the years 1678 to 2262.
unfoldable pub unix_nano : Time → ℤ
unfolding to_uint64 to_int64
unix_nano t = to_int64 (to_uint64 t)

-- time.Unix(0, nsec)
abbrev pub from_unix_nano : ℤ → Time
from_unix_nano n = n

-- The quotient of two durations, cut towards zero.
unfoldable pub quot : ℤ → ℕ → ℤ
quot (pos n) d = pos (n / d)
quot (negsuc n) d = pos 0 -ℤ pos (suc n / d)

pub unix_nano_lem :
    (n : ℕ)
    → n < 2 ^ 63
    → (unix_nano (pos n) ≡ pos n)
      × (unix_nano (negsuc n) ≡ negsuc n)
      × (is_zero (pos n) ≡ false)
      × (is_zero (negsuc n) ≡ false)
unfolding unix_nano
unix_nano_lem n h = (ground arith, ground arith, ground arith, ground arith)
