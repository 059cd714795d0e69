-- ===== src/Processing/EventCount/Adjust.antt =====
-- Cutting the times of an event to the partitions that exist, pkg/sloop/processing/eventcount.go.
use sloop.Base.{ℕ, ◌^◌, ◌≤◌, ◌≡◌, arith, if◌then◌else◌}
use sloop.Base.Int.{ℤ, pos, negsuc, ◌≤ℤ◌, ◌<ℤ◌, -ℤ_parts}
use sloop.GoTime.{Time, Duration, equal, sub}
use sloop.Processing.EventCount.{Float64, adjust_for_available_partitions}

-- Where the window that counts may fall in begins.
abbrev pub window_start : Time → Time → Time → Time
window_start min_end max_start max_end = if equal min_end max_end then max_start else min_end

-- Within the window: neither side of an interval lies outside, nor are the sides swapped.
abbrev pub Within : Time → Time → Time × Time × ℤ → Type 0
Within begin end (a, b, c) = (begin ≤ℤ a) × (a ≤ℤ b) × (b ≤ℤ end)

module _ (fl : Float64) (min_end max_start max_end : Time) where
  -- Whatever float64 arithmetic gives, the interval that is returned for an event lies in the window
  -- of the available partitions, in order, if the event ends no earlier than it begins and the window
  -- is not empty.
  pub adjust-Within :
      (first_ts last_ts : Time) (count : ℤ)
      → first_ts ≤ℤ last_ts
      → window_start min_end max_start max_end ≤ℤ max_end
      → Within
          (window_start min_end max_start max_end)
          max_end
          (adjust_for_available_partitions fl first_ts last_ts count min_end max_start max_end)
  unfolding adjust_for_available_partitions
  adjust-Within first_ts last_ts count h w = ground (arith, h, w)

sub_self : (t : Time) → sub t t ≡ pos 0
unfolding sub
sub_self (pos n) = ground arith
sub_self (negsuc n) = ground arith

sub_later : (s t : Time) → s <ℤ t → pos 0 <ℤ sub t s
unfolding sub
sub_later s t h = ground (arith, h, -ℤ_parts t s)

-- What is documented of float64: a positive number over itself is 1, and 1 times an integer of
-- at most 53 bits converts back to it; 0 over 0 is no number, and no number results from a product with it.
pub record FloatLaws (fl : Float64) : Type 0 where
  pub one : fl.F
  pub over_self : (d : Duration) → pos 0 <ℤ d → fl.over (fl.seconds d) (fl.seconds d) ≡ one
  pub times_one : (n : ℕ) → n ≤ 2 ^ 53 → fl.to_int (fl.times (fl.of_int (pos n)) one) ≡ pos n
  pub nan : fl.F
  pub zero_over_zero : fl.over (fl.seconds (pos 0)) (fl.seconds (pos 0)) ≡ nan
  pub times_nan : (x : fl.F) → fl.times x nan ≡ nan

module _ (fl : Float64) (laws : FloatLaws fl) (min_end max_start max_end : Time) where
  -- An event that lasts some time and lies within the window keeps its times and its whole count,
  -- if that is at most 2 ^ 53.
  pub adjust_keeps_inside :
      (first_ts last_ts : Time) (count : ℕ)
      → count ≤ 2 ^ 53
      → first_ts <ℤ last_ts
      → window_start min_end max_start max_end ≤ℤ first_ts
      → last_ts ≤ℤ max_end
      → adjust_for_available_partitions fl first_ts last_ts (pos count) min_end max_start max_end
        ≡ (first_ts, last_ts, pos count)
  unfolding adjust_for_available_partitions
  adjust_keeps_inside first_ts last_ts count small h a b =
      let e = laws.over_self (sub last_ts first_ts) (sub_later first_ts last_ts h) in
      let e2 = laws.times_one count small in ground (arith, h, a, b, e, e2)

  -- An event that begins and ends at one moment within the window is given the integer to which a
  -- float64 that is no number converts, whatever its count was.
  pub adjust_loses_moment :
      (t : Time) (count : ℤ)
      → window_start min_end max_start max_end ≤ℤ t
      → t ≤ℤ max_end
      → adjust_for_available_partitions fl t t count min_end max_start max_end
        ≡ (t, t, fl.to_int laws.nan)
  unfolding adjust_for_available_partitions
  adjust_loses_moment t count a b =
      let e = sub_self t in
      let e1 = laws.zero_over_zero in
      let e2 = laws.times_nan (fl.of_int count) in ground (arith, a, b, e, e1, e2)
