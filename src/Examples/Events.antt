-- ===== src/Examples/Events.antt =====
-- Counts of concrete events.
use sloop.Base.{ℕ, zero, suc, ◌*◌, ◌+◌, ◌≡◌, arith, refl, [], ◌∷◌, none}
use sloop.Base.Int.{ℤ, pos, negsuc, ◌<ℤ◌, leb_ℤ}
use sloop.Base.Bytes.{codes}
use sloop.GoTime.{Duration}
use sloop.KubeExtractor.{EventInfo}
use sloop.Processing.EventCount.{Float64, adjust_for_available_partitions, spread_out_events}
use sloop.Processing.EventCount.Spread.{total_counts, spread_out_events_total}
use sloop.Processing.EventCount.Diff.{AllRepeat, counted, last_report, reports_add_up}
use sloop.Processing.EventCount.Adjust.{FloatLaws, adjust_loses_moment}

abbrev start : ℕ
start = 1_546_311_845_000_000_000

abbrev minute_ns : ℕ
minute_ns = 60_000_000_000

abbrev report : ℕ → ℕ → EventInfo
report minutes count = record {
  reason = codes "BackOff";
  event_type = codes "Warning";
  first_timestamp = pos start;
  last_timestamp = pos (start + minutes * minute_ns);
  count = pos count;
}

-- A stand-in for float64 in which only 1 and "no number" are told apart from the rest, enough to
-- satisfy what the theorems ask.
pub data Sample : Type 0 where
  number : ℤ → Sample
  whole : Sample
  not_a_number : Sample

abbrev sample_times : Sample → Sample → Sample
sample_times x whole = x
sample_times x (number n) = number n
sample_times x not_a_number = not_a_number

abbrev sample_over : Sample → Sample → Sample
sample_over (number (pos zero)) y = not_a_number
sample_over (number (pos (suc n))) y = whole
sample_over (number (negsuc n)) y = whole
sample_over whole y = whole
sample_over not_a_number y = whole

abbrev sample_int : Sample → ℤ
sample_int (number n) = n
sample_int whole = pos 1
sample_int not_a_number = negsuc 9_223_372_036_854_775_807

abbrev pub sample : Float64
sample = record {
  F = Sample;
  of_int = number;
  to_int = sample_int;
  seconds = number;
  minus = λ x y. x;
  times = sample_times;
  over = sample_over;
  not_positive = λ x. leb_ℤ (sample_int x) (pos 0);
}

positive_over : (d : Duration) → pos 0 <ℤ d → sample_over (number d) (number d) ≡ whole
positive_over (pos zero) h = absurd (omega arith)
positive_over (pos (suc n)) h = refl
positive_over (negsuc n) h = absurd (omega arith)

abbrev sample_laws : FloatLaws sample
sample_laws = record {
  one = whole;
  over_self = positive_over;
  times_one = λ n h. refl;
  nan = not_a_number;
  zero_over_zero = refl;
  times_nan = λ x. refl;
}

spread_out_events_total_example :
    total_counts (spread_out_events (pos start) (pos (start + 5 * minute_ns)) (pos 7)) ≡ pos 7
spread_out_events_total_example =
    spread_out_events_total (pos start) (pos (start + 5 * minute_ns)) 7

reports_repeat : AllRepeat (report 1 2) (report 4 5 ∷ report 9 11 ∷ [])
reports_repeat = (
  record {
    same_first = refl;
    first_le_last = omega arith;
    later = omega arith;
    not_negative = omega arith;
    grows = omega arith;
    fits = omega arith;
  },
  (
    record {
      same_first = refl;
      first_le_last = omega arith;
      later = omega arith;
      not_negative = omega arith;
      grows = omega arith;
      fits = omega arith;
    },
    tt,
  ),
)

reports_add_up_example :
    counted sample none (report 1 2 ∷ report 4 5 ∷ report 9 11 ∷ [])
    ≡ (last_report (report 1 2) (report 4 5 ∷ report 9 11 ∷ [])).count
reports_add_up_example =
    reports_add_up sample (report 1 2) (report 4 5 ∷ report 9 11 ∷ []) reports_repeat

-- The window: from the end of the first partition to the end of the last one.
abbrev window_end : ℕ
window_end = 1_546_326_000_000_000_000

adjust_loses_moment_example :
    adjust_for_available_partitions sample
      (pos start)
      (pos start)
      (pos 1)
      (pos 1_546_311_600_000_000_000)
      (pos 0)
      (pos window_end)
    ≡ (pos start, pos start, negsuc 9_223_372_036_854_775_807)
adjust_loses_moment_example =
    adjust_loses_moment sample sample_laws (pos 1_546_311_600_000_000_000) (pos 0) (pos window_end)
      (pos start) (pos 1) (omega arith) (omega arith)
