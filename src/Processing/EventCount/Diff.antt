-- ===== src/Processing/EventCount/Diff.antt =====
-- The difference between successive reports of one event, pkg/sloop/processing/eventcount.go.
use sloop.Base.{◌≡◌, ◌∙◌, refl, ap, arith, List, [], ◌∷◌, Option, none, some}
use sloop.Base.Int.{ℤ, pos, ◌+ℤ◌, ◌-ℤ◌, ◌≤ℤ◌, ◌<ℤ◌, int_laws}
use sloop.GoTime.{Time, max_duration, wrap_int}
use sloop.KubeExtractor.{EventInfo}
use sloop.Processing.EventCount.{Float64, compute_events_diff}

pub count_of : Time × Time × ℤ → ℤ
count_of (a, b, c) = c

-- What is counted in all for a series of reports, each compared with the one before it.
pub counted : Float64 → Option EventInfo → List EventInfo → ℤ
unfolding count_of
counted fl prev [] = pos 0
counted fl prev (r ∷ rs) = count_of (compute_events_diff fl prev r) +ℤ counted fl (some r) rs

-- Kubernetes reports a repeated event with the first time kept, a later last time and a count that
-- does not shrink. Counts are not negative, and fit into an int.
pub record Repeats (old new : EventInfo) : Type 0 where
  pub same_first : new.first_timestamp ≡ old.first_timestamp
  pub first_le_last : old.first_timestamp ≤ℤ old.last_timestamp
  pub later : old.last_timestamp <ℤ new.last_timestamp
  pub not_negative : pos 0 ≤ℤ old.count
  pub grows : old.count ≤ℤ new.count
  pub fits : new.count ≤ℤ pos max_duration

abbrev pub AllRepeat : EventInfo → List EventInfo → Type 0
AllRepeat r [] = Unit
AllRepeat r (s ∷ rest) = Repeats r s × AllRepeat s rest

pub last_report : EventInfo → List EventInfo → EventInfo
last_report r [] = r
last_report r (s ∷ rest) = last_report s rest

telescope : (s r k : ℤ) → s -ℤ r +ℤ k +ℤ r ≡ k +ℤ s
telescope s r k = omega int_laws

+ℤ_comm : (a b : ℤ) → a +ℤ b ≡ b +ℤ a
+ℤ_comm a b = omega int_laws

zero_+ℤ : (a : ℤ) → pos 0 +ℤ a ≡ a
zero_+ℤ a = omega int_laws

module _ (fl : Float64) where
  wrapped : (a b : ℤ) → pos 0 ≤ℤ a → a ≤ℤ b → b ≤ℤ pos max_duration → wrap_int (b -ℤ a) ≡ b -ℤ a
  unfolding ◌-ℤ◌ wrap_int
  wrapped a b h i j = ground (arith, h, i, j)

  diff_repeat :
      (old new : EventInfo)
      → Repeats old new
      → compute_events_diff fl (some old) new
        ≡ (old.last_timestamp, new.last_timestamp, new.count -ℤ old.count)
  unfolding compute_events_diff
  diff_repeat old new h =
      let e = h.same_first in
      let a = h.first_le_last in
      let b = h.later in
      let c = h.grows in
      let w = wrapped old.count new.count h.not_negative h.grows h.fits in
      ground (arith, e, a, b, c, w)

  counted_repeat :
      (r s : EventInfo) (rest : List EventInfo)
      → Repeats r s
      → counted fl (some r) (s ∷ rest) ≡ s.count -ℤ r.count +ℤ counted fl (some s) rest
  unfolding counted count_of
  counted_repeat r s rest h = rw (diff_repeat r s h)

  counted_after :
      (r : EventInfo) (rs : List EventInfo)
      → AllRepeat r rs
      → counted fl (some r) rs +ℤ r.count ≡ (last_report r rs).count
  unfolding counted last_report
  counted_after r [] h = zero_+ℤ r.count
  counted_after r (s ∷ rest) (h, hs) =
      ap (λ z. z +ℤ r.count) (counted_repeat r s rest h)
      ∙ telescope s.count r.count (counted fl (some s) rest)
      ∙ counted_after s rest hs

  counted_first :
      (r : EventInfo) (rs : List EventInfo)
      → counted fl none (r ∷ rs) ≡ r.count +ℤ counted fl (some r) rs
  unfolding counted count_of compute_events_diff
  counted_first r rs = refl

  -- The counts that `compute_events_diff` returns for a first report of an event and any number of
  -- later reports of it, each compared with the one before, add up to the count of the last report,
  -- if each report keeps the first time, comes with a later last time and with a count that is not
  -- smaller, and the counts are not negative and fit into an int of 64 bits.
  pub reports_add_up :
      (r : EventInfo) (rs : List EventInfo)
      → AllRepeat r rs
      → counted fl none (r ∷ rs) ≡ (last_report r rs).count
  reports_add_up r rs h =
      counted_first r rs ∙ +ℤ_comm r.count (counted fl (some r) rs) ∙ counted_after r rs h
