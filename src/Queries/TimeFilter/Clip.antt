-- ===== src/Queries/TimeFilter/Clip.antt =====
-- A resource summary that is kept for a query is cut to the time of the query.
use sloop.Base.{
  Bool, true, false, ◌||◌, ◌≡◌, ◌⊎◌, subst, arith, Option, none, some, if◌then◌else◌, Bool-cases,
  inl, inr,
}
use sloop.Base.Int.{◌≤ℤ◌, ◌<ℤ◌}
use sloop.Base.Outcome.{ok, ◌>>=◌, >>=-eq-ok, or_err, bad_time}
use sloop.GoTime.{Time, before, after}
use sloop.Typed.Schema.{ResourceSummary}
use sloop.Queries.TimeFilter.{bounded, time_filter_res_sum_value}

-- The later of two times, and the earlier.
abbrev pub not_before : Time → Time → Time
not_before bound t = if before t bound then bound else t

abbrev pub not_after : Time → Time → Time
not_after bound t = if after t bound then bound else t

module _ {TS : Type 0} (timestamp : TS → Option Time) (timestamp_proto : Time → Option TS) where
  -- A time that was made a timestamp is read back.
  abbrev pub IsReadBack : Type 0
  IsReadBack = (t : Time) (ts : TS) → timestamp_proto t ≡ some ts → timestamp ts ≡ some t

  or_err-some : (o : Option TS) (a : TS) → or_err o bad_time ≡ ok a → o ≡ some a
  or_err-some none a h = absurd (cc)
  or_err-some (some b) a h = cc

  bounded-timestamp :
      (passes : Bool) (bound t : Time) (ts ts' : TS)
      → IsReadBack
      → timestamp ts ≡ some t
      → bounded timestamp timestamp_proto passes bound ts ≡ ok ts'
      → timestamp ts' ≡ some (if passes then bound else t)
  unfolding bounded
  bounded-timestamp true bound t ts ts' r e h =
      r bound ts' (or_err-some (timestamp_proto bound) ts' h)
  bounded-timestamp false bound t ts ts' r e h =
      let same : ts ≡ ts' = cc in subst (λ x. timestamp x ≡ some t) same e

  -- The summary lasts from `a` to `b`, and is cut to the query from `lo` to `hi`.
  pub record IsClipped (lo hi a b : Time) (value : ResourceSummary TS) : Type 0 where
    pub create : timestamp value.create_time ≡ some (not_before lo a)
    pub last : timestamp value.last_seen ≡ some (not_after hi b)
    pub meets : (a ≤ℤ hi) × (lo ≤ℤ b)

  apart : (a b lo hi : Time) → (after a hi || before b lo) ≡ false → (a ≤ℤ hi) × (lo ≤ℤ b)
  apart a b lo hi h = (ground (arith, h), ground (arith, h))

  cut_both :
      (value v : ResourceSummary TS) (lo hi a b : Time) (c l : TS)
      → IsReadBack
      → timestamp value.create_time ≡ some a
      → timestamp value.last_seen ≡ some b
      → (a ≤ℤ hi) × (lo ≤ℤ b)
      → bounded timestamp timestamp_proto (before a lo) lo value.create_time ≡ ok c
      → bounded timestamp timestamp_proto (after b hi) hi value.last_seen ≡ ok l
      → ok (some (record value { create_time = c; last_seen = l })) ≡ ok (some v)
      → IsClipped lo hi a b v
  cut_both value v lo hi a b c l r ea eb m ec el h =
      let same : (record value { create_time = c; last_seen = l }) ≡ v = cc in
      subst (IsClipped lo hi a b) same (record {
        create = bounded-timestamp (before a lo) lo a value.create_time c r ea ec;
        last = bounded-timestamp (after b hi) hi b value.last_seen l r eb el;
        meets = m;
      })

  in_order :
      (lo hi a b : Time)
      → a ≤ℤ hi
      → lo ≤ℤ b
      → ((b <ℤ a) ⊎ (hi <ℤ lo)) ⊎ (not_before lo a ≤ℤ not_after hi b)
  in_order lo hi a b m1 m2 = elim (Bool-cases (before b a)) [
    | inl q ↦ inl (inl (ground (arith, q)))
    | inr q ↦ elim (Bool-cases (before hi lo)) [
      | inl p ↦ inl (inr (ground (arith, p)))
      | inr p ↦ inr (ground (arith, q, p, m1, m2))
    ]
  ]

  -- Where a timestamp made of a time is read back as that time: if a summary that lasts from one time to
  -- another is kept for a query, it met the time of the query, its creation is moved up to the start
  -- of the query if it was before it, its last time is moved back to the end of the query if it was
  -- behind it, so that neither lies outside on its side, and the result ends no earlier than it begins,
  -- unless the summary or the query did.
  pub kept_summary-IsClipped :
      (value v : ResourceSummary TS) (lo hi a b : Time)
      → IsReadBack
      → timestamp value.create_time ≡ some a
      → timestamp value.last_seen ≡ some b
      → time_filter_res_sum_value timestamp timestamp_proto value lo hi ≡ ok (some v)
      → IsClipped lo hi a b v
        × (lo ≤ℤ not_before lo a)
        × (not_after hi b ≤ℤ hi)
        × (((b <ℤ a) ⊎ (hi <ℤ lo)) ⊎ (not_before lo a ≤ℤ not_after hi b))
  unfolding time_filter_res_sum_value
  kept_summary-IsClipped value v lo hi a b r ea eb h =
      elim (Bool-cases (after a hi || before b lo)) [
        | inl q ↦ absurd (cc (rw (time_filter_res_sum_value, ea, eb, q) at h))
        | inr q ↦
            let kept : (do
              c ← bounded timestamp timestamp_proto (before a lo) lo value.create_time
              l ← bounded timestamp timestamp_proto (after b hi) hi value.last_seen
              ok (some (record value { create_time = c; last_seen = l })))
                ≡ ok (some v) =
              rw (time_filter_res_sum_value, ea, eb, q) at h in
            let (c, ec, h1) =
              >>=-eq-ok (bounded timestamp timestamp_proto (before a lo) lo value.create_time) _
                kept in
            let (l, el, h2) =
              >>=-eq-ok (bounded timestamp timestamp_proto (after b hi) hi value.last_seen) _ h1 in
            let (m1, m2) = apart a b lo hi q in
            (
              cut_both value v lo hi a b c l r ea eb (m1, m2) ec el h2,
              ground arith,
              ground arith,
              in_order lo hi a b m1 m2,
            )
      ]
