-- ===== src/Queries/TimeRange/Limits.antt =====
-- The bounds on the time range of a query.
use sloop.Base.{
  ℕ, ◌≤◌, Bool, true, false, ◌≡◌, inl, inr, arith, [], Option, if◌then◌else◌, Bool-cases, subst,
  ◌&&◌, ◌||◌, not,
}
use sloop.Base.Int.{ℤ, pos, ◌-ℤ◌, ◌+ℤ◌, ◌≤ℤ◌, ltb_ℤ, -ℤ_parts, +ℤ_parts}
use sloop.Base.Bytes.{Bytes, eqb}
use sloop.Base.Outcome.{
  no_range_params, lookback_with_start, start_end_pair, Error, Outcome, ok, err, panic, running,
  ◌>>=◌,
}
use sloop.GoTime.{Time, Duration, max_duration, add, sub}
use sloop.Queries.TimeRange.{
  negate, shift_back, widen, cut, range_from_lookback, get_time_range_from_start_end,
  compute_time_range_internal, min_lookback,
}

-- A range of at least `a` and at most `b`.
abbrev pub Lasts : ℤ → ℤ → Time × Time → Type 0
Lasts a b (start, end) = (a ≤ℤ sub end start) × (sub end start ≤ℤ b)

sub-add-negate : (t : Time) (n : ℕ) → n ≤ max_duration → sub t (add t (negate (pos n))) ≡ pos n
unfolding sub add negate
sub-add-negate t n h = ground (
  arith,
  h,
  -ℤ_parts (pos 0) (pos n),
  +ℤ_parts t (pos 0 -ℤ pos n),
  -ℤ_parts t (t +ℤ (pos 0 -ℤ pos n)),
)

widen-long : (s e : Time) → min_lookback ≤ℤ sub (widen (s, e)).1 (widen (s, e)).0
unfolding widen
widen-long s e = elim (Bool-cases (ltb_ℤ (sub e s) min_lookback)) [
  | inl t ↦ rw (t, widen) (rw (sub-add-negate e 60_000_000_000 (omega arith)) (omega arith))
  | inr t ↦ rw (t, widen) (ground (arith, t))
]

cut-Lasts :
    (m : ℕ) (s e : Time)
    → m ≤ max_duration
    → min_lookback ≤ℤ pos m
    → min_lookback ≤ℤ sub e s
    → Lasts min_lookback (pos m) (cut (pos m) (s, e))
unfolding cut
cut-Lasts m s e small h long = elim (Bool-cases (ltb_ℤ (pos m) (sub e s))) [
  | inl t ↦ rw (t, cut, sub-add-negate e m small) (h, omega arith)
  | inr t ↦ rw (t, cut) (long, ground (arith, t))
]

past_checks :
    {A B : Type 0} (a b c : Bool) (x y z : Error) (o : Outcome A) (f : A → B) {r : B}
    → (if a then err x else if b then err y else if c then err z else (do q ← o; ok (f q))) ≡ ok r
    → (q : A) × (f q ≡ r)
past_checks true b c x y z o f h = cc
past_checks false true c x y z o f h = cc
past_checks false false true x y z o f h = cc
past_checks false false false x y z (ok q) f h = (q, cc)
past_checks false false false x y z (err e) f h = cc
past_checks false false false x y z panic f h = cc
past_checks false false false x y z running f h = cc

module _ (parse_duration : Bytes → Option Duration) (parse_time : Bytes → Option Time) where
  checked :
      (look_back start_val end_val : Bytes) (eot : Time) (m : ℕ) {r : Time × Time}
      → compute_time_range_internal parse_duration parse_time look_back start_val end_val eot
          (pos m)
        ≡ ok r
      → (q : Time × Time) × (cut (pos m) (widen (shift_back eot q)) ≡ r)
  unfolding compute_time_range_internal
  checked look_back start_val end_val eot m h =
      past_checks (eqb start_val [] && (eqb end_val [] && eqb look_back []))
        (not (eqb look_back []) && not (eqb start_val []))
        (eqb look_back [] && (eqb start_val [] || eqb end_val [])) no_range_params
        lookback_with_start start_end_pair
        (if eqb look_back []
          then get_time_range_from_start_end start_val end_val
          else range_from_lookback parse_duration parse_time eot look_back end_val)
        (λ q. cut (pos m) (widen (shift_back eot q))) h

  -- With a maximal lookback of at least a minute, and at most the largest duration, a range that is
  -- computed for a query lasts at least a minute and at most the maximal lookback, whatever the
  -- parameters of the query and the parsers of times and durations are.
  pub range-Lasts :
      (look_back start_val end_val : Bytes) (eot : Time) (m : ℕ) {r : Time × Time}
      → m ≤ max_duration
      → min_lookback ≤ℤ pos m
      → compute_time_range_internal parse_duration parse_time look_back start_val end_val eot
          (pos m)
        ≡ ok r
      → Lasts min_lookback (pos m) r
  range-Lasts look_back start_val end_val eot m small h e =
      let (q, e2) = checked look_back start_val end_val eot m e in
      let (s, t) = shift_back eot q in
      subst (Lasts min_lookback (pos m)) e2 (
        cut-Lasts m (widen (shift_back eot q)).0 (widen (shift_back eot q)).1 small h
          (widen-long (shift_back eot q).0 (shift_back eot q).1))
