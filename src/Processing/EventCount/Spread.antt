-- ===== src/Processing/EventCount/Spread.antt =====
-- Spreading a count over minutes loses and invents nothing.
use native.Mathlib.Nat.{div-add-mod}
use sloop.Base.{
  ℕ, zero, suc, ◌+◌, ◌-◌, ◌*◌, ◌/◌, ◌%◌, ◌<◌, min, ◌≡◌, ◌∙◌, refl, ap, sym, ◌⊎◌, inl, inr, arith,
  List, [], ◌∷◌, ltb, if◌then◌else◌, length, All, Bool-cases,
}
use sloop.Base.Int.{ℤ, pos, negsuc, ◌+ℤ◌}
use sloop.GoTime.{Time, Duration, equal, round_minute, unix, add, minute, sub}
use sloop.Processing.EventCount.{
  shares, distribute_value, num_minutes, spread_minutes, spread_out_events,
}

pub total : List ℤ → ℤ
total [] = pos 0
total (c ∷ cs) = c +ℤ total cs

-- The sum of the counts of a map from minutes to counts.
pub total_counts : List (ℤ × ℤ) → ℤ
total_counts [] = pos 0
total_counts ((m, c) ∷ rest) = c +ℤ total_counts rest

abbrev IsCount : ℤ → Type 0
IsCount (pos n) = Unit
IsCount (negsuc n) = ⊥

pos_+ℤ : (a b : ℕ) → pos a +ℤ pos b ≡ pos (a + b)
unfolding ◌+ℤ◌
pos_+ℤ a b = ground arith

length-shares : (n b j at : ℕ) → length (shares (pos n) b j at) ≡ j
unfolding shares
length-shares n b zero at = refl
length-shares n b (suc j) at = ap suc (length-shares n b j (at + 1))

shares-IsCount : (n b j at : ℕ) → All IsCount (shares (pos n) b j at)
unfolding shares
shares-IsCount n b zero at = tt
shares-IsCount n b (suc j) at = (tt, shares-IsCount n b j (at + 1))

-- No two shares differ by more than one.
abbrev pub IsFairShare : ℕ → ℕ → ℤ → Type 0
IsFairShare n b c = (c ≡ pos (n / b)) ⊎ (c ≡ pos (n / b + 1))

shares-fair : (n b j at : ℕ) → All (IsFairShare n b) (shares (pos n) b j at)
unfolding shares
shares-fair n b zero at = tt
shares-fair n b (suc j) at = (
  elim (Bool-cases (ltb at (n % b))) [ inl e ↦ inr (rw e) | inr e ↦ inl (ground (arith, e)) ],
  shares-fair n b j (at + 1),
)

total-shares :
    (n b j at : ℕ)
    → total (shares (pos n) b j at) ≡ pos (j * (n / b) + (min (n % b) (at + j) - min (n % b) at))
unfolding total shares
total-shares n b zero at = ap pos (omega arith)
total-shares n b (suc j) at = rw (total-shares n b j (at + 1), pos_+ℤ) (ap pos (ground arith))

total-distribute : (n b : ℕ) → total (distribute_value (pos n) (pos (suc b))) ≡ pos n
unfolding distribute_value
total-distribute n b =
    let r : n % suc b < suc b = omega arith in
    let d = div-add-mod n (suc b) in total-shares n (suc b) (suc b) 0 ∙ ap pos (omega arith)

-- For a count that is not negative and at least one bucket, the shares are as many as the buckets,
-- their sum is the count, and each is the quotient or one more.
pub distribute_value_fair :
    (n b : ℕ)
    → 0 < b
    → (length (distribute_value (pos n) (pos b)) ≡ b)
      × (total (distribute_value (pos n) (pos b)) ≡ pos n)
      × All (IsFairShare n b) (distribute_value (pos n) (pos b))
distribute_value_fair n zero h = elim h [ ]
distribute_value_fair n (suc b) h = (
  unfold distribute_value in length-shares n (suc b) (suc b) 0,
  total-distribute n b,
  unfold distribute_value in shares-fair n (suc b) (suc b) 0,
)

zero_+ℤ : (z : ℤ) → pos 0 +ℤ z ≡ z
unfolding ◌+ℤ◌
zero_+ℤ (pos n) = ground arith
zero_+ℤ (negsuc n) = ground arith

spread_some :
    (t : Time) (c : ℕ) (cs : List ℤ)
    → total_counts (spread_minutes t (pos (suc c) ∷ cs))
      ≡ pos (suc c) +ℤ total_counts (spread_minutes (add t minute) cs)
unfolding spread_minutes total_counts
spread_some t c cs = elim (Bool-cases (ltb 0 (suc c + 0))) [
  | inl e ↦ rw e
  | inr e ↦ absurd (ground (arith, e))
]

total-spread_minutes :
    (t : Time) (cs : List ℤ) → All IsCount cs → total_counts (spread_minutes t cs) ≡ total cs
unfolding total_counts total spread_minutes
total-spread_minutes t [] h = refl
total-spread_minutes t (pos zero ∷ cs) (h, hs) =
    total-spread_minutes (add t minute) cs hs ∙ sym (zero_+ℤ (total cs))
total-spread_minutes t (pos (suc c) ∷ cs) (h, hs) =
    spread_some t c cs ∙ ap (λ z. pos (suc c) +ℤ z) (total-spread_minutes (add t minute) cs hs)
total-spread_minutes t (negsuc c ∷ cs) (h, hs) = absurd h

one_at_least : (m : ℕ) → (b : ℕ) × ((if ltb m 1 then 1 else m) ≡ suc b)
one_at_least zero = (0, refl)
one_at_least (suc m) = (m, ground arith)

num_minutes-suc : (d : Duration) → (b : ℕ) × (num_minutes d ≡ suc b)
unfolding num_minutes
num_minutes-suc (pos n) = one_at_least ((n + 59_999_999_999) / 60_000_000_000)
num_minutes-suc (negsuc n) = (0, refl)

distribute-IsCount : (n b : ℕ) → All IsCount (distribute_value (pos n) (pos b))
unfolding distribute_value
distribute-IsCount n b = shares-IsCount n b b 0

spread_over :
    (t : Time) (n : ℕ) (d : Duration)
    → total_counts (spread_minutes t (distribute_value (pos n) (pos (num_minutes d)))) ≡ pos n
spread_over t n d =
    let (b, e) = num_minutes-suc d in
    total-spread_minutes t (distribute_value (pos n) (pos (num_minutes d)))
      (distribute-IsCount n (num_minutes d))
    ∙ ap (λ k. total (distribute_value (pos n) (pos k))) e
    ∙ total-distribute n b

single_total : (t : Time) (n : ℕ) → total_counts ((unix t, pos n) ∷ []) ≡ pos n
unfolding total_counts
single_total t n = pos_+ℤ n 0 ∙ ap pos (omega arith)

-- The counts that `spread_out_events` gives to the minutes between any two times, in any order, add
-- up to the count that was to be spread, if that is not negative.
pub spread_out_events_total :
    (first_ts last_ts : Time) (n : ℕ)
    → total_counts (spread_out_events first_ts last_ts (pos n)) ≡ pos n
unfolding spread_out_events
spread_out_events_total first_ts last_ts n =
    let e1 = single_total (round_minute first_ts) n in
    let e2 =
      spread_over (round_minute first_ts) n (sub (round_minute last_ts) (round_minute first_ts)) in
    elim (Bool-cases (equal (round_minute first_ts) (round_minute last_ts))) [
      | inl e ↦ (rw e) ∙ e1
      | inr e ↦ (rw e) ∙ e2
    ]
