-- ===== src/Queries/Payloads/Replay.antt =====
-- What an object's payload was at any time, read from the payloads that are left and from all of them.
use sloop.Base.{
  Bool, false, ◌≡◌, ◌≢◌, ◌∙◌, refl, sym, subst, arith, List, [], ◌∷◌, All, if◌then◌else◌,
  Bool-cases, inl, inr,
}
use sloop.Base.Int.{ℤ, leb_ℤ, ◌≤ℤ◌}
use sloop.Base.Bytes.{Bytes, eqb, eqb_iff}
use sloop.Queries.Payloads.{PayloadOutput, drop_repeats, remove_dupe_payloads}

-- The entry is not later than the time.
unfoldable reached : ℤ → PayloadOutput → Bool
reached time val = leb_ℤ val.payload_time time

-- The payload at a time: that of the last entry that is not later, `before` where there is none.
unfoldable pub payload_at : ℤ → Bytes → List PayloadOutput → Bytes
unfolding reached
payload_at time before [] = before
payload_at time before (val ∷ payloads) =
    let held = payload_at time val.payload payloads in
    let skipped = payload_at time before payloads in if reached time val then held else skipped

-- Each entry is not later than those behind it.
abbrev pub IsSortedByTime : List PayloadOutput → Type 0
IsSortedByTime [] = Unit
IsSortedByTime (val ∷ payloads) =
    All (λ p. val.payload_time ≤ℤ p.payload_time) payloads × IsSortedByTime payloads

-- No entry repeats the payload of the one before it.
abbrev pub NoRepeats : Bytes → List PayloadOutput → Type 0
NoRepeats last_payload [] = Unit
NoRepeats last_payload (val ∷ payloads) =
    (val.payload ≢ last_payload) × NoRepeats val.payload payloads

All-later :
    (time : ℤ) (before : Bytes) (ps : List PayloadOutput)
    → All (λ p. reached time p ≡ false) ps
    → payload_at time before ps ≡ before
unfolding payload_at
All-later time before [] h = refl
All-later time before (p ∷ ps) (h, hs) = rw h (All-later time before ps hs)

drop_repeats-later :
    (time : ℤ) (last : Bytes) (ps : List PayloadOutput)
    → All (λ p. reached time p ≡ false) ps
    → All (λ p. reached time p ≡ false) (drop_repeats last ps)
unfolding drop_repeats
drop_repeats-later time last [] h = tt
drop_repeats-later time last (p ∷ ps) (h, hs) = elim (Bool-cases (eqb p.payload last)) [
  | inl e ↦ rw e (drop_repeats-later time p.payload ps hs)
  | inr e ↦ rw e (h, drop_repeats-later time p.payload ps hs)
]

later_than :
    (time : ℤ) (first : PayloadOutput) (ps : List PayloadOutput)
    → reached time first ≡ false
    → All (λ p. first.payload_time ≤ℤ p.payload_time) ps
    → All (λ p. reached time p ≡ false) ps
unfolding reached
later_than time first [] h a = tt
later_than time first (p ∷ ps) h (a, rest) = (ground (arith, h, a), later_than time first ps h rest)

-- While the payload that was dropped last is also the one that holds.
replay :
    (time : ℤ) (last : Bytes) (ps : List PayloadOutput)
    → IsSortedByTime ps
    → payload_at time last (drop_repeats last ps) ≡ payload_at time last ps
unfolding payload_at drop_repeats
replay time last [] s = refl
replay time last (p ∷ ps) (h, s) = elim (Bool-cases (reached time p)) [
  | inl e ↦ elim (Bool-cases (eqb p.payload last)) [
    | inl q ↦
        rw (e, q)
          (subst (λ x. payload_at time x (drop_repeats p.payload ps) ≡ payload_at time p.payload ps)
            ((eqb_iff p.payload last).0 q) (replay time p.payload ps s))
    | inr q ↦ rw (e, q) (rw e (replay time p.payload ps s))
  ]
  | inr e ↦
      let later : All (λ x. reached time x ≡ false) (p ∷ ps) = (e, later_than time p ps e h) in
      All-later time last (drop_repeats last (p ∷ ps)) (drop_repeats-later time last (p ∷ ps) later)
      ∙ sym (All-later time last (p ∷ ps) later)
]

drop_repeats-NoRepeats :
    (last : Bytes) (ps : List PayloadOutput) → NoRepeats last (drop_repeats last ps)
unfolding drop_repeats
drop_repeats-NoRepeats last [] = tt
drop_repeats-NoRepeats last (p ∷ ps) = elim (Bool-cases (eqb p.payload last)) [
  | inl q ↦ rw q (
      subst (λ x. NoRepeats x (drop_repeats p.payload ps)) ((eqb_iff p.payload last).0 q)
        (drop_repeats-NoRepeats p.payload ps))
  | inr q ↦
      rw q (λ e. absurd (cc ((eqb_iff p.payload last).1 e, q)), drop_repeats-NoRepeats p.payload ps)
]

-- For any sort of the payloads that puts them in the order of their times: no payload that is left
-- repeats the one before it, the first is not empty, and at any time the payload that is read from
-- those that are left is the one that is read from all of them.
pub dupes_replay :
    (sort_slice : List PayloadOutput → List PayloadOutput)
    → ((ps : List PayloadOutput) → IsSortedByTime (sort_slice ps))
    → (payloads : List PayloadOutput)
    → NoRepeats [] (remove_dupe_payloads sort_slice payloads)
      × ((time : ℤ)
          → payload_at time [] (remove_dupe_payloads sort_slice payloads)
            ≡ payload_at time [] (sort_slice payloads))
unfolding remove_dupe_payloads
dupes_replay sort_slice h payloads = (
  drop_repeats-NoRepeats [] (sort_slice payloads),
  λ time. replay time [] (sort_slice payloads) (h payloads),
)
