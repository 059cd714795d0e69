-- ===== src/Processing/Minutes/Counts.antt =====
-- What adding a count to a minute changes, and where counts are dropped.
use sloop.Base.{
  Bool, true, false, ◌&&◌, ◌≡◌, ◌∙◌, refl, ap, subst, arith, ◌↔◌, List, [], Option, none, some,
  if◌then◌else◌, Bool-cases, inl, inr, map_get, map_put, map_get-map_put,
}
use sloop.Base.Int.{ℤ, pos, ◌+ℤ◌, eqb_ℤ, eqb_ℤ→eq, to_int32}
use sloop.Base.Bytes.{Bytes, eqb, eqb_iff}
use sloop.Base.Outcome.{ok, >>=-eq-ok}
use sloop.Typed.Schema.{EventCounts}
use sloop.Processing.Minutes.{count_of_reason, add_to_map, add_count, add_minute}

abbrev count_of : Bytes → Option (List (Bytes × ℤ)) → ℤ
count_of reason none = pos 0
count_of reason (some m) = count_of_reason reason m

abbrev pub count_in : Bytes → Option EventCounts → ℤ
count_in reason none = pos 0
count_in reason (some c) = count_of reason c.map_reason_to_count

-- The count of a reason in a minute.
abbrev pub count_at : ℤ → Bytes → List (ℤ × EventCounts) → ℤ
count_at u reason m = count_in reason (map_get eqb_ℤ u m)

eqb_ℤ_iff : (a b : ℤ) → (eqb_ℤ a b ≡ true) ↔ (a ≡ b)
eqb_ℤ_iff a b = (eqb_ℤ→eq a b, λ e. ground (arith, e))

count_of_reason-map_put :
    (reason other : Bytes) (n : ℤ) (m : List (Bytes × ℤ))
    → count_of_reason other (map_put eqb reason n m)
      ≡ (if eqb reason other then n else count_of_reason other m)
unfolding count_of_reason
count_of_reason-map_put reason other n m = elim (Bool-cases (eqb reason other)) [
  | inl e ↦
      let q : map_get eqb other (map_put eqb reason n m) ≡ some n =
        map_get-map_put eqb eqb_iff reason other n m ∙ rw e in
      rw (e, count_of_reason, q)
  | inr e ↦
      let q : map_get eqb other (map_put eqb reason n m) ≡ map_get eqb other m =
        map_get-map_put eqb eqb_iff reason other n m ∙ rw e in
      rw (e, count_of_reason, q)
]

-- What a reason counts after `n` more were added to one, by what both counted.
abbrev pub after_adding : Bool → ℤ → ℤ → ℤ → ℤ
after_adding same n old_here old_there =
    if same then to_int32 (old_here +ℤ to_int32 n) else old_there

add_to_map-counts :
    (reason other : Bytes) (n : ℤ) (old : Option (List (Bytes × ℤ))) (new : EventCounts)
    → add_to_map reason n old ≡ ok new
    → count_of other new.map_reason_to_count
      ≡ after_adding (eqb reason other) n (count_of reason old) (count_of other old)
unfolding add_to_map
add_to_map-counts reason other n none new h = absurd (cc)
add_to_map-counts reason other n (some m) new h =
    let put = map_put eqb reason (to_int32 (count_of_reason reason m +ℤ to_int32 n)) m in
    let q : ◌≡◌ {A = EventCounts} (record { map_reason_to_count = some put }) new = cc in
    subst
      (λ x.
        count_of other x.map_reason_to_count
        ≡ after_adding (eqb reason other) n (count_of_reason reason m) (count_of_reason other m))
      q (count_of_reason-map_put reason other (to_int32 (count_of_reason reason m +ℤ to_int32 n)) m)

add_count-counts :
    (reason other : Bytes) (n : ℤ) (old : Option EventCounts) (new : EventCounts)
    → add_count reason n old ≡ ok new
    → count_in other (some new)
      ≡ after_adding (eqb reason other) n (count_in reason old) (count_in other old)
unfolding add_count
add_count-counts reason other n none new h = add_to_map-counts reason other n (some []) new h
add_count-counts reason other n (some c) new h =
    add_to_map-counts reason other n c.map_reason_to_count new h

-- Where one minute is written, by whether it is the one that is read.
read_after_put :
    (u v : ℤ) (reason other : Bytes) (n : ℤ) (m : List (ℤ × EventCounts)) (new : EventCounts)
    → add_count reason n (map_get eqb_ℤ u m) ≡ ok new
    → (here : Bool) → eqb_ℤ u v ≡ here
    → count_at v other (map_put eqb_ℤ u new m)
      ≡ after_adding (here && eqb reason other) n (count_at u reason m) (count_at v other m)
read_after_put u v reason other n m new e true h =
    let written : map_get eqb_ℤ v (map_put eqb_ℤ u new m) ≡ some new =
      map_get-map_put eqb_ℤ eqb_ℤ_iff u v new m
      ∙ ap (λ x. if x then some new else map_get eqb_ℤ v m) h in
    ap (count_in other) written
    ∙ add_count-counts reason other n (map_get eqb_ℤ u m) new e
    ∙ ap (λ x. after_adding (eqb reason other) n (count_at u reason m) (count_at x other m))
        (eqb_ℤ→eq u v h)
read_after_put u v reason other n m new e false h =
    let kept : map_get eqb_ℤ v (map_put eqb_ℤ u new m) ≡ map_get eqb_ℤ v m =
      map_get-map_put eqb_ℤ eqb_ℤ_iff u v new m
      ∙ ap (λ x. if x then some new else map_get eqb_ℤ v m) h in
    ap (count_in other) kept

-- When a count is added for a reason to a minute, the count of that reason in that minute is the sum of
-- what it was, 0 if there was none, and the count, each as an int32 that wraps around; every other
-- reason of the minute and every other minute keep their counts.
pub minute_added :
    (u v : ℤ) (reason other : Bytes) (n : ℤ) (m m' : List (ℤ × EventCounts))
    → add_minute u reason n m ≡ ok m'
    → count_at v other m'
      ≡ after_adding (eqb_ℤ u v && eqb reason other) n (count_at u reason m) (count_at v other m)
unfolding add_minute
minute_added u v reason other n m m' h =
    let (new, e, q) = >>=-eq-ok (add_count reason n (map_get eqb_ℤ u m)) _ h in
    let eq : map_put eqb_ℤ u new m ≡ m' = cc in
    subst
      (λ x.
        count_at v other x
        ≡ after_adding (eqb_ℤ u v && eqb reason other) n (count_at u reason m) (count_at v other m))
      eq (read_after_put u v reason other n m new e (eqb_ℤ u v) refl)
