-- ===== src/Ingress/Watcher/Channels.antt =====
-- The stop channels of the custom informers: no channel is closed twice, which would be a panic.
use sloop.Base.{
  ℕ, ◌+◌, ◌≤◌, Bool, true, false, ◌≡◌, refl, arith, List, [], ◌∷◌, ◌++◌, Option, none, some,
  if◌then◌else◌, ◌==◌, ==_iff, Bool-cases, inl, inr, map_get, map_put, map_delete,
}
use sloop.Ingress.Watcher.{
  pull_to_refresh, stop_unwanted, pull_to_stop, stop_pulled, Crd, same_crd, Informers, Watcher,
  Action, chans, write_to_out_chan, keep_or_start, existing_or_start_new_crd_informer, stop_begin,
  step, run, new_watcher,
}
use sloop.Ingress.Watcher.Stopping.{run-keeps, step-keeps}

-- How often a number stands in a list.
unfoldable pub times : ℕ → List ℕ → ℕ
times n [] = 0
times n (m ∷ ms) = (if m == n then 1 else 0) + times n ms

pub times-append : (n : ℕ) (xs ys : List ℕ) → times n (xs ++ ys) ≡ times n xs + times n ys
unfolding times
times-append n [] ys = omega arith
times-append n (x ∷ xs) ys = omega (arith, times-append n xs ys)

-- A written entry adds its channel at most.
times-map_put :
    (n m : ℕ) (c : Crd) (is : Informers)
    → times n (chans (map_put same_crd c m is)) ≤ (if m == n then 1 else 0) + times n (chans is)
unfolding times map_put
times-map_put n m c [] = omega arith
times-map_put n m c ((e, k) ∷ is) = ground (arith, times-map_put n m c is)

times-map_delete :
    (n : ℕ) (c : Crd) (is : Informers)
    → times n (chans (map_delete same_crd c is)) ≤ times n (chans is)
unfolding times map_delete
times-map_delete n c [] = omega arith
times-map_delete n c ((e, k) ∷ is) = ground (arith, times-map_delete n c is)

-- A deleted entry takes its channel along.
times-taken :
    (n m : ℕ) (c : Crd) (is : Informers)
    → map_get same_crd c is ≡ some m
    → (if m == n then 1 else 0) + times n (chans (map_delete same_crd c is)) ≤ times n (chans is)
unfolding times map_delete map_get
times-taken n m c [] h = absurd (cc)
times-taken n m c ((e, k) ∷ is) h = elim (Bool-cases (same_crd e c)) [
  | inl q ↦
      let found : some k ≡ some m = rw (map_get, q) at h in
      let same_chan : k ≡ m = cc in
      rw (map_delete, q) (ground (arith, same_chan, times-map_delete n c is))
  | inr q ↦
      let later : map_get same_crd c is ≡ some m = rw (map_get, q) at h in
      rw (map_delete, q) (ground (arith, times-taken n m c is later))
]

module _ {A : Type 0} where
  -- How often a channel is known to the watcher, to the refresh, to Stop, or was closed.
  abbrev pub uses : ℕ → Watcher A → ℕ
  uses n w =
      times n (chans w.crd_informers)
      + times n (chans w.existing)
      + times n (chans w.stopping)
      + times n w.closed

  abbrev pub UsedOnce : Watcher A → Type 0
  UsedOnce w = (n : ℕ) → (uses n w ≤ 1) × (w.next_chan ≤ n → uses n w ≡ 0)

  -- A step that adds no use of a channel.
  fewer :
      (w w' : Watcher A)
      → w.next_chan ≡ w'.next_chan
      → ((n : ℕ) → uses n w' ≤ uses n w)
      → UsedOnce w
      → UsedOnce w'
  fewer w w' e f u n =
      let (a, b) = u n in
      let c = f n in
      (omega (arith, a, c), λ h. let z = b (omega (arith, e, h)) in omega (arith, z, c))

  -- A step that starts one channel.
  one_more :
      (w w' : Watcher A)
      → w'.next_chan ≡ w.next_chan + 1
      → ((n : ℕ) → uses n w' ≤ (if w.next_chan == n then 1 else 0) + uses n w)
      → UsedOnce w
      → UsedOnce w'
  one_more w w' e f u n = elim (Bool-cases (w.next_chan == n)) [
    | inl q ↦
        let c : uses n w' ≤ 1 + uses n w = rw q at (f n) in
        let same : w.next_chan ≡ n = (==_iff w.next_chan n).0 q in
        let z = (u n).1 (omega (arith, same)) in
        (omega (arith, c, z), λ h. absurd (omega (arith, same, e, h)))
    | inr q ↦
        let c : uses n w' ≤ 0 + uses n w = rw q at (f n) in
        let (a, b) = u n in
        (omega (arith, a, c), λ h. let z = b (omega (arith, e, h)) in omega (arith, z, c))
  ]

  start-UsedOnce :
      (c : Crd) (found : Option ℕ) (w : Watcher A)
      → map_get same_crd c w.existing ≡ found
      → UsedOnce w
      → UsedOnce (keep_or_start c found w)
  unfolding keep_or_start
  start-UsedOnce c (some m) w e u =
      fewer w (keep_or_start c (some m) w) refl
        (λ n. omega (arith, times-map_put n m c w.crd_informers, times-taken n m c w.existing e)) u
  start-UsedOnce c none w e u =
      one_more w (keep_or_start c none w) refl
        (λ n. omega (arith, times-map_put n w.next_chan c w.crd_informers)) u

  either : (b : Bool) (x y : Watcher A) → UsedOnce x → UsedOnce y → UsedOnce (if b then x else y)
  either true x y u v = u
  either false x y u v = v

  step-UsedOnce : (w w' : Watcher A) (a : Action A) → step w a ≡ some w' → UsedOnce w → UsedOnce w'
  unfolding write_to_out_chan existing_or_start_new_crd_informer stop_begin times
  step-UsedOnce w w' a h u =
      step-keeps UsedOnce w w' a (λ r g. either w.stopped w _ u u)
        (λ g. fewer w (pull_to_refresh w) refl (λ n. omega arith) u)
        (λ c g. either w.stopped w _ u (start-UsedOnce c (map_get same_crd c w.existing) w refl u))
        (fewer w (stop_unwanted w) refl
          (λ n. omega (arith, times-append n (chans w.existing) w.closed)) u)
        (λ g. either w.stopped _ _ u u) u (λ g. fewer w (pull_to_stop w) refl (λ n. omega arith) u)
        (fewer w (stop_pulled w) refl
          (λ n. omega (arith, times-append n (chans w.stopping) w.closed)) u)
        h

  -- In any run of a new watcher each stop channel stands at most once in all of: the informers that it
  -- has, those of the refresh, those that Stop has pulled, and the channels that were closed. So no
  -- channel is closed twice, and none that is closed is in use.
  pub channels_used_once :
      (actions : List (Action A)) (w : Watcher A)
      → run actions new_watcher ≡ some w
      → (n : ℕ) → uses n w ≤ 1
  unfolding times new_watcher
  channels_used_once actions w h n =
      (run-keeps UsedOnce step-UsedOnce actions new_watcher w h
        (λ m. (omega arith, λ l. omega arith)) n).0
