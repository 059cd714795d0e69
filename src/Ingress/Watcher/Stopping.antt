-- ===== src/Ingress/Watcher/Stopping.antt =====
-- What a watcher sends, and how far Stop comes, over any run.
use sloop.Base.{
  Bool, true, false, not, ◌||◌, ◌≡◌, refl, subst, arith, List, [], ◌∷◌, none, some, if◌then◌else◌,
  Option-cases, inl, inr,
}
use sloop.Ingress.Watcher.{
  pull_to_refresh, stop_unwanted, pull_to_stop, stop_pulled, Crd, Watcher, Action, write,
  refresh_pull, refresh_crd, refresh_stop, stop, stop_chan, stop_pull, stop_crds, is_flagged,
  is_chan_closed, is_pulled, chan_closed, write_to_out_chan, existing_or_start_new_crd_informer,
  stop_begin, step, run,
}

-- A step behind a guard happened because the guard was down.
pub guard_passed :
    {B : Type 0} (guard : Bool) (x y : B)
    → (if guard then none else some x) ≡ some y
    → (guard ≡ false) × (x ≡ y)
guard_passed true x y h = absurd (cc)
guard_passed false x y h = (refl, cc)

or_left : (a b : Bool) → (a || b) ≡ false → a ≡ false
or_left a b h = ground (arith, h)

module _ {A : Type 0} where
  -- What every action keeps is kept by every run.
  pub run-keeps :
      (P : Watcher A → Type 0)
      → ((w w' : Watcher A) (a : Action A) → step w a ≡ some w' → P w → P w')
      → (actions : List (Action A)) (w w' : Watcher A) → run actions w ≡ some w'
      → P w
      → P w'
  unfolding run
  run-keeps P keeps [] w w' h p = let e : w ≡ w' = cc in subst P e p
  run-keeps P keeps (a ∷ actions) w w' h p = elim (Option-cases (step w a)) [
    | inl e ↦ absurd (cc (rw (run, e) at h))
    | inr (v, e) ↦ run-keeps P keeps actions v w' (rw (run, e) at h) (keeps w v a e p)
  ]

  -- What an action yields satisfies what its result is given to, by cases on the action.
  pub step-keeps :
      (P : Watcher A → Type 0) (w w' : Watcher A) (a : Action A)
      → ((r : A) → w.locked ≡ false → P (write_to_out_chan r w))
      → (w.locked ≡ false → P (pull_to_refresh w))
      → ((c : Crd) → w.locked ≡ false → P (existing_or_start_new_crd_informer c w))
      → P (stop_unwanted w)
      → (w.locked ≡ false → P (stop_begin w))
      → P (record w { phase = chan_closed })
      → (w.locked ≡ false → P (pull_to_stop w))
      → P (stop_pulled w)
      → step w a ≡ some w'
      → P w'
  unfolding step
  step-keeps P w w' (write r) f1 f2 f3 f4 f5 f6 f7 f8 h =
      let (g, e) = guard_passed w.locked _ w' h in subst P e (f1 r g)
  step-keeps P w w' refresh_pull f1 f2 f3 f4 f5 f6 f7 f8 h =
      let (g, e) = guard_passed (w.locked || w.refreshing) _ w' h in
      subst P e (f2 (or_left w.locked w.refreshing g))
  step-keeps P w w' (refresh_crd c) f1 f2 f3 f4 f5 f6 f7 f8 h =
      let (g, e) = guard_passed (w.locked || not w.refreshing) _ w' h in
      subst P e (f3 c (or_left w.locked (not w.refreshing) g))
  step-keeps P w w' refresh_stop f1 f2 f3 f4 f5 f6 f7 f8 h =
      let (g, e) = guard_passed (not w.refreshing) _ w' h in subst P e f4
  step-keeps P w w' stop f1 f2 f3 f4 f5 f6 f7 f8 h =
      let (g, e) = guard_passed w.locked _ w' h in subst P e (f5 g)
  step-keeps P w w' stop_chan f1 f2 f3 f4 f5 f6 f7 f8 h =
      let (g, e) = guard_passed (not (is_flagged w.phase)) _ w' h in subst P e f6
  step-keeps P w w' stop_pull f1 f2 f3 f4 f5 f6 f7 f8 h =
      let (g, e) = guard_passed (w.locked || not (is_chan_closed w.phase)) _ w' h in
      subst P e (f7 (or_left w.locked (not (is_chan_closed w.phase)) g))
  step-keeps P w w' stop_crds f1 f2 f3 f4 f5 f6 f7 f8 h =
      let (g, e) = guard_passed (not (is_pulled w.phase)) _ w' h in subst P e f8

  -- Nothing more is sent.
  abbrev Silent : List A → Watcher A → Type 0
  Silent sent w = (w.stopped ≡ true) × (w.sent ≡ sent)

  step-Silent :
      (sent : List A) (w w' : Watcher A) (a : Action A)
      → step w a ≡ some w'
      → Silent sent w
      → Silent sent w'
  unfolding write_to_out_chan existing_or_start_new_crd_informer stop_begin
  step-Silent sent w w' a h (s, e) =
      step-keeps (Silent sent) w w' a (λ r g. rw s (refl, e)) (λ g. (s, e)) (λ c g. rw s (refl, e))
        (s, e) (λ g. rw s (refl, e)) (s, e) (λ g. (s, e)) (s, e) h

  -- Whatever happens after Stop has marked the watcher as stopped, nothing is written to the output.
  pub nothing_sent_after_stop :
      (actions : List (Action A)) (w w' : Watcher A)
      → w.stopped ≡ true
      → run actions w ≡ some w'
      → w'.sent ≡ w.sent
  nothing_sent_after_stop actions w w' s h =
      (run-keeps (Silent w.sent) (λ v v' a q p. step-Silent w.sent v v' a q p) actions w w' h
        (s, refl)).1

  step-Locked :
      (w w' : Watcher A) (a : Action A) → step w a ≡ some w' → w.locked ≡ true → w'.locked ≡ true
  step-Locked w w' a h l =
      step-keeps (λ x. x.locked ≡ true) w w' a (λ r g. absurd (cc)) (λ g. absurd (cc))
        (λ c g. absurd (cc)) l (λ g. absurd (cc)) l (λ g. absurd (cc)) l h

  -- Once Stop is called on a watcher that is stopped, the lock is held for ever: whatever happens then, no
  -- informer reports and no custom informer that Stop has not pulled is stopped by it.
  pub second_stop_blocks :
      (actions : List (Action A)) (w v w' : Watcher A)
      → w.stopped ≡ true
      → step w stop ≡ some v
      → run actions v ≡ some w'
      → (w'.locked ≡ true)
        × ((r : A) → step w' (write r) ≡ none)
        × (step w' refresh_pull ≡ none)
        × (step w' stop_pull ≡ none)
        × (step w' stop ≡ none)
  unfolding step stop_begin
  second_stop_blocks actions w v w' s h e =
      let (g, q) = guard_passed w.locked (stop_begin w) v h in
      let begun : v.locked ≡ true = subst (λ x. x.locked ≡ true) q (rw s) in
      let held : w'.locked ≡ true =
        run-keeps (λ x. x.locked ≡ true) step-Locked actions v w' e begun in
      (held, λ r. rw held, rw held, rw held, rw held)
