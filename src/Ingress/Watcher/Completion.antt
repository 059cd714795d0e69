-- ===== src/Ingress/Watcher/Completion.antt =====
-- How Stop in pkg/sloop/ingress/kubewatcher.go comes to its end while the other goroutines go on.
use sloop.Base.{
  ℕ, ◌≤◌, true, false, not, ◌||◌, ◌≡◌, ◌⊎◌, refl, ap, subst, arith, List, [], ◌∷◌, ◌++◌, some, All,
  Option-cases, inl, inr,
}
use sloop.Ingress.Watcher.{
  Informers, StopPhase, pull_to_stop, stop_pulled, Watcher, Action, write, refresh_pull,
  refresh_crd, refresh_stop, stop, stop_chan, stop_pull, stop_crds, flagged, chan_closed, pulled,
  done, chans, write_to_out_chan, existing_or_start_new_crd_informer, stop_begin, step, run,
}
use sloop.Ingress.Watcher.Stopping.{guard_passed, run-keeps, step-keeps}
use sloop.Ingress.Watcher.Channels.{times, times-append, uses}

module _ {A : Type 0} where
  -- An action of the informers and of the refresh, and none of a call of Stop.
  abbrev pub IsOther : Action A → Type 0
  IsOther (write r) = Unit
  IsOther refresh_pull = Unit
  IsOther (refresh_crd c) = Unit
  IsOther refresh_stop = Unit
  IsOther stop = ⊥
  IsOther stop_chan = ⊥
  IsOther stop_pull = ⊥
  IsOther stop_crds = ⊥

  -- A refresh that does not run holds no informer.
  abbrev pub IsIdle : Watcher A → Type 0
  IsIdle w = (w.refreshing ≡ true) ⊎ (w.existing ≡ [])

  -- Stop is in a phase, with what it has pulled, the lock is free, and no channel is forgotten.
  pub record IsStopping (p : StopPhase) (st : Informers) (known : ℕ → ℕ) (w : Watcher A)
      : Type 0 where
    pub free : w.locked ≡ false
    pub marked : w.stopped ≡ true
    pub in_phase : w.phase ≡ p
    pub taken : w.stopping ≡ st
    pub idle : IsIdle w
    pub kept : (n : ℕ) → known n ≤ uses n w

  nothing_held : (w : Watcher A) → IsIdle w → (w.locked || w.refreshing) ≡ false → w.existing ≡ []
  nothing_held w (inl r) g = absurd (ground (arith, r, g))
  nothing_held w (inr e) g = e

  module _ (p : StopPhase) (st : Informers) (known : ℕ → ℕ) where
    step-IsStopping :
        (w w' : Watcher A) (a : Action A)
        → IsOther a
        → step w a ≡ some w'
        → IsStopping p st known w
        → IsStopping p st known w'
    unfolding step write_to_out_chan existing_or_start_new_crd_informer times
    step-IsStopping w w' (write r) o h i =
        let (g, e) = guard_passed w.locked _ w' h in
        let same : w ≡ w' = cc (rw i.marked at e) in subst (IsStopping p st known) same i
    step-IsStopping w w' refresh_pull o h i =
        let (g, e) = guard_passed (w.locked || w.refreshing) _ w' h in
        let none_held = nothing_held w i.idle g in
        subst (IsStopping p st known) e (record {
          free = i.free;
          marked = i.marked;
          in_phase = i.in_phase;
          taken = i.taken;
          idle = inl refl;
          kept = λ n.
              let before = i.kept n in
              let no_times : times n (chans w.existing) ≡ 0 = rw none_held refl in
              omega (arith, before, no_times);
        })
    step-IsStopping w w' (refresh_crd c) o h i =
        let (g, e) = guard_passed (w.locked || not w.refreshing) _ w' h in
        let same : w ≡ w' = cc (rw i.marked at e) in subst (IsStopping p st known) same i
    step-IsStopping w w' refresh_stop o h i =
        let (g, e) = guard_passed (not w.refreshing) _ w' h in
        subst (IsStopping p st known) e (record {
          free = i.free;
          marked = i.marked;
          in_phase = i.in_phase;
          taken = i.taken;
          idle = inr refl;
          kept = λ n.
              let before = i.kept n in
              omega (arith, before, times-append n (chans w.existing) w.closed);
        })
    step-IsStopping w w' stop o h i = absurd o
    step-IsStopping w w' stop_chan o h i = absurd o
    step-IsStopping w w' stop_pull o h i = absurd o
    step-IsStopping w w' stop_crds o h i = absurd o

    run-IsStopping :
        (actions : List (Action A)) (w w' : Watcher A)
        → All IsOther actions
        → run actions w ≡ some w'
        → IsStopping p st known w
        → IsStopping p st known w'
    unfolding run
    run-IsStopping [] w w' o h i = let e : w ≡ w' = cc in subst (IsStopping p st known) e i
    run-IsStopping (a ∷ actions) w w' (o, os) h i = elim (Option-cases (step w a)) [
      | inl e ↦ absurd (cc (rw (run, e) at h))
      | inr (v, e) ↦ run-IsStopping actions v w' os (rw (run, e) at h) (step-IsStopping w v a o e i)
    ]

  -- A stopped watcher gets no new informer.
  abbrev Emptied : Watcher A → Type 0
  Emptied w = (w.stopped ≡ true) × (w.crd_informers ≡ [])

  step-Emptied : (w w' : Watcher A) (a : Action A) → step w a ≡ some w' → Emptied w → Emptied w'
  unfolding write_to_out_chan existing_or_start_new_crd_informer stop_begin
  step-Emptied w w' a h (s, e) =
      step-keeps Emptied w w' a (λ r g. rw s (refl, e)) (λ g. (s, refl)) (λ c g. rw s (refl, e))
        (s, e) (λ g. rw s (refl, e)) (s, e) (λ g. (s, refl)) (s, e) h

  -- A call of Stop comes through while the other goroutines go on, as long as Stop is not called again:
  -- let the watcher run with its lock free, let Stop have pulled nothing and a refresh that does not run
  -- hold nothing. Whatever informers and refreshes do between the actions of Stop, each action of Stop
  -- can happen where it stands. At its end the watcher is stopped with the lock free and has no custom
  -- informer; the channels of those it had when Stop pulled them are closed; and of the channels that
  -- were known when Stop was called, each is closed or held by a refresh that still runs.
  pub stop_completes :
      (first second third : List (Action A)) (w w1 w2 w3 : Watcher A)
      → w.locked ≡ false
      → w.stopped ≡ false
      → w.stopping ≡ []
      → IsIdle w
      → All IsOther first
      → All IsOther second
      → All IsOther third
      → run first (stop_begin w) ≡ some w1
      → run second (record w1 { phase = chan_closed }) ≡ some w2
      → run third (pull_to_stop w2) ≡ some w3
      → (step w stop ≡ some (stop_begin w))
        × (step w1 stop_chan ≡ some (record w1 { phase = chan_closed }))
        × (step w2 stop_pull ≡ some (pull_to_stop w2))
        × (step w3 stop_crds ≡ some (stop_pulled w3))
        × IsStopping done [] (λ n. uses n w) (stop_pulled w3)
        × ((stop_pulled w3).crd_informers ≡ [])
        × ((stop_pulled w3).closed ≡ chans w2.crd_informers ++ w3.closed)
  unfolding step stop_begin times
  stop_completes first second third w w1 w2 w3 l s nothing i o1 o2 o3 r1 r2 r3 =
      let known : ℕ → ℕ = λ n. uses n w in
      let begun : IsStopping flagged [] known (record w { stopped = true; phase = flagged }) =
        record {
          free = l;
          marked = refl;
          in_phase = refl;
          taken = nothing;
          idle = i;
          kept = λ n. omega arith;
        } in
      let started : run first (record w { stopped = true; phase = flagged }) ≡ some w1 =
        rw s at r1 in
      let at1 = run-IsStopping flagged [] known first _ w1 o1 started begun in
      let closing : IsStopping chan_closed [] known (record w1 { phase = chan_closed }) = record {
        free = at1.free;
        marked = at1.marked;
        in_phase = refl;
        taken = at1.taken;
        idle = at1.idle;
        kept = at1.kept;
      } in
      let at2 = run-IsStopping chan_closed [] known second _ w2 o2 r2 closing in
      let took : IsStopping pulled w2.crd_informers known (pull_to_stop w2) = record {
        free = at2.free;
        marked = at2.marked;
        in_phase = refl;
        taken = refl;
        idle = at2.idle;
        kept = λ n.
            let before = at2.kept n in
            let no_times : times n (chans w2.stopping) ≡ 0 = rw at2.taken refl in
            omega (arith, before, no_times);
      } in
      let at3 = run-IsStopping pulled w2.crd_informers known third _ w3 o3 r3 took in
      (
        rw (l, s) refl,
        rw at1.in_phase refl,
        rw (at2.free, at2.in_phase) refl,
        rw at3.in_phase refl,
        record {
          free = at3.free;
          marked = at3.marked;
          in_phase = refl;
          taken = refl;
          idle = at3.idle;
          kept = λ n.
              let before = at3.kept n in
              omega (arith, before, times-append n (chans w3.stopping) w3.closed);
        },
        (run-keeps Emptied step-Emptied third (pull_to_stop w2) w3 r3 (at2.marked, refl)).1,
        ap (λ x. chans x ++ w3.closed) at3.taken,
      )
