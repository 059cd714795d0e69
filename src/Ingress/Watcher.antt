-- ===== src/Ingress/Watcher.antt =====
-- pkg/sloop/ingress/kubewatcher.go: the watcher as a state machine. Each action is what one goroutine
-- does while it holds the lock, or on data of its own; a run is any order of actions. The goroutines
-- are the handlers of the informers, the refresh of the custom informers, and the callers of Stop. A
-- full output channel, on which a send waits with the lock held, is not part of it.
pub mod Channels
pub mod Completion
pub mod Stopping
use sloop.Base.{
  ℕ, suc, ◌+◌, Bool, true, false, not, ◌&&◌, ◌||◌, List, [], ◌∷◌, ◌++◌, Option, none, some, map,
  if◌then◌else◌, map_get, map_put, map_delete,
}
use sloop.Base.Bytes.{Bytes, eqb}

-- crdGroupVersionResourceKind
pub record Crd : Type 0 where
  pub group : Bytes
  pub version : Bytes
  pub resource : Bytes
  pub kind : Bytes

-- `==` of two of them
unfoldable pub same_crd : Crd → Crd → Bool
same_crd c e =
    eqb c.group e.group
    && (eqb c.version e.version && (eqb c.resource e.resource && eqb c.kind e.kind))

-- The informers of the custom resources, each by the number of its stop channel.
abbrev pub Informers : Type 0
Informers = List (Crd × ℕ)

-- Where the call of Stop is that found the watcher running.
pub data StopPhase : Type 0 where
  not_called flagged chan_closed pulled done : StopPhase

abbrev pub is_flagged : StopPhase → Bool
is_flagged flagged = true
is_flagged _ = false

abbrev pub is_chan_closed : StopPhase → Bool
is_chan_closed chan_closed = true
is_chan_closed _ = false

abbrev pub is_pulled : StopPhase → Bool
is_pulled pulled = true
is_pulled _ = false

-- `A` is the type of what is sent.
pub record Watcher (A : Type 0) : Type 0 where
  -- the mutex is held by a call that has returned
  pub locked : Bool
  pub stopped : Bool
  pub crd_informers : Informers
  -- the informers of the refresh that runs, and whether one does
  pub existing : Informers
  pub refreshing : Bool
  pub phase : StopPhase
  -- the informers that Stop has pulled
  pub stopping : Informers
  -- the channels that were closed, and the number of the next one
  pub closed : List ℕ
  pub next_chan : ℕ
  pub sent : List A

pub data Action (A : Type 0) : Type 0 where
  write : A → Action A
  refresh_pull : Action A
  refresh_crd : Crd → Action A
  refresh_stop : Action A
  stop : Action A
  stop_chan : Action A
  stop_pull : Action A
  stop_crds : Action A

abbrev pub chans : Informers → List ℕ
chans [] = []
chans ((c, n) ∷ m) = n ∷ chans m

module _ {A : Type 0} where
  unfoldable pub write_to_out_chan : A → Watcher A → Watcher A
  write_to_out_chan r w = if w.stopped then w else record w { sent = w.sent ++ r ∷ [] }

  -- The informer that runs is kept, or a new one is started.
  unfoldable pub keep_or_start : Crd → Option ℕ → Watcher A → Watcher A
  unfolding map_put map_delete
  keep_or_start crd (some n) w = record w {
    crd_informers = map_put same_crd crd n w.crd_informers;
    existing = map_delete same_crd crd w.existing;
  }
  keep_or_start crd none w = record w {
    crd_informers = map_put same_crd crd w.next_chan w.crd_informers;
    next_chan = w.next_chan + 1;
  }

  unfoldable pub existing_or_start_new_crd_informer : Crd → Watcher A → Watcher A
  unfolding keep_or_start map_get
  existing_or_start_new_crd_informer crd w =
      if w.stopped then w else keep_or_start crd (map_get same_crd crd w.existing) w

  -- What Stop does first: a call that finds the watcher stopped returns with the lock held. The rest
  -- of Stop is three actions: the channel of the informers that are always there is closed, the
  -- custom informers are pulled, and their channels are closed.
  unfoldable pub stop_begin : Watcher A → Watcher A
  stop_begin w =
      if w.stopped then record w { locked = true } else record w { stopped = true; phase = flagged }

  -- pullCrdInformers, for the refresh and for Stop, and stopUnwantedCrdInformers on what each pulled.
  abbrev pub pull_to_refresh : Watcher A → Watcher A
  pull_to_refresh w = record w { existing = w.crd_informers; crd_informers = []; refreshing = true }

  abbrev pub stop_unwanted : Watcher A → Watcher A
  stop_unwanted w = record w {
    closed = chans w.existing ++ w.closed;
    existing = [];
    refreshing = false;
  }

  abbrev pub pull_to_stop : Watcher A → Watcher A
  pull_to_stop w = record w { stopping = w.crd_informers; crd_informers = []; phase = pulled }

  abbrev pub stop_pulled : Watcher A → Watcher A
  stop_pulled w = record w { closed = chans w.stopping ++ w.closed; stopping = []; phase = done }

  -- `none` where the action cannot happen: its goroutine waits, or is elsewhere.
  unfoldable pub step : Watcher A → Action A → Option (Watcher A)
  unfolding write_to_out_chan existing_or_start_new_crd_informer stop_begin
  step w (write r) = if w.locked then none else some (write_to_out_chan r w)
  step w refresh_pull = if w.locked || w.refreshing then none else some (pull_to_refresh w)
  step w (refresh_crd crd) =
      if w.locked || not w.refreshing then none else some (existing_or_start_new_crd_informer crd w)
  step w refresh_stop = if not w.refreshing then none else some (stop_unwanted w)
  step w stop = if w.locked then none else some (stop_begin w)
  step w stop_chan =
      if not (is_flagged w.phase) then none else some (record w { phase = chan_closed })
  step w stop_pull =
      if w.locked || not (is_chan_closed w.phase) then none else some (pull_to_stop w)
  step w stop_crds = if not (is_pulled w.phase) then none else some (stop_pulled w)

  unfoldable pub run : List (Action A) → Watcher A → Option (Watcher A)
  unfolding step
  run [] w = some w
  run (a ∷ actions) w = elim (step w a) [ none ↦ none | some w' ↦ run actions w' ]

  -- A new watcher, before its first custom informer.
  unfoldable pub new_watcher : Watcher A
  new_watcher = record {
    locked = false;
    stopped = false;
    crd_informers = [];
    existing = [];
    refreshing = false;
    phase = not_called;
    stopping = [];
    closed = [];
    next_chan = 0;
    sent = [];
  }
