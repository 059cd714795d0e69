-- ===== src/Examples/Watcher.antt =====
-- Runs of the watcher, and reports of its informers.
use sloop.Base.{ℕ, true, false, inr, ◌≡◌, ◌≤◌, refl, List, [], ◌∷◌, ◌++◌, Option, none, some}
use sloop.Base.Bytes.{Bytes, codes, eqb}
use sloop.Ingress.Watcher.{
  Crd, Watcher, Action, write, refresh_pull, refresh_crd, refresh_stop, stop, stop_chan, stop_pull,
  stop_crds, StopPhase, not_called, chan_closed, done, stop_begin, pull_to_stop, stop_pulled, step,
  run, new_watcher, chans,
}
use sloop.Ingress.Watcher.Channels.{uses, channels_used_once}
use sloop.Ingress.Watcher.Completion.{IsStopping, stop_completes}
use sloop.Ingress.Watcher.Stopping.{nothing_sent_after_stop, second_stop_blocks}
use sloop.Ingress.Update.{Client}

abbrev crd : Bytes → Crd
crd name = record { group = codes "g"; version = codes "v1"; resource = name; kind = name }

-- Two informers, the second of which is not wanted at the next refresh; then Stop.
abbrev life : List (Action ℕ)
life =
    refresh_pull
    ∷ refresh_crd (crd (codes "a"))
    ∷ refresh_crd (crd (codes "b"))
    ∷ refresh_stop
    ∷ write 5
    ∷ refresh_pull
    ∷ refresh_crd (crd (codes "a"))
    ∷ stop
    ∷ refresh_stop
    ∷ stop_chan
    ∷ stop_pull
    ∷ stop_crds
    ∷ write 6
    ∷ []

abbrev state_of : Option (Watcher ℕ) → Watcher ℕ
state_of (some w) = w
state_of none = new_watcher

abbrev at_end : Watcher ℕ
at_end = state_of (run life new_watcher)

channels_used_once_example : uses 1 at_end ≤ 1
unfolding run step new_watcher sloop.Ingress.Watcher.same_crd eqb
channels_used_once_example = channels_used_once life at_end refl 1

abbrev watching : Watcher ℕ
watching = record {
  locked = false;
  stopped = false;
  crd_informers = (crd (codes "a"), 0) ∷ (crd (codes "b"), 1) ∷ [];
  existing = [];
  refreshing = false;
  phase = not_called;
  stopping = [];
  closed = [];
  next_chan = 2;
  sent = 5 ∷ [];
}

-- A refresh and a report come between the actions of Stop.
abbrev flagged_state : Watcher ℕ
flagged_state = state_of (run (refresh_pull ∷ []) (stop_begin watching))

abbrev closing_state : Watcher ℕ
closing_state = state_of (run (write 9 ∷ []) (record flagged_state { phase = chan_closed }))

abbrev pulled_state : Watcher ℕ
pulled_state = state_of (run (refresh_stop ∷ []) (pull_to_stop closing_state))

stop_completes_example :
    (step watching stop ≡ some (stop_begin watching))
    × (step flagged_state stop_chan ≡ some (record flagged_state { phase = chan_closed }))
    × (step closing_state stop_pull ≡ some (pull_to_stop closing_state))
    × (step pulled_state stop_crds ≡ some (stop_pulled pulled_state))
    × IsStopping done [] (λ n. uses n watching) (stop_pulled pulled_state)
    × ((stop_pulled pulled_state).crd_informers ≡ [])
    × ((stop_pulled pulled_state).closed ≡ chans closing_state.crd_informers ++ pulled_state.closed)
unfolding run step
stop_completes_example =
    stop_completes (refresh_pull ∷ []) (write 9 ∷ []) (refresh_stop ∷ []) watching flagged_state
      closing_state pulled_state refl refl refl (inr refl) (tt, tt) (tt, tt) (tt, tt) refl refl refl

abbrev stopped_once : Watcher ℕ
stopped_once = state_of (run (stop ∷ []) watching)

abbrev stopped_twice : Watcher ℕ
stopped_twice = state_of (run (stop ∷ []) stopped_once)

abbrev last_state : Watcher ℕ
last_state = state_of (run (stop_chan ∷ []) stopped_twice)

second_stop_blocks_example :
    (last_state.locked ≡ true)
    × ((r : ℕ) → step last_state (write r) ≡ none)
    × (step last_state refresh_pull ≡ none)
    × (step last_state stop_pull ≡ none)
    × (step last_state stop ≡ none)
unfolding run step
second_stop_blocks_example =
    second_stop_blocks (stop_chan ∷ []) stopped_once stopped_twice last_state refl refl refl

abbrev after_writes : Watcher ℕ
after_writes = state_of (run (write 7 ∷ stop_chan ∷ write 8 ∷ []) stopped_once)

nothing_sent_after_stop_example : after_writes.sent ≡ stopped_once.sent
unfolding run step
nothing_sent_after_stop_example =
    nothing_sent_after_stop (write 7 ∷ stop_chan ∷ write 8 ∷ []) stopped_once after_writes refl refl

-- Objects are their own JSON; no rule excludes any.
abbrev client : Client Bytes Bytes
client = record {
  marshal_rule = λ rule. some rule;
  apply_rule = λ logic data_json. some (codes "false");
  marshal_object = λ obj. some obj;
  object_name = λ obj. some obj;
  final_state = λ obj. none;
}

abbrev no_rules : List (Bytes × List Bytes)
no_rules = (codes "_all", codes "{}" ∷ []) ∷ []
