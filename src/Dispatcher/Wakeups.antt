-- ===== src/Dispatcher/Wakeups.antt =====
-- internal/control/dispatcher/dispatcher.go: the flags behind Advance and the channel advanceWake, and
-- the goroutine that admits.
use autback.Prelude.{ℕ, Bool, true, false, Option, none, some, List, [], ◌∷◌, ◌++◌, if◌then◌else◌}
use autback.Coordinator.Wakeups as Cleanups
use autback.Coordinator.Wakeups.{Coordinator, Place, place_at, put_place, new_coordinator}
pub mod Served

-- How RunOnce ends: because the dispatcher drains or the context ended, with another error, or with
-- none. In the delay: the context ends, the timer fires, or the channel is ready.
pub data Outcome : Type 0 where
  stopped failed settled : Outcome

pub record Dispatcher : Type 0 where
  pub advancing : Bool
  pub pending : Bool
  pub wake : Bool  -- the channel advanceWake holds a token; its capacity is one
  pub draining : Bool
  pub workers : List Place  -- the goroutines, which the wait group counts
  pub cleanups : Coordinator

-- Advance, up to the lock: another goroutine may run before the rest.
abbrev pub wake_cleanups : Dispatcher → Dispatcher
wake_cleanups c = if c.draining then c else record c { cleanups = Cleanups.advance c.cleanups }

-- Advance, from the lock on.
unfoldable pub advance : Dispatcher → Dispatcher
advance c =
    if c.draining
    then c
    else if c.advancing
    then record c { pending = true; wake = true }
    else record c { pending = true; advancing = true; workers = c.workers ++ Place.resetting ∷ [] }

-- Drain, in two sections.
abbrev pub drain : Dispatcher → Dispatcher
drain c = record c { draining = true }

abbrev pub drain_cleanups : Dispatcher → Dispatcher
drain_cleanups c = record c { cleanups = Cleanups.drain c.cleanups }

-- One section of a goroutine in advance between two points where another may run. It ends at a place,
-- or returns.
abbrev pub turn : Outcome → Place → Dispatcher → Option Place × Dispatcher
turn o Place.resetting c = (some Place.serving, record c { pending = false })
turn Outcome.stopped Place.serving c = (some Place.finishing, c)
turn Outcome.failed Place.serving c = (some Place.delayed, c)
turn Outcome.settled Place.serving c = (some Place.looking, c)
turn Outcome.stopped Place.delayed c = (some Place.finishing, c)
turn Outcome.failed Place.delayed c = (some Place.resetting, c)
turn Outcome.settled Place.delayed c =
    if c.wake then (some Place.resetting, record c { wake = false }) else (some Place.delayed, c)
turn o Place.looking c =
    if c.pending then (some Place.resetting, c) else (none, record c { advancing = false })
turn o Place.finishing c = (none, record c { advancing = false })

abbrev pub moved : ℕ → Option Place × Dispatcher → Dispatcher
moved n (q, c) = record c { workers = put_place n q c.workers }

abbrev pub move : ℕ → Outcome → Option Place → Dispatcher → Dispatcher
move n o none c = c
move n o (some p) c = moved n (turn o p c)

-- The interleavings of the sections; the coordinator's goroutine does not read these flags.
pub data Event : Type 0 where
  wakes_cleanups advances drains drains_cleanups : Event
  moves : ℕ → Outcome → Event

unfoldable pub step : Dispatcher → Event → Dispatcher
step c Event.wakes_cleanups = wake_cleanups c
step c Event.advances = advance c
step c Event.drains = drain c
step c Event.drains_cleanups = drain_cleanups c
step c (Event.moves n o) = move n o (place_at n c.workers) c

unfoldable pub run : Dispatcher → List Event → Dispatcher
run c [] = c
run c (e ∷ es) = run (step c e) es

-- New
abbrev pub new_dispatcher : Dispatcher
new_dispatcher = record {
  advancing = false;
  pending = false;
  wake = false;
  draining = false;
  workers = [];
  cleanups = new_coordinator;
}
