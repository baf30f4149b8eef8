-- ===== src/Coordinator/Wakeups.antt =====
-- internal/operation/cleanup/coordinator.go: the flags behind Advance, and the goroutine that serves
-- the wakeups.
pub mod Served
use autback.Prelude.{
  ℕ, zero, suc, Bool, true, false, ◌&&◌, not, Option, none, some, List, [], ◌∷◌, ◌++◌,
  if◌then◌else◌, ◌≡◌, refl, ◌⊎◌, inl, inr, arith, ◌≤◌, length, ◌+◌,
}

-- Where a goroutine in advance stands: before it resets `pending`, in RunOnce, in the delay before a
-- retry, before it looks at `pending` again, and before finish.
pub data Place : Type 0 where
  resetting serving delayed looking finishing : Place

-- How RunOnce ends: with an error because the context ended, with another error, with a record that
-- was claimed, or with none; and whether the context ends in the delay.
pub data Outcome : Type 0 where
  cancelled failed claimed idle : Outcome

pub record Coordinator : Type 0 where
  pub running : Bool
  pub pending : Bool
  pub draining : Bool
  pub workers : List Place  -- the goroutines, which the wait group counts

-- Advance
unfoldable pub advance : Coordinator → Coordinator
advance c =
    if c.draining
    then c
    else if c.running
    then record c { pending = true }
    else record c { pending = true; running = true; workers = c.workers ++ Place.resetting ∷ [] }

-- Drain
unfoldable pub drain : Coordinator → Coordinator
drain c = record c { draining = true }

-- One section of a goroutine between two points where another may run. It ends at a place, or
-- returns.
abbrev pub turn : Outcome → Place → Coordinator → Option Place × Coordinator
turn o Place.resetting c = (some Place.serving, record c { pending = false })
turn Outcome.cancelled Place.serving c = (some Place.finishing, c)
turn Outcome.failed Place.serving c = (some Place.delayed, c)
turn Outcome.claimed Place.serving c = (some Place.resetting, c)
turn Outcome.idle Place.serving c = (some Place.looking, c)
turn Outcome.cancelled Place.delayed c = (some Place.finishing, c)
turn _ Place.delayed c = (some Place.resetting, c)
turn o Place.looking c =
    if c.pending then (some Place.resetting, c) else (none, record c { running = false })
turn o Place.finishing c = (none, record c { running = false })

abbrev pub place_at : ℕ → List Place → Option Place
place_at n [] = none
place_at zero (p ∷ ps) = some p
place_at (suc n) (p ∷ ps) = place_at n ps

abbrev pub put_place : ℕ → Option Place → List Place → List Place
put_place n q [] = []
put_place zero none (p ∷ ps) = ps
put_place zero (some q) (p ∷ ps) = q ∷ ps
put_place (suc n) q (p ∷ ps) = p ∷ put_place n q ps

abbrev pub moved : ℕ → Option Place × Coordinator → Coordinator
moved n (q, c) = record c { workers = put_place n q c.workers }

abbrev pub move : ℕ → Outcome → Option Place → Coordinator → Coordinator
move n o none c = c
move n o (some p) c = moved n (turn o p c)

-- The interleavings: a call of Advance or of Drain, or a section of the n-th goroutine.
pub data Event : Type 0 where
  advances drains : Event
  moves : ℕ → Outcome → Event

unfoldable pub step : Coordinator → Event → Coordinator
step c Event.advances = advance c
step c Event.drains = drain c
step c (Event.moves n o) = move n o (place_at n c.workers) c

unfoldable pub run : Coordinator → List Event → Coordinator
run c [] = c
run c (e ∷ es) = run (step c e) es

-- New
abbrev pub new_coordinator : Coordinator
new_coordinator = record { running = false; pending = false; draining = false; workers = [] }
