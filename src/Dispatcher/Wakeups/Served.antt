-- ===== src/Dispatcher/Wakeups/Served.antt =====
-- The flags of internal/control/dispatcher/dispatcher.go: one goroutine at most, and no wakeup lost,
-- not even in the delay after an error.
use autback.Prelude.{
  zero, suc, Bool, true, false, List, [], ◌∷◌, ◌≡◌, ◌≢◌, refl, ◌⊎◌, inl, inr, length, All, ◌++◌,
}
use autback.Coordinator.Wakeups.{Coordinator, Place, place_at, put_place, new_coordinator}
use autback.Coordinator.Wakeups as Cleanups
use autback.Dispatcher.Wakeups.{Outcome, Dispatcher, Event, advance, step, run, new_dispatcher}

abbrev flags : Bool → Bool → Bool → Bool → List Place → Coordinator → Dispatcher
flags a p k d ws q = record {
  advancing = a;
  pending = p;
  wake = k;
  draining = d;
  workers = ws;
  cleanups = q;
}

-- `advancing` tells whether there is a goroutine, and there is one at most.
data IsSingle : Dispatcher → Type 0 where
  asleep : (p k d : Bool) (q : Coordinator) → IsSingle (flags false p k d [] q)
  awake : (w : Place) (p k d : Bool) (q : Coordinator) → IsSingle (flags true p k d (w ∷ []) q)

step-IsSingle : (c : Dispatcher) (e : Event) → IsSingle c → IsSingle (step c e)
unfolding step advance
step-IsSingle _ Event.wakes_cleanups (asleep p k true q) = asleep p k true q
step-IsSingle _ Event.wakes_cleanups (asleep p k false q) = asleep p k false (Cleanups.advance q)
step-IsSingle _ Event.wakes_cleanups (awake w p k true q) = awake w p k true q
step-IsSingle _ Event.wakes_cleanups (awake w p k false q) = awake w p k false (Cleanups.advance q)
step-IsSingle _ Event.advances (asleep p k true q) = asleep p k true q
step-IsSingle _ Event.advances (asleep p k false q) = awake Place.resetting true k false q
step-IsSingle _ Event.advances (awake w p k true q) = awake w p k true q
step-IsSingle _ Event.advances (awake w p k false q) = awake w true true false q
step-IsSingle _ Event.drains (asleep p k d q) = asleep p k true q
step-IsSingle _ Event.drains (awake w p k d q) = awake w p k true q
step-IsSingle _ Event.drains_cleanups (asleep p k d q) = asleep p k d (Cleanups.drain q)
step-IsSingle _ Event.drains_cleanups (awake w p k d q) = awake w p k d (Cleanups.drain q)
step-IsSingle _ (Event.moves n o) (asleep p k d q) = asleep p k d q
step-IsSingle _ (Event.moves (suc n) o) (awake w p k d q) = awake w p k d q
step-IsSingle _ (Event.moves zero o) (awake Place.resetting p k d q) =
    awake Place.serving false k d q
step-IsSingle _ (Event.moves zero Outcome.stopped) (awake Place.serving p k d q) =
    awake Place.finishing p k d q
step-IsSingle _ (Event.moves zero Outcome.failed) (awake Place.serving p k d q) =
    awake Place.delayed p k d q
step-IsSingle _ (Event.moves zero Outcome.settled) (awake Place.serving p k d q) =
    awake Place.looking p k d q
step-IsSingle _ (Event.moves zero Outcome.stopped) (awake Place.delayed p k d q) =
    awake Place.finishing p k d q
step-IsSingle _ (Event.moves zero Outcome.failed) (awake Place.delayed p k d q) =
    awake Place.resetting p k d q
step-IsSingle _ (Event.moves zero Outcome.settled) (awake Place.delayed p true d q) =
    awake Place.resetting p false d q
step-IsSingle _ (Event.moves zero Outcome.settled) (awake Place.delayed p false d q) =
    awake Place.delayed p false d q
step-IsSingle _ (Event.moves zero o) (awake Place.looking true k d q) =
    awake Place.resetting true k d q
step-IsSingle _ (Event.moves zero o) (awake Place.looking false k d q) = asleep false k d q
step-IsSingle _ (Event.moves zero o) (awake Place.finishing p k d q) = asleep p k d q

run-IsSingle : (c : Dispatcher) (es : List Event) → IsSingle c → IsSingle (run c es)
unfolding run
run-IsSingle c [] v = v
run-IsSingle c (e ∷ es) v = run-IsSingle (step c e) es (step-IsSingle c e v)

-- In every interleaving from New at most one goroutine admits, and `advancing` tells whether it does.
pub one_admitter :
    (es : List Event)
    → ((run new_dispatcher es).advancing ≡ false) × ((run new_dispatcher es).workers ≡ [])
      ⊎ ((run new_dispatcher es).advancing ≡ true) × (length (run new_dispatcher es).workers ≡ 1)
one_admitter es =
    read (run new_dispatcher es)
      (run-IsSingle new_dispatcher es (asleep false false false new_coordinator))
  where
    read :
        (c : Dispatcher)
        → IsSingle c
        → (c.advancing ≡ false) × (c.workers ≡ []) ⊎ (c.advancing ≡ true) × (length c.workers ≡ 1)
    read _ (asleep p k d q) = inl (refl, refl)
    read _ (awake w p k d q) = inr (refl, refl)

-- The pass does not end because the dispatcher drains or the context ended.
abbrev pub goes_on : Outcome → Bool
goes_on Outcome.stopped = false
goes_on _ = true

abbrev pub event_goes_on : Event → Bool
event_goes_on (Event.moves n o) = goes_on o
event_goes_on _ = true

-- A wakeup that waits has a goroutine that has not returned and is not about to; unless that one is
-- about to reset `pending`, the channel holds a token.
data IsHeld : Dispatcher → Type 0 where
  idle : (k d : Bool) (q : Coordinator) → IsHeld (flags false false k d [] q)
  starting : (p k d : Bool) (q : Coordinator) → IsHeld (flags true p k d (Place.resetting ∷ []) q)
  calm :
      (w : Place) (k d : Bool) (q : Coordinator)
      → w ≢ Place.finishing
      → IsHeld (flags true false k d (w ∷ []) q)
  woken :
      (w : Place) (d : Bool) (q : Coordinator)
      → w ≢ Place.finishing
      → IsHeld (flags true true true d (w ∷ []) q)

step-IsHeld : (c : Dispatcher) (e : Event) → event_goes_on e ≡ true → IsHeld c → IsHeld (step c e)
unfolding step advance
step-IsHeld _ Event.wakes_cleanups g (idle k true q) = idle k true q
step-IsHeld _ Event.wakes_cleanups g (idle k false q) = idle k false (Cleanups.advance q)
step-IsHeld _ Event.wakes_cleanups g (starting p k true q) = starting p k true q
step-IsHeld _ Event.wakes_cleanups g (starting p k false q) =
    starting p k false (Cleanups.advance q)
step-IsHeld _ Event.wakes_cleanups g (calm w k true q h) = calm w k true q h
step-IsHeld _ Event.wakes_cleanups g (calm w k false q h) = calm w k false (Cleanups.advance q) h
step-IsHeld _ Event.wakes_cleanups g (woken w true q h) = woken w true q h
step-IsHeld _ Event.wakes_cleanups g (woken w false q h) = woken w false (Cleanups.advance q) h
step-IsHeld _ Event.advances g (idle k true q) = idle k true q
step-IsHeld _ Event.advances g (idle k false q) = starting true k false q
step-IsHeld _ Event.advances g (starting p k true q) = starting p k true q
step-IsHeld _ Event.advances g (starting p k false q) = starting true true false q
step-IsHeld _ Event.advances g (calm w k true q h) = calm w k true q h
step-IsHeld _ Event.advances g (calm w k false q h) = woken w false q h
step-IsHeld _ Event.advances g (woken w true q h) = woken w true q h
step-IsHeld _ Event.advances g (woken w false q h) = woken w false q h
step-IsHeld _ Event.drains g (idle k d q) = idle k true q
step-IsHeld _ Event.drains g (starting p k d q) = starting p k true q
step-IsHeld _ Event.drains g (calm w k d q h) = calm w k true q h
step-IsHeld _ Event.drains g (woken w d q h) = woken w true q h
step-IsHeld _ Event.drains_cleanups g (idle k d q) = idle k d (Cleanups.drain q)
step-IsHeld _ Event.drains_cleanups g (starting p k d q) = starting p k d (Cleanups.drain q)
step-IsHeld _ Event.drains_cleanups g (calm w k d q h) = calm w k d (Cleanups.drain q) h
step-IsHeld _ Event.drains_cleanups g (woken w d q h) = woken w d (Cleanups.drain q) h
step-IsHeld _ (Event.moves n o) g (idle k d q) = idle k d q
step-IsHeld _ (Event.moves (suc n) o) g (starting p k d q) = starting p k d q
step-IsHeld _ (Event.moves (suc n) o) g (calm w k d q h) = calm w k d q h
step-IsHeld _ (Event.moves (suc n) o) g (woken w d q h) = woken w d q h
step-IsHeld _ (Event.moves zero o) g (starting p k d q) = calm Place.serving k d q (λ e. cc)
step-IsHeld _ (Event.moves zero o) g (calm Place.resetting k d q h) =
    calm Place.serving k d q (λ e. cc)
step-IsHeld _ (Event.moves zero o) g (woken Place.resetting d q h) =
    calm Place.serving true d q (λ e. cc)
step-IsHeld _ (Event.moves zero Outcome.stopped) g (calm w k d q h) = absurd (cc)
step-IsHeld _ (Event.moves zero Outcome.stopped) g (woken w d q h) = absurd (cc)
step-IsHeld _ (Event.moves zero Outcome.failed) g (calm Place.serving k d q h) =
    calm Place.delayed k d q (λ e. cc)
step-IsHeld _ (Event.moves zero Outcome.failed) g (woken Place.serving d q h) =
    woken Place.delayed d q (λ e. cc)
step-IsHeld _ (Event.moves zero Outcome.settled) g (calm Place.serving k d q h) =
    calm Place.looking k d q (λ e. cc)
step-IsHeld _ (Event.moves zero Outcome.settled) g (woken Place.serving d q h) =
    woken Place.looking d q (λ e. cc)
step-IsHeld _ (Event.moves zero Outcome.failed) g (calm Place.delayed k d q h) =
    starting false k d q
step-IsHeld _ (Event.moves zero Outcome.failed) g (woken Place.delayed d q h) =
    starting true true d q
step-IsHeld _ (Event.moves zero Outcome.settled) g (calm Place.delayed true d q h) =
    starting false false d q
step-IsHeld _ (Event.moves zero Outcome.settled) g (calm Place.delayed false d q h) =
    calm Place.delayed false d q h
step-IsHeld _ (Event.moves zero Outcome.settled) g (woken Place.delayed d q h) =
    starting true false d q
step-IsHeld _ (Event.moves zero o) g (calm Place.looking k d q h) = idle k d q
step-IsHeld _ (Event.moves zero o) g (woken Place.looking d q h) = starting true true d q
step-IsHeld _ (Event.moves zero o) g (calm Place.finishing k d q h) = absurd (h refl)
step-IsHeld _ (Event.moves zero o) g (woken Place.finishing d q h) = absurd (h refl)

run-IsHeld :
    (c : Dispatcher) (es : List Event)
    → All (λ e. event_goes_on e ≡ true) es
    → IsHeld c
    → IsHeld (run c es)
unfolding run
run-IsHeld c [] g v = v
run-IsHeld c (e ∷ es) (g, gs) v = run-IsHeld (step c e) es gs (step-IsHeld c e g v)

-- The event is the section in which the goroutine resets `pending` and begins a new call of RunOnce.
abbrev pub Begins : Dispatcher → Event → Type 0
Begins c e =
    (c.workers ≡ Place.resetting ∷ [])
    × ((step c e).pending ≡ false)
    × ((step c e).workers ≡ Place.serving ∷ [])

-- One of the events does.
unfoldable pub BeginsIn : Dispatcher → List Event → Type 0
BeginsIn c [] = ⊥
BeginsIn c (e ∷ es) = Begins c e ⊎ BeginsIn (step c e) es

-- A wakeup waits until it is served.
waits_on :
    (c : Dispatcher) (e : Event)
    → event_goes_on e ≡ true
    → IsHeld c
    → c.pending ≡ true
    → Begins c e ⊎ ((step c e).pending ≡ true)
unfolding step advance
waits_on _ e g (idle k d q) h = absurd (cc)
waits_on _ e g (calm w k d q n) h = absurd (cc)
waits_on _ e g (starting false k d q) h = absurd (cc)
waits_on _ Event.wakes_cleanups g (starting true k true q) h = inr refl
waits_on _ Event.wakes_cleanups g (starting true k false q) h = inr refl
waits_on _ Event.advances g (starting true k true q) h = inr refl
waits_on _ Event.advances g (starting true k false q) h = inr refl
waits_on _ Event.drains g (starting true k d q) h = inr refl
waits_on _ Event.drains_cleanups g (starting true k d q) h = inr refl
waits_on _ (Event.moves (suc m) o) g (starting true k d q) h = inr refl
waits_on _ Event.wakes_cleanups g (woken w true q n) h = inr refl
waits_on _ Event.wakes_cleanups g (woken w false q n) h = inr refl
waits_on _ Event.advances g (woken w true q n) h = inr refl
waits_on _ Event.advances g (woken w false q n) h = inr refl
waits_on _ Event.drains g (woken w d q n) h = inr refl
waits_on _ Event.drains_cleanups g (woken w d q n) h = inr refl
waits_on _ (Event.moves (suc m) o) g (woken w d q n) h = inr refl
waits_on _ (Event.moves zero o) g (starting true k d q) h = inl (refl, refl, refl)
waits_on _ (Event.moves zero o) g (woken Place.resetting d q n) h = inl (refl, refl, refl)
waits_on _ (Event.moves zero Outcome.stopped) g (woken w d q n) h = absurd (cc)
waits_on _ (Event.moves zero Outcome.failed) g (woken Place.serving d q n) h = inr refl
waits_on _ (Event.moves zero Outcome.settled) g (woken Place.serving d q n) h = inr refl
waits_on _ (Event.moves zero Outcome.failed) g (woken Place.delayed d q n) h = inr refl
waits_on _ (Event.moves zero Outcome.settled) g (woken Place.delayed d q n) h = inr refl
waits_on _ (Event.moves zero o) g (woken Place.looking d q n) h = inr refl
waits_on _ (Event.moves zero o) g (woken Place.finishing d q n) h = absurd (n refl)

-- Three sections of the goroutine, one after the other.
abbrev pub sections : Outcome → Outcome → Outcome → List Event
sections o o' o'' = Event.moves 0 o ∷ Event.moves 0 o' ∷ Event.moves 0 o'' ∷ []

served :
    (c : Dispatcher) (o o' o'' : Outcome)
    → IsHeld c
    → c.pending ≡ true
    → goes_on o ≡ true
    → goes_on o' ≡ true
    → BeginsIn c (sections o o' o'')
unfolding BeginsIn step
served _ o o' o'' (idle k d q) h g g' = absurd (cc)
served _ o o' o'' (calm w k d q n) h g g' = absurd (cc)
served _ o o' o'' (starting false k d q) h g g' = absurd (cc)
served _ o o' o'' (starting true k d q) h g g' = inl (refl, refl, refl)
served _ o o' o'' (woken Place.resetting d q n) h g g' = inl (refl, refl, refl)
served _ Outcome.stopped o' o'' (woken w d q n) h g g' = absurd (cc)
served _ o Outcome.stopped o'' (woken w d q n) h g g' = absurd (cc)
served _ Outcome.failed Outcome.failed o'' (woken Place.serving d q n) h g g' =
    inr (inr (inl (refl, refl, refl)))
served _ Outcome.failed Outcome.settled o'' (woken Place.serving d q n) h g g' =
    inr (inr (inl (refl, refl, refl)))
served _ Outcome.settled o' o'' (woken Place.serving d q n) h g g' =
    inr (inr (inl (refl, refl, refl)))
served _ Outcome.failed o' o'' (woken Place.delayed d q n) h g g' = inr (inl (refl, refl, refl))
served _ Outcome.settled o' o'' (woken Place.delayed d q n) h g g' = inr (inl (refl, refl, refl))
served _ o o' o'' (woken Place.looking d q n) h g g' = inr (inl (refl, refl, refl))
served _ o o' o'' (woken Place.finishing d q n) h g g' = absurd (n refl)

served_after :
    (c : Dispatcher) (es : List Event) (o o' o'' : Outcome)
    → All (λ e. event_goes_on e ≡ true) es
    → IsHeld c
    → c.pending ≡ true
    → goes_on o ≡ true
    → goes_on o' ≡ true
    → BeginsIn c (es ++ sections o o' o'')
unfolding BeginsIn
served_after c [] o o' o'' gs v h g g' = served c o o' o'' v h g g'
served_after c (e ∷ es) o o' o'' (k, ks) v h g g' = elim (waits_on c e k v h) [
  | inl b ↦ inl b
  | inr p ↦ inr (served_after (step c e) es o o' o'' ks (step-IsHeld c e k v) p g g')
]

advance_sets : (c : Dispatcher) → IsHeld c → c.draining ≡ false → (advance c).pending ≡ true
unfolding advance
advance_sets _ (idle k false q) h = refl
advance_sets _ (starting p k false q) h = refl
advance_sets _ (calm w k false q n) h = refl
advance_sets _ (woken w false q n) h = refl
advance_sets _ (idle k true q) h = absurd (cc)
advance_sets _ (starting p k true q) h = absurd (cc)
advance_sets _ (calm w k true q n) h = absurd (cc)
advance_sets _ (woken w true q n) h = absurd (cc)

-- No wakeup is lost: after any interleaving, a call of Advance before a drain is served, also when the
-- goroutine sleeps in the delay and only the channel may end that. Whatever interleaving follows, a
-- new call of RunOnce has begun after that call of Advance when the goroutine has made three more
-- sections. In the interleavings no pass ends because of a drain or of the context.
pub admission_wakeup_is_served :
    (es fs : List Event) (o o' o'' : Outcome)
    → All (λ e. event_goes_on e ≡ true) es
    → All (λ e. event_goes_on e ≡ true) fs
    → (run new_dispatcher es).draining ≡ false
    → goes_on o ≡ true
    → goes_on o' ≡ true
    → BeginsIn (advance (run new_dispatcher es)) (fs ++ sections o o' o'')
unfolding step
admission_wakeup_is_served es fs o o' o'' gs ks d g g' =
    let c = run new_dispatcher es in
    let v = run-IsHeld new_dispatcher es gs (idle false false new_coordinator) in
    served_after (advance c) fs o o' o'' ks (step-IsHeld c Event.advances refl v)
      (advance_sets c v d) g g'
