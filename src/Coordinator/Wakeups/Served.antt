-- ===== src/Coordinator/Wakeups/Served.antt =====
-- The flags of internal/operation/cleanup/coordinator.go: one goroutine at most, and no wakeup lost.
use autback.Prelude.{
  zero, suc, Bool, true, false, List, [], ◌∷◌, ◌≡◌, ◌≢◌, refl, ◌⊎◌, inl, inr, length, All, ◌++◌,
}
use autback.Coordinator.Wakeups.{
  Place, Outcome, Coordinator, Event, advance, drain, step, run, new_coordinator,
}

abbrev flags : Bool → Bool → Bool → List Place → Coordinator
flags r p d ws = record { running = r; pending = p; draining = d; workers = ws }

-- `running` tells whether there is a goroutine, and there is one at most.
data IsSingle : Coordinator → Type 0 where
  asleep : (p d : Bool) → IsSingle (flags false p d [])
  awake : (w : Place) (p d : Bool) → IsSingle (flags true p d (w ∷ []))

step-IsSingle : (c : Coordinator) (e : Event) → IsSingle c → IsSingle (step c e)
unfolding step advance drain
step-IsSingle _ Event.advances (asleep p true) = asleep p true
step-IsSingle _ Event.advances (asleep p false) = awake Place.resetting true false
step-IsSingle _ Event.advances (awake w p true) = awake w p true
step-IsSingle _ Event.advances (awake w p false) = awake w true false
step-IsSingle _ Event.drains (asleep p d) = asleep p true
step-IsSingle _ Event.drains (awake w p d) = awake w p true
step-IsSingle _ (Event.moves n o) (asleep p d) = asleep p d
step-IsSingle _ (Event.moves (suc n) o) (awake w p d) = awake w p d
step-IsSingle _ (Event.moves zero o) (awake Place.resetting p d) = awake Place.serving false d
step-IsSingle _ (Event.moves zero Outcome.cancelled) (awake Place.serving p d) =
    awake Place.finishing p d
step-IsSingle _ (Event.moves zero Outcome.failed) (awake Place.serving p d) =
    awake Place.delayed p d
step-IsSingle _ (Event.moves zero Outcome.claimed) (awake Place.serving p d) =
    awake Place.resetting p d
step-IsSingle _ (Event.moves zero Outcome.idle) (awake Place.serving p d) = awake Place.looking p d
step-IsSingle _ (Event.moves zero Outcome.cancelled) (awake Place.delayed p d) =
    awake Place.finishing p d
step-IsSingle _ (Event.moves zero Outcome.failed) (awake Place.delayed p d) =
    awake Place.resetting p d
step-IsSingle _ (Event.moves zero Outcome.claimed) (awake Place.delayed p d) =
    awake Place.resetting p d
step-IsSingle _ (Event.moves zero Outcome.idle) (awake Place.delayed p d) =
    awake Place.resetting p d
step-IsSingle _ (Event.moves zero o) (awake Place.looking true d) = awake Place.resetting true d
step-IsSingle _ (Event.moves zero o) (awake Place.looking false d) = asleep false d
step-IsSingle _ (Event.moves zero o) (awake Place.finishing p d) = asleep p d

run-IsSingle : (c : Coordinator) (es : List Event) → IsSingle c → IsSingle (run c es)
unfolding run
run-IsSingle c [] v = v
run-IsSingle c (e ∷ es) v = run-IsSingle (step c e) es (step-IsSingle c e v)

-- In every interleaving from New at most one goroutine cleans, and `running` tells whether it does.
pub one_worker :
    (es : List Event)
    → ((run new_coordinator es).running ≡ false) × ((run new_coordinator es).workers ≡ [])
      ⊎ ((run new_coordinator es).running ≡ true) × (length (run new_coordinator es).workers ≡ 1)
one_worker es = read (run new_coordinator es) (run-IsSingle new_coordinator es (asleep false false))
  where
    read :
        (c : Coordinator)
        → IsSingle c
        → (c.running ≡ false) × (c.workers ≡ []) ⊎ (c.running ≡ true) × (length c.workers ≡ 1)
    read _ (asleep p d) = inl (refl, refl)
    read _ (awake w p d) = inr (refl, refl)

-- No call in the list finds the context ended.
abbrev pub goes_on : Outcome → Bool
goes_on Outcome.cancelled = false
goes_on _ = true

abbrev pub event_goes_on : Event → Bool
event_goes_on (Event.moves n o) = goes_on o
event_goes_on _ = true

-- A wakeup that waits has a goroutine that has not returned and is not about to.
data IsHeld : Coordinator → Type 0 where
  idle : (d : Bool) → IsHeld (flags false false d [])
  held : (w : Place) (p d : Bool) → w ≢ Place.finishing → IsHeld (flags true p d (w ∷ []))

step-IsHeld : (c : Coordinator) (e : Event) → event_goes_on e ≡ true → IsHeld c → IsHeld (step c e)
unfolding step advance drain
step-IsHeld _ Event.advances g (idle true) = idle true
step-IsHeld _ Event.advances g (idle false) = held Place.resetting true false (λ q. cc)
step-IsHeld _ Event.advances g (held w p true h) = held w p true h
step-IsHeld _ Event.advances g (held w p false h) = held w true false h
step-IsHeld _ Event.drains g (idle d) = idle true
step-IsHeld _ Event.drains g (held w p d h) = held w p true h
step-IsHeld _ (Event.moves n o) g (idle d) = idle d
step-IsHeld _ (Event.moves (suc n) o) g (held w p d h) = held w p d h
step-IsHeld _ (Event.moves zero o) g (held Place.resetting p d h) =
    held Place.serving false d (λ q. cc)
step-IsHeld _ (Event.moves zero Outcome.cancelled) g (held w p d h) = absurd (cc)
step-IsHeld _ (Event.moves zero Outcome.failed) g (held Place.serving p d h) =
    held Place.delayed p d (λ q. cc)
step-IsHeld _ (Event.moves zero Outcome.claimed) g (held Place.serving p d h) =
    held Place.resetting p d (λ q. cc)
step-IsHeld _ (Event.moves zero Outcome.idle) g (held Place.serving p d h) =
    held Place.looking p d (λ q. cc)
step-IsHeld _ (Event.moves zero Outcome.failed) g (held Place.delayed p d h) =
    held Place.resetting p d (λ q. cc)
step-IsHeld _ (Event.moves zero Outcome.claimed) g (held Place.delayed p d h) =
    held Place.resetting p d (λ q. cc)
step-IsHeld _ (Event.moves zero Outcome.idle) g (held Place.delayed p d h) =
    held Place.resetting p d (λ q. cc)
step-IsHeld _ (Event.moves zero o) g (held Place.looking true d h) =
    held Place.resetting true d (λ q. cc)
step-IsHeld _ (Event.moves zero o) g (held Place.looking false d h) = idle d
step-IsHeld _ (Event.moves zero o) g (held Place.finishing p d h) = absurd (h refl)

run-IsHeld :
    (c : Coordinator) (es : List Event)
    → All (λ e. event_goes_on e ≡ true) es
    → IsHeld c
    → IsHeld (run c es)
unfolding run
run-IsHeld c [] g v = v
run-IsHeld c (e ∷ es) (g, gs) v = run-IsHeld (step c e) es gs (step-IsHeld c e g v)

-- The event is the section in which the goroutine resets `pending` and begins a new call of RunOnce.
abbrev pub Begins : Coordinator → Event → Type 0
Begins c e =
    (c.workers ≡ Place.resetting ∷ [])
    × ((step c e).pending ≡ false)
    × ((step c e).workers ≡ Place.serving ∷ [])

-- One of the events does.
unfoldable pub BeginsIn : Coordinator → List Event → Type 0
BeginsIn c [] = ⊥
BeginsIn c (e ∷ es) = Begins c e ⊎ BeginsIn (step c e) es

-- A wakeup waits until it is served.
waits_on :
    (c : Coordinator) (e : Event)
    → event_goes_on e ≡ true
    → IsHeld c
    → c.pending ≡ true
    → Begins c e ⊎ ((step c e).pending ≡ true)
unfolding step advance drain
waits_on _ e g (idle d) h = absurd (cc)
waits_on _ e g (held w false d n) h = absurd (cc)
waits_on _ Event.advances g (held w true true n) h = inr refl
waits_on _ Event.advances g (held w true false n) h = inr refl
waits_on _ Event.drains g (held w true d n) h = inr refl
waits_on _ (Event.moves (suc m) o) g (held w true d n) h = inr refl
waits_on _ (Event.moves zero o) g (held Place.resetting true d n) h = inl (refl, refl, refl)
waits_on _ (Event.moves zero Outcome.cancelled) g (held w true d n) h = absurd (cc)
waits_on _ (Event.moves zero Outcome.failed) g (held Place.serving true d n) h = inr refl
waits_on _ (Event.moves zero Outcome.claimed) g (held Place.serving true d n) h = inr refl
waits_on _ (Event.moves zero Outcome.idle) g (held Place.serving true d n) h = inr refl
waits_on _ (Event.moves zero Outcome.failed) g (held Place.delayed true d n) h = inr refl
waits_on _ (Event.moves zero Outcome.claimed) g (held Place.delayed true d n) h = inr refl
waits_on _ (Event.moves zero Outcome.idle) g (held Place.delayed true d n) h = inr refl
waits_on _ (Event.moves zero o) g (held Place.looking true d n) h = inr refl
waits_on _ (Event.moves zero o) g (held Place.finishing true d n) h = absurd (n refl)

-- Three sections of the goroutine, one after the other.
abbrev pub sections : Outcome → Outcome → Outcome → List Event
sections o o' o'' = Event.moves 0 o ∷ Event.moves 0 o' ∷ Event.moves 0 o'' ∷ []

served :
    (c : Coordinator) (o o' o'' : Outcome)
    → IsHeld c
    → c.pending ≡ true
    → goes_on o ≡ true
    → goes_on o' ≡ true
    → BeginsIn c (sections o o' o'')
unfolding BeginsIn step
served _ o o' o'' (idle d) h g g' = absurd (cc)
served _ o o' o'' (held w false d n) h g g' = absurd (cc)
served _ o o' o'' (held Place.resetting true d n) h g g' = inl (refl, refl, refl)
served _ Outcome.cancelled o' o'' (held w true d n) h g g' = absurd (cc)
served _ o Outcome.cancelled o'' (held w true d n) h g g' = absurd (cc)
served _ Outcome.failed Outcome.failed o'' (held Place.serving true d n) h g g' =
    inr (inr (inl (refl, refl, refl)))
served _ Outcome.failed Outcome.claimed o'' (held Place.serving true d n) h g g' =
    inr (inr (inl (refl, refl, refl)))
served _ Outcome.failed Outcome.idle o'' (held Place.serving true d n) h g g' =
    inr (inr (inl (refl, refl, refl)))
served _ Outcome.claimed o' o'' (held Place.serving true d n) h g g' = inr (inl (refl, refl, refl))
served _ Outcome.idle o' o'' (held Place.serving true d n) h g g' =
    inr (inr (inl (refl, refl, refl)))
served _ Outcome.failed o' o'' (held Place.delayed true d n) h g g' = inr (inl (refl, refl, refl))
served _ Outcome.claimed o' o'' (held Place.delayed true d n) h g g' = inr (inl (refl, refl, refl))
served _ Outcome.idle o' o'' (held Place.delayed true d n) h g g' = inr (inl (refl, refl, refl))
served _ o o' o'' (held Place.looking true d n) h g g' = inr (inl (refl, refl, refl))
served _ o o' o'' (held Place.finishing true d n) h g g' = absurd (n refl)

served_after :
    (c : Coordinator) (es : List Event) (o o' o'' : Outcome)
    → All (λ e. event_goes_on e ≡ true) es
    → IsHeld c
    → c.pending ≡ true
    → goes_on o ≡ true
    → goes_on o' ≡ true
    → BeginsIn c (es ++ sections o o' o'')
unfolding BeginsIn
served_after c [] o o' o'' gs v h g g' = served c o o' o'' v h g g'
served_after c (e ∷ es) o o' o'' (k, ks) v h g g' = elim (waits_on c e k v h) [
  | inl b ↦ inl b
  | inr p ↦ inr (served_after (step c e) es o o' o'' ks (step-IsHeld c e k v) p g g')
]

advance_sets : (c : Coordinator) → IsHeld c → c.draining ≡ false → (advance c).pending ≡ true
unfolding advance
advance_sets _ (idle false) h = refl
advance_sets _ (held w p false n) h = refl
advance_sets _ (idle true) h = absurd (cc)
advance_sets _ (held w p true n) h = absurd (cc)

-- No wakeup is lost: after any interleaving, a call of Advance before a drain is served. Whatever
-- interleaving follows, a new call of RunOnce has begun after that call of Advance when the goroutine
-- has made three more sections. In the interleavings the context does not end.
pub wakeup_is_served :
    (es fs : List Event) (o o' o'' : Outcome)
    → All (λ e. event_goes_on e ≡ true) es
    → All (λ e. event_goes_on e ≡ true) fs
    → (run new_coordinator es).draining ≡ false
    → goes_on o ≡ true
    → goes_on o' ≡ true
    → BeginsIn (advance (run new_coordinator es)) (fs ++ sections o o' o'')
unfolding step
wakeup_is_served es fs o o' o'' gs ks d g g' =
    let c = run new_coordinator es in
    let v = run-IsHeld new_coordinator es gs (idle false) in
    served_after (advance c) fs o o' o'' ks (step-IsHeld c Event.advances refl v)
      (advance_sets c v d) g g'
