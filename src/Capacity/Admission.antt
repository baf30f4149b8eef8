-- ===== src/Capacity/Admission.antt =====
-- What a call of runLocked and Admit of internal/capacity/controller.go promises.
use autback.Prelude.{
  ℕ, ◌-◌, ◌≡◌, ◌<◌, refl, ap, ◌⊎◌, inl, inr, Bool, true, false, not, ◌&&◌, ◌||◌, Option, none, some,
  arith, ltb, if◌then◌else◌,
}
use autback.Capacity.Policy.{Policy, thresholds}
use autback.Capacity.Controller.{
  Trigger, Snapshot, ReclaimReport, Status, State, Controller, Backend, Fault, Cause, Reply, gives,
  fails, no_status, short_of, Outcome, judge, last_resort, collect, run_locked, admit, admit_locked,
  unlocked, reserve_if_admitted, stop_and_reclaim, remeasured, reclaimed, throttled, pace, verified,
  stopped, looked, measured, is_pressure, is_admission, no_report,
}

-- The worker said that it was busy.
abbrev pub SaidBusy : {W E : Type 0} → Backend W E → Type 0
SaidBusy {W = W} b = (u : W) × ((b.busy u).0 ≡ gives true)

-- The space that is left after the call is enough.
abbrev pub HasRoom : {E : Type 0} → Policy → Status E → Type 0
HasRoom p s =
    (s.state ≡ State.healthy)
    × (short_of s.after s.thresholds.soft_free_bytes p.minimum_free_inodes ≡ false)

-- The worker said that it was busy, and the disk was not short of the hard limit.
abbrev pub IsDeferred : {W E : Type 0} → Backend W E → Policy → Status E → Type 0
IsDeferred b p s =
    (s.state ≡ State.deferred)
    × SaidBusy b
    × (short_of s.before s.thresholds.hard_free_bytes p.minimum_free_inodes ≡ false)

-- A pressure call that came sooner after the last one than the throttle allows, as the clock said.
abbrev pub IsThrottled : {W E : Type 0} → Backend W E → Policy → ℕ → Trigger → Status E → Type 0
IsThrottled {W = W} b p last trigger s =
    (s.state ≡ State.reclaiming)
    × (trigger ≡ Trigger.pressure)
    × ((u : W) × ((b.now u).0 ≡ s.completed_at))
    × (s.completed_at - last < p.pressure_throttle)

-- A status without an error.
abbrev pub Allows : {W E : Type 0} → Backend W E → Policy → ℕ → Trigger → Status E → Type 0
Allows b p last trigger s = HasRoom p s ⊎ IsDeferred b p s ⊎ IsThrottled b p last trigger s

-- Every outcome: with no error the status allows the admission, and with one it is blocked; it is
-- also the status that the controller keeps. Or the disk could not be measured, and the status that
-- the controller keeps is the old one.
abbrev pub Judged :
    {W E : Type 0}
    → Backend W E
    → Policy
    → Status E
    → ℕ
    → Trigger
    → Status E × Option (Fault E) × Controller E × W
    → Type 0
Judged b p old last trigger (s, none, c', w) = Allows b p last trigger s × (c'.status ≡ s)
Judged b p old last trigger (s, some e, c', w) =
    ((s.state ≡ State.blocked) × (c'.status ≡ s)) ⊎ ((s ≡ no_status) × (c'.status ≡ old))

module _ {W E : Type 0} (b : Backend W E) (old : Status E) (last : ℕ) (t : Trigger) where
  either :
      (p : Policy) (test : Bool) (x y : Outcome b)
      → (test ≡ true → Judged b p old last t x)
      → (test ≡ false → Judged b p old last t y)
      → Judged b p old last t (if test then x else y)
  either p true x y h k = h refl
  either p false x y h k = k refl

  judge_lem :
      (c : Controller E) (s : Status E) (w : W) → Judged b c.policy old last t (judge b c s w)
  unfolding judge
  judge_lem c s w =
      either c.policy (short_of s.after s.thresholds.soft_free_bytes c.policy.minimum_free_inodes) _
        _ (λ _. inl (refl, refl)) (λ enough. (inl (refl, enough), refl))

  stop_lem :
      (c : Controller E) (s : Status E) (x : Option E × W)
      → Judged b c.policy old last t (stop_and_reclaim b c s x)
  stop_lem c s (some e, w) = judge_lem c _ w
  stop_lem c s (none, w) = judge_lem c _ _

  last_resort_lem :
      (c : Controller E) (s : Status E) (w : W) → Judged b c.policy old last t (last_resort b c s w)
  unfolding last_resort
  last_resort_lem c s w =
      either c.policy (short_of s.after s.thresholds.hard_free_bytes c.policy.minimum_free_inodes) _
        _ (λ _. stop_lem c _ (b.emergency w)) (λ _. judge_lem c s w)

  remeasured_lem :
      (c : Controller E) (s : Status E) (x : Reply E Snapshot × W)
      → c.status ≡ old
      → Judged b c.policy old last t (remeasured b c s x)
  remeasured_lem c s (gives a, w) k = last_resort_lem c _ w
  remeasured_lem c s (fails e, w) k = inr (refl, k)

  reclaimed_lem :
      (c : Controller E) (s : Status E) (x : ReclaimReport × Option E × W)
      → c.status ≡ old
      → Judged b c.policy old last t (reclaimed b c s x)
  reclaimed_lem c s (r, some e, w) k = inl (refl, refl)
  reclaimed_lem c s (r, none, w) k = remeasured_lem c (record s { reclaim = r }) (b.snapshot w) k

  collect_lem :
      (c : Controller E) (s : Status E) (pressed : Bool) (w : W)
      → c.status ≡ old
      → Judged b c.policy old last t (collect b c s pressed w)
  unfolding collect
  collect_lem c s pressed w k =
      reclaimed_lem c (record s { state = if pressed then State.reclaiming else s.state }) _ k

  throttled_lem :
      (c : Controller E) (s : Status E) (pressed : Bool) (x : ℕ × W)
      → t ≡ Trigger.pressure
      → (u : W) × (b.now u ≡ x)
      → c.last_pressure ≡ last
      → c.status ≡ old
      → Judged b c.policy old last t (throttled b c s pressed x)
  throttled_lem c s pressed (now, w) e (u, r) m k =
      either c.policy
        (ltb 0 c.policy.pressure_throttle && ltb (now - c.last_pressure) c.policy.pressure_throttle)
        _ _ (λ h. (inr (inr (refl, e, (u, ap (λ (x : ℕ × W). x.0) r), ground (arith, h, m))), refl))
        (λ _. collect_lem (record c { last_pressure = now }) s pressed w k)

  pace_lem :
      (c : Controller E) (s : Status E) (pressed : Bool) (w : W)
      → s.trigger ≡ t
      → c.last_pressure ≡ last
      → c.status ≡ old
      → Judged b c.policy old last t (pace b c s pressed w)
  pace_lem c s pressed w e m k =
      either c.policy (is_pressure b s.trigger) _ _
        (λ p. throttled_lem c s pressed (b.now w) (ground arith) (w, refl) m k)
        (λ _. collect_lem c s pressed w k)

  verified_lem :
      (c : Controller E) (s : Status E) (pressed : Bool) (x : Reply E Bool × W)
      → s.trigger ≡ t
      → c.last_pressure ≡ last
      → c.status ≡ old
      → Judged b c.policy old last t (verified b c s pressed x)
  verified_lem c s pressed (fails e, w) q m k = inl (refl, refl)
  verified_lem c s pressed (gives true, w) q m k = inl (refl, refl)
  verified_lem c s pressed (gives false, w) q m k = pace_lem c s pressed w q m k

  stopped_lem :
      (c : Controller E) (s : Status E) (pressed : Bool) (x : Option E × W)
      → s.trigger ≡ t
      → c.last_pressure ≡ last
      → c.status ≡ old
      → Judged b c.policy old last t (stopped b c s pressed x)
  stopped_lem c s pressed (some e, w) q m k = inl (refl, refl)
  stopped_lem c s pressed (none, w) q m k = verified_lem c s pressed (b.busy w) q m k

  looked_lem :
      (c : Controller E) (s : Status E) (pressed : Bool) (x : Reply E Bool × W)
      → (u : W) × (b.busy u ≡ x)
      → s.trigger ≡ t
      → c.last_pressure ≡ last
      → c.status ≡ old
      → Judged b c.policy old last t (looked b c s pressed x)
  looked_lem c s pressed (fails e, w) u q m k = inl (refl, refl)
  looked_lem c s pressed (gives false, w) u q m k = pace_lem c s pressed w q m k
  looked_lem c s pressed (gives true, w) (u, r) q m k =
      either c.policy (short_of s.before s.thresholds.hard_free_bytes c.policy.minimum_free_inodes)
        _ _
        (λ _. stopped_lem c (record s { state = State.emergency }) pressed (b.emergency w) q m k)
        (λ h. (inr (inl (refl, (u, ap (λ (x : Reply E Bool × W). x.0) r), h)), refl))

  measured_lem :
      (c : Controller E) (x : Reply E Snapshot × W)
      → c.last_pressure ≡ last
      → c.status ≡ old
      → Judged b c.policy old last t (measured b c t x)
  measured_lem c (fails e, w) m k = inr (refl, k)
  measured_lem c (gives before, w) m k =
      either c.policy (is_pressure b t && not pressed) _ _
        (λ calm. (inl (refl, ground arith), refl))
        (λ _.
          either c.policy (pressed || not (is_admission b t)) _ _
            (λ _. looked_lem c first pressed (b.busy w) (w, refl) refl m k)
            (λ _. last_resort_lem c first w))
    where
      first : Status E
      first = record {
        state = State.healthy;
        trigger = t;
        before = before;
        after = before;
        thresholds = thresholds c.policy before.total_bytes;
        reclaim = no_report;
        error = none;
        completed_at = 0;
      }

      pressed : Bool
      pressed =
          short_of before (thresholds c.policy before.total_bytes).soft_free_bytes
            c.policy.minimum_free_inodes

pub run_locked-Judged :
    {W E : Type 0} (b : Backend W E) (c : Controller E) (t : Trigger) (w : W)
    → Judged b c.policy c.status c.last_pressure t (run_locked b c t w)
unfolding run_locked
run_locked-Judged b c t w = measured_lem b c.status c.last_pressure t c (b.snapshot w) refl refl

module _ {W E : Type 0} (b : Backend W E) (c : Controller E)
    (reserve : Controller E → W → Option (Fault E) × Controller E × W) where
  -- The lock fails, and with it Admit; or the capacity run under the lock fails, and Admit with its
  -- error; or the run admits the operation, and Admit answers as the reservation does.
  abbrev pub Decides : Option (Fault E) × Controller E × W → Option E × W → Outcome b → Type 0
  Decides answer (some e, w1) x = answer ≡ (some (Fault.lock (Cause.backend e)), c, w1)
  Decides answer (none, w1) (s, some e, c', w') = answer ≡ (some e, c', b.unlock w')
  Decides answer (none, w1) (s, none, c', w') =
      (answer ≡ ((reserve c' w').0, (reserve c' w').1, b.unlock (reserve c' w').2))
      × (HasRoom c.policy s ⊎ IsDeferred b c.policy s)

  admitted_lem :
      (w1 : W) (x : Outcome b)
      → Judged b c.policy c.status c.last_pressure Trigger.admission x
      → Decides (unlocked b (reserve_if_admitted b reserve x)) (none, w1) x
  admitted_lem w1 (s, some e, c', w') j = refl
  admitted_lem w1 (s, none, c', w') (inl room, k) = (refl, inl room)
  admitted_lem w1 (s, none, c', w') (inr (inl deferred), k) = (refl, inr deferred)
  admitted_lem w1 (s, none, c', w') (inr (inr (_, bad, _, _)), k) = absurd (cc)

  locked_lem :
      (x : Option E × W)
      → Decides (admit_locked b c reserve x) x (run_locked b c Trigger.admission x.1)
  locked_lem (some e, w1) = refl
  locked_lem (none, w1) =
      admitted_lem w1 (run_locked b c Trigger.admission w1)
        (run_locked-Judged b c Trigger.admission w1)

  -- Admit reserves only when it has the lock, the capacity run returned no error, and either the space
  -- that is left is enough or the worker said that it was busy while the disk was not short of the
  -- hard limit. It then answers as the reservation does. Without the lock, and after an error of the
  -- run, it returns that error and the reservation is not called; it gives back a lock that it got.
  pub admit-Decides :
      (w : W)
      → Decides (admit b c reserve w) (b.lock w) (run_locked b c Trigger.admission (b.lock w).1)
  unfolding admit
  admit-Decides w = locked_lem (b.lock w)
