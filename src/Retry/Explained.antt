-- ===== src/Retry/Explained.antt =====
-- What the answer of Do in internal/retry/retry.go says.
use autback.Prelude.{
  ℕ, zero, suc, ◌+◌, ◌≤◌, ◌≡◌, refl, ap, sym, subst, Bool, true, false, Option, none, some,
  Bool-cases, inl, inr, leb, arith,
}
use autback.Retry.{
  Policy, Host, Answer, success, missing, context, permanent, elapsed, exhausted, interrupted, Turn,
  waited, jittered, timed, judged, tried, turn, loop, begin, retry, normalize, or_default,
  attempt_context, is_positive,
}

module _ {W E : Type 0} (h : Host W E) (p : Policy) (operation : Option ℕ → W → Option E × W)
    (retryable : E → Bool) (started : ℕ) where
  -- An attempt answered like this.
  abbrev pub Attempted : Option E → Type 0
  Attempted x = (w : W) × ((operation (attempt_context p.attempt_timeout) w).0 ≡ x)

  -- What each answer says: an attempt succeeded; or the context has ended; or an attempt failed with
  -- an error that is not to be retried; or with one that is, and as many attempts as allowed were made,
  -- or the clock was at or past the end of the time allowed, or a wait failed.
  abbrev pub IsMeant : Answer E → Type 0
  IsMeant success = Attempted none
  IsMeant missing = ⊥
  IsMeant (context c) = (w : W) × (h.context_error w ≡ some c)
  IsMeant (permanent e) = Attempted (some e) × (retryable e ≡ false)
  IsMeant (exhausted n e) = Attempted (some e) × (retryable e ≡ true) × (n ≡ p.max_attempts)
  IsMeant (elapsed e) =
      Attempted (some e)
      × (retryable e ≡ true)
      × ((w : W) × (started + p.max_elapsed ≤ (h.now w).0))
  IsMeant (interrupted e f) =
      Attempted (some e) × (retryable e ≡ true) × ((d : ℕ) × ((w : W) × ((h.wait d w).0 ≡ some f)))

  abbrev pub Ends : Option (Answer E) × W → Type 0
  Ends x = (a : Answer E) × (x.0 ≡ some a) × IsMeant a

  module _ (next : Turn h p operation retryable started) (attempt delay : ℕ)
      (go : suc attempt ≤ p.max_attempts → (d : ℕ) (w : W) → Ends (next (attempt + 1) d w)) where
    waited-Ends :
        (e : E) (d : ℕ) (w : W) (y : Option E × W)
        → h.wait d w ≡ y
        → Attempted (some e)
        → retryable e ≡ true
        → suc attempt ≤ p.max_attempts
        → Ends (waited h p operation retryable started next attempt delay e y)
    waited-Ends e d w (none, w') k a r l = go l _ w'
    waited-Ends e d w (some f, w') k a r l =
        (interrupted e f, refl, (a, r, (d, (w, ap (λ (x : Option E × W). x.0) k))))

    jittered-Ends :
        (e : E) (remaining : ℕ) (y : ℕ × W)
        → Attempted (some e)
        → retryable e ≡ true
        → suc attempt ≤ p.max_attempts
        → Ends (jittered h p operation retryable started next attempt delay e remaining y)
    jittered-Ends e remaining (j, w) a r l = waited-Ends e _ w _ refl a r l

    timed-Ends :
        (e : E) (w : W) (y : ℕ × W)
        → h.now w ≡ y
        → Attempted (some e)
        → retryable e ≡ true
        → suc attempt ≤ p.max_attempts
        → Ends (timed h p operation retryable started next attempt delay e y)
    timed-Ends e u (t, w) q a r l = elim (Bool-cases (leb (started + p.max_elapsed) t)) [
      | inl k ↦ rw k (
        elapsed e,
        refl,
        (
          a,
          r,
          (
            u,
            subst (λ (x : ℕ). started + p.max_elapsed ≤ x) (sym (ap (λ (x : ℕ × W). x.0) q))
                (ground (arith, k)),
          ),
        ),
      )
      | inr k ↦ rw k (jittered-Ends e _ (h.jitter delay w) a r l)
    ]

    judged-Ends :
        (e : E) (c : Option E) (w : W)
        → h.context_error w ≡ c
        → Attempted (some e)
        → attempt ≤ p.max_attempts
        → Ends (judged h p operation retryable started next attempt delay e c w)
    judged-Ends e (some c) w k a l = (context c, refl, (w, k))
    judged-Ends e none w k a l = elim (Bool-cases (retryable e)) [
      | inr r ↦ rw r (permanent e, refl, (a, r))
      | inl r ↦ rw r (elim (Bool-cases (leb p.max_attempts attempt)) [
        | inl m ↦ rw m (exhausted attempt e, refl, (a, r, ground arith))
        | inr m ↦ rw m (timed-Ends e w (h.now w) refl a r (ground arith))
      ])
    ]

    tried-Ends :
        (w : W) (y : Option E × W)
        → operation (attempt_context p.attempt_timeout) w ≡ y
        → attempt ≤ p.max_attempts
        → Ends (tried h p operation retryable started next attempt delay y)
    tried-Ends w (none, w') k l = (success, refl, (w, ap (λ (x : Option E × W). x.0) k))
    tried-Ends w (some e, w') k l =
        judged-Ends e (h.context_error w') w' refl (w, ap (λ (x : Option E × W). x.0) k) l

    turn-Ends :
        (c : Option E) (w : W)
        → h.context_error w ≡ c
        → attempt ≤ p.max_attempts
        → Ends (turn h p operation retryable started next attempt delay c w)
    turn-Ends (some c) w k l = (context c, refl, (w, k))
    turn-Ends none w k l = tried-Ends w _ refl l

  loop-Ends :
      (fuel attempt delay : ℕ) (w : W)
      → p.max_attempts + 1 ≤ attempt + fuel
      → attempt ≤ p.max_attempts
      → Ends (loop h p operation retryable started fuel attempt delay w)
  unfolding loop
  loop-Ends zero attempt delay w k l = absurd (omega (arith, k, l))
  loop-Ends (suc fuel) attempt delay w k l =
      turn-Ends (loop h p operation retryable started fuel) attempt delay
        (λ m d v. loop-Ends fuel (attempt + 1) d v (omega (arith, k)) (omega (arith, m)))
        (h.context_error w) w refl l

pub or_default_pos : (d n : ℕ) → 1 ≤ d → 1 ≤ or_default d n
or_default_pos d zero h = h
or_default_pos d (suc n) h = elim (Bool-cases (is_positive (suc n))) [
  | inl e ↦ rw e (omega arith)
  | inr e ↦ rw e h
]

pub normalize-attempts : (policy : Policy) → 1 ≤ (normalize policy).max_attempts
unfolding normalize
normalize-attempts policy = or_default_pos 5 policy.max_attempts (omega arith)

begin-Ends :
    {W E : Type 0} (h : Host W E) (policy : Policy) (operation : Option ℕ → W → Option E × W)
    (retryable : E → Bool) (fuel : ℕ) (t : ℕ × W)
    → (normalize policy).max_attempts ≤ fuel
    → Ends h (normalize policy) operation retryable t.0 (begin h policy fuel operation retryable t)
begin-Ends h policy operation retryable fuel (t, w) l =
    let p = normalize policy in
    loop-Ends h p operation retryable t fuel 1 p.initial_delay w (omega (arith, l))
      (normalize-attempts policy)

-- Do always answers, with fuel for as many turns as the policy allows attempts, and its answer says
-- what happened: an attempt succeeded; or the context has ended; or an attempt failed with an error
-- that is not to be retried; or with one that is, and as many attempts as the policy allows were made,
-- or the clock was at or past the end of the time that it allows from the start, or a wait failed.
pub retry-Ends :
    {W E : Type 0} (h : Host W E) (policy : Policy) (operation : Option ℕ → W → Option E × W)
    (retryable : E → Bool) (fuel : ℕ) (w : W)
    → (normalize policy).max_attempts ≤ fuel
    → Ends h
        (normalize policy)
        operation
        retryable
        (h.now w).0
        (retry h policy fuel (some operation) (some retryable) w)
unfolding retry
retry-Ends h policy operation retryable fuel w l =
    begin-Ends h policy operation retryable fuel (h.now w) l
