-- ===== src/Retry/Bounded.antt =====
-- How often Do in internal/retry/retry.go tries, and how long it waits.
use autback.Prelude.{
  ℕ, zero, suc, ◌+◌, ◌-◌, ◌≤◌, Bool, Option, none, some, Bool-cases, inl, inr, leb, arith, ltb, ◌≡◌,
  ◌%◌, ◌^◌, ◌<◌, ◌*◌, true, false, sym, ◌∙◌, if◌then◌else◌,
}
use autback.Retry.{
  Policy, Host, Turn, waited, jittered, timed, judged, tried, turn, loop, begin, retry, normalize,
  smaller, next_delay, signed_lt, is_positive, doubled, raised, milliseconds,
}
use autback.Retry.Explained.{or_default_pos, normalize-attempts}

shift : (a : ℕ) → a < 2 ^ 63 → (a + 2 ^ 63) % 2 ^ 64 ≡ a + 2 ^ 63
shift a h = omega (arith, h)

ltb_add : (a b c : ℕ) → ltb (a + c) (b + c) ≡ ltb a b
ltb_add a b c = ground arith

doubled-fits : (d : ℕ) → d < 2 ^ 62 → doubled d ≡ d * 2
doubled-fits d h = omega (arith, h)

-- On durations that are not negative the order of int64 is that of numbers.
signed_lt-ltb : (a b : ℕ) → a < 2 ^ 63 → b < 2 ^ 63 → signed_lt a b ≡ ltb a b
signed_lt-ltb a b h k = rw (shift a h, shift b k) (ltb_add a b (2 ^ 63))

next_delay_bounds :
    (initial most d : ℕ)
    → initial ≤ d
    → d ≤ most
    → most ≤ 2 ^ 62
    → (initial ≤ next_delay most d) × (next_delay most d ≤ most)
next_delay_bounds initial most d h k m =
    rw (signed_lt-ltb d most (omega (arith, h, k, m)) (omega (arith, m)))
      (elim (Bool-cases (ltb d most)) [
        | inr e ↦ rw e (h, k)
        | inl e ↦
            rw (e, doubled-fits d (below e))
              (rw (signed_lt-ltb most (d * 2) (omega (arith, m)) (omega (arith, below e)))
                (elim (Bool-cases (ltb most (d * 2))) [
                  | inl u ↦ rw u (omega (arith, h, k), omega arith)
                  | inr u ↦ rw u (omega (arith, h), ground (arith, u))
                ]))
      ])
  where
    below : ltb d most ≡ true → d < 2 ^ 62
    below e = ground (arith, e, m)

smaller_pos : (a b : ℕ) → 1 ≤ a → 1 ≤ b → 1 ≤ smaller a b
smaller_pos a b h k = elim (Bool-cases (signed_lt a b)) [ inl e ↦ rw e h | inr e ↦ rw e k ]

jitter_pos : (j d : ℕ) → 1 ≤ d → 1 ≤ (if is_positive j then j else d)
jitter_pos zero d h = h
jitter_pos (suc j) d h = elim (Bool-cases (is_positive (suc j))) [
  | inl e ↦ rw e (omega arith)
  | inr e ↦ rw e h
]

module _ {W E : Type 0} (h : Host W E) (p : Policy) (operation : Option ℕ → W → Option E × W)
    (retryable : E → Bool) (count : W → ℕ) (positive : 1 ≤ p.initial_delay)
    (fits : p.max_delay ≤ 2 ^ 62) (now_keeps : (w : W) → count (h.now w).1 ≤ count w)
    (jitter_keeps : (d : ℕ) (w : W)
      → p.initial_delay ≤ d
      → d ≤ p.max_delay
      → count (h.jitter d w).1 ≤ count w)
    (wait_keeps : (d : ℕ) (w : W) → 1 ≤ d → count (h.wait d w).1 ≤ count w)
    (attempt_counts : (t : Option ℕ) (w : W) → count (operation t w).1 ≤ count w + 1) where
  module _ (started : ℕ) (next : Turn h p operation retryable started) (attempt delay : ℕ)
      (some_left : attempt ≤ p.max_attempts) (low : p.initial_delay ≤ delay)
      (high : delay ≤ p.max_delay)
      (go : (d : ℕ) (w : W)
        → attempt + 1 ≤ p.max_attempts
        → p.initial_delay ≤ d
        → d ≤ p.max_delay
        → count (next (attempt + 1) d w).1 + (attempt + 1) ≤ count w + p.max_attempts + 1) where
    waited_bound :
        (e : E) (y : Option E × W)
        → attempt + 1 ≤ p.max_attempts
        → count (waited h p operation retryable started next attempt delay e y).1 + attempt
          ≤ count y.1 + p.max_attempts
    waited_bound e (none, w) l =
        let (a, b) = next_delay_bounds p.initial_delay p.max_delay delay low high fits in
        omega (arith, go _ w l a b)
    waited_bound e (some f, w) l = omega (arith, l)

    jittered_bound :
        (e : E) (remaining : ℕ) (y : ℕ × W)
        → 1 ≤ remaining
        → attempt + 1 ≤ p.max_attempts
        → count (jittered h p operation retryable started next attempt delay e remaining y).1
            + attempt
          ≤ count y.1 + p.max_attempts
    jittered_bound e remaining (j, w) l m =
        let d = smaller remaining (if is_positive j then j else delay) in
        let kept = wait_keeps d w (
          smaller_pos remaining (if is_positive j then j else delay) l
            (jitter_pos j delay (omega (arith, low, positive)))) in
        omega (arith, kept, waited_bound e (h.wait d w) m)

    timed_bound :
        (e : E) (y : ℕ × W)
        → attempt + 1 ≤ p.max_attempts
        → count (timed h p operation retryable started next attempt delay e y).1 + attempt
          ≤ count y.1 + p.max_attempts
    timed_bound e (t, w) m = elim (Bool-cases (leb (started + p.max_elapsed) t)) [
      | inl k ↦ rw k (omega (arith, m))
      | inr k ↦ rw k (
          omega (
            arith,
            jitter_keeps delay w low high,
            jittered_bound e (started + p.max_elapsed - t) (h.jitter delay w) (ground arith) m,
          ))
    ]

    judged_bound :
        (e : E) (c : Option E) (w : W)
        → count (judged h p operation retryable started next attempt delay e c w).1 + attempt
          ≤ count w + p.max_attempts
    judged_bound e (some c) w = omega (arith, some_left)
    judged_bound e none w = elim (Bool-cases (retryable e)) [
      | inr r ↦ rw r (omega (arith, some_left))
      | inl r ↦ rw r (elim (Bool-cases (leb p.max_attempts attempt)) [
        | inl m ↦ rw m (omega (arith, some_left))
        | inr m ↦ rw m (omega (arith, now_keeps w, timed_bound e (h.now w) (ground arith)))
      ])
    ]

    tried_bound :
        (y : Option E × W)
        → count (tried h p operation retryable started next attempt delay y).1 + attempt
          ≤ count y.1 + p.max_attempts
    tried_bound (none, w) = omega (arith, some_left)
    tried_bound (some e, w) = judged_bound e (h.context_error w) w

    turn_bound :
        (c : Option E) (w : W)
        → count (turn h p operation retryable started next attempt delay c w).1 + attempt
          ≤ count w + p.max_attempts + 1
    turn_bound (some c) w = omega (arith, some_left)
    turn_bound none w = omega (arith, attempt_counts _ w, tried_bound (operation _ w))

  loop_bound :
      (started fuel attempt delay : ℕ) (w : W)
      → attempt ≤ p.max_attempts
      → p.initial_delay ≤ delay
      → delay ≤ p.max_delay
      → count (loop h p operation retryable started fuel attempt delay w).1 + attempt
        ≤ count w + p.max_attempts + 1
  unfolding loop
  loop_bound started zero attempt delay w m l k = omega (arith, m)
  loop_bound started (suc fuel) attempt delay w m l k =
      turn_bound started (loop h p operation retryable started fuel) attempt delay m l k
        (λ d v n a b. loop_bound started fuel (attempt + 1) d v n a b) (h.context_error w) w

initial_pos : (policy : Policy) → 1 ≤ (normalize policy).initial_delay
unfolding normalize
initial_pos policy = or_default_pos (milliseconds 250) policy.initial_delay (omega arith)

not_below : (a b : ℕ) → a ≤ 2 ^ 62 → b ≤ 2 ^ 62 → ltb b a ≡ false → a ≤ b
not_below a b h k e = ground arith

raised_le : (a b : ℕ) → a ≤ 2 ^ 62 → raised a b ≤ 2 ^ 62 → a ≤ raised a b
raised_le a b h = elim (Bool-cases (signed_lt b a)) [
  | inl e ↦ rw e (λ k. omega arith)
  | inr e ↦
      rw e
        (λ k. not_below a b h k (sym (signed_lt-ltb b a (omega (arith, k)) (omega (arith, h))) ∙ e))
]

initial_le_max :
    (policy : Policy)
    → (normalize policy).initial_delay ≤ 2 ^ 62
    → (normalize policy).max_delay ≤ 2 ^ 62
    → (normalize policy).initial_delay ≤ (normalize policy).max_delay
unfolding normalize
initial_le_max policy h k = raised_le _ _ h k

module _ {W E : Type 0} (h : Host W E) (policy : Policy) (operation : Option ℕ → W → Option E × W)
    (retryable : E → Bool) (count : W → ℕ)
    (initial_fits : (normalize policy).initial_delay ≤ 2 ^ 62)
    (max_fits : (normalize policy).max_delay ≤ 2 ^ 62)
    (now_keeps : (w : W) → count (h.now w).1 ≤ count w)
    (jitter_keeps : (d : ℕ) (w : W)
      → (normalize policy).initial_delay ≤ d
      → d ≤ (normalize policy).max_delay
      → count (h.jitter d w).1 ≤ count w)
    (wait_keeps : (d : ℕ) (w : W) → 1 ≤ d → count (h.wait d w).1 ≤ count w)
    (attempt_counts : (t : Option ℕ) (w : W) → count (operation t w).1 ≤ count w + 1) where
  begin_bound :
      (fuel : ℕ) (t : ℕ × W)
      → count (begin h policy fuel operation retryable t).1
        ≤ count t.1 + (normalize policy).max_attempts
  begin_bound fuel (t, w) =
      let p = normalize policy in
      omega (
        arith,
        loop_bound h p operation retryable count (initial_pos policy) max_fits now_keeps
            jitter_keeps wait_keeps attempt_counts t fuel 1 p.initial_delay w
            (normalize-attempts policy) (omega arith) (initial_le_max policy initial_fits max_fits),
      )

  -- With delays of at most 2^62 nanoseconds, so that no doubling wraps around, and for any number of
  -- turns, Do makes at most as many attempts as the policy allows; it jitters only delays between the
  -- initial and the greatest one, and no wait is empty. Whatever counts attempts, and is raised neither
  -- by the clock, nor by the jitter of such a delay, nor by a wait that is not empty, is raised by at
  -- most the number of attempts allowed.
  pub retry_is_bounded :
      (fuel : ℕ) (w : W)
      → count (retry h policy fuel (some operation) (some retryable) w).1
        ≤ count w + (normalize policy).max_attempts
  unfolding retry
  retry_is_bounded fuel w = omega (arith, now_keeps w, begin_bound fuel (h.now w))
