-- ===== src/Retry.antt =====
-- internal/retry/retry.go: Do. A duration and an int of the policy are the 64 bits of an int64, as a
-- number below 2^64; times are numbers of nanoseconds.
use autback.Prelude.{
  ℕ, zero, suc, ◌+◌, ◌-◌, ◌*◌, Bool, Option, none, some, ltb, leb, ◌%◌, ◌^◌, if◌then◌else◌,
}
pub mod Bounded
pub mod Explained
pub mod Examples

-- The numbers of Policy.
pub record Policy : Type 0 where
  pub initial_delay : ℕ
  pub max_delay : ℕ
  pub max_attempts : ℕ
  pub max_elapsed : ℕ
  pub attempt_timeout : ℕ

-- The functions of Policy and what the context answers; the world is W.
pub record Host (W E : Type 0) : Type 0 where
  pub now : W → ℕ × W
  pub wait : ℕ → W → Option E × W
  pub jitter : ℕ → W → ℕ × W
  pub context_error : W → Option E

pub data Answer (E : Type 0) : Type 0 where
  success missing : Answer E
  context permanent elapsed : E → Answer E
  exhausted : ℕ → E → Answer E
  interrupted : E → E → Answer E

abbrev pub milliseconds : ℕ → ℕ
milliseconds n = n * 1000000

-- a < b of int64, and a > 0
abbrev pub signed_lt : ℕ → ℕ → Bool
signed_lt a b = ltb ((a + 2 ^ 63) % 2 ^ 64) ((b + 2 ^ 63) % 2 ^ 64)

abbrev pub is_positive : ℕ → Bool
is_positive a = signed_lt 0 a

abbrev pub or_default : ℕ → ℕ → ℕ
or_default d n = if is_positive n then n else d

-- if policy.MaxDelay < policy.InitialDelay
abbrev pub raised : ℕ → ℕ → ℕ
raised initial most = if signed_lt most initial then initial else most

-- normalize, of the numbers
unfoldable pub normalize : Policy → Policy
normalize p =
    let initial = or_default (milliseconds 250) p.initial_delay in
    record {
      initial_delay = initial;
      max_delay = raised initial (or_default (milliseconds 5000) p.max_delay);
      max_attempts = or_default 5 p.max_attempts;
      max_elapsed = or_default (milliseconds 30000) p.max_elapsed;
      attempt_timeout = p.attempt_timeout;
    }

-- attemptContext: the timeout of an attempt, if it has one.
abbrev pub attempt_context : ℕ → Option ℕ
attempt_context t = if is_positive t then some t else none

abbrev pub smaller : ℕ → ℕ → ℕ
smaller most n = if signed_lt most n then most else n

-- delay *= 2
abbrev pub doubled : ℕ → ℕ
doubled d = d * 2 % 2 ^ 64

-- The delay of the next turn.
abbrev pub next_delay : ℕ → ℕ → ℕ
next_delay most d = if signed_lt d most then smaller most (doubled d) else d

module _ {W E : Type 0} (h : Host W E) (p : Policy) (operation : Option ℕ → W → Option E × W)
    (retryable : E → Bool) (started : ℕ) where
  -- The answer, or `none` where the fuel is spent, and the world after it.
  abbrev pub Turn : Type 0
  Turn = ℕ → ℕ → W → Option (Answer E) × W

  module _ (next : Turn) (attempt delay : ℕ) where
    abbrev pub waited : E → Option E × W → Option (Answer E) × W
    waited e (none, w) = next (attempt + 1) (next_delay p.max_delay delay) w
    waited e (some f, w) = (some (interrupted e f), w)

    abbrev pub jittered : E → ℕ → ℕ × W → Option (Answer E) × W
    jittered e remaining (j, w) =
        waited e (h.wait (smaller remaining (if is_positive j then j else delay)) w)

    abbrev pub timed : E → ℕ × W → Option (Answer E) × W
    timed e (t, w) =
        if leb (started + p.max_elapsed) t
        then (some (elapsed e), w)
        else jittered e (started + p.max_elapsed - t) (h.jitter delay w)

    abbrev pub judged : E → Option E → W → Option (Answer E) × W
    judged e (some c) w = (some (context c), w)
    judged e none w =
        if retryable e
        then (if leb p.max_attempts attempt
            then (some (exhausted attempt e), w)
            else timed e (h.now w))
        else (some (permanent e), w)

    abbrev pub tried : Option E × W → Option (Answer E) × W
    tried (none, w) = (some success, w)
    tried (some e, w) = judged e (h.context_error w) w

    abbrev pub turn : Option E → W → Option (Answer E) × W
    turn (some c) w = (some (context c), w)
    turn none w = tried (operation (attempt_context p.attempt_timeout) w)

  -- The loop of Do, on fuel.
  unfoldable pub loop : ℕ → Turn
  loop zero attempt delay w = (none, w)
  loop (suc fuel) attempt delay w = turn (loop fuel) attempt delay (h.context_error w) w

module _ {W E : Type 0} (h : Host W E) (policy : Policy) where
  abbrev pub begin : ℕ → (Option ℕ → W → Option E × W) → (E → Bool) → ℕ × W → Option (Answer E) × W
  begin fuel operation retryable (t, w) =
      let p = normalize policy in loop h p operation retryable t fuel 1 p.initial_delay w

  -- Do, on fuel for so many turns. A function that is nil is `none`.
  unfoldable pub retry :
      ℕ → Option (Option ℕ → W → Option E × W) → Option (E → Bool) → W → Option (Answer E) × W
  retry fuel (some operation) (some retryable) w = begin fuel operation retryable (h.now w)
  retry fuel _ _ w = (some missing, w)
