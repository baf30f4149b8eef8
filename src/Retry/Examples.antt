-- ===== src/Retry/Examples.antt =====
-- The theorems on internal/retry/retry.go at a small world: the time and the number of attempts.
use autback.Prelude.{ℕ, ◌+◌, ◌^◌, ◌≤◌, ◌≡◌, refl, String, Bool, true, Option, none, some, arith}
use autback.Retry.{Policy, Host, exhausted, retry, normalize, loop, next_delay}
use autback.Retry.Explained.{Ends, retry-Ends}
use autback.Retry.Bounded.{retry_is_bounded}

abbrev World : Type 0
World = ℕ × ℕ

abbrev policy : Policy
policy = record {
  initial_delay = 2;
  max_delay = 5;
  max_attempts = 3;
  max_elapsed = 1000;
  attempt_timeout = 0;
}

abbrev host : Host World String
host = record {
  now = λ w. (w.0, w);
  wait = λ d w. (none, (w.0 + d, w.1));
  jitter = λ d w. (d, w);
  context_error = λ w. none;
}

abbrev fails : Option ℕ → World → Option String × World
fails t w = (some "down", (w.0 + 1, w.1 + 1))

abbrev always : String → Bool
always e = true

-- Three attempts take a time unit each, and the waits between them two and four.
runs_out :
    retry host policy 8 (some fails) (some always) (10, 0) ≡ (some (exhausted 3 "down"), (19, 3))
unfolding retry normalize loop
runs_out = refl

-- Doubling wraps around: 2^62 nanoseconds become the least int64, which is below the greatest delay.
wraps_around : next_delay (2 ^ 62 + 1) (2 ^ 62) ≡ 2 ^ 63
wraps_around = refl

attempts_of_policy : (normalize policy).max_attempts ≡ 3
unfolding normalize
attempts_of_policy = refl

delays_fit : ((normalize policy).initial_delay ≤ 2 ^ 62) × ((normalize policy).max_delay ≤ 2 ^ 62)
unfolding normalize
delays_fit = (omega arith, omega arith)

enough_fuel : (normalize policy).max_attempts ≤ 8
enough_fuel = rw attempts_of_policy (omega arith)

retry-Ends_example :
    Ends host
      (normalize policy)
      fails
      always
      10
      (retry host policy 8 (some fails) (some always) (10, 0))
retry-Ends_example = retry-Ends host policy fails always 8 (10, 0) enough_fuel

retry_is_bounded_example :
    (retry host policy 8 (some fails) (some always) (10, 0)).1.1
    ≤ 0 + (normalize policy).max_attempts
retry_is_bounded_example =
    retry_is_bounded host policy fails always (λ w. w.1) delays_fit.0 delays_fit.1
      (λ w. omega arith) (λ d w l k. omega arith) (λ d w l. omega arith) (λ t w. omega arith) 8
      (10, 0)
