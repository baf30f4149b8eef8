-- ===== src/Capacity/Policy.antt =====
-- internal/capacity/policy.go. A uint64 wraps at 2^64; a time.Duration is a number of nanoseconds.
use autback.Prelude.{ℕ, ◌+◌, ◌*◌, ◌/◌, ◌%◌, ◌^◌, max}

abbrev pub u64 : ℕ → ℕ
u64 n = n % 2 ^ 64

abbrev pub gib : ℕ
gib = 1024 * 1024 * 1024

pub record Policy : Type 0 where
  pub soft_free_percent : ℕ
  pub soft_free_minimum_bytes : ℕ
  pub hard_free_percent : ℕ
  pub hard_free_minimum_bytes : ℕ
  pub sweep_percent : ℕ
  pub sweep_minimum_bytes : ℕ
  pub minimum_free_inodes : ℕ
  pub job_retention : ℕ
  pub cache_high_percent : ℕ
  pub cache_low_percent : ℕ
  pub normal_object_age : ℕ
  pub pressure_throttle : ℕ

pub record Thresholds : Type 0 where
  pub soft_free_bytes : ℕ
  pub target_free_bytes : ℕ
  pub hard_free_bytes : ℕ

abbrev pub default_policy : Policy
default_policy = record {
  soft_free_percent = 20;
  soft_free_minimum_bytes = 20 * gib;
  hard_free_percent = 5;
  hard_free_minimum_bytes = 8 * gib;
  sweep_percent = 5;
  sweep_minimum_bytes = 5 * gib;
  minimum_free_inodes = 10;
  job_retention = 7 * 24 * 3600 * 1000000000;
  cache_high_percent = 10;
  cache_low_percent = 8;
  normal_object_age = 24 * 3600 * 1000000000;
  pressure_throttle = 30 * 1000000000;
}

-- total*percent/100, and at least the minimum.
unfoldable pub share : ℕ → ℕ → ℕ → ℕ
share total percent minimum = max (u64 (total * percent) / 100) minimum

unfoldable pub thresholds : Policy → ℕ → Thresholds
unfolding share
thresholds p total =
    let soft = share total p.soft_free_percent p.soft_free_minimum_bytes in
    let hard = share total p.hard_free_percent p.hard_free_minimum_bytes in
    let sweep = share total p.sweep_percent p.sweep_minimum_bytes in
    record {
      soft_free_bytes = soft;
      target_free_bytes = u64 (soft + sweep);
      hard_free_bytes = hard;
    }
