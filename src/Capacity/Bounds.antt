-- ===== src/Capacity/Bounds.antt =====
-- The thresholds of internal/capacity/policy.go in order.
use autback.Prelude.{ℕ, ◌+◌, ◌*◌, ◌^◌, ◌≤◌, ◌<◌, arith}
use autback.Capacity.Policy.{Policy, thresholds, default_policy, gib, share}

share_mono :
    (total p q m n : ℕ) → p ≤ q → m ≤ n → total * q < 2 ^ 64 → share total p m ≤ share total q n
unfolding share
share_mono total p q m n h k small = let more : total * p ≤ total * q = grind arith in omega arith

-- Where no product or sum passes 2^64 and the policy's hard limits are at most its soft ones, the
-- hard threshold is at most the soft one, and that at most the target of a reclaim.
pub thresholds_ordered :
    (p : Policy) (total : ℕ)
    → p.hard_free_percent ≤ p.soft_free_percent
    → p.hard_free_minimum_bytes ≤ p.soft_free_minimum_bytes
    → total * p.soft_free_percent < 2 ^ 64
    → (thresholds p total).soft_free_bytes + share total p.sweep_percent p.sweep_minimum_bytes
      < 2 ^ 64
    → let t = thresholds p total in
      (t.hard_free_bytes ≤ t.soft_free_bytes) × (t.soft_free_bytes ≤ t.target_free_bytes)
unfolding thresholds
thresholds_ordered p total h k small fits = (
  share_mono total p.hard_free_percent p.soft_free_percent p.hard_free_minimum_bytes
      p.soft_free_minimum_bytes h k small,
  omega arith,
)

-- Under the default policy, on a disk of 25 GiB up to 2^57 bytes, the hard threshold is below the
-- soft one, and the target lies above the soft one and within the disk.
pub default_thresholds :
    (total : ℕ)
    → 25 * gib ≤ total
    → total ≤ 2 ^ 57
    → let t = thresholds default_policy total in
      (t.hard_free_bytes < t.soft_free_bytes)
      × (t.soft_free_bytes < t.target_free_bytes)
      × (t.target_free_bytes ≤ total)
unfolding thresholds
default_thresholds total low high = omega arith
