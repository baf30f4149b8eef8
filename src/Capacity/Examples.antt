-- ===== src/Capacity/Examples.antt =====
-- The theorems on internal/capacity over small worlds.
use autback.Prelude.{
  ℕ, ◌+◌, ◌*◌, ◌^◌, ◌≤◌, ◌<◌, ◌≡◌, refl, String, Bool, false, Option, none, some, arith,
}
use autback.Capacity.Policy.{thresholds, default_policy, gib, share}
use autback.Capacity.Controller.{
  Trigger, Snapshot, Controller, Backend, Fault, Cause, gives, no_status, no_report, short_of,
  inode_pressure, run_locked, admit, judge, last_resort, collect,
}
use autback.Capacity.Admission.{Decides, admit-Decides}
use autback.Capacity.Bounds.{thresholds_ordered}

-- A disk of 100 GiB with some space that is free, which a reclaim does not change.
abbrev disk : ℕ → Snapshot
disk free = record {
  total_bytes = 100 * gib;
  free_bytes = free * gib;
  total_inodes = 0;
  free_inodes = 0;
  observed_at = 0;
}

-- The world is the number of times that the active operation was stopped; a stop fails.
abbrev worker : ℕ → Bool → Backend ℕ String
worker free is_busy = record {
  lock = λ w. (none, w);
  unlock = λ w. w;
  snapshot = λ w. (gives (disk free), w);
  busy = λ w. (gives is_busy, w);
  reclaim = λ r w. (no_report, none, w);
  emergency = λ w. (some "stuck", w + 1);
  now = λ w. (7, w);
}

abbrev controller : Controller String
controller = record { policy = default_policy; status = no_status; last_pressure = 0 }

abbrev reserve : Controller String → ℕ → Option (Fault String) × Controller String × ℕ
reserve c w = (none, c, w + 100)

abbrev full : Fault String
full = Fault.plain (Cause.exhausted (10 * gib) (20 * gib) 0 0)

is_full : (run_locked (worker 10 false) controller Trigger.admission 0).1 ≡ some full
unfolding run_locked collect last_resort judge short_of inode_pressure thresholds share
is_full = refl

is_roomy : (run_locked (worker 30 false) controller Trigger.admission 0).1 ≡ none
unfolding run_locked collect last_resort judge short_of inode_pressure thresholds share
is_roomy = refl

admit-Decides_example :
    Decides
      (worker 30 false)
      controller
      reserve
      (admit (worker 30 false) controller reserve 0)
      (none, 0)
      (run_locked (worker 30 false) controller Trigger.admission 0)
admit-Decides_example = admit-Decides (worker 30 false) controller reserve 0

sums_fit :
    (thresholds default_policy (100 * gib)).soft_free_bytes
      + share (100 * gib) default_policy.sweep_percent default_policy.sweep_minimum_bytes
    < 2 ^ 64
unfolding thresholds share
sums_fit = omega arith

thresholds_ordered_example :
    let t = thresholds default_policy (100 * gib) in
    (t.hard_free_bytes ≤ t.soft_free_bytes) × (t.soft_free_bytes ≤ t.target_free_bytes)
thresholds_ordered_example =
    thresholds_ordered default_policy (100 * gib) (omega arith) (omega arith) (omega arith) sums_fit
