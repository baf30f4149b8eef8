-- ===== src/Capacity/Controller.antt =====
-- internal/capacity/controller.go. The backend, with its clock, is a parameter: each call takes and
-- returns a state W of the world.
use autback.Prelude.{
  ℕ, ◌+◌, ◌-◌, ◌*◌, ◌/◌, String, Bool, true, false, not, ◌&&◌, ◌||◌, Option, none, some, List, ◌++◌,
  [], ltb, if◌then◌else◌,
}
use autback.Capacity.Policy.{Policy, Thresholds, thresholds, u64}

pub data Trigger : Type 0 where
  admission periodic pressure manual : Trigger

pub record Snapshot : Type 0 where
  pub total_bytes : ℕ
  pub free_bytes : ℕ
  pub total_inodes : ℕ
  pub free_inodes : ℕ
  pub observed_at : ℕ

abbrev pub no_snapshot : Snapshot
no_snapshot = record {
  total_bytes = 0;
  free_bytes = 0;
  total_inodes = 0;
  free_inodes = 0;
  observed_at = 0;
}

pub record ReclaimRequest : Type 0 where
  pub trigger : Trigger
  pub pressure : Bool
  pub target_free_bytes : ℕ
  pub job_retention : ℕ
  pub cache_high_bytes : ℕ
  pub cache_low_bytes : ℕ
  pub normal_object_age : ℕ

pub record ReclaimReport : Type 0 where
  pub reclaimed_bytes : ℕ
  pub removed_jobs : ℕ
  pub removed_caches : ℕ
  pub commands : List String

abbrev pub no_report : ReclaimReport
no_report = record { reclaimed_bytes = 0; removed_jobs = 0; removed_caches = 0; commands = [] }

pub data Reply (E A : Type 0) : Type 0 where
  gives : A → Reply E A
  fails : E → Reply E A

-- Snapshot and Reclaim return their zero value or a report beside an error.
pub record Backend (W E : Type 0) : Type 0 where
  pub lock : W → Option E × W
  pub unlock : W → W
  pub snapshot : W → Reply E Snapshot × W
  pub busy : W → Reply E Bool × W
  pub reclaim : ReclaimRequest → W → ReclaimReport × Option E × W
  pub emergency : W → Option E × W
  pub now : W → ℕ × W

pub data State : Type 0 where
  no_state healthy deferred emergency reclaiming blocked : State

-- What an error says: of the backend, or of the controller itself.
pub data Cause (E : Type 0) : Type 0 where
  backend : E → Cause E
  remains_busy : Cause E
  exhausted : ℕ → ℕ → ℕ → ℕ → Cause E

-- The error that is returned, with the step that it is wrapped by.
pub data Fault (E : Type 0) : Type 0 where
  lock measure activity stop verify reclaim remeasure plain : Cause E → Fault E

pub record Status (E : Type 0) : Type 0 where
  pub state : State
  pub trigger : Trigger
  pub before : Snapshot
  pub after : Snapshot
  pub thresholds : Thresholds
  pub reclaim : ReclaimReport
  pub error : Option (Cause E)
  pub completed_at : ℕ

pub record Controller (E : Type 0) : Type 0 where
  pub policy : Policy
  pub status : Status E
  pub last_pressure : ℕ

abbrev pub no_status : {E : Type 0} → Status E
no_status = record {
  state = State.no_state;
  trigger = Trigger.admission;
  before = no_snapshot;
  after = no_snapshot;
  thresholds = record { soft_free_bytes = 0; target_free_bytes = 0; hard_free_bytes = 0 };
  reclaim = no_report;
  error = none;
  completed_at = 0;
}

unfoldable pub inode_pressure : Snapshot → ℕ → Bool
inode_pressure s minimum_percent =
    ltb 0 s.total_inodes && ltb (u64 (s.free_inodes * 100)) (u64 (s.total_inodes * minimum_percent))

-- FreeBytes < bytes || inodePressure
unfoldable pub short_of : Snapshot → ℕ → ℕ → Bool
unfolding inode_pressure
short_of s bytes minimum_percent = ltb s.free_bytes bytes || inode_pressure s minimum_percent

abbrev pub capacity_error : {E : Type 0} → Snapshot → Thresholds → ℕ → Cause E
capacity_error s t minimum =
    exhausted s.free_bytes t.soft_free_bytes s.free_inodes (u64 (s.total_inodes * minimum) / 100)

module _ {W E : Type 0} (b : Backend W E) where
  -- The status and error that are returned, the controller and the world after the call.
  abbrev pub Outcome : Type 0
  Outcome = Status E × Option (Fault E) × Controller E × W

  -- status.CompletedAt = now; c.status = status; return status, err
  abbrev pub conclude : Controller E → Status E → Option (Fault E) → W → Outcome
  conclude c s e w =
      let (t, w') = b.now w in
      let s' = record s { completed_at = t } in (s', e, record c { status = s' }, w')

  -- status.State, status.Error = "blocked", ...
  abbrev pub blocked_by : Controller E → Status E → Cause E → (Cause E → Fault E) → W → Outcome
  blocked_by c s e wrap w =
      conclude c (record s { state = State.blocked; error = some e }) (some (wrap e)) w

  abbrev pub is_pressure : Trigger → Bool
  is_pressure Trigger.pressure = true
  is_pressure _ = false

  abbrev pub is_admission : Trigger → Bool
  is_admission Trigger.admission = true
  is_admission _ = false

  abbrev pub request : Controller E → Status E → Bool → ReclaimRequest
  request c s pressed = record {
    trigger = s.trigger;
    pressure = pressed;
    target_free_bytes = s.thresholds.target_free_bytes;
    job_retention = c.policy.job_retention;
    cache_high_bytes = u64 (s.before.total_bytes * c.policy.cache_high_percent) / 100;
    cache_low_bytes = u64 (s.before.total_bytes * c.policy.cache_low_percent) / 100;
    normal_object_age = c.policy.normal_object_age;
  }

  -- The last test of runLocked.
  unfoldable pub judge : Controller E → Status E → W → Outcome
  judge c s w =
      if short_of s.after s.thresholds.soft_free_bytes c.policy.minimum_free_inodes
      then blocked_by c s (capacity_error s.after s.thresholds c.policy.minimum_free_inodes) plain w
      else conclude c (record s { state = State.healthy }) none w

  abbrev pub snapshot_or_zero : Reply E Snapshot → Snapshot
  snapshot_or_zero (gives s) = s
  snapshot_or_zero (fails e) = no_snapshot

  abbrev pub add_report : ReclaimReport → ReclaimReport → ReclaimReport
  add_report r s = record {
    reclaimed_bytes = u64 (r.reclaimed_bytes + s.reclaimed_bytes);
    removed_jobs = r.removed_jobs + s.removed_jobs;
    removed_caches = r.removed_caches + s.removed_caches;
    commands = r.commands ++ s.commands;
  }

  abbrev pub reclaim_error : Option (Cause E) → Option E → Option (Cause E)
  reclaim_error old none = old
  reclaim_error old (some e) = some (backend e)

  abbrev pub reclaim_again : Controller E → Status E → W → Outcome
  reclaim_again c s w =
      let (report, failed, w1) = b.reclaim (request c s true) w in
      let (after, w2) = b.snapshot w1 in
      judge c
        (record s {
          reclaim = add_report s.reclaim report;
          error = reclaim_error s.error failed;
          after = snapshot_or_zero after;
        })
        w2

  abbrev pub stop_and_reclaim : Controller E → Status E → Option E × W → Outcome
  stop_and_reclaim c s (some e, w) = judge c (record s { error = some (backend e) }) w
  stop_and_reclaim c s (none, w) = reclaim_again c s w

  -- The second emergency, after the reclaim.
  unfoldable pub last_resort : Controller E → Status E → W → Outcome
  last_resort c s w =
      if short_of s.after s.thresholds.hard_free_bytes c.policy.minimum_free_inodes
      then stop_and_reclaim c (record s { state = State.emergency }) (b.emergency w)
      else judge c s w

  abbrev pub remeasured : Controller E → Status E → Reply E Snapshot × W → Outcome
  remeasured c s (fails e, w) = (no_status, some (remeasure (backend e)), c, w)
  remeasured c s (gives after, w) = last_resort c (record s { after = after }) w

  abbrev pub reclaimed : Controller E → Status E → ReclaimReport × Option E × W → Outcome
  reclaimed c s (report, some e, w) =
      blocked_by c (record s { reclaim = report }) (backend e) reclaim w
  reclaimed c s (report, none, w) = remeasured c (record s { reclaim = report }) (b.snapshot w)

  -- From `if pressure { status.State = "reclaiming" }` on, where a reclaim is due.
  unfoldable pub collect : Controller E → Status E → Bool → W → Outcome
  unfolding last_resort judge
  collect c s pressed w =
      let s' = record s { state = if pressed then State.reclaiming else s.state } in
      reclaimed c s' (b.reclaim (request c s' pressed) w)

  abbrev pub throttled : Controller E → Status E → Bool → ℕ × W → Outcome
  throttled c s pressed (t, w) =
      if ltb 0 c.policy.pressure_throttle && ltb (t - c.last_pressure) c.policy.pressure_throttle
      then (let s' = record s { state = State.reclaiming; completed_at = t } in
          (s', none, record c { status = s' }, w))
      else collect (record c { last_pressure = t }) s pressed w

  abbrev pub pace : Controller E → Status E → Bool → W → Outcome
  pace c s pressed w =
      if is_pressure s.trigger then throttled c s pressed (b.now w) else collect c s pressed w

  abbrev pub verified : Controller E → Status E → Bool → Reply E Bool × W → Outcome
  verified c s pressed (fails e, w) = blocked_by c s (backend e) verify w
  verified c s pressed (gives true, w) = blocked_by c s remains_busy plain w
  verified c s pressed (gives false, w) = pace c s pressed w

  abbrev pub stopped : Controller E → Status E → Bool → Option E × W → Outcome
  stopped c s pressed (some e, w) = blocked_by c s (backend e) stop w
  stopped c s pressed (none, w) = verified c s pressed (b.busy w)

  -- What happens to a worker that is busy.
  abbrev pub occupied : Controller E → Status E → Bool → W → Outcome
  occupied c s pressed w =
      if short_of s.before s.thresholds.hard_free_bytes c.policy.minimum_free_inodes
      then stopped c (record s { state = State.emergency }) pressed (b.emergency w)
      else conclude c (record s { state = State.deferred }) none w

  abbrev pub looked : Controller E → Status E → Bool → Reply E Bool × W → Outcome
  looked c s pressed (fails e, w) = blocked_by c s (backend e) activity w
  looked c s pressed (gives true, w) = occupied c s pressed w
  looked c s pressed (gives false, w) = pace c s pressed w

  abbrev pub measured : Controller E → Trigger → Reply E Snapshot × W → Outcome
  measured c trigger (fails e, w) = (no_status, some (measure (backend e)), c, w)
  measured c trigger (gives before, w) =
      let t = thresholds c.policy before.total_bytes in
      let pressed = short_of before t.soft_free_bytes c.policy.minimum_free_inodes in
      let s : Status E = record {
        state = State.healthy;
        trigger = trigger;
        before = before;
        after = before;
        thresholds = t;
        reclaim = no_report;
        error = none;
        completed_at = 0;
      } in
      if is_pressure trigger && not pressed
      then conclude c s none w
      else if pressed || not (is_admission trigger)
      then looked c s pressed (b.busy w)
      else last_resort c s w

  -- runLocked
  unfoldable pub run_locked : Controller E → Trigger → W → Outcome
  unfolding collect
  run_locked c trigger w = measured c trigger (b.snapshot w)

  abbrev pub locked : Controller E → Trigger → Option E × W → Outcome
  locked c trigger (some e, w) = (no_status, some (lock (backend e)), c, w)
  locked c trigger (none, w) =
      let (s, e, c', w') = run_locked c trigger w in (s, e, c', b.unlock w')

  -- run, which Ensure and Maintain call.
  unfoldable pub run : Controller E → Trigger → W → Outcome
  run c trigger w = locked c trigger (b.lock w)

  abbrev pub reserve_if_admitted :
      (Controller E → W → Option (Fault E) × Controller E × W)
      → Outcome
      → Option (Fault E) × Controller E × W
  reserve_if_admitted reserve (s, some e, c, w) = (some e, c, w)
  reserve_if_admitted reserve (s, none, c, w) = reserve c w

  abbrev pub unlocked : Option (Fault E) × Controller E × W → Option (Fault E) × Controller E × W
  unlocked (e, c, w) = (e, c, b.unlock w)

  abbrev pub admit_locked :
      Controller E
      → (Controller E → W → Option (Fault E) × Controller E × W)
      → Option E × W
      → Option (Fault E) × Controller E × W
  admit_locked c reserve (some e, w) = (some (lock (backend e)), c, w)
  admit_locked c reserve (none, w) =
      unlocked (reserve_if_admitted reserve (run_locked c Trigger.admission w))

  -- Admit: `reserve` is the caller's reservation.
  unfoldable pub admit :
      Controller E
      → (Controller E → W → Option (Fault E) × Controller E × W)
      → W
      → Option (Fault E) × Controller E × W
  admit c reserve w = admit_locked c reserve (b.lock w)

  abbrev pub checked : Controller E → Reply E Snapshot × W → Option (Fault E) × W
  checked c (fails e, w) = (some (plain (backend e)), w)
  checked c (gives s, w) =
      let t = thresholds c.policy s.total_bytes in
      (
        if short_of s t.hard_free_bytes c.policy.minimum_free_inodes
            then some (plain (capacity_error s t c.policy.minimum_free_inodes))
            else none,
        w,
      )

  -- Check
  unfoldable pub check : Controller E → W → Option (Fault E) × W
  check c w = checked c (b.snapshot w)
