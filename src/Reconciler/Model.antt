-- ===== src/Reconciler/Model.antt =====
-- internal/control/reconciler/reconciler.go: the configuration and the parameters of the reconciler,
-- the services that internal/control/scheduler.go lists, and the calls of the store.
use autback.Prelude.{
  ℕ, ◌*◌, String, Bool, true, false, not, Option, none, some, List, [], ◌∷◌, ◌++◌, ◌&&◌, ◌==◌,
  str_eq, if◌then◌else◌, pos,
}
use autback.Protocol.{Status, RemoteJob}
use autback.Control.{OperationKind}
use autback.Sqlite.Tables.{Database, Exec, Error, Result, ok, err}
use autback.Sqlite.Cleanup.{begin_operation_cleanup}

-- RuntimeJob. Of its Job, the identifier and the time of creation stand here; a time that is zero is
-- `none`.
pub record RuntimeJob (E : Type 0) : Type 0 where
  pub id : String
  pub job_id : String
  pub created_at : Option ℕ
  pub job : RemoteJob
  pub failure : Option E

-- One of the errors that errors.Join joins.
pub data Fault (E : Type 0) : Type 0 where
  list_preparations list_builds list_scheduled : Error → Fault E
  cancel_preparation release_preparation cancel_build release_build : String → Error → Fault E
  list_managed : E → Fault E
  inspect remove : String → E → Fault E
  read_lease read_operation activate synchronize release_job read_managed : String → Error → Fault E

-- The durations of Config, in nanoseconds.
pub record Config : Type 0 where
  pub service_retention : ℕ
  pub admission_grace : ℕ
  pub build_lease_timeout : ℕ
  pub preparation_lease_timeout : ℕ

abbrev pub second : ℕ
second = 1000000000

abbrev pub or_default : ℕ → ℕ → ℕ
or_default d n = if n == 0 then d else n

-- New
unfoldable pub new_reconciler : Config → Config
new_reconciler c = record {
  service_retention = or_default (3600 * second) c.service_retention;
  admission_grace = or_default (15 * second) c.admission_grace;
  build_lease_timeout = or_default (120 * second) c.build_lease_timeout;
  preparation_lease_timeout = or_default (120 * second) c.preparation_lease_timeout;
}

-- The clocks, the scheduler and the dispatcher; the world is W.
pub record Host (W E : Type 0) : Type 0 where
  pub config : Config
  pub now : W → ℕ × W  -- Config.Now
  pub store_now : W → ℕ × W  -- the clock of the store
  pub managed_jobs : W → (List (RuntimeJob E) × Option E) × W
  pub remove : String → W → Option E × W
  pub dispatcher : Option (W → W)  -- the wakeup with which Coordinator.Request ends, if there is one

-- The errors so far, and the database and the world.
pub record Progress (W E : Type 0) : Type 0 where
  pub faults : List (Fault E)
  pub db : Database
  pub world : W

abbrev pub has_failed : {E : Type 0} → RuntimeJob E → Bool
has_failed r = elim r.failure [ none ↦ false | some e ↦ true ]

-- `poisoned`
unfoldable pub is_poisoned : {E : Type 0} → String → List (RuntimeJob E) → Bool
is_poisoned id [] = false
is_poisoned id (r ∷ rs) =
    let rest = is_poisoned id rs in if has_failed r && str_eq r.id id then true else rest

abbrev pub latest :
    {E : Type 0} → String → RuntimeJob E → Option (RuntimeJob E) → Option (RuntimeJob E)
latest id r (some s) = some s
latest id r none = if not (has_failed r) && str_eq r.job_id id then some r else none

-- `remoteByID`, where a later entry replaces an earlier one.
unfoldable pub remote_of : {E : Type 0} → String → List (RuntimeJob E) → Option (RuntimeJob E)
remote_of id [] = none
remote_of id (r ∷ rs) = latest id r (remote_of id rs)

abbrev pub is_not_found : Error → Bool
is_not_found Error.not_found = true
is_not_found _ = false

-- The job of a service that is missing.
abbrev pub lost_job : ℕ → RemoteJob
lost_job now = record {
  status = Status.lost;
  worker_id = "";
  started_at = none;
  finished_at = some now;
  cancel_requested = false;
  exit_code = some (pos 1);
  error_message = "managed Swarm service is missing";
}

module _ {W E : Type 0} (h : Host W E) where
  abbrev pub fault : Fault E → Progress W E → Progress W E
  fault f s = record s { faults = s.faults ++ f ∷ [] }

  -- A method of the store that does not read the clock, and one that does.
  abbrev pub answered : {A : Type 0} → Progress W E → Result A × Database → Result A × Progress W E
  answered s (r, db) = (r, record s { db = db })

  abbrev pub call : {A : Type 0} → Exec A → Progress W E → Result A × Progress W E
  call m s = answered s (m s.db)

  abbrev pub timed_at : {A : Type 0} → (ℕ → Exec A) → Progress W E → ℕ × W → Result A × Progress W E
  timed_at m s (t, w) = call (m t) (record s { world = w })

  abbrev pub timed : {A : Type 0} → (ℕ → Exec A) → Progress W E → Result A × Progress W E
  timed m s = timed_at m s (h.store_now s.world)

  abbrev pub requested : (W → W) → (Error → Fault E) → Result {0} Unit × Progress W E → Progress W E
  requested wake f (ok _, s) = record s { world = wake s.world }
  requested wake f (err e, s) = fault (f e) s

  abbrev pub release_by :
      Option (W → W) → (Error → Fault E) → OperationKind → String → Progress W E → Progress W E
  release_by none f kind id s = s
  release_by (some wake) f kind id s = requested wake f (timed (begin_operation_cleanup kind id) s)

  -- Dispatcher.Release, if there is a dispatcher.
  abbrev pub release : (Error → Fault E) → OperationKind → String → Progress W E → Progress W E
  release f kind id s = release_by h.dispatcher f kind id s
