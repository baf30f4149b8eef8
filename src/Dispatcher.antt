-- ===== src/Dispatcher.antt =====
-- internal/control/dispatcher/dispatcher.go: one pass of the dispatcher over the store.
use autback.Prelude.{
  ℕ, String, Bool, true, false, ◌&&◌, Option, none, some, List, [], ◌∷◌, ◌++◌, if◌then◌else◌,
}
use autback.Protocol.{Status}
use autback.Control.{Job, Operation, OperationKind}
use autback.Sqlite.Tables.{Database, Error, Result, ok, err}
use autback.Sqlite.Jobs.{get_job, fail_job, is_preparing}
use autback.Sqlite.Queue.{acquire_next_operation, requeue_admitting_operation, activate_operation}
use autback.Sqlite.Cleanup.{begin_operation_cleanup}
pub mod Launches
pub mod Rejections
pub mod Wakeups
pub mod Examples

-- One of the errors that errors.Join joins.
pub data Fault (E : Type 0) : Type 0 where
  draining : Fault E
  store : Error → Fault E
  read_admitted read_active : String → Error → Fault E
  activate : OperationKind → String → Error → Fault E
  prepare admit cancel : String → E → Fault E
  context : E → Fault E

-- The errors, and the database and the world after a pass.
abbrev pub Answer : Type 0 → Type 0 → Type 0
Answer W E = List (Fault E) × Database × W

-- What the dispatcher is built with, and what its context and its clock answer; the world is W.
pub record Host (W E : Type 0) : Type 0 where
  pub now : W → ℕ × W
  pub create : Job → W → Option E × W  -- Scheduler.Create
  pub cancel : String → W → Option E × W  -- Scheduler.Cancel
  pub prepare : Option (Operation → W → Option E × W)  -- AdmissionPreparer.Prepare
  pub capacity : Option ((Database → W → Answer W E) → Database → W → Answer W E)  -- Capacity.Admit
  pub is_draining : W → Bool
  pub is_permanent : E → Bool
  pub is_done : W → Bool  -- ctx.Err() != nil
  pub is_cancellation : E → Bool  -- errors.Is of Canceled or DeadlineExceeded
  pub text : E → String
  pub advance_cleanups : W → W  -- the wakeup that Coordinator.Request ends with

module _ {W E : Type 0} (h : Host W E) where
  abbrev pub with_fault : List (Fault E) → Result {0} Unit × Database → W → Answer W E
  with_fault es (ok _, db) w = (es, db, w)
  with_fault es (err e, db) w = (es ++ store e ∷ [], db, w)

  -- cleanups.Request
  abbrev pub requested : List (Fault E) → Result {0} Unit × Database → W → Answer W E
  requested es (ok _, db) w = (es, db, h.advance_cleanups w)
  requested es (err e, db) w = (es ++ store e ∷ [], db, w)

  abbrev pub request_at : List (Fault E) → String → Database → ℕ × W → Answer W E
  request_at es id db (now, w) =
      requested es (begin_operation_cleanup OperationKind.job id now db) w

  abbrev pub failed : List (Fault E) → String → Result Job × Database → W → Answer W E
  failed es id (ok _, db) w = request_at es id db (h.now w)
  failed es id (err e, db) w = (es ++ store e ∷ [], db, w)

  abbrev pub fail_at : List (Fault E) → String → E → Database → ℕ × W → Answer W E
  fail_at es id e db (now, w) = failed es id (fail_job id now (h.text e) db) w

  abbrev pub cancelled : String → Database → Option E × W → Answer W E
  cancelled id db (none, w) = ([], db, w)
  cancelled id db (some e, w) = (cancel id e ∷ [], db, w)

  abbrev pub reread : String → Result Job × Database → W → Answer W E
  reread id (err e, db) w = (read_active id e ∷ [], db, w)
  reread id (ok job, db) w =
      if job.cancel_requested then cancelled id db (h.cancel id w) else ([], db, w)

  abbrev pub job_activated : String → Result {0} Unit × Database → W → Answer W E
  job_activated id (err e, db) w = (activate OperationKind.job id e ∷ [], db, w)
  job_activated id (ok _, db) w = reread id (get_job id db) w

  abbrev pub build_activated : String → Result {0} Unit × Database → W → Answer W E
  build_activated id (err e, db) w = (activate OperationKind.build id e ∷ [], db, w)
  build_activated id (ok _, db) w = ([], db, w)

  abbrev pub created : String → Database → Option E × W → Answer W E
  created id db (none, w) = job_activated id (activate_operation OperationKind.job id db) w
  created id db (some e, w) =
      if h.is_done w && h.is_cancellation e
      then (context e ∷ [], db, w)
      else fail_at (admit id e ∷ []) id e db (h.now w)

  -- The job is there for an operation of its kind alone.
  abbrev pub launch : Operation → Option Job → Database → W → Answer W E
  launch op none db w = build_activated op.id (activate_operation OperationKind.build op.id db) w
  launch op (some job) db w = created op.id db (h.create job w)

  abbrev pub unprepared : Operation → Option Job → E → Database → W → Answer W E
  unprepared op none e db w =
      with_fault (prepare op.id e ∷ []) (requeue_admitting_operation op.kind op.id db) w
  unprepared op (some job) e db w =
      if h.is_permanent e
      then fail_at (prepare op.id e ∷ []) op.id e db (h.now w)
      else with_fault (prepare op.id e ∷ []) (requeue_admitting_operation op.kind op.id db) w

  abbrev pub prepared : Operation → Option Job → Database → Option E × W → Answer W E
  prepared op job db (none, w) = launch op job db w
  prepared op job db (some e, w) = unprepared op job e db w

  abbrev pub prepare_by :
      Option (Operation → W → Option E × W) → Operation → Option Job → Database → W → Answer W E
  prepare_by none op job db w = launch op job db w
  prepare_by (some f) op job db w = prepared op job db (f op w)

  abbrev pub job_read : Operation → Result Job × Database → W → Answer W E
  job_read op (err e, db) w = (read_admitted op.id e ∷ [], db, w)
  job_read op (ok job, db) w =
      if is_preparing job.status then ([], db, w) else prepare_by h.prepare op (some job) db w

  abbrev pub admitted : OperationKind → Operation → Database → W → Answer W E
  admitted OperationKind.job op db w = job_read op (get_job op.id db) w
  admitted OperationKind.build op db w = prepare_by h.prepare op none db w

  abbrev pub acquired : Result (Option Operation) × Database → W → Answer W E
  acquired (err e, db) w = (store e ∷ [], db, w)
  acquired (ok none, db) w = ([], db, w)
  acquired (ok (some op), db) w = admitted op.kind op db w

  abbrev pub acquire_at : Database → ℕ × W → Answer W E
  acquire_at db (now, w) = acquired (acquire_next_operation now db) w

  -- runOnce: every path through its loop returns.
  unfoldable pub pass : Database → W → Answer W E
  pass db w = if h.is_draining w then (draining ∷ [], db, w) else acquire_at db (h.now w)

  abbrev pub pass_by :
      Option ((Database → W → Answer W E) → Database → W → Answer W E) → Database → W → Answer W E
  pass_by none db w = pass db w
  pass_by (some f) db w = f pass db w

  -- RunOnce
  unfoldable pub run_once : Database → W → Answer W E
  run_once db w = if h.is_draining w then (draining ∷ [], db, w) else pass_by h.capacity db w
