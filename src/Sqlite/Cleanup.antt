-- ===== src/Sqlite/Cleanup.antt =====
-- internal/control/sqlite/store.go: the teardown of an operation, and the two ways to end one early.
use autback.Prelude.{
  ℕ, ◌+◌, String, Bool, true, false, ◌&&◌, Option, none, some, ◌==◌, if◌then◌else◌, pos,
}
use autback.Protocol.{Status}
use autback.Control.{
  BuildStatus, OperationKind, OperationState, Operation, is_queued, is_cleaning, is_executing,
  is_unfinished, is_tearing_down,
}
use autback.Sqlite.Tables.{
  Exec, Error, JobRow, BuildRow, QueueRow, pure, raise, select, transaction, check, ◌>>=◌, ◌>>◌,
  has_key, update_queue, update_jobs, update_builds,
}
use autback.Sqlite.Jobs
use autback.Sqlite.Jobs.{terminalize, release}
use autback.Sqlite.Builds
use autback.Sqlite.Builds.{is_open}
use autback.Sqlite.Queue.{oldest, operation_of, operation_state}

-- The switch on the state that BeginOperationCleanup finds when it changed no row.
abbrev pub already_ending : OperationState → Exec Unit
already_ending OperationState.terminalizing = pure tt
already_ending OperationState.cleaning = pure tt
already_ending OperationState.released = pure tt
already_ending _ = raise Error.cannot_begin_cleanup

-- BeginOperationCleanup
unfoldable pub begin_operation_cleanup : OperationKind → String → ℕ → Exec Unit
begin_operation_cleanup kind id now = do
  n ← update_queue (λ r. has_key kind id r && is_unfinished r.state) (terminalize now)
  if n == 1 then pure tt else (operation_state kind id >>= already_ending)

abbrev pub claim_row : ℕ → QueueRow → QueueRow
claim_row now r = record r {
  state = OperationState.cleaning;
  cleanup_attempts = r.cleanup_attempts + 1;
  cleanup_error = "";
  cleanup_updated_at = now;
}

abbrev pub claimed : ℕ → QueueRow → Operation
claimed now r = record (operation_of r) {
  state = OperationState.cleaning;
  cleanup_attempts = r.cleanup_attempts + 1;
  cleanup_error = "";
  cleanup_updated_at = some now;
}

abbrev pub claim_oldest : ℕ → Option QueueRow → Exec (Option Operation)
claim_oldest now none = pure none
claim_oldest now (some r) = do
  n ← update_queue (λ s. has_key r.kind r.operation_id s && is_tearing_down s.state) (claim_row now)
  check (n == 1) Error.concurrently_claimed
  pure (some (claimed now r))

-- ClaimOperationCleanup
unfoldable pub claim_operation_cleanup : ℕ → Exec (Option Operation)
claim_operation_cleanup now =
    transaction
      do found ← select λ db. oldest (λ r. is_tearing_down r.state) db.queue; claim_oldest now found

abbrev pub fail_cleanup_row : ℕ → String → QueueRow → QueueRow
fail_cleanup_row now message r = record r { cleanup_error = message; cleanup_updated_at = now }

-- RecordOperationCleanupFailure
unfoldable pub record_operation_cleanup_failure : OperationKind → String → ℕ → String → Exec Unit
record_operation_cleanup_failure kind id now message = do
  n ← update_queue (λ r. has_key kind id r && is_cleaning r.state) (fail_cleanup_row now message)
  check (n == 1) Error.not_found

abbrev pub already_released : OperationState → Exec Unit
already_released OperationState.released = pure tt
already_released _ = raise Error.cannot_complete_cleanup

abbrev pub complete_row : ℕ → QueueRow → QueueRow
complete_row now r = record r {
  state = OperationState.released;
  cleanup_error = "";
  cleanup_updated_at = now;
}

-- CompleteOperationCleanup
unfoldable pub complete_operation_cleanup : OperationKind → String → ℕ → Exec Unit
complete_operation_cleanup kind id now = do
  n ← update_queue (λ r. has_key kind id r && is_tearing_down r.state) (complete_row now)
  if n == 1 then pure tt else (operation_state kind id >>= already_released)

-- IN ('preparing', 'queued', 'running')
abbrev pub is_live : Status → Bool
is_live Status.preparing = true
is_live Status.queued = true
is_live Status.running = true
is_live _ = false

abbrev pub stop_job_row : ℕ → String → JobRow → JobRow
stop_job_row now message r = record r {
  job = record r.job {
    status = Status.failed;
    finished_at = some now;
    exit_code = some (pos 137);
    error_message = message;
    cancel_requested = true;
  };
}

abbrev pub stop_build_row : ℕ → BuildRow → BuildRow
stop_build_row now r = record r {
  build = record r.build {
    status = BuildStatus.cancelled;
    finished_at = some now;
    exit_code = some (pos 130);
  };
}

abbrev pub stop_runtime : OperationKind → String → ℕ → String → Exec Unit
stop_runtime OperationKind.job id now message = do
  n ← update_jobs (λ r. Jobs.has_id id r && is_live r.status) (stop_job_row now message)
  check (n == 1) Error.emergency_job_missing
stop_runtime OperationKind.build id now message = do
  n ← update_builds (λ r. Builds.has_id id r && is_open r.status) (stop_build_row now)
  check (n == 1) Error.emergency_build_missing

-- The operation is returned in the state in which it was found. Its cleanup columns are not read.
abbrev pub stopped : QueueRow → Operation
stopped r = record (operation_of r) {
  cleanup_attempts = 0;
  cleanup_error = "";
  cleanup_updated_at = none;
}

abbrev pub stop_oldest : ℕ → String → Option QueueRow → Exec (Option Operation)
stop_oldest now message none = pure none
stop_oldest now message (some r) = do
  stop_runtime r.kind r.operation_id now message
  update_queue (has_key r.kind r.operation_id) (terminalize now)
  pure (some (stopped r))

-- EmergencyStopActiveOperation
unfoldable pub emergency_stop_active_operation : ℕ → String → Exec (Option Operation)
emergency_stop_active_operation now message = transaction do
  found ← select λ db. oldest (λ r. is_executing r.state) db.queue
  stop_oldest now message found

-- CancelQueuedOperation
unfoldable pub cancel_queued_operation : OperationKind → String → ℕ → Exec Bool
cancel_queued_operation kind id now = do
  n ← update_queue (λ r. has_key kind id r && is_queued r.state) (release now)
  pure (n == 1)
