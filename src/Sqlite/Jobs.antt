-- ===== src/Sqlite/Jobs.antt =====
-- internal/control/sqlite/store.go: the methods on jobs. `now` is the clock, `id` the new random
-- identifier. The JSON columns are kept decoded.
use autback.Prelude.{
  ℕ, ◌*◌, ◌/◌, String, Bool, true, false, ◌&&◌, not, Option, none, some, ◌==◌, str_eq,
  if◌then◌else◌, count_where, find_where, pos,
}
use autback.Protocol.{Status, RemoteJob, is_terminal}
use autback.Control.{
  Job, PrepareJob, Idempotency, OperationKind, OperationState, is_queued, is_executing, is_waiting,
  is_unfinished,
}
use autback.Sqlite.Tables.{
  Exec, Error, JobRow, QueueRow, pure, raise, select, transaction, check, ◌>>=◌, ◌>>◌, has_key,
  job_has_key, update_queue, insert_queue, update_jobs, insert_job,
}

abbrev pub has_id : String → JobRow → Bool
has_id id r = str_eq r.id id

-- The column `timeout_millis` drops the part below a millisecond.
abbrev pub stored_timeout : ℕ → ℕ
stored_timeout t = t / 1000000 * 1000000

abbrev pub scan_job : Option JobRow → Exec Job
scan_job none = raise Error.not_found
scan_job (some r) = pure r.job

-- Job
unfoldable pub get_job : String → Exec Job
get_job id = do found ← select λ db. find_where (has_id id) db.jobs; scan_job found

abbrev pub prepared_job : String → PrepareJob → ℕ → Job
prepared_job id input now = record {
  id = id;
  project_id = input.project_id;
  image = input.image;
  command = input.command;
  working_directory = input.working_directory;
  environment = input.environment;
  root_digest = "";
  status = Status.preparing;
  timeout = input.timeout;
  created_at = now;
  started_at = none;
  finished_at = none;
  exit_code = none;
  error_message = "";
  cancel_requested = false;
  worker_id = "";
  caches = input.caches;
  secrets = input.secrets;
}

abbrev pub prepared_row : String → PrepareJob → Idempotency → ℕ → JobRow
prepared_row id input idempotency now = record {
  job = record (prepared_job id input now) { timeout = stored_timeout input.timeout };
  idempotency_key = idempotency.key;
  request_hash = idempotency.request_hash;
}

-- The answer to a request whose key the project has used.
abbrev pub replay_job : Idempotency → JobRow → Exec (Job × Bool)
replay_job idempotency r =
    if str_eq r.request_hash idempotency.request_hash
    then pure (r.job, true)
    else raise Error.idempotency_conflict

abbrev pub insert_prepared_job : String → ℕ → PrepareJob → Idempotency → Exec (Job × Bool)
insert_prepared_job id now input idempotency = do
  insert_job (prepared_row id input idempotency now)
  insert_queue OperationKind.job id now (some now)
  pure (prepared_job id input now, false)

abbrev pub create_or_replay_job :
    String → ℕ → PrepareJob → Idempotency → Option JobRow → Exec (Job × Bool)
create_or_replay_job id now input idempotency none = insert_prepared_job id now input idempotency
create_or_replay_job id now input idempotency (some r) = replay_job idempotency r

-- CreatePreparedJob
unfoldable pub create_prepared_job : String → ℕ → PrepareJob → Idempotency → Exec (Job × Bool)
create_prepared_job id now input idempotency = transaction do
  found ← select λ db. find_where (job_has_key input.project_id idempotency.key) db.jobs
  create_or_replay_job id now input idempotency found

abbrev pub is_preparing : Status → Bool
is_preparing Status.preparing = true
is_preparing _ = false

-- IN ('preparing', 'queued')
abbrev pub is_pending : Status → Bool
is_pending Status.preparing = true
is_pending Status.queued = true
is_pending _ = false

abbrev pub commit_digest : String → JobRow → JobRow
commit_digest root_digest r = record r {
  job = record r.job { root_digest = root_digest; status = Status.queued };
}

-- state=queued, leased_at=NULL
abbrev pub requeue : QueueRow → QueueRow
requeue r = record r { state = OperationState.queued; leased_at = none }

abbrev pub queue_prepared : String → String → Exec Unit
queue_prepared id root_digest = do
  n ← update_jobs (λ r. has_id id r && is_preparing r.status) (commit_digest root_digest)
  check (n == 1) Error.not_found
  m ← update_queue (λ r. has_key OperationKind.job id r && is_waiting r.state) requeue
  check (m == 1) Error.not_found

-- QueueJob, which StartJob calls.
unfoldable pub queue_job : String → String → Exec Job
queue_job id root_digest = do transaction (queue_prepared id root_digest); get_job id

-- state=terminalizing, cleanup_updated_at=?
abbrev pub terminalize : ℕ → QueueRow → QueueRow
terminalize now r = record r { state = OperationState.terminalizing; cleanup_updated_at = now }

-- state=released, cleanup_updated_at=?
abbrev pub release : ℕ → QueueRow → QueueRow
release now r = record r { state = OperationState.released; cleanup_updated_at = now }

abbrev pub sync_row : RemoteJob → JobRow → JobRow
sync_row remote r = record r {
  job = record r.job {
    status = remote.status;
    started_at = remote.started_at;
    finished_at = remote.finished_at;
    exit_code = remote.exit_code;
    error_message = remote.error_message;
    cancel_requested = remote.cancel_requested;
    worker_id = remote.worker_id;
  };
}

abbrev pub terminalize_synced : String → ℕ → Bool → Exec Unit
terminalize_synced id now false = pure tt
terminalize_synced id now true = do
  update_queue (λ r. has_key OperationKind.job id r && is_executing r.state) (terminalize now)
  pure tt

abbrev pub sync_status : String → ℕ → RemoteJob → Exec Unit
sync_status id now remote = do
  update_jobs (λ r. has_id id r && not (is_terminal r.status)) (sync_row remote)
  terminalize_synced id now (is_terminal remote.status)

-- SyncJob
unfoldable pub sync_job : String → ℕ → RemoteJob → Exec Job
sync_job id now remote = do transaction (sync_status id now remote); get_job id

-- The CASE of RequestJobCancellation: nothing runs yet, so the job ends at once.
abbrev pub ends_at_once : Bool → Status → Bool
ends_at_once executing Status.preparing = true
ends_at_once executing Status.queued = not executing
ends_at_once executing _ = false

abbrev pub cancel_row : ℕ → Bool → JobRow → JobRow
cancel_row now executing r = record r {
  job =
      if ends_at_once executing r.status
      then record r.job {
        cancel_requested = true;
        status = Status.cancelled;
        finished_at = some now;
      }
      else record r.job { cancel_requested = true };
}

-- EXISTS (SELECT 1 FROM control_queue WHERE kind=? AND operation_id=? AND state IN (?,?))
abbrev pub executes : String → QueueRow → Bool
executes id r = has_key OperationKind.job id r && is_executing r.state

abbrev pub cancel_job : String → ℕ → Bool → Exec Unit
cancel_job id now executing = do
  n ← update_jobs (λ r. has_id id r && not (is_terminal r.status)) (cancel_row now executing)
  check (n == 1) Error.not_found
  update_queue (λ r. has_key OperationKind.job id r && is_queued r.state) (release now)
  pure tt

-- RequestJobCancellation
unfoldable pub request_job_cancellation : String → ℕ → Exec Job
request_job_cancellation id now = do
  transaction do
    executing ← select λ db. not (count_where (executes id) db.queue == 0)
    cancel_job id now executing
  get_job id

abbrev pub fail_row : ℕ → String → JobRow → JobRow
fail_row now message r = record r {
  job = record r.job {
    status = Status.failed;
    finished_at = some now;
    exit_code = some (pos 1);
    error_message = message;
  };
}

abbrev pub fail_pending : String → ℕ → String → Exec Unit
fail_pending id now message = do
  n ← update_jobs (λ r. has_id id r && is_pending r.status) (fail_row now message)
  check (n == 1) Error.not_found
  update_queue (λ r. has_key OperationKind.job id r && is_unfinished r.state) (terminalize now)
  pure tt

-- FailJob
unfoldable pub fail_job : String → ℕ → String → Exec Job
fail_job id now message = do transaction (fail_pending id now message); get_job id
