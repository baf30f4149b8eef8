-- ===== src/Sqlite/Queue.antt =====
-- internal/control/sqlite/store.go: the durable FIFO queue and its single worker lease.
use autback.Prelude.{
  ℕ, String, Bool, ◌&&◌, not, Option, none, some, List, [], ◌∷◌, ltb, ◌==◌, if◌then◌else◌,
  count_where, find_where,
}
use autback.Control.{
  BuildStatus, OperationKind, OperationState, Operation, is_queued, is_admitting, is_unfinished,
}
use autback.Sqlite.Tables.{
  Exec, Error, QueueRow, BuildRow, pure, raise, select, transaction, check, ◌>>=◌, ◌>>◌, has_key,
  reserved, update_queue, update_builds,
}
use autback.Sqlite.Jobs.{requeue}
use autback.Sqlite.Builds.{has_id, is_build_queued}

abbrev pub older : Option QueueRow → Option QueueRow → Option QueueRow
older none s = s
older (some r) none = some r
older (some r) (some s) = if ltb s.sequence r.sequence then some s else some r

-- SELECT ... WHERE p ORDER BY sequence LIMIT 1
unfoldable pub oldest : (QueueRow → Bool) → List QueueRow → Option QueueRow
oldest p [] = none
oldest p (r ∷ rs) = older (if p r then some r else none) (oldest p rs)

abbrev pub updated_time : ℕ → Option ℕ
updated_time t = if t == 0 then none else some t

abbrev pub operation_of : QueueRow → Operation
operation_of r = record {
  kind = r.kind;
  id = r.operation_id;
  state = r.state;
  accepted_at = r.accepted_at;
  leased_at = r.leased_at;
  cleanup_attempts = r.cleanup_attempts;
  cleanup_error = r.cleanup_error;
  cleanup_updated_at = updated_time r.cleanup_updated_at;
}

abbrev pub scan_operation : Option QueueRow → Exec Operation
scan_operation none = raise Error.not_found
scan_operation (some r) = pure (operation_of r)

-- Operation
unfoldable pub get_operation : OperationKind → String → Exec Operation
get_operation kind id = do
  found ← select λ db. find_where (has_key kind id) db.queue
  scan_operation found

abbrev pub scan_state : Option QueueRow → Exec OperationState
scan_state none = raise Error.not_found
scan_state (some r) = pure r.state

-- OperationState
unfoldable pub operation_state : OperationKind → String → Exec OperationState
operation_state kind id = do
  found ← select λ db. find_where (has_key kind id) db.queue
  scan_state found

-- WorkerBusy
unfoldable pub worker_busy : Exec Bool
worker_busy = select λ db. not (count_where reserved db.queue == 0)

-- What AcquireNextOperation returns: it reads four columns and sets two fields itself.
abbrev pub admitted : ℕ → QueueRow → Operation
admitted now r = record {
  kind = r.kind;
  id = r.operation_id;
  state = OperationState.admitting;
  accepted_at = r.accepted_at;
  leased_at = some now;
  cleanup_attempts = 0;
  cleanup_error = "";
  cleanup_updated_at = none;
}

abbrev pub admit_row : ℕ → QueueRow → QueueRow
admit_row now r = record r { state = OperationState.admitting; leased_at = some now }

abbrev pub admit_oldest : ℕ → Option QueueRow → Exec (Option Operation)
admit_oldest now none = pure none
admit_oldest now (some r) = do
  n ← update_queue (λ s. has_key r.kind r.operation_id s && is_queued s.state) (admit_row now)
  check (n == 1) Error.concurrently_admitted
  pure (some (admitted now r))

abbrev pub admit_head : ℕ → Exec (Option Operation)
admit_head now = do
  head ← select λ db. oldest (λ r. is_queued r.state) db.queue
  admit_oldest now head

-- AcquireNextOperation
unfoldable pub acquire_next_operation : ℕ → Exec (Option Operation)
acquire_next_operation now = transaction do
  active ← select λ db. count_where reserved db.queue
  if active == 0 then admit_head now else pure none

-- RequeueAdmittingOperation
unfoldable pub requeue_admitting_operation : OperationKind → String → Exec Unit
requeue_admitting_operation kind id = do
  n ← update_queue (λ r. has_key kind id r && is_admitting r.state) requeue
  check (n == 1) Error.not_found

abbrev pub run_row : BuildRow → BuildRow
run_row r = record r { build = record r.build { status = BuildStatus.running } }

abbrev pub run_build : OperationKind → String → Exec Unit
run_build OperationKind.job id = pure tt
run_build OperationKind.build id = do
  n ← update_builds (λ r. has_id id r && is_build_queued r.status) run_row
  check (n == 1) Error.queued_build_missing

abbrev pub activate_row : QueueRow → QueueRow
activate_row r = record r { state = OperationState.active }

-- ActivateOperation
unfoldable pub activate_operation : OperationKind → String → Exec Unit
activate_operation kind id = transaction do
  n ← update_queue (λ r. has_key kind id r && is_admitting r.state) activate_row
  check (n == 1) Error.not_found
  run_build kind id

abbrev pub renew_row : ℕ → QueueRow → QueueRow
renew_row now r = record r { leased_at = some now }

-- RenewOperationLease
unfoldable pub renew_operation_lease : OperationKind → String → ℕ → Exec Unit
renew_operation_lease kind id now = do
  n ← update_queue (λ r. has_key kind id r && is_unfinished r.state) (renew_row now)
  check (n == 1) Error.not_found
