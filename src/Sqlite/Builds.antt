-- ===== src/Sqlite/Builds.antt =====
-- internal/control/sqlite/store.go: the methods on builds.
use autback.Prelude.{
  ℕ, String, Bool, true, false, ◌&&◌, Option, none, some, ◌==◌, str_eq, if◌then◌else◌, find_where,
  ℤ,
}
use autback.Control.{Build, BuildStatus, Idempotency, OperationKind, OperationState, is_unfinished}
use autback.Sqlite.Tables.{
  Exec, Error, BuildRow, QueueRow, pure, raise, select, transaction, check, ◌>>=◌, ◌>>◌, has_key,
  build_has_key, update_queue, insert_queue, update_builds, insert_build,
}

abbrev pub has_id : String → BuildRow → Bool
has_id id r = str_eq r.id id

abbrev pub scan_build : Option BuildRow → Exec Build
scan_build none = raise Error.not_found
scan_build (some r) = pure r.build

-- Build
unfoldable pub get_build : String → Exec Build
get_build id = do found ← select λ db. find_where (has_id id) db.builds; scan_build found

abbrev pub queued_build : String → String → ℕ → Build
queued_build id project now = record {
  id = id;
  project_id = project;
  status = BuildStatus.queued;
  created_at = now;
  finished_at = none;
  exit_code = none;
}

abbrev pub replay_build : Idempotency → BuildRow → Exec (Build × Bool)
replay_build idempotency r =
    if str_eq r.request_hash idempotency.request_hash
    then pure (r.build, true)
    else raise Error.idempotency_conflict

abbrev pub insert_queued_build : String → ℕ → String → Idempotency → Exec (Build × Bool)
insert_queued_build id now project idempotency = do
  insert_build (record {
    build = queued_build id project now;
    idempotency_key = idempotency.key;
    request_hash = idempotency.request_hash;
  })
  insert_queue OperationKind.build id now none
  pure (queued_build id project now, false)

abbrev pub create_or_replay_build :
    String → ℕ → String → Idempotency → Option BuildRow → Exec (Build × Bool)
create_or_replay_build id now project idempotency none =
    insert_queued_build id now project idempotency
create_or_replay_build id now project idempotency (some r) = replay_build idempotency r

-- CreateBuild
unfoldable pub create_build : String → ℕ → String → Idempotency → Exec (Build × Bool)
create_build id now project idempotency = transaction do
  found ← select λ db. find_where (build_has_key project idempotency.key) db.builds
  create_or_replay_build id now project idempotency found

-- IN ('queued', 'running')
abbrev pub is_open : BuildStatus → Bool
is_open BuildStatus.queued = true
is_open BuildStatus.running = true
is_open _ = false

abbrev pub is_build_queued : BuildStatus → Bool
is_build_queued BuildStatus.queued = true
is_build_queued _ = false

abbrev pub finish_row : ℕ → BuildStatus → ℤ → BuildRow → BuildRow
finish_row now status exit_code r = record r {
  build = record r.build { status = status; finished_at = some now; exit_code = some exit_code };
}

-- CASE WHEN state='queued' THEN 'released' ELSE 'terminalizing' END
abbrev pub end_state : OperationState → OperationState
end_state OperationState.queued = OperationState.released
end_state _ = OperationState.terminalizing

abbrev pub end_row : ℕ → QueueRow → QueueRow
end_row now r = record r { state = end_state r.state; cleanup_updated_at = now }

abbrev pub finish_open : String → ℕ → BuildStatus → ℤ → Exec Unit
finish_open id now status exit_code = do
  n ← update_builds (λ r. has_id id r && is_open r.status) (finish_row now status exit_code)
  check (n == 1) Error.not_found
  update_queue (λ r. has_key OperationKind.build id r && is_unfinished r.state) (end_row now)
  pure tt

-- FinishBuild
unfoldable pub finish_build : String → ℕ → BuildStatus → ℤ → Exec Build
finish_build id now status exit_code =
    if is_open status
    then raise Error.status_not_terminal
    else (transaction (finish_open id now status exit_code) >> get_build id)
