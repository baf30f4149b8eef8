-- ===== src/Sqlite/History.antt =====
-- internal/control/sqlite/store.go: a history of the store is a list of calls of its methods, each
-- with the clock and the random identifier that it reads.
use autback.Prelude.{ℕ, String, List, [], ◌∷◌, ℤ}
use autback.Protocol.{RemoteJob}
use autback.Control.{PrepareJob, Idempotency, BuildStatus, OperationKind}
use autback.Sqlite.Tables.{Database}
use autback.Sqlite.Jobs.{
  create_prepared_job, queue_job, sync_job, request_job_cancellation, fail_job,
}
use autback.Sqlite.Builds.{create_build, finish_build}
use autback.Sqlite.Queue.{
  acquire_next_operation, requeue_admitting_operation, activate_operation, renew_operation_lease,
}
use autback.Sqlite.Cleanup.{
  begin_operation_cleanup, claim_operation_cleanup, record_operation_cleanup_failure,
  complete_operation_cleanup, emergency_stop_active_operation, cancel_queued_operation,
}

pub data Call : Type 0 where
  creates_job : String → ℕ → PrepareJob → Idempotency → Call
  queues_job : String → String → Call
  syncs_job : String → ℕ → RemoteJob → Call
  cancels_job : String → ℕ → Call
  fails_job : String → ℕ → String → Call
  creates_build : String → ℕ → String → Idempotency → Call
  finishes_build : String → ℕ → BuildStatus → ℤ → Call
  acquires : ℕ → Call
  requeues : OperationKind → String → Call
  activates : OperationKind → String → Call
  renews : OperationKind → String → ℕ → Call
  begins_cleanup : OperationKind → String → ℕ → Call
  claims_cleanup : ℕ → Call
  records_failure : OperationKind → String → ℕ → String → Call
  completes_cleanup : OperationKind → String → ℕ → Call
  stops : ℕ → String → Call
  cancels_queued : OperationKind → String → ℕ → Call

unfoldable pub step : Database → Call → Database
step db (creates_job id now input key) = (create_prepared_job id now input key db).1
step db (queues_job id digest) = (queue_job id digest db).1
step db (syncs_job id now remote) = (sync_job id now remote db).1
step db (cancels_job id now) = (request_job_cancellation id now db).1
step db (fails_job id now message) = (fail_job id now message db).1
step db (creates_build id now project key) = (create_build id now project key db).1
step db (finishes_build id now status code) = (finish_build id now status code db).1
step db (acquires now) = (acquire_next_operation now db).1
step db (requeues kind id) = (requeue_admitting_operation kind id db).1
step db (activates kind id) = (activate_operation kind id db).1
step db (renews kind id now) = (renew_operation_lease kind id now db).1
step db (begins_cleanup kind id now) = (begin_operation_cleanup kind id now db).1
step db (claims_cleanup now) = (claim_operation_cleanup now db).1
step db (records_failure kind id now message) =
    (record_operation_cleanup_failure kind id now message db).1
step db (completes_cleanup kind id now) = (complete_operation_cleanup kind id now db).1
step db (stops now message) = (emergency_stop_active_operation now message db).1
step db (cancels_queued kind id now) = (cancel_queued_operation kind id now db).1

unfoldable pub run : Database → List Call → Database
run db [] = db
run db (c ∷ cs) = run (step db c) cs

-- The tables as the migration creates them, with the ids of the projects.
unfoldable pub migrated : List String → Database
migrated projects = record {
  projects = projects;
  queue = [];
  next_sequence = 1;
  jobs = [];
  builds = [];
}
