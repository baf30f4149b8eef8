-- ===== src/Sqlite/Methods.antt =====
-- Every method of internal/control/sqlite/store.go on operations keeps the invariant, loses no row
-- and moves each row only forwards.
use autback.Prelude.{ℕ, String, Bool, true, false, Option, none, some, ℤ}
use autback.Protocol.{RemoteJob}
use autback.Control.{PrepareJob, Idempotency, BuildStatus, OperationKind, OperationState}
use autback.Sqlite.Tables.{QueueRow, JobRow, BuildRow}
use autback.Sqlite.Jobs
use autback.Sqlite.Builds
use autback.Sqlite.Queue
use autback.Sqlite.Cleanup
use autback.Sqlite.Advances.{Sound, actions}
use autback.Sqlite.Steps.{steps}

Sound-scan_job : (r : Option JobRow) → Sound (Jobs.scan_job r)
Sound-scan_job none = search actions
Sound-scan_job (some r) = search actions

pub Sound-get_job : (id : String) → Sound (Jobs.get_job id)
unfolding Jobs.get_job
Sound-get_job id = search (actions, Sound-scan_job)

Sound-create_or_replay_job :
    (id : String) (now : ℕ) (input : PrepareJob) (key : Idempotency) (r : Option JobRow)
    → Sound (Jobs.create_or_replay_job id now input key r)
Sound-create_or_replay_job id now input key none = search actions
Sound-create_or_replay_job id now input key (some r) = search actions

pub Sound-create_prepared_job :
    (id : String) (now : ℕ) (input : PrepareJob) (key : Idempotency)
    → Sound (Jobs.create_prepared_job id now input key)
unfolding Jobs.create_prepared_job
Sound-create_prepared_job id now input key = search (actions, Sound-create_or_replay_job)

pub Sound-queue_job : (id digest : String) → Sound (Jobs.queue_job id digest)
unfolding Jobs.queue_job
Sound-queue_job id digest = search (actions, steps, Sound-get_job) depth 8

Sound-terminalize_synced :
    (id : String) (now : ℕ) (b : Bool) → Sound (Jobs.terminalize_synced id now b)
Sound-terminalize_synced id now true = search (actions, steps)
Sound-terminalize_synced id now false = search actions

pub Sound-sync_job :
    (id : String) (now : ℕ) (remote : RemoteJob) → Sound (Jobs.sync_job id now remote)
unfolding Jobs.sync_job
Sound-sync_job id now remote =
    search (actions, steps, Sound-terminalize_synced, Sound-get_job) depth 8

pub Sound-request_job_cancellation :
    (id : String) (now : ℕ) → Sound (Jobs.request_job_cancellation id now)
unfolding Jobs.request_job_cancellation
Sound-request_job_cancellation id now = search (actions, steps, Sound-get_job) depth 8

pub Sound-fail_job :
    (id : String) (now : ℕ) (message : String) → Sound (Jobs.fail_job id now message)
unfolding Jobs.fail_job
Sound-fail_job id now message = search (actions, steps, Sound-get_job) depth 8

Sound-scan_build : (r : Option BuildRow) → Sound (Builds.scan_build r)
Sound-scan_build none = search actions
Sound-scan_build (some r) = search actions

Sound-get_build : (id : String) → Sound (Builds.get_build id)
unfolding Builds.get_build
Sound-get_build id = search (actions, Sound-scan_build)

Sound-create_or_replay_build :
    (id : String) (now : ℕ) (project : String) (key : Idempotency) (r : Option BuildRow)
    → Sound (Builds.create_or_replay_build id now project key r)
Sound-create_or_replay_build id now project key none = search actions
Sound-create_or_replay_build id now project key (some r) = search actions

pub Sound-create_build :
    (id : String) (now : ℕ) (project : String) (key : Idempotency)
    → Sound (Builds.create_build id now project key)
unfolding Builds.create_build
Sound-create_build id now project key = search (actions, Sound-create_or_replay_build)

pub Sound-finish_build :
    (id : String) (now : ℕ) (status : BuildStatus) (code : ℤ)
    → Sound (Builds.finish_build id now status code)
unfolding Builds.finish_build
Sound-finish_build id now status code = search (actions, steps, Sound-get_build) depth 8

Sound-admit_oldest : (now : ℕ) (r : Option QueueRow) → Sound (Queue.admit_oldest now r)
Sound-admit_oldest now none = search actions
Sound-admit_oldest now (some r) = search (actions, steps)

pub Sound-acquire_next_operation : (now : ℕ) → Sound (Queue.acquire_next_operation now)
unfolding Queue.acquire_next_operation
Sound-acquire_next_operation now = search (actions, Sound-admit_oldest) depth 7

pub Sound-requeue_admitting_operation :
    (kind : OperationKind) (id : String) → Sound (Queue.requeue_admitting_operation kind id)
unfolding Queue.requeue_admitting_operation
Sound-requeue_admitting_operation kind id = search (actions, steps)

Sound-run_build : (kind : OperationKind) (id : String) → Sound (Queue.run_build kind id)
Sound-run_build OperationKind.job id = search actions
Sound-run_build OperationKind.build id = search (actions, steps)

pub Sound-activate_operation :
    (kind : OperationKind) (id : String) → Sound (Queue.activate_operation kind id)
unfolding Queue.activate_operation
Sound-activate_operation kind id = search (actions, steps, Sound-run_build) depth 7

pub Sound-renew_operation_lease :
    (kind : OperationKind) (id : String) (now : ℕ) → Sound (Queue.renew_operation_lease kind id now)
unfolding Queue.renew_operation_lease
Sound-renew_operation_lease kind id now = search (actions, steps)

Sound-scan_state : (r : Option QueueRow) → Sound (Queue.scan_state r)
Sound-scan_state none = search actions
Sound-scan_state (some r) = search actions

Sound-operation_state : (kind : OperationKind) (id : String) → Sound (Queue.operation_state kind id)
unfolding Queue.operation_state
Sound-operation_state kind id = search (actions, Sound-scan_state)

Sound-already_ending : (s : OperationState) → Sound (Cleanup.already_ending s)
Sound-already_ending OperationState.terminalizing = search actions
Sound-already_ending _ = search actions

pub Sound-begin_operation_cleanup :
    (kind : OperationKind) (id : String) (now : ℕ)
    → Sound (Cleanup.begin_operation_cleanup kind id now)
unfolding Cleanup.begin_operation_cleanup
Sound-begin_operation_cleanup kind id now =
    search (actions, steps, Sound-operation_state, Sound-already_ending) depth 7

Sound-claim_oldest : (now : ℕ) (r : Option QueueRow) → Sound (Cleanup.claim_oldest now r)
Sound-claim_oldest now none = search actions
Sound-claim_oldest now (some r) = search (actions, steps)

pub Sound-claim_operation_cleanup : (now : ℕ) → Sound (Cleanup.claim_operation_cleanup now)
unfolding Cleanup.claim_operation_cleanup
Sound-claim_operation_cleanup now = search (actions, Sound-claim_oldest)

pub Sound-record_operation_cleanup_failure :
    (kind : OperationKind) (id : String) (now : ℕ) (message : String)
    → Sound (Cleanup.record_operation_cleanup_failure kind id now message)
unfolding Cleanup.record_operation_cleanup_failure
Sound-record_operation_cleanup_failure kind id now message = search (actions, steps)

Sound-already_released : (s : OperationState) → Sound (Cleanup.already_released s)
Sound-already_released OperationState.released = search actions
Sound-already_released _ = search actions

pub Sound-complete_operation_cleanup :
    (kind : OperationKind) (id : String) (now : ℕ)
    → Sound (Cleanup.complete_operation_cleanup kind id now)
unfolding Cleanup.complete_operation_cleanup
Sound-complete_operation_cleanup kind id now =
    search (actions, steps, Sound-operation_state, Sound-already_released) depth 7

pub Sound-cancel_queued_operation :
    (kind : OperationKind) (id : String) (now : ℕ)
    → Sound (Cleanup.cancel_queued_operation kind id now)
unfolding Cleanup.cancel_queued_operation
Sound-cancel_queued_operation kind id now = search (actions, steps)
