-- ===== src/Sqlite/Steps.antt =====
-- Each UPDATE of internal/control/sqlite/store.go on a row that its WHERE clause selects.
use autback.Prelude.{ℕ, String, Bool, true, ◌&&◌, not, ◌≡◌, arith, ℤ}
use autback.Protocol.{RemoteJob, is_terminal}
use autback.Control.{
  BuildStatus, OperationKind, is_queued, is_admitting, is_cleaning, is_executing, is_waiting,
  is_unfinished, is_tearing_down,
}
use autback.Sqlite.Tables.{QueueRow, JobRow, BuildRow, has_key}
use autback.Sqlite.Jobs.{
  has_id, is_preparing, is_pending, commit_digest, sync_row, cancel_row, fail_row, requeue,
  terminalize, release,
}
use autback.Sqlite.Builds
use autback.Sqlite.Builds.{is_open, is_build_queued, finish_row, end_row}
use autback.Sqlite.Queue.{admit_row, activate_row, run_row, renew_row}
use autback.Sqlite.Cleanup.{
  claim_row, complete_row, fail_cleanup_row, is_live, stop_job_row, stop_build_row,
}
use autback.Sqlite.Evolution.{RowEvolves, JobEvolves, BuildEvolves}

pub commit_digest_evolves :
    (id : String) (digest : String) (r : JobRow)
    → (has_id id r && is_preparing r.status) ≡ true
    → JobEvolves r (commit_digest digest r)
commit_digest_evolves id digest r h = ground arith

pub sync_row_evolves :
    (id : String) (remote : RemoteJob) (r : JobRow)
    → (has_id id r && not (is_terminal r.status)) ≡ true
    → JobEvolves r (sync_row remote r)
sync_row_evolves id remote r h = ground arith

pub cancel_row_evolves :
    (id : String) (now : ℕ) (executing : Bool) (r : JobRow)
    → (has_id id r && not (is_terminal r.status)) ≡ true
    → JobEvolves r (cancel_row now executing r)
cancel_row_evolves id now executing r h = ground arith

pub fail_row_evolves :
    (id : String) (now : ℕ) (message : String) (r : JobRow)
    → (has_id id r && is_pending r.status) ≡ true
    → JobEvolves r (fail_row now message r)
fail_row_evolves id now message r h = ground arith

pub stop_job_row_evolves :
    (id : String) (now : ℕ) (message : String) (r : JobRow)
    → (has_id id r && is_live r.status) ≡ true
    → JobEvolves r (stop_job_row now message r)
stop_job_row_evolves id now message r h = ground arith

pub finish_row_evolves :
    (id : String) (now : ℕ) (status : BuildStatus) (code : ℤ) (r : BuildRow)
    → (Builds.has_id id r && is_open r.status) ≡ true
    → BuildEvolves r (finish_row now status code r)
finish_row_evolves id now status code r h = ground arith

pub run_row_evolves :
    (id : String) (r : BuildRow)
    → (Builds.has_id id r && is_build_queued r.status) ≡ true
    → BuildEvolves r (run_row r)
run_row_evolves id r h = ground arith

pub stop_build_row_evolves :
    (id : String) (now : ℕ) (r : BuildRow)
    → (Builds.has_id id r && is_open r.status) ≡ true
    → BuildEvolves r (stop_build_row now r)
stop_build_row_evolves id now r h = ground arith

pub requeue_waiting_evolves :
    (kind : OperationKind) (id : String) (r : QueueRow)
    → (has_key kind id r && is_waiting r.state) ≡ true
    → RowEvolves r (requeue r)
requeue_waiting_evolves kind id r h = ground arith

pub requeue_admitting_evolves :
    (kind : OperationKind) (id : String) (r : QueueRow)
    → (has_key kind id r && is_admitting r.state) ≡ true
    → RowEvolves r (requeue r)
requeue_admitting_evolves kind id r h = ground arith

pub terminalize_executing_evolves :
    (kind : OperationKind) (id : String) (now : ℕ) (r : QueueRow)
    → (has_key kind id r && is_executing r.state) ≡ true
    → RowEvolves r (terminalize now r)
terminalize_executing_evolves kind id now r h = ground arith

pub terminalize_unfinished_evolves :
    (kind : OperationKind) (id : String) (now : ℕ) (r : QueueRow)
    → (has_key kind id r && is_unfinished r.state) ≡ true
    → RowEvolves r (terminalize now r)
terminalize_unfinished_evolves kind id now r h = ground arith

pub release_queued_evolves :
    (kind : OperationKind) (id : String) (now : ℕ) (r : QueueRow)
    → (has_key kind id r && is_queued r.state) ≡ true
    → RowEvolves r (release now r)
release_queued_evolves kind id now r h = ground arith

pub end_row_evolves :
    (kind : OperationKind) (id : String) (now : ℕ) (r : QueueRow)
    → (has_key kind id r && is_unfinished r.state) ≡ true
    → RowEvolves r (end_row now r)
end_row_evolves kind id now r h = ground arith

pub admit_row_evolves :
    (kind : OperationKind) (id : String) (now : ℕ) (r : QueueRow)
    → (has_key kind id r && is_queued r.state) ≡ true
    → RowEvolves r (admit_row now r)
admit_row_evolves kind id now r h = ground arith

pub activate_row_evolves :
    (kind : OperationKind) (id : String) (r : QueueRow)
    → (has_key kind id r && is_admitting r.state) ≡ true
    → RowEvolves r (activate_row r)
activate_row_evolves kind id r h = ground arith

pub renew_row_evolves :
    (kind : OperationKind) (id : String) (now : ℕ) (r : QueueRow)
    → (has_key kind id r && is_unfinished r.state) ≡ true
    → RowEvolves r (renew_row now r)
renew_row_evolves kind id now r h = ground arith

pub claim_row_evolves :
    (kind : OperationKind) (id : String) (now : ℕ) (r : QueueRow)
    → (has_key kind id r && is_tearing_down r.state) ≡ true
    → RowEvolves r (claim_row now r)
claim_row_evolves kind id now r h = ground arith

pub fail_cleanup_row_evolves :
    (kind : OperationKind) (id : String) (now : ℕ) (message : String) (r : QueueRow)
    → (has_key kind id r && is_cleaning r.state) ≡ true
    → RowEvolves r (fail_cleanup_row now message r)
fail_cleanup_row_evolves kind id now message r h = ground arith

pub complete_row_evolves :
    (kind : OperationKind) (id : String) (now : ℕ) (r : QueueRow)
    → (has_key kind id r && is_tearing_down r.state) ≡ true
    → RowEvolves r (complete_row now r)
complete_row_evolves kind id now r h = ground arith

pub ruleset steps = (
  commit_digest_evolves, sync_row_evolves, cancel_row_evolves, fail_row_evolves,
  stop_job_row_evolves, finish_row_evolves, run_row_evolves, stop_build_row_evolves,
  requeue_waiting_evolves, requeue_admitting_evolves, terminalize_executing_evolves,
  terminalize_unfinished_evolves, release_queued_evolves, end_row_evolves, admit_row_evolves,
  activate_row_evolves, renew_row_evolves, claim_row_evolves, fail_cleanup_row_evolves,
  complete_row_evolves,
)
