-- ===== src/Sqlite/EndExamples.antt =====
-- The theorems on the end of an operation in internal/control/sqlite/store.go at small databases.
use autback.Prelude.{[], ◌∷◌, ◌<◌, ◌≡◌, refl, not, ◌&&◌, some, arith, count_where, find_where}
use autback.Protocol.{Status, is_terminal}
use autback.Control.{OperationKind, OperationState, is_tearing_down}
use autback.Sqlite.Tables.{
  Database, select, QueueRow, JobRow, Error, ok, err, has_key, reserved, ◌>>=◌,
}
use autback.Sqlite.Jobs.{fail_job, has_id, is_pending}
use autback.Sqlite.Builds.{queued_build}
use autback.Sqlite.Stale.{stale_preparing_jobs, stale_builds, join_rows, rows_where, insert_row}
use autback.Sqlite.Queue.{operation_state, oldest}
use autback.Sqlite.Cleanup.{
  begin_operation_cleanup, claim_operation_cleanup, complete_operation_cleanup, claimed,
}
use autback.Sqlite.Teardown.{cleanup_frees_worker}
use autback.Sqlite.Blocked.{begin_cleanup_blocked, fail_job_blocked}
use autback.Sqlite.Examples.{job_row, queue_row, held, ending, held-Inv, ending-Inv}

abbrev pub a_ending : QueueRow
a_ending = queue_row 1 "a" OperationState.terminalizing

pub a_is_oldest : oldest (λ s. is_tearing_down s.state) ending.queue ≡ some a_ending
unfolding oldest
a_is_oldest = refl

cleanup_frees_worker_example :
    let (x, db1) = claim_operation_cleanup 3 ending in
    let (y, db2) = complete_operation_cleanup OperationKind.job "a" 4 db1 in
    (x ≡ ok (some (claimed 3 a_ending)))
    × (y ≡ ok tt)
    × ((operation_state OperationKind.job "a" db2).0 ≡ ok OperationState.released)
    × (count_where reserved db2.queue ≡ 0)
cleanup_frees_worker_example = cleanup_frees_worker 3 4 ending a_ending ending-Inv a_is_oldest

found_b_row :
    find_where (has_key OperationKind.job "b") held.queue
    ≡ some (queue_row 2 "b" OperationState.queued)
unfolding find_where
found_b_row = refl

found_b : find_where (has_id "b") held.jobs ≡ some (job_row "b" Status.queued)
unfolding find_where
found_b = refl

one_b : count_where (λ (s : JobRow). has_id "b" s && not (is_terminal s.status)) held.jobs ≡ 1
unfolding count_where
one_b = refl

b_is_queued : (operation_state OperationKind.job "b" held).0 ≡ ok OperationState.queued
unfolding operation_state ◌>>=◌ find_where
b_is_queued = refl

one_pending_b : count_where (λ (s : JobRow). has_id "b" s && is_pending s.status) held.jobs ≡ 1
unfolding count_where
one_pending_b = refl

worker_is_held : 0 < count_where reserved held.queue
unfolding count_where
worker_is_held = omega arith

begin_cleanup_blocked_example :
    begin_operation_cleanup OperationKind.job "b" 3 held ≡ (err Error.constraint, held)
begin_cleanup_blocked_example =
    begin_cleanup_blocked OperationKind.job "b" 3 held held-Inv b_is_queued worker_is_held

fail_job_blocked_example : fail_job "b" 3 "no source" held ≡ (err Error.constraint, held)
fail_job_blocked_example =
    fail_job_blocked "b" 3 "no source" held held-Inv one_pending_b b_is_queued worker_is_held

-- A job that never got its source and a build whose client is gone.
abbrev forgotten : Database
forgotten = record {
  projects = "p" ∷ [];
  queue =
      queue_row 1 "a" OperationState.queued
      ∷ record (queue_row 2 "c" OperationState.queued) { kind = OperationKind.build }
      ∷ [];
  next_sequence = 3;
  jobs = job_row "a" Status.preparing ∷ [];
  builds = record { build = queued_build "c" "p" 2; idempotency_key = ""; request_hash = "" } ∷ [];
}

lists_a : (stale_preparing_jobs 9 forgotten).0 ≡ ok ((job_row "a" Status.preparing).job ∷ [])
unfolding stale_preparing_jobs select join_rows rows_where insert_row find_where
lists_a = refl

lists_c : (stale_builds 9 forgotten).0 ≡ ok (queued_build "c" "p" 2 ∷ [])
unfolding stale_builds select join_rows rows_where insert_row find_where
lists_c = refl
