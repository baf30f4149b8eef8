-- ===== src/Sqlite/Rejected.antt =====
-- The end of a job that could not be admitted: FailJob and then BeginOperationCleanup of
-- internal/control/sqlite/store.go.
use autback.Prelude.{
  ℕ, String, Bool, true, ◌&&◌, some, ◌≡◌, refl, arith, All-every, All-map, update_where-none,
  count_where, find_where, update_where, find_where-update_where, find_where-test,
  count_where-update_where_same, pos,
}
use autback.Protocol.{Status}
use autback.Control.{OperationKind, OperationState, is_executing, is_unfinished}
use autback.Sqlite.Tables.{
  Database, QueueRow, JobRow, ok, has_key, reserved, update_queue, update_jobs, ◌>>=◌,
}
use autback.Sqlite.Jobs.{has_id, get_job, fail_job, fail_row, is_pending, terminalize}
use autback.Sqlite.Queue.{operation_state}
use autback.Sqlite.Cleanup.{begin_operation_cleanup}
use autback.Sqlite.Evolution.{Inv}
use autback.Sqlite.Keys.{only-key, count-key-none}
use autback.Sqlite.Methods.{Sound-fail_job}

module _ (id : String) (now : ℕ) (m : String) (db : Database) (s : QueueRow) (r : JobRow) where
  abbrev ending : QueueRow → Bool
  ending q = has_key OperationKind.job id q && is_unfinished q.state

  abbrev failing : JobRow → Bool
  failing j = has_id id j && is_pending j.status

  abbrev ended : Database
  ended = record db {
    queue = update_where ending (terminalize now) db.queue;
    jobs = update_where failing (fail_row now m) db.jobs;
  }

  module _ (v : Inv db) (f : find_where (has_key OperationKind.job id) db.queue ≡ some s)
      (x : is_executing s.state ≡ true) (g : find_where (has_id id) db.jobs ≡ some r)
      (p : is_pending r.status ≡ true) (one : count_where failing db.jobs ≡ 1) where
    still_reserved : count_where reserved ended.queue ≡ count_where reserved db.queue
    still_reserved = count_where-update_where_same reserved ending (terminalize now) db.queue (
        All-map _ _ db.queue (λ q same k. ground (arith, same))
          (only-key OperationKind.job id db.queue s v.unique f))

    ended_job : find_where (has_id id) ended.jobs ≡ some (fail_row now m r)
    ended_job = ground (
      arith,
      find_where-update_where (has_id id) failing (fail_row now m) db.jobs r
          (All-every _ db.jobs (λ j k. refl)) g,
      find_where-test (has_id id) db.jobs r g,
    )

    ended_row : find_where (has_key OperationKind.job id) ended.queue ≡ some (terminalize now s)
    ended_row = ground (
      arith,
      find_where-update_where (has_key OperationKind.job id) ending (terminalize now) db.queue s
          (All-every _ db.queue (λ q k. refl)) f,
      find_where-test (has_key OperationKind.job id) db.queue s f,
    )

    fails : fail_job id now m db ≡ (ok (fail_row now m r).job, ended)
    unfolding fail_job get_job ◌>>=◌ update_queue update_jobs
    fails = ground (arith, v.one_reserved, still_reserved, ended_job, one)

    begins : (now' : ℕ) → begin_operation_cleanup OperationKind.job id now' ended ≡ (ok tt, ended)
    unfolding begin_operation_cleanup operation_state ◌>>=◌ update_queue
    begins now' =
        let v1 : Inv ended = ground (arith, fails, ((Sound-fail_job id now m).at db v).0) in
        let none_left : count_where ending ended.queue ≡ 0 =
          count-key-none OperationKind.job id (λ q. is_unfinished q.state) ended.queue
            (terminalize now s)
            (only-key OperationKind.job id ended.queue (terminalize now s) v1.unique ended_row)
            refl in
        ground (
          arith,
          none_left,
          update_where-none ending (terminalize now') ended.queue none_left,
          ended_row,
          v.one_reserved,
          still_reserved,
        )

    -- FailJob of a pending job whose operation holds the worker, then the request of its cleanup: both
    -- succeed, what Job reports is failed with the message and exit code 1, and its operation tears down and
    -- still holds the worker.
    pub rejected_job_ends :
        (now' : ℕ)
        → let (a, db1) = fail_job id now m db in
          let (b, db2) = begin_operation_cleanup OperationKind.job id now' db1 in
          (a
            ≡ ok (record r.job {
              status = Status.failed;
              finished_at = some now;
              exit_code = some (pos 1);
              error_message = m;
            }))
          × (b ≡ ok tt)
          × ((operation_state OperationKind.job id db2).0 ≡ ok OperationState.terminalizing)
          × ((get_job id db2).0 ≡ a)
          × (count_where reserved db2.queue ≡ count_where reserved db.queue)
          × (db2 ≡ db1)
    unfolding operation_state get_job ◌>>=◌
    rejected_job_ends now' =
        rw (fails, begins now')
          (refl, refl, ground (arith, ended_row), ground (arith, ended_job), still_reserved, refl)
