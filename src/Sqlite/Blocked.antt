-- ===== src/Sqlite/Blocked.antt =====
-- What BeginOperationCleanup and FailJob of internal/control/sqlite/store.go do to an operation that
-- still waits in the queue.
use autback.Prelude.{
  ℕ, ◌+◌, ◌<◌, ◌≡◌, refl, String, true, ◌&&◌, Option, some, none, List, arith, All, All-map,
  count_where, find_where, update_where, count_where-update_where_gain,
}
use autback.Control.{OperationKind, OperationState, is_unfinished}
use autback.Sqlite.Tables.{
  Database, QueueRow, JobRow, Error, ok, err, has_key, reserved, update_queue, update_jobs, ◌>>=◌,
}
use autback.Sqlite.Jobs.{fail_job, fail_row, has_id, is_pending, terminalize}
use autback.Sqlite.Queue.{operation_state}
use autback.Sqlite.Cleanup.{begin_operation_cleanup}
use autback.Sqlite.Evolution.{Inv}
use autback.Sqlite.Keys.{count-key, only-key, count-key-test}

module _ (kind : OperationKind) (id : String) (now : ℕ) (db : Database) where
  one_more :
      (r : QueueRow)
      → Inv db
      → find_where (has_key kind id) db.queue ≡ some r
      → r.state ≡ OperationState.queued
      → count_where reserved (
          update_where (λ s. has_key kind id s && is_unfinished s.state) (terminalize now) db.queue)
        ≡ count_where reserved db.queue + 1
  one_more r v f q = ground (
    arith,
    count_where-update_where_gain reserved (λ s. has_key kind id s && is_unfinished s.state)
        (terminalize now) db.queue
        (All-map _ _ db.queue (λ s same k. (ground (arith, same), ground arith)) only),
    count-key-test kind id (λ s. is_unfinished s.state) db.queue r only (ground arith),
    count-key kind id db.queue r v.unique f,
  )
    where
      only : All (λ s. has_key kind id s ≡ true → s ≡ r) db.queue
      only = only-key kind id db.queue r v.unique f

  found_queued :
      (operation_state kind id db).0 ≡ ok OperationState.queued
      → (r : QueueRow) × (find_where (has_key kind id) db.queue ≡ some r)
        × (r.state ≡ OperationState.queued)
  unfolding operation_state ◌>>=◌
  found_queued h = split (find_where (has_key kind id) db.queue) refl
    where
      split :
          (r : Option QueueRow)
          → find_where (has_key kind id) db.queue ≡ r
          → (r : QueueRow) × (find_where (has_key kind id) db.queue ≡ some r)
            × (r.state ≡ OperationState.queued)
      split none e = absurd (ground arith)
      split (some r) e = (r, e, ground arith)

  terminalize_blocked :
      Inv db
      → (operation_state kind id db).0 ≡ ok OperationState.queued
      → 0 < count_where reserved db.queue
      → (jobs : List JobRow)
      → update_queue
          (λ s. has_key kind id s && is_unfinished s.state)
          (terminalize now)
          (record db { jobs = jobs })
        ≡ (err Error.constraint, record db { jobs = jobs })
  unfolding update_queue
  terminalize_blocked v q busy jobs =
      let (r, f, s) = found_queued q in ground (arith, one_more r v f s)

  -- In a database that satisfies the invariant, while another operation holds the worker,
  -- BeginOperationCleanup of an operation that is queued fails and changes nothing: the index on
  -- the reservation refuses the change.
  pub begin_cleanup_blocked :
      Inv db
      → (operation_state kind id db).0 ≡ ok OperationState.queued
      → 0 < count_where reserved db.queue
      → begin_operation_cleanup kind id now db ≡ (err Error.constraint, db)
  unfolding begin_operation_cleanup ◌>>=◌
  begin_cleanup_blocked v q busy = ground (arith, terminalize_blocked v q busy db.jobs)

-- In a database that satisfies the invariant, while another operation holds the worker, FailJob of
-- the one job with its id that is preparing or queued, whose operation is queued, fails on the
-- same index and changes nothing.
pub fail_job_blocked :
    (id : String) (now : ℕ) (message : String) (db : Database)
    → Inv db
    → count_where (λ (r : JobRow). has_id id r && is_pending r.status) db.jobs ≡ 1
    → (operation_state OperationKind.job id db).0 ≡ ok OperationState.queued
    → 0 < count_where reserved db.queue
    → fail_job id now message db ≡ (err Error.constraint, db)
unfolding fail_job ◌>>=◌ update_jobs
fail_job_blocked id now message db v one q busy = ground (
  arith,
  one,
  terminalize_blocked OperationKind.job id now db v q busy
      (update_where (λ r. has_id id r && is_pending r.status) (fail_row now message) db.jobs),
)
