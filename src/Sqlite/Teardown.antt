-- ===== src/Sqlite/Teardown.antt =====
-- The end of an operation in internal/control/sqlite/store.go: its cleanup frees the worker, and a
-- waiting operation ends without one.
use autback.Prelude.{
  ℕ, ◌+◌, ◌≡◌, refl, String, Bool, true, false, not, ◌&&◌, some, List, arith, All-every,
  count_where, find_where, update_where, count_where-update_where_same,
  count_where-update_where_loss, find_where-update_where, find_where-test,
}
use autback.Protocol.{Status, is_terminal}
use autback.Control.{OperationKind, OperationState, is_tearing_down, is_queued, is_executing}
use autback.Sqlite.Tables.{
  Database, QueueRow, JobRow, ok, has_key, reserved, update_queue, update_jobs, ◌>>=◌,
}
use autback.Sqlite.Jobs.{has_id, get_job, request_job_cancellation, cancel_row, release, is_pending}
use autback.Sqlite.Queue.{oldest, operation_state}
use autback.Sqlite.Cleanup.{
  claim_operation_cleanup, complete_operation_cleanup, claim_row, complete_row, claimed,
}
use autback.Sqlite.Evolution.{Inv}
use autback.Sqlite.Oldest.{oldest-count, oldest-test, find-oldest, has_key_refl}
use autback.Sqlite.Keys.{count-key, only-key, count-key-test, count-key-none}

module _ (now now' : ℕ) (db : Database) (r : QueueRow) where
  abbrev pub ending : QueueRow → Bool
  ending s = has_key r.kind r.operation_id s && is_tearing_down s.state

  abbrev pub claimed_queue : List QueueRow
  claimed_queue = update_where ending (claim_row now) db.queue

  abbrev freed_queue : List QueueRow
  freed_queue = update_where ending (complete_row now') claimed_queue

  pub reserved_while_claimed : count_where reserved claimed_queue ≡ count_where reserved db.queue
  reserved_while_claimed =
      count_where-update_where_same reserved ending (claim_row now) db.queue
        (All-every _ db.queue (λ s k. ground arith))

  still_ending : count_where ending claimed_queue ≡ count_where ending db.queue
  still_ending =
      count_where-update_where_same ending ending (claim_row now) db.queue
        (All-every _ db.queue (λ s k. ground arith))

  freed :
      count_where reserved freed_queue + count_where ending claimed_queue
      ≡ count_where reserved claimed_queue
  freed =
      count_where-update_where_loss reserved ending (complete_row now') claimed_queue
        (All-every _ claimed_queue (λ s k. (ground arith, ground arith)))

  module _ (v : Inv db) (h : oldest (λ s. is_tearing_down s.state) db.queue ≡ some r) where
    pub one_ending : count_where ending db.queue ≡ 1
    one_ending = oldest-count (λ s. is_tearing_down s.state) db.queue r v.unique h

    pub claim_lem :
        claim_operation_cleanup now db
        ≡ (ok (some (claimed now r)), record db { queue = claimed_queue })
    unfolding claim_operation_cleanup ◌>>=◌ update_queue
    claim_lem = ground (arith, h, one_ending, reserved_while_claimed, v.one_reserved)

    complete_lem :
        complete_operation_cleanup r.kind r.operation_id now' (record db { queue = claimed_queue })
        ≡ (ok tt, record db { queue = freed_queue })
    unfolding complete_operation_cleanup ◌>>=◌ update_queue
    complete_lem =
        ground (arith, one_ending, still_ending, freed, reserved_while_claimed, v.one_reserved)

    found_freed :
        find_where (has_key r.kind r.operation_id) freed_queue
        ≡ some (complete_row now' (claim_row now r))
    found_freed = ground (
      arith,
      find_where-update_where (has_key r.kind r.operation_id) ending (complete_row now')
          claimed_queue (claim_row now r) (All-every _ claimed_queue (λ s k. refl)),
      find_where-update_where (has_key r.kind r.operation_id) ending (claim_row now) db.queue r
          (All-every _ db.queue (λ s k. refl)),
      find-oldest (λ s. is_tearing_down s.state) db.queue r v.unique h,
      oldest-test (λ s. is_tearing_down s.state) db.queue r h,
      has_key_refl r,
    )

    -- In a database that satisfies the invariant, when the row is the oldest that tears down,
    -- ClaimOperationCleanup returns it, and CompleteOperationCleanup of it succeeds, leaves it
    -- released, and leaves the worker idle.
    pub cleanup_frees_worker :
        let (x, db1) = claim_operation_cleanup now db in
        let (y, db2) = complete_operation_cleanup r.kind r.operation_id now' db1 in
        (x ≡ ok (some (claimed now r)))
        × (y ≡ ok tt)
        × ((operation_state r.kind r.operation_id db2).0 ≡ ok OperationState.released)
        × (count_where reserved db2.queue ≡ 0)
    unfolding operation_state ◌>>=◌
    cleanup_frees_worker =
        rw (claim_lem, complete_lem)
          (
            refl,
            refl,
            ground (arith, found_freed),
            ground (arith, one_ending, still_ending, freed, reserved_while_claimed, v.one_reserved),
          )

-- In a database that satisfies the invariant, CancelJob of a job that is preparing or queued,
-- whose operation waits in the queue and whose row is the only one with its id, ends it at once:
-- the job is cancelled and its operation released in one transaction, and the number of
-- reservations does not change.
pub cancel_waiting_job :
    (id : String) (now : ℕ) (db : Database) (row : QueueRow) (r : JobRow)
    → Inv db
    → find_where (has_key OperationKind.job id) db.queue ≡ some row
    → row.state ≡ OperationState.queued
    → find_where (has_id id) db.jobs ≡ some r
    → is_pending r.status ≡ true
    → count_where (λ (s : JobRow). has_id id s && not (is_terminal s.status)) db.jobs ≡ 1
    → let (x, db') = request_job_cancellation id now db in
      (x
        ≡ ok (record r.job {
          cancel_requested = true;
          status = Status.cancelled;
          finished_at = some now;
        }))
      × ((operation_state OperationKind.job id db').0 ≡ ok OperationState.released)
      × (count_where reserved db'.queue ≡ count_where reserved db.queue)
unfolding request_job_cancellation get_job operation_state ◌>>=◌ update_queue update_jobs
cancel_waiting_job id now db row r v f q g w one =
    let only = only-key OperationKind.job id db.queue row v.unique f in
    ground (
      arith,
      v.one_reserved,
      count-key-none OperationKind.job id (λ s. is_executing s.state) db.queue row only,
      count-key-test OperationKind.job id (λ s. is_queued s.state) db.queue row only,
      count-key OperationKind.job id db.queue row v.unique f,
      find_where-update_where (has_id id) (λ s. has_id id s && not (is_terminal s.status))
          (cancel_row now false) db.jobs r (All-every _ db.jobs (λ s k. ground arith)) g,
      find_where-update_where (has_key OperationKind.job id)
          (λ s. has_key OperationKind.job id s && is_queued s.state) (release now) db.queue row
          (All-every _ db.queue (λ s k. refl)) f,
      count_where-update_where_same reserved
          (λ s. has_key OperationKind.job id s && is_queued s.state) (release now) db.queue
          (All-every _ db.queue (λ s k. ground arith)),
      find_where-test (has_id id) db.jobs r g,
      find_where-test (has_key OperationKind.job id) db.queue row f,
    )
