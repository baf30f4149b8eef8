-- ===== src/Sqlite/Synced.antt =====
-- The end of a job that the runtime reports: SyncJob with a terminal status and then
-- BeginOperationCleanup of internal/control/sqlite/store.go.
use autback.Prelude.{
  ℕ, String, Bool, true, false, not, ◌&&◌, some, ◌≡◌, refl, arith, All-every, All-map,
  update_where-none, count_where, find_where, update_where, find_where-update_where,
  find_where-test, count_where-update_where_same,
}
use autback.Protocol.{RemoteJob, is_terminal}
use autback.Control.{OperationKind, OperationState, is_executing, is_unfinished}
use autback.Sqlite.Tables.{
  Database, QueueRow, JobRow, ok, has_key, reserved, update_queue, update_jobs, ◌>>=◌,
}
use autback.Sqlite.Jobs.{has_id, get_job, sync_job, sync_row, terminalize}
use autback.Sqlite.Queue.{operation_state}
use autback.Sqlite.Cleanup.{begin_operation_cleanup}
use autback.Sqlite.Evolution.{Inv}
use autback.Sqlite.Keys.{only-key, count-key-none}
use autback.Sqlite.Methods.{Sound-sync_job}

module _ (id : String) (now : ℕ) (remote : RemoteJob) (db : Database) (s : QueueRow)
    (r : JobRow) where
  abbrev ending : QueueRow → Bool
  ending q = has_key OperationKind.job id q && is_executing q.state

  abbrev unfinished : QueueRow → Bool
  unfinished q = has_key OperationKind.job id q && is_unfinished q.state

  abbrev syncing : JobRow → Bool
  syncing j = has_id id j && not (is_terminal j.status)

  abbrev pub synced_db : Database
  synced_db = record db {
    queue = update_where ending (terminalize now) db.queue;
    jobs = update_where syncing (sync_row remote) db.jobs;
  }

  module _ (v : Inv db) (f : find_where (has_key OperationKind.job id) db.queue ≡ some s)
      (x : is_executing s.state ≡ true) (g : find_where (has_id id) db.jobs ≡ some r)
      (p : is_terminal r.status ≡ false) (t : is_terminal remote.status ≡ true) where
    still_reserved : count_where reserved synced_db.queue ≡ count_where reserved db.queue
    still_reserved = count_where-update_where_same reserved ending (terminalize now) db.queue (
        All-map _ _ db.queue (λ q same k. ground (arith, same))
          (only-key OperationKind.job id db.queue s v.unique f))

    synced_job : find_where (has_id id) synced_db.jobs ≡ some (sync_row remote r)
    synced_job = ground (
      arith,
      find_where-update_where (has_id id) syncing (sync_row remote) db.jobs r
          (All-every _ db.jobs (λ j k. refl)) g,
      find_where-test (has_id id) db.jobs r g,
    )

    synced_row :
        find_where (has_key OperationKind.job id) synced_db.queue ≡ some (terminalize now s)
    synced_row = ground (
      arith,
      find_where-update_where (has_key OperationKind.job id) ending (terminalize now) db.queue s
          (All-every _ db.queue (λ q k. refl)) f,
      find_where-test (has_key OperationKind.job id) db.queue s f,
    )

    -- SyncJob succeeds, and what it returns is the job with what the runtime reports.
    pub syncs : sync_job id now remote db ≡ (ok (sync_row remote r).job, synced_db)
    unfolding sync_job get_job ◌>>=◌ update_queue update_jobs
    syncs = ground (arith, v.one_reserved, still_reserved, synced_job)

    -- The request of the cleanup succeeds after it, and changes nothing more.
    pub begins :
        (now' : ℕ)
        → begin_operation_cleanup OperationKind.job id now' synced_db ≡ (ok tt, synced_db)
    unfolding begin_operation_cleanup operation_state ◌>>=◌ update_queue
    begins now' =
        let v1 : Inv synced_db =
          ground (arith, syncs, ((Sound-sync_job id now remote).at db v).0) in
        let none_left : count_where unfinished synced_db.queue ≡ 0 =
          count-key-none OperationKind.job id (λ q. is_unfinished q.state) synced_db.queue
            (terminalize now s)
            (only-key OperationKind.job id synced_db.queue (terminalize now s) v1.unique synced_row)
            refl in
        ground (
          arith,
          none_left,
          update_where-none unfinished (terminalize now') synced_db.queue none_left,
          synced_row,
          v.one_reserved,
          still_reserved,
        )

    -- What Job and OperationState report then.
    pub reads_synced : (get_job id synced_db).0 ≡ ok (sync_row remote r).job
    unfolding get_job ◌>>=◌
    reads_synced = ground (arith, synced_job)

    pub tears_down :
        (operation_state OperationKind.job id synced_db).0 ≡ ok OperationState.terminalizing
    unfolding operation_state ◌>>=◌
    tears_down = ground (arith, synced_row)
