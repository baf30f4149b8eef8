-- ===== src/Reconciler/Lost.antt =====
-- What internal/control/reconciler/reconciler.go does with a scheduled job that has no service.
use autback.Prelude.{ℕ, ◌≡◌, refl, String, true, false, none, some, List, find_where, pos}
use autback.Protocol.{Status, is_terminal}
use autback.Control.{OperationKind, OperationState, is_executing}
use autback.Sqlite.Tables.{Database, QueueRow, JobRow, ok, has_key, ◌>>=◌}
use autback.Sqlite.Jobs.{has_id, get_job}
use autback.Sqlite.Queue.{get_operation, operation_of, operation_state}
use autback.Sqlite.Evolution.{Inv}
use autback.Sqlite.Synced.{synced_db, syncs, begins, reads_synced, tears_down}
use autback.Reconciler.Model.{RuntimeJob, Host, Progress, is_poisoned, lost_job}
use autback.Reconciler.Jobs.{in_grace, sync_with, reconcile_job}
use autback.Reconciler.Evidence.{Unseen, remote_of-none}

found_operation :
    (id : String) (db : Database) (s : QueueRow)
    → find_where (has_key OperationKind.job id) db.queue ≡ some s
    → get_operation OperationKind.job id db ≡ (ok (operation_of s), db)
unfolding get_operation ◌>>=◌
found_operation id db s f = rw f refl

module _ {W E : Type 0} (h : Host W E) (now : ℕ) (managed : List (RuntimeJob E)) (id : String)
    (st : Progress W E) (s : QueueRow) (r : JobRow) (wake : W → W) (t t' : ℕ) (w1 w2 : W) where
  abbrev lost_db : Database
  lost_db = synced_db id t (lost_job now) st.db s r

  abbrev after_loss : Progress W E
  after_loss = record { faults = st.faults; db = lost_db; world = wake w2 }

  synced_and_released :
      Inv st.db
      → find_where (has_key OperationKind.job id) st.db.queue ≡ some s
      → is_executing s.state ≡ true
      → find_where (has_id id) st.db.jobs ≡ some r
      → is_terminal r.status ≡ false
      → h.dispatcher ≡ some wake
      → h.store_now st.world ≡ (t, w1)
      → h.store_now w1 ≡ (t', w2)
      → sync_with h id (lost_job now) st ≡ after_loss
  synced_and_released v f x g p d a b =
      rw
        (
          a,
          syncs id t (lost_job now) st.db s r v f x g p refl,
          d,
          b,
          begins id t (lost_job now) st.db s r v f x g p refl t',
        )
        refl

  -- From a database that satisfies the invariant, with a dispatcher and where the list of services did
  -- not fail: a job that has not ended, whose operation holds the worker before its teardown and is not
  -- within the grace of an admission, and of which no service is listed, not even one that could not be
  -- inspected, is lost, without an error. Job reports it lost since now with exit code 1, its operation
  -- tears down, and the cleanups are woken.
  pub missing_job_is_lost :
      Inv st.db
      → find_where (has_key OperationKind.job id) st.db.queue ≡ some s
      → is_executing s.state ≡ true
      → find_where (has_id id) st.db.jobs ≡ some r
      → is_terminal r.status ≡ false
      → is_poisoned id managed ≡ false
      → Unseen id managed
      → in_grace h now s.leased_at ≡ false
      → h.dispatcher ≡ some wake
      → h.store_now st.world ≡ (t, w1)
      → h.store_now w1 ≡ (t', w2)
      → let st' = reconcile_job h now false managed id st in
        (st'.faults ≡ st.faults)
        × ((get_job id st'.db).0
            ≡ ok (record r.job {
              status = Status.lost;
              worker_id = "";
              started_at = none;
              finished_at = some now;
              cancel_requested = false;
              exit_code = some (pos 1);
              error_message = "managed Swarm service is missing";
            }))
        × ((operation_state OperationKind.job id st'.db).0 ≡ ok OperationState.terminalizing)
        × (st'.world ≡ wake w2)
  missing_job_is_lost v f x g p np u late d a b =
      rw
        (
          np,
          remote_of-none id managed u,
          found_operation id st.db s f,
          late,
          synced_and_released v f x g p d a b,
        )
        (
          refl,
          reads_synced id t (lost_job now) st.db s r v f x g p refl,
          tears_down id t (lost_job now) st.db s r v f x g p refl,
          refl,
        )
