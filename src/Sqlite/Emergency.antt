-- ===== src/Sqlite/Emergency.antt =====
-- EmergencyStopActiveOperation of internal/control/sqlite/store.go changes the queue row by its key
-- alone, so that it moves the row forwards rests on the uniqueness of keys.
use autback.Prelude.{
  ℕ, String, true, ◌≡◌, refl, Option, none, some, arith, All, All-map, subst, sym,
}
use autback.Control.{OperationKind, is_executing}
use autback.Sqlite.Tables.{
  Database, Result, ok, err, QueueRow, has_key, ◌>>=◌, ◌>>◌, pure, continue, update_queue,
  update_jobs, update_builds,
}
use autback.Sqlite.Jobs.{terminalize}
use autback.Sqlite.Queue.{oldest}
use autback.Sqlite.Cleanup.{stop_runtime, stop_oldest, stopped, emergency_stop_active_operation}
use autback.Sqlite.Evolution.{RowEvolves, Inv, Advances, Advances-refl, Advances-trans}
use autback.Sqlite.Advances.{Sound, actions, Advances-update_queue, Advances-rollback}
use autback.Sqlite.Steps.{steps}
use autback.Sqlite.Oldest.{oldest-key, oldest-test}

Sound-stop_runtime :
    (kind : OperationKind) (id : String) (now : ℕ) (message : String)
    → Sound (stop_runtime kind id now message)
Sound-stop_runtime OperationKind.job id now message = search (actions, steps)
Sound-stop_runtime OperationKind.build id now message = search (actions, steps)

pub queue-stop_runtime :
    (kind : OperationKind) (id : String) (now : ℕ) (message : String) (db : Database)
    → (stop_runtime kind id now message db).1.queue ≡ db.queue
unfolding ◌>>=◌ update_jobs update_builds
queue-stop_runtime OperationKind.job id now message db = ground arith
queue-stop_runtime OperationKind.build id now message db = ground arith

terminalize_found :
    (now : ℕ) (db : Database) (r : QueueRow)
    → Inv db
    → oldest (λ s. is_executing s.state) db.queue ≡ some r
    → All (λ s. has_key r.kind r.operation_id s ≡ true → RowEvolves s (terminalize now s)) db.queue
terminalize_found now db r v h =
    All-map _ _ db.queue
      (λ s same k. ground (arith, same k, oldest-test (λ q. is_executing q.state) db.queue r h))
      (oldest-key (λ q. is_executing q.state) db.queue r v.unique h)

finish_stop :
    (now : ℕ) (db : Database) (r : QueueRow) (x : Result Unit × Database)
    → oldest (λ s. is_executing s.state) db.queue ≡ some r
    → Advances db x.1
    → x.1.queue ≡ db.queue
    → Advances db
        (continue
          (λ _.
            update_queue (has_key r.kind r.operation_id) (terminalize now)
            >> pure (some (stopped r)))
          x).1
unfolding ◌>>=◌
finish_stop now db r (err e, db') h a q v = a v
finish_stop now db r (ok u, db') h a q v =
    Advances-trans db db' _ a (after (update_queue _ _ db') changed) v
  where
    changed : Advances db' (update_queue (has_key r.kind r.operation_id) (terminalize now) db').1
    changed =
        Advances-update_queue (has_key r.kind r.operation_id) (terminalize now) db'
          (subst (All _) (sym q) (terminalize_found now db r v h))

    after :
        (y : Result ℕ × Database)
        → Advances db' y.1
        → Advances db' (continue (λ _. pure (some (stopped r))) y).1
    after (ok n, db'') b = b
    after (err e, db'') b = b

Advances-stop_oldest :
    (now : ℕ) (message : String) (db : Database) (r : Option QueueRow)
    → oldest (λ s. is_executing s.state) db.queue ≡ r
    → Advances db (stop_oldest now message r db).1
unfolding ◌>>=◌
Advances-stop_oldest now message db none h = Advances-refl db
Advances-stop_oldest now message db (some r) h =
    finish_stop now db r (stop_runtime r.kind r.operation_id now message db) h
      ((Sound-stop_runtime r.kind r.operation_id now message).at db)
      (queue-stop_runtime r.kind r.operation_id now message db)

pub Sound-emergency_stop_active_operation :
    (now : ℕ) (message : String) → Sound (emergency_stop_active_operation now message)
unfolding emergency_stop_active_operation ◌>>=◌
Sound-emergency_stop_active_operation now message = record {
  at = λ db. Advances-rollback db _ (Advances-stop_oldest now message db _ refl);
}
