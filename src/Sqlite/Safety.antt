-- ===== src/Sqlite/Safety.antt =====
-- What every history of calls of internal/control/sqlite/store.go keeps.
use autback.Prelude.{
  ◌≤◌, ◌≡◌, refl, String, true, Option, some, List, [], ◌∷◌, arith, count_where, find_where,
  find_where-Grows,
}
use autback.Protocol.{is_terminal}
use autback.Control.{OperationKind, OperationState, Job}
use autback.Sqlite.Tables.{Database, QueueRow, JobRow, has_key, reserved, ok, ◌>>=◌}
use autback.Sqlite.Jobs.{get_job, has_id}
use autback.Sqlite.Queue.{operation_state}
use autback.Sqlite.History.{Call, step, run, migrated}
use autback.Sqlite.Evolution.{
  RowEvolves, JobEvolves, Evolves, Evolves-refl, Evolves-trans, Inv, Advances, phase,
}
use autback.Sqlite.Methods
use autback.Sqlite.Emergency.{Sound-emergency_stop_active_operation}

Advances-step : (db : Database) (c : Call) → Advances db (step db c)
unfolding step
Advances-step db (Call.creates_job id now input key) =
    (Methods.Sound-create_prepared_job id now input key).at db
Advances-step db (Call.queues_job id digest) = (Methods.Sound-queue_job id digest).at db
Advances-step db (Call.syncs_job id now remote) = (Methods.Sound-sync_job id now remote).at db
Advances-step db (Call.cancels_job id now) = (Methods.Sound-request_job_cancellation id now).at db
Advances-step db (Call.fails_job id now message) = (Methods.Sound-fail_job id now message).at db
Advances-step db (Call.creates_build id now project key) =
    (Methods.Sound-create_build id now project key).at db
Advances-step db (Call.finishes_build id now status code) =
    (Methods.Sound-finish_build id now status code).at db
Advances-step db (Call.acquires now) = (Methods.Sound-acquire_next_operation now).at db
Advances-step db (Call.requeues kind id) = (Methods.Sound-requeue_admitting_operation kind id).at db
Advances-step db (Call.activates kind id) = (Methods.Sound-activate_operation kind id).at db
Advances-step db (Call.renews kind id now) = (Methods.Sound-renew_operation_lease kind id now).at db
Advances-step db (Call.begins_cleanup kind id now) =
    (Methods.Sound-begin_operation_cleanup kind id now).at db
Advances-step db (Call.claims_cleanup now) = (Methods.Sound-claim_operation_cleanup now).at db
Advances-step db (Call.records_failure kind id now message) =
    (Methods.Sound-record_operation_cleanup_failure kind id now message).at db
Advances-step db (Call.completes_cleanup kind id now) =
    (Methods.Sound-complete_operation_cleanup kind id now).at db
Advances-step db (Call.stops now message) =
    (Sound-emergency_stop_active_operation now message).at db
Advances-step db (Call.cancels_queued kind id now) =
    (Methods.Sound-cancel_queued_operation kind id now).at db

pub migrated-Inv : (projects : List String) → Inv (migrated projects)
unfolding migrated count_where
migrated-Inv projects = record { unique = tt; fresh = tt; one_reserved = omega arith }

-- From a database that satisfies the invariant, any list of calls leads to one that satisfies it,
-- and on the way no row of the queue, of the jobs or of the builds is lost: each queue row keeps its
-- key, sequence and acceptance time and its phase never falls, and each row of a job or of a build
-- keeps its identity, and does not change at all once the job or the build has ended.
pub run-Inv-Evolves :
    (db : Database) (cs : List Call) → Inv db → Inv (run db cs) × Evolves db (run db cs)
unfolding run
run-Inv-Evolves db [] v = (v, Evolves-refl db)
run-Inv-Evolves db (c ∷ cs) v =
    let (v', e) = Advances-step db c v in
    let (w, f) = run-Inv-Evolves (step db c) cs v' in
    (w, Evolves-trans db (step db c) (run (step db c) cs) e f)

-- From fresh tables, after any calls at all, at most one operation holds the worker: the others
-- are queued or released.
pub one_reserved_after :
    (projects : List String) (cs : List Call)
    → count_where reserved (run (migrated projects) cs).queue ≤ 1
one_reserved_after projects cs =
    (run-Inv-Evolves (migrated projects) cs (migrated-Inv projects)).0.one_reserved

-- From a database that satisfies the invariant, the state that OperationState reports has a phase
-- that no later calls lower. So an operation that is released stays released, and one that tears
-- down never executes again.
pub phase_never_falls :
    (db : Database) (cs : List Call) (kind : OperationKind) (id : String) (s : OperationState)
    → Inv db
    → (operation_state kind id db).0 ≡ ok s
    → (t : OperationState) × ((operation_state kind id (run db cs)).0 ≡ ok t) × (phase s ≤ phase t)
unfolding operation_state ◌>>=◌
phase_never_falls db cs kind id s v h = later (find_where (has_key kind id) db.queue) refl h
  where
    later :
        (r : Option QueueRow)
        → find_where (has_key kind id) db.queue ≡ r
        → (operation_state kind id db).0 ≡ ok s
        → (t : OperationState) × ((operation_state kind id (run db cs)).0 ≡ ok t)
          × (phase s ≤ phase t)
    later Option.none e k = absurd (ground arith)
    later (some r) e k =
        let (r', found, evolved) =
          find_where-Grows RowEvolves (has_key kind id) (λ a b q. ground arith) r
            (run-Inv-Evolves db cs v).1.queue e in
        (r'.state, ground arith, ground arith)

-- From a database that satisfies the invariant, once a job has ended, with whatever result, all
-- later calls leave what Job reports as it was.
pub terminal_job_is_final :
    (db : Database) (cs : List Call) (id : String) (j : Job)
    → Inv db
    → (get_job id db).0 ≡ ok j
    → is_terminal j.status ≡ true
    → (get_job id (run db cs)).0 ≡ ok j
unfolding get_job ◌>>=◌
terminal_job_is_final db cs id j v h t = later (find_where (has_id id) db.jobs) refl
  where
    later :
        (r : Option JobRow) → find_where (has_id id) db.jobs ≡ r → (get_job id (run db cs)).0 ≡ ok j
    later Option.none e = absurd (ground arith)
    later (some r) e =
        let (r', found, evolved) =
          find_where-Grows JobEvolves (has_id id) (λ a b q. ground arith) r
            (run-Inv-Evolves db cs v).1.jobs e in
        ground (arith, evolved.ended)
