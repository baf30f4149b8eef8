-- ===== src/Dispatcher/Rejections.antt =====
-- A job that the scheduler refuses in a pass of internal/control/dispatcher/dispatcher.go.
use autback.Prelude.{
  ap, ◌⊎◌, inl, inr, Option, some, ℕ, Bool, false, ◌&&◌, none, some, [], ◌∷◌, ◌≡◌, refl, arith,
  All-every, count_where, find_where, update_where, find_where-update_where, pos,
}
use autback.Protocol.{Status}
use autback.Control.{Job, Operation, OperationKind, OperationState, is_queued}
use autback.Sqlite.Tables.{Database, QueueRow, JobRow, ok, has_key, reserved, ◌>>=◌}
use autback.Sqlite.Jobs.{has_id, get_job, is_pending}
use autback.Sqlite.Queue.{oldest, acquire_next_operation, operation_state, admit_row, admitted}
use autback.Sqlite.Evolution.{Inv}
use autback.Sqlite.Methods.{Sound-acquire_next_operation}
use autback.Sqlite.Oldest.{oldest-test, find-oldest, has_key_refl}
use autback.Sqlite.Admission.{acquire_meets_spec}
use autback.Sqlite.Rejected.{rejected_job_ends}
use autback.Dispatcher.{Fault, Host, pass, prepare_by, prepared, launch}

module _ {W E : Type 0} (h : Host W E) (db : Database) (row : QueueRow) (r : JobRow)
    (w w1 w1' w2 w3 w4 : W) (now now' now'' : ℕ) (e : E) where
  abbrev head_key : QueueRow → Bool
  head_key s = has_key row.kind row.operation_id s && is_queued s.state

  abbrev admitting : Database
  admitting = record db { queue = update_where head_key (admit_row now) db.queue }

  module _ (v : Inv db) (idle : count_where reserved db.queue ≡ 0)
      (head : oldest (λ s. is_queued s.state) db.queue ≡ some row) where
    acquires : acquire_next_operation now db ≡ (ok (some (admitted now row)), admitting)
    acquires = ground (arith, acquire_meets_spec now db v, idle, head)

    admitting-Inv : Inv admitting
    admitting-Inv = ground (arith, acquires, ((Sound-acquire_next_operation now).at db v).0)

    admitting_row :
        find_where (has_key row.kind row.operation_id) admitting.queue ≡ some (admit_row now row)
    admitting_row = ground (
      arith,
      find_where-update_where (has_key row.kind row.operation_id) head_key (admit_row now) db.queue
          row (All-every _ db.queue (λ s k. refl)),
      find-oldest (λ s. is_queued s.state) db.queue row v.unique head,
      oldest-test (λ s. is_queued s.state) db.queue row head,
      has_key_refl row,
    )

  -- There is no preparer, or it prepares the operation without an error.
  abbrev pub IsPrepared : Type 0
  IsPrepared =
      ((h.prepare ≡ none) × (w1' ≡ w1))
      ⊎ ((f : Operation → W → Option E × W) × (h.prepare ≡ some f)
          × (f (admitted now row) w1 ≡ (none, w1')))

  launched :
      (job : Option Job) (d : Database)
      → IsPrepared
      → prepare_by h h.prepare (admitted now row) job d w1 ≡ launch h (admitted now row) job d w1'
  launched job d (inl (p, k)) = rw (p, k) refl
  launched job d (inr (f, p, k)) = rw (p) (ap (λ x. prepared h (admitted now row) job d x) k)

  -- In a database that satisfies the invariant, on an idle worker whose oldest queued operation is
  -- a queued job with one row, a pass in which the preparer, if there is one, succeeds and the
  -- scheduler refuses the job, for another reason than the end of the context, returns that error
  -- alone: the job has failed with the error's text, its operation tears down, and the cleanups are
  -- woken.
  pub rejected_job_pass :
      Inv db
      → count_where reserved db.queue ≡ 0
      → oldest (λ s. is_queued s.state) db.queue ≡ some row
      → row.kind ≡ OperationKind.job
      → find_where (has_id row.operation_id) db.jobs ≡ some r
      → r.status ≡ Status.queued
      → count_where (λ (s : JobRow). has_id row.operation_id s && is_pending s.status) db.jobs ≡ 1
      → h.is_draining w ≡ false
      → h.now w ≡ (now, w1)
      → IsPrepared
      → h.create r.job w1' ≡ (some e, w2)
      → h.is_done w2 && h.is_cancellation e ≡ false
      → h.now w2 ≡ (now', w3)
      → h.now w3 ≡ (now'', w4)
      → let (es, db', w') = pass h db w in
        (es ≡ Fault.admit row.operation_id e ∷ [])
        × ((operation_state OperationKind.job row.operation_id db').0
            ≡ ok OperationState.terminalizing)
        × ((get_job row.operation_id db').0
            ≡ ok (record r.job {
              status = Status.failed;
              finished_at = some now';
              exit_code = some (pos 1);
              error_message = h.text e;
            }))
        × (w' ≡ h.advance_cleanups w4)
  unfolding pass get_job ◌>>=◌
  rejected_job_pass v idle head kind found status one on t p refused lives t' t'' =
      let row_found : find_where (has_key OperationKind.job row.operation_id) admitting.queue
          ≡ some (admit_row now row) =
        ground (arith, admitting_row v idle head) in
      let (a, b, c, d, _, _) =
        rejected_job_ends row.operation_id now' (h.text e) admitting (admit_row now row) r
          (admitting-Inv v idle head) row_found refl found (ground (arith)) one now'' in
      ground (
        arith,
        acquires v idle head,
        kind,
        found,
        status,
        on,
        t,
        launched (some r.job) admitting p,
        refused,
        lives,
        t',
        t'',
        a,
        b,
        c,
        d,
      )
