-- ===== src/Coordinator/Outcomes.antt =====
-- RunOnce of internal/operation/cleanup/coordinator.go on the store: a pass that cleans frees the
-- worker, and one that fails keeps it.
use autback.Prelude.{ℕ, true, false, ◌&&◌, none, some, [], ◌∷◌, ◌≡◌, arith, count_where, find_where}
use autback.Control.{OperationState, is_tearing_down}
use autback.Sqlite.Tables.{Database, QueueRow, ok, has_key, reserved}
use autback.Sqlite.Queue.{oldest, operation_state}
use autback.Sqlite.Cleanup.{claimed, claim_row, fail_cleanup_row}
use autback.Sqlite.Evolution.{Inv}
use autback.Sqlite.Teardown.{cleanup_frees_worker}
use autback.Sqlite.Retry.{failed_cleanup_keeps_worker}
use autback.Coordinator.{Runtime, Fault, run_once, notify}

module _ {W E : Type 0} (rt : Runtime W E) (db : Database) (w w1 w2 w3 : W) (now now' : ℕ)
    (r : QueueRow) where
  -- In a database that satisfies the invariant, when the row is the oldest that tears down, a pass
  -- whose cleaner succeeds claims it, returns no error, leaves it released and the worker idle,
  -- and reports it as completed.
  pub clean_pass_frees_worker :
      Inv db
      → oldest (λ s. is_tearing_down s.state) db.queue ≡ some r
      → rt.now w ≡ (now, w1)
      → rt.clean (claimed now r) w1 ≡ (none, w2)
      → rt.now w2 ≡ (now', w3)
      → let (pass, es, db', w') = run_once rt db w in
        (pass ≡ true)
        × (es ≡ [])
        × ((operation_state r.kind r.operation_id db').0 ≡ ok OperationState.released)
        × (count_where reserved db'.queue ≡ 0)
        × (w'
            ≡ notify rt rt.on_completed
                (record (claimed now r) { state = OperationState.released; cleanup_error = "" })
                w3)
  unfolding run_once
  clean_pass_frees_worker v h t k t' =
      let (a, b, c, d) = cleanup_frees_worker now now' db r v h in
      ground (arith, a, b, c, d, t, k, t')

  -- In a database that satisfies the invariant, when the row is the oldest that tears down, a pass
  -- whose cleaner fails for another reason than the end of the context returns that error, and the
  -- row stays in its cleanup, with one more attempt and the error's text, and the number of
  -- reservations does not change.
  pub failed_pass_keeps_worker :
      (e : E)
      → Inv db
      → oldest (λ s. is_tearing_down s.state) db.queue ≡ some r
      → rt.now w ≡ (now, w1)
      → rt.clean (claimed now r) w1 ≡ (some e, w2)
      → rt.is_done w2 && rt.is_cancellation e ≡ false
      → rt.now w2 ≡ (now', w3)
      → let (pass, es, db', w') = run_once rt db w in
        (pass ≡ true)
        × (es ≡ Fault.clean r.kind r.operation_id e ∷ [])
        × (find_where (has_key r.kind r.operation_id) db'.queue
            ≡ some (fail_cleanup_row now' (rt.text e) (claim_row now r)))
        × (count_where reserved db'.queue ≡ count_where reserved db.queue)
        × (w' ≡ w3)
  unfolding run_once
  failed_pass_keeps_worker e v h t k on t' =
      let (a, b, c, d) = failed_cleanup_keeps_worker now now' (rt.text e) db r v h in
      ground (arith, a, b, c, d, t, k, on, t')
