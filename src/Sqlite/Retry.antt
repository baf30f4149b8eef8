-- ===== src/Sqlite/Retry.antt =====
-- A cleanup that fails in internal/control/sqlite/store.go: RecordOperationCleanupFailure after
-- ClaimOperationCleanup.
use autback.Prelude.{
  ℕ, String, Bool, ◌&&◌, some, ◌≡◌, refl, arith, All-every, count_where, find_where, update_where,
  find_where-update_where, count_where-update_where_same,
}
use autback.Control.{OperationKind, OperationState, is_tearing_down, is_cleaning}
use autback.Sqlite.Tables.{Database, QueueRow, ok, has_key, reserved, update_queue, ◌>>=◌}
use autback.Sqlite.Queue.{oldest}
use autback.Sqlite.Cleanup.{
  claim_row, claimed, claim_operation_cleanup, record_operation_cleanup_failure, fail_cleanup_row,
}
use autback.Sqlite.Evolution.{Inv}
use autback.Sqlite.Methods.{Sound-claim_operation_cleanup}
use autback.Sqlite.Oldest.{oldest-test, find-oldest, has_key_refl}
use autback.Sqlite.Keys.{count-key, only-key, count-key-test}
use autback.Sqlite.Teardown.{ending, claimed_queue, claim_lem, reserved_while_claimed}

module _ (kind : OperationKind) (id : String) (now : ℕ) (m : String) (db : Database)
    (s : QueueRow) where
  abbrev failing : QueueRow → Bool
  failing r = has_key kind id r && is_cleaning r.state

  failure_recorded :
      Inv db
      → find_where (has_key kind id) db.queue ≡ some s
      → s.state ≡ OperationState.cleaning
      → record_operation_cleanup_failure kind id now m db
        ≡ (ok tt, record db { queue = update_where failing (fail_cleanup_row now m) db.queue })
  unfolding record_operation_cleanup_failure ◌>>=◌ update_queue
  failure_recorded v f q = ground (
    arith,
    v.one_reserved,
    count_where-update_where_same reserved failing (fail_cleanup_row now m) db.queue
        (All-every _ db.queue (λ r k. refl)),
    count-key-test kind id (λ r. is_cleaning r.state) db.queue s
        (only-key kind id db.queue s v.unique f) (ground arith),
    count-key kind id db.queue s v.unique f,
  )

module _ (now now' : ℕ) (m : String) (db : Database) (r : QueueRow) where
  -- When an operation tears down, ClaimOperationCleanup of it followed by
  -- RecordOperationCleanupFailure succeeds and leaves its row in the state of a cleanup, with one more
  -- attempt and the message, and the worker still held.
  pub failed_cleanup_keeps_worker :
      Inv db
      → oldest (λ s. is_tearing_down s.state) db.queue ≡ some r
      → let (x, db1) = claim_operation_cleanup now db in
        let (y, db2) = record_operation_cleanup_failure r.kind r.operation_id now' m db1 in
        (x ≡ ok (some (claimed now r)))
        × (y ≡ ok tt)
        × (find_where (has_key r.kind r.operation_id) db2.queue
            ≡ some (fail_cleanup_row now' m (claim_row now r)))
        × (count_where reserved db2.queue ≡ count_where reserved db.queue)
  failed_cleanup_keeps_worker v h =
      rw (claims, failure_recorded r.kind r.operation_id now' m db1 (claim_row now r) v1 found refl)
        (
          refl,
          refl,
          ground (
            arith,
            found,
            find_where-update_where (has_key r.kind r.operation_id)
                (failing r.kind r.operation_id now' m db1 r) (fail_cleanup_row now' m) db1.queue
                (claim_row now r) (All-every _ db1.queue (λ s k. refl)),
            has_key_refl r,
          ),
          ground (
            arith,
            count_where-update_where_same reserved (failing r.kind r.operation_id now' m db1 r)
                (fail_cleanup_row now' m) db1.queue (All-every _ db1.queue (λ s k. refl)),
            reserved_while_claimed now now' db r,
          ),
        )
    where
      db1 : Database
      db1 = record db { queue = claimed_queue now now' db r }

      claims : claim_operation_cleanup now db ≡ (ok (some (claimed now r)), db1)
      claims = claim_lem now now' db r v h

      v1 : Inv db1
      v1 = ground (arith, claims, ((Sound-claim_operation_cleanup now).at db v).0)

      found : find_where (has_key r.kind r.operation_id) db1.queue ≡ some (claim_row now r)
      found = ground (
        arith,
        find_where-update_where (has_key r.kind r.operation_id) (ending now now' db r)
            (claim_row now) db.queue r (All-every _ db.queue (λ s k. refl)),
        find-oldest (λ s. is_tearing_down s.state) db.queue r v.unique h,
        oldest-test (λ s. is_tearing_down s.state) db.queue r h,
        has_key_refl r,
      )
