-- ===== src/Sqlite/Admission.antt =====
-- AcquireNextOperation of internal/control/sqlite/store.go: strict FIFO over one worker.
use autback.Prelude.{
  ℕ, ◌≤◌, ◌≡◌, refl, false, ◌&&◌, Option, some, none, arith, All, count_where, update_where, ◌==◌,
  if◌then◌else◌, count_where-update_where_le, All-map, Bool-cases, ◌⊎◌,
}
use autback.Control.{Operation, is_queued}
use autback.Sqlite.Tables.{Database, QueueRow, Result, ok, has_key, reserved, update_queue, ◌>>=◌}
use autback.Sqlite.Queue.{oldest, admitted, admit_row, admit_oldest, acquire_next_operation}
use autback.Sqlite.Evolution.{Inv}
use autback.Sqlite.Oldest.{oldest-count, oldest-least}

-- What AcquireNextOperation promises: nothing while the worker is held, and otherwise the head of
-- the queue, of which nothing but the state and the lease changes.
abbrev pub admit_spec : ℕ → Database → Option QueueRow → Result (Option Operation) × Database
admit_spec now db none = (ok none, db)
admit_spec now db (some r) = (
  ok (some (admitted now r)),
  record db {
    queue =
        update_where (λ s. has_key r.kind r.operation_id s && is_queued s.state) (admit_row now)
          db.queue;
  },
)

abbrev pub acquire_spec : ℕ → Database → Result (Option Operation) × Database
acquire_spec now db =
    if count_where reserved db.queue == 0
    then admit_spec now db (oldest (λ r. is_queued r.state) db.queue)
    else (ok none, db)

admit_oldest_lem :
    (now : ℕ) (db : Database) (r : Option QueueRow)
    → Inv db
    → count_where reserved db.queue ≡ 0
    → oldest (λ s. is_queued s.state) db.queue ≡ r
    → admit_oldest now r db ≡ admit_spec now db r
unfolding ◌>>=◌ update_queue
admit_oldest_lem now db none v idle e = refl
admit_oldest_lem now db (some r) v idle e =
    let one = oldest-count (λ s. is_queued s.state) db.queue r v.unique e in
    ground (
      arith,
      one,
      count_where-update_where_le reserved
          (λ s. has_key r.kind r.operation_id s && is_queued s.state) (admit_row now) db.queue,
    )

-- In a database that satisfies the invariant, AcquireNextOperation does what its specification
-- says: nothing while the worker is held, and otherwise the admission of the queued operation with
-- the least sequence. Neither of its error paths is taken, and the index on the reservation never
-- refuses it.
pub acquire_meets_spec :
    (now : ℕ) (db : Database) → Inv db → acquire_next_operation now db ≡ acquire_spec now db
unfolding acquire_next_operation ◌>>=◌
acquire_meets_spec now db v =
    ground (arith, admit_oldest_lem now db (oldest (λ s. is_queued s.state) db.queue) v, here)
  where
    here : oldest (λ s. is_queued s.state) db.queue ≡ oldest (λ s. is_queued s.state) db.queue
    here = refl

-- In a database that satisfies the invariant, an operation that AcquireNextOperation returns is
-- the queued row with the least sequence, and the worker was idle.
pub admission_is_fifo :
    (now : ℕ) (db : Database) (op : Operation)
    → Inv db
    → (acquire_next_operation now db).0 ≡ ok (some op)
    → (count_where reserved db.queue ≡ 0)
      × ((r : QueueRow) × (op ≡ admitted now r)
          × (oldest (λ s. is_queued s.state) db.queue ≡ some r)
          × All (λ s. (is_queued s.state ≡ false) ⊎ (r.sequence ≤ s.sequence)) db.queue)
admission_is_fifo now db op v h = found (oldest (λ s. is_queued s.state) db.queue) refl
  where
    found :
        (r : Option QueueRow)
        → oldest (λ s. is_queued s.state) db.queue ≡ r
        → (count_where reserved db.queue ≡ 0)
          × ((r : QueueRow) × (op ≡ admitted now r)
              × (oldest (λ s. is_queued s.state) db.queue ≡ some r)
              × All (λ s. (is_queued s.state ≡ false) ⊎ (r.sequence ≤ s.sequence)) db.queue)
    found none e = absurd (ground (arith, acquire_meets_spec now db v))
    found (some r) e = (
      ground (arith, acquire_meets_spec now db v),
      (
        r,
        ground (arith, acquire_meets_spec now db v),
        e,
        All-map _ _ db.queue (λ s h. ground (arith, Bool-cases (is_queued s.state)))
            (oldest-least (λ s. is_queued s.state) db.queue r e),
      ),
    )
