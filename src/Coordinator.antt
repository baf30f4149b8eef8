-- ===== src/Coordinator.antt =====
-- internal/operation/cleanup/coordinator.go: one pass of the cleanup coordinator over the store.
use autback.Prelude.{
  ℕ, String, Bool, true, false, ◌&&◌, Option, none, some, List, [], ◌∷◌, if◌then◌else◌,
}
use autback.Control.{Operation, OperationKind, OperationState}
use autback.Sqlite.Tables.{Database, Error, Result, ok, err}
use autback.Sqlite.Cleanup.{
  begin_operation_cleanup, claim_operation_cleanup, record_operation_cleanup_failure,
  complete_operation_cleanup,
}
pub mod Outcomes
pub mod Wakeups
pub mod Chain
pub mod Examples

-- What the coordinator is built with, and what its contexts and its clock answer; the world is W.
pub record Runtime (W E : Type 0) : Type 0 where
  pub now : W → ℕ × W
  pub clean : Operation → W → Option E × W  -- Cleaner.Cleanup
  pub is_done : W → Bool  -- ctx.Err() != nil
  pub is_cancellation : E → Bool  -- errors.Is of Canceled or DeadlineExceeded
  pub text : E → String
  pub on_completed : Option (Operation → W → W)

-- One of the errors that errors.Join joins.
pub data Fault (E : Type 0) : Type 0 where
  store : Error → Fault E
  clean : OperationKind → String → E → Fault E
  complete : OperationKind → String → Error → Fault E
  context : E → Fault E

module _ {W E : Type 0} (rt : Runtime W E) where
  -- Whether a record was claimed, the errors, and the database and the world after it.
  abbrev pub Answer : Type 0
  Answer = Bool × List (Fault E) × Database × W

  abbrev pub notify : Option (Operation → W → W) → Operation → W → W
  notify none op w = w
  notify (some f) op w = f op w

  abbrev pub completed : Operation → Result {0} Unit × Database → W → Answer
  completed op (err e, db) w = (true, complete op.kind op.id e ∷ [], db, w)
  completed op (ok _, db) w = (
    true,
    [],
    db,
    notify rt.on_completed (record op { state = OperationState.released; cleanup_error = "" }) w,
  )

  abbrev pub complete_at : Operation → Database → ℕ × W → Answer
  complete_at op db (now, w) = completed op (complete_operation_cleanup op.kind op.id now db) w

  abbrev pub recorded : Operation → E → Result {0} Unit × Database → W → Answer
  recorded op e (ok _, db) w = (true, clean op.kind op.id e ∷ [], db, w)
  recorded op e (err f, db) w = (true, clean op.kind op.id e ∷ store f ∷ [], db, w)

  abbrev pub record_at : Operation → E → Database → ℕ × W → Answer
  record_at op e db (now, w) =
      recorded op e (record_operation_cleanup_failure op.kind op.id now (rt.text e) db) w

  abbrev pub cleaned : Operation → Database → Option E × W → Answer
  cleaned op db (none, w) = complete_at op db (rt.now w)
  cleaned op db (some e, w) =
      if rt.is_done w && rt.is_cancellation e
      then (true, context e ∷ [], db, w)
      else record_at op e db (rt.now w)

  abbrev pub claimed : Result (Option Operation) × Database → W → Answer
  claimed (err e, db) w = (false, store e ∷ [], db, w)
  claimed (ok none, db) w = (false, [], db, w)
  claimed (ok (some op), db) w = cleaned op db (rt.clean op w)

  abbrev pub claim_at : Database → ℕ × W → Answer
  claim_at db (now, w) = claimed (claim_operation_cleanup now db) w

  -- RunOnce
  unfoldable pub run_once : Database → W → Answer
  run_once db w = claim_at db (rt.now w)

  abbrev pub begun : Result {0} Unit × Database → List (Fault E) × Database
  begun (ok _, db) = ([], db)
  begun (err e, db) = (store e ∷ [], db)

  -- Request, less the wakeup at its end.
  unfoldable pub request : OperationKind → String → Database → ℕ × W → List (Fault E) × Database × W
  request kind id db (now, w) =
      let (es, db') = begun (begin_operation_cleanup kind id now db) in (es, db', w)
