-- ===== src/Sqlite/Evolution.antt =====
-- What a call may do to the rows of the operation tables: the vocabulary of the store's theorems.
use autback.Prelude.{
  ℕ, ◌≤◌, ◌<◌, ◌≡◌, ◌⊎◌, true, false, List, [], ◌∷◌, arith, All, Grows, Grows-refl, Grows-trans,
  count_where,
}
use autback.Protocol.{is_terminal}
use autback.Control.{OperationState}
use autback.Sqlite.Tables.{QueueRow, JobRow, BuildRow, Database, has_key, reserved}
use autback.Sqlite.Builds.{is_open}

-- How far an operation is. Queued and admitting are one phase, since an admission may be undone.
abbrev pub phase : OperationState → ℕ
phase OperationState.queued = 0
phase OperationState.admitting = 0
phase OperationState.active = 1
phase OperationState.terminalizing = 2
phase OperationState.cleaning = 3
phase OperationState.released = 4

-- A queue row keeps its identity and its place in the queue, and its phase never falls.
pub record RowEvolves (r s : QueueRow) : Type 0 where
  pub kind : s.kind ≡ r.kind
  pub operation_id : s.operation_id ≡ r.operation_id
  pub sequence : s.sequence ≡ r.sequence
  pub accepted_at : s.accepted_at ≡ r.accepted_at
  pub phase_le : phase r.state ≤ phase s.state
  pub attempts_le : r.cleanup_attempts ≤ s.cleanup_attempts

-- A job keeps its identity, and a job that has ended keeps its whole row.
pub record JobEvolves (r s : JobRow) : Type 0 where
  pub id : s.id ≡ r.id
  pub project_id : s.project_id ≡ r.project_id
  pub idempotency_key : s.idempotency_key ≡ r.idempotency_key
  pub request_hash : s.request_hash ≡ r.request_hash
  pub ended : (is_terminal r.status ≡ false) ⊎ (s ≡ r)

pub record BuildEvolves (r s : BuildRow) : Type 0 where
  pub id : s.id ≡ r.id
  pub project_id : s.project_id ≡ r.project_id
  pub idempotency_key : s.idempotency_key ≡ r.idempotency_key
  pub request_hash : s.request_hash ≡ r.request_hash
  pub ended : (is_open r.status ≡ true) ⊎ (s ≡ r)

pub RowEvolves-refl : (r : QueueRow) → RowEvolves r r
RowEvolves-refl r = ground arith

pub RowEvolves-trans : (r s t : QueueRow) → RowEvolves r s → RowEvolves s t → RowEvolves r t
RowEvolves-trans r s t h k = ground arith

pub JobEvolves-refl : (r : JobRow) → JobEvolves r r
JobEvolves-refl r = ground arith

pub JobEvolves-trans : (r s t : JobRow) → JobEvolves r s → JobEvolves s t → JobEvolves r t
JobEvolves-trans r s t h k = ground (arith, h.ended, k.ended)

pub BuildEvolves-refl : (r : BuildRow) → BuildEvolves r r
BuildEvolves-refl r = ground arith

pub BuildEvolves-trans : (r s t : BuildRow) → BuildEvolves r s → BuildEvolves s t → BuildEvolves r t
BuildEvolves-trans r s t h k = ground (arith, h.ended, k.ended)

pub record Evolves (db db' : Database) : Type 0 where
  pub queue : Grows RowEvolves db.queue db'.queue
  pub jobs : Grows JobEvolves db.jobs db'.jobs
  pub builds : Grows BuildEvolves db.builds db'.builds

pub Evolves-refl : (db : Database) → Evolves db db
Evolves-refl db = record {
  queue = Grows-refl RowEvolves RowEvolves-refl db.queue;
  jobs = Grows-refl JobEvolves JobEvolves-refl db.jobs;
  builds = Grows-refl BuildEvolves BuildEvolves-refl db.builds;
}

pub Evolves-trans : (a b c : Database) → Evolves a b → Evolves b c → Evolves a c
Evolves-trans a b c h k = record {
  queue = Grows-trans RowEvolves RowEvolves-trans h.queue k.queue;
  jobs = Grows-trans JobEvolves JobEvolves-trans h.jobs k.jobs;
  builds = Grows-trans BuildEvolves BuildEvolves-trans h.builds k.builds;
}

-- No two rows have one key.
abbrev pub Unique : List QueueRow → Type 0
Unique [] = Unit {0}
Unique (r ∷ rs) = (count_where (has_key r.kind r.operation_id) rs ≡ 0) × Unique rs

-- What holds of the tables between two calls.
pub record Inv (db : Database) : Type 0 where
  pub unique : Unique db.queue
  pub fresh : All (λ (r : QueueRow). r.sequence < db.next_sequence) db.queue
  pub one_reserved : count_where reserved db.queue ≤ 1

-- What every call does.
abbrev pub Advances : Database → Database → Type 0
Advances db db' = Inv db → Inv db' × Evolves db db'

pub Advances-refl : (db : Database) → Advances db db
Advances-refl db v = (v, Evolves-refl db)

pub Advances-trans : (a b c : Database) → Advances a b → Advances b c → Advances a c
Advances-trans a b c h k v = ((k (h v).0).0, Evolves-trans a b c (h v).1 (k (h v).0).1)
