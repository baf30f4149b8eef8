-- ===== src/Sqlite/Tables.antt =====
-- The tables of internal/control/sqlite/store.go that hold operations, their constraints, and
-- statements and transactions on them.
use autback.Prelude.{
  ℕ, suc, String, Bool, true, false, ◌&&◌, ◌||◌, not, Option, List, [], ◌∷◌, ◌++◌, leb, ◌==◌,
  str_eq, if◌then◌else◌, update_where, count_where,
}
use autback.Control.{Job, Build, OperationKind, OperationState, kind_eq, is_reserved}

pub data Error : Type 0 where
  not_found idempotency_conflict constraint concurrently_admitted concurrently_claimed : Error
  cannot_begin_cleanup cannot_complete_cleanup queued_build_missing : Error
  emergency_job_missing emergency_build_missing status_not_terminal : Error

pub data Result {ℓ} (A : Type ℓ) : Type ℓ where
  ok : A → Result A
  err : Error → Result A

-- control_queue
pub record QueueRow : Type 0 where
  pub sequence : ℕ
  pub kind : OperationKind
  pub operation_id : String
  pub state : OperationState
  pub accepted_at : ℕ
  pub leased_at : Option ℕ
  pub cleanup_attempts : ℕ
  pub cleanup_error : String
  pub cleanup_updated_at : ℕ

-- control_jobs: the columns of a job with those that make its creation idempotent.
pub record JobRow : Type 0 where
  pub job : Job
  pub open job use *
  pub idempotency_key : String
  pub request_hash : String

-- control_builds
pub record BuildRow : Type 0 where
  pub build : Build
  pub open build use *
  pub idempotency_key : String
  pub request_hash : String

pub record Database : Type 0 where
  pub projects : List String  -- the ids of the table `projects`
  pub queue : List QueueRow
  pub next_sequence : ℕ  -- AUTOINCREMENT
  pub jobs : List JobRow
  pub builds : List BuildRow

-- A statement or a method: its result, and the database after it.
abbrev pub Exec : Type 0 → Type 0
Exec A = Database → Result A × Database

module _ {A : Type 0} where
  unfoldable pub pure : A → Exec A
  pure a db = (ok a, db)

  unfoldable pub raise : Error → Exec A
  raise e db = (err e, db)

  -- A query: it reads the tables and changes nothing.
  unfoldable pub select : (Database → A) → Exec A
  select f db = (ok (f db), db)

  -- An error rolls back to the database at the begin.
  abbrev pub commit_or_rollback : Database → Result A × Database → Result A × Database
  commit_or_rollback begin (ok a, db) = (ok a, db)
  commit_or_rollback begin (err e, db) = (err e, begin)

  unfoldable pub transaction : Exec A → Exec A
  transaction m db = commit_or_rollback db (m db)

unfoldable pub check : Bool → Error → Exec Unit
check true e db = (ok tt, db)
check false e db = (err e, db)

abbrev pub continue : {A B : Type 0} → (A → Exec B) → Result A × Database → Result B × Database
continue f (ok a, db) = f a db
continue f (err e, db) = (err e, db)

infixl 5 ◌>>=◌ ◌>>◌
-- Opening this opens the other actions too.
unfoldable pub ◌>>=◌ : {A B : Type 0} → Exec A → (A → Exec B) → Exec B
unfolding pure raise select transaction check
◌>>=◌ m f db = continue f (m db)

abbrev pub ◌>>◌ : {A B : Type 0} → Exec A → Exec B → Exec B
m >> k = m >>= λ _. k

-- WHERE kind=? AND operation_id=?
abbrev pub has_key : OperationKind → String → QueueRow → Bool
has_key kind id r = kind_eq r.kind kind && str_eq r.operation_id id

abbrev pub reserved : QueueRow → Bool
reserved r = is_reserved r.state

-- UPDATE control_queue. The partial unique index control_queue_one_reserved_idx refuses a second
-- row that holds the worker.
unfoldable pub update_queue : (QueueRow → Bool) → (QueueRow → QueueRow) → Exec ℕ
update_queue p f db =
    let rows = update_where p f db.queue in
    if leb (count_where reserved rows) 1
    then (ok (count_where p db.queue), record db { queue = rows })
    else (err constraint, db)

abbrev pub new_row : ℕ → OperationKind → String → ℕ → Option ℕ → QueueRow
new_row sequence kind id now leased = record {
  sequence = sequence;
  kind = kind;
  operation_id = id;
  state = OperationState.queued;
  accepted_at = now;
  leased_at = leased;
  cleanup_attempts = 0;
  cleanup_error = "";
  cleanup_updated_at = 0;
}

-- INSERT INTO control_queue, with UNIQUE(kind, operation_id).
unfoldable pub insert_queue : OperationKind → String → ℕ → Option ℕ → Exec Unit
insert_queue kind id now leased db =
    if count_where (has_key kind id) db.queue == 0
    then (
      ok tt,
      record db {
        queue = db.queue ++ new_row db.next_sequence kind id now leased ∷ [];
        next_sequence = suc db.next_sequence;
      },
    )
    else (err constraint, db)

unfoldable pub update_jobs : (JobRow → Bool) → (JobRow → JobRow) → Exec ℕ
update_jobs p f db = (ok (count_where p db.jobs), record db { jobs = update_where p f db.jobs })

unfoldable pub update_builds : (BuildRow → Bool) → (BuildRow → BuildRow) → Exec ℕ
update_builds p f db =
    (ok (count_where p db.builds), record db { builds = update_where p f db.builds })

abbrev pub job_has_key : String → String → JobRow → Bool
job_has_key project key r = str_eq r.project_id project && str_eq r.idempotency_key key

abbrev pub build_has_key : String → String → BuildRow → Bool
build_has_key project key r = str_eq r.project_id project && str_eq r.idempotency_key key

abbrev pub is_project : Database → String → Bool
is_project db id = not (count_where (λ p. str_eq p id) db.projects == 0)

-- INSERT INTO control_jobs: the project exists, the id is new, and so is a key that is not empty.
unfoldable pub insert_job : JobRow → Exec Unit
insert_job r db =
    if is_project db r.project_id
      && count_where (λ (s : JobRow). str_eq s.id r.id) db.jobs == 0
      && (str_eq r.idempotency_key ""
          || count_where (job_has_key r.project_id r.idempotency_key) db.jobs == 0)
    then (ok tt, record db { jobs = db.jobs ++ r ∷ [] })
    else (err constraint, db)

unfoldable pub insert_build : BuildRow → Exec Unit
insert_build r db =
    if is_project db r.project_id
      && count_where (λ (s : BuildRow). str_eq s.id r.id) db.builds == 0
      && (str_eq r.idempotency_key ""
          || count_where (build_has_key r.project_id r.idempotency_key) db.builds == 0)
    then (ok tt, record db { builds = db.builds ++ r ∷ [] })
    else (err constraint, db)
