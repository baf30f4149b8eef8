-- ===== src/Sqlite/Idempotent.antt =====
-- CreatePreparedJob and CreateBuild of internal/control/sqlite/store.go under a repeated key.
use autback.Prelude.{
  ℕ, ◌≡◌, refl, String, Bool, true, false, Option, some, none, List, arith, find_where,
  find_where-append_new, find_where-Grows, eq_iff, str_eq,
}
use autback.Control.{Job, Build, PrepareJob, Idempotency}
use autback.Sqlite.Tables.{
  Database, JobRow, BuildRow, Error, ok, err, job_has_key, build_has_key, insert_job, insert_build,
  insert_queue, ◌>>=◌,
}
use autback.Sqlite.Jobs.{create_prepared_job, prepared_row}
use autback.Sqlite.Builds.{create_build, queued_build}
use autback.Sqlite.History.{Call, run}
use autback.Sqlite.Evolution.{Inv, JobEvolves, BuildEvolves}
use autback.Sqlite.Methods.{Sound-create_prepared_job, Sound-create_build}
use autback.Sqlite.Safety.{run-Inv-Evolves}

-- After a creation that succeeded, the key finds the row of the job that was returned.
created_job :
    (db : Database) (id : String) (now : ℕ) (input : PrepareJob) (key : Idempotency) (j : Job)
    (replayed : Bool) (found : Option JobRow)
    → find_where (job_has_key input.project_id key.key) db.jobs ≡ found
    → (create_prepared_job id now input key db).0 ≡ ok (j, replayed)
    → (r : JobRow) × (find_where
          (job_has_key input.project_id key.key)
          (create_prepared_job id now input key db).1.jobs
        ≡ some r)
      × (r.id ≡ j.id)
      × (r.request_hash ≡ key.request_hash)
unfolding create_prepared_job ◌>>=◌ insert_job insert_queue
created_job db id now input key j replayed none e h = (
  prepared_row id input key now,
  ground (
    arith,
    find_where-append_new (job_has_key input.project_id key.key) db.jobs
        (prepared_row id input key now),
    eq_iff input.project_id input.project_id,
    eq_iff key.key key.key,
  ),
  ground arith,
  ground arith,
)
created_job db id now input key j replayed (some r) e h =
    (r, ground arith, ground arith, ground (arith, eq_iff r.request_hash key.request_hash))

repeated_create_prepared_job :
    (db : Database) (id id' : String) (now now' : ℕ) (input : PrepareJob) (key : Idempotency)
    (other : String) (j : Job) (replayed : Bool) (cs : List Call)
    → Inv db
    → (create_prepared_job id now input key db).0 ≡ ok (j, replayed)
    → let db' = run (create_prepared_job id now input key db).1 cs in
      ((j' : Job) × (create_prepared_job id' now' input key db' ≡ (ok (j', true), db'))
        × (j'.id ≡ j.id))
      × (str_eq key.request_hash other ≡ false
          → create_prepared_job id' now' input (record key { request_hash = other }) db'
            ≡ (err Error.idempotency_conflict, db'))
unfolding create_prepared_job ◌>>=◌
repeated_create_prepared_job db id id' now now' input key other j replayed cs v h =
    let v' = ((Sound-create_prepared_job id now input key).at db v).0 in
    let (r, found, same_id, same_hash) =
      created_job db id now input key j replayed
        (find_where (job_has_key input.project_id key.key) db.jobs) refl h in
    let (r', found', e) =
      find_where-Grows JobEvolves (job_has_key input.project_id key.key) (λ a b q. ground arith) r
        (run-Inv-Evolves (create_prepared_job id now input key db).1 cs v').1.jobs found in
    (
      (r'.job, ground (arith, eq_iff r'.request_hash key.request_hash), ground arith),
      λ differs. ground arith,
    )

-- From a database that satisfies the invariant, a creation that succeeded and is repeated with its
-- key and hash, after any other calls, answers with the job that the first request returned, says
-- that it did so, and changes nothing.
pub create_prepared_job_once :
    (db : Database) (id id' : String) (now now' : ℕ) (input : PrepareJob) (key : Idempotency)
    (j : Job) (replayed : Bool) (cs : List Call)
    → Inv db
    → (create_prepared_job id now input key db).0 ≡ ok (j, replayed)
    → let db' = run (create_prepared_job id now input key db).1 cs in
      (j' : Job) × (create_prepared_job id' now' input key db' ≡ (ok (j', true), db'))
      × (j'.id ≡ j.id)
create_prepared_job_once db id id' now now' input key j replayed cs v h =
    (repeated_create_prepared_job db id id' now now' input key "" j replayed cs v h).0

-- From a database that satisfies the invariant, after a creation that succeeded and any other
-- calls, a request with the same key and another hash is a conflict and changes nothing.
pub create_prepared_job_conflict :
    (db : Database) (id id' : String) (now now' : ℕ) (input : PrepareJob) (key : Idempotency)
    (other : String) (j : Job) (replayed : Bool) (cs : List Call)
    → Inv db
    → (create_prepared_job id now input key db).0 ≡ ok (j, replayed)
    → str_eq key.request_hash other ≡ false
    → let db' = run (create_prepared_job id now input key db).1 cs in
      create_prepared_job id' now' input (record key { request_hash = other }) db'
      ≡ (err Error.idempotency_conflict, db')
create_prepared_job_conflict db id id' now now' input key other j replayed cs v h differs =
    (repeated_create_prepared_job db id id' now now' input key other j replayed cs v h).1 differs

created_build :
    (db : Database) (id : String) (now : ℕ) (project : String) (key : Idempotency) (b : Build)
    (replayed : Bool) (found : Option BuildRow)
    → find_where (build_has_key project key.key) db.builds ≡ found
    → (create_build id now project key db).0 ≡ ok (b, replayed)
    → (r : BuildRow) × (find_where
          (build_has_key project key.key)
          (create_build id now project key db).1.builds
        ≡ some r)
      × (r.id ≡ b.id)
      × (r.request_hash ≡ key.request_hash)
unfolding create_build ◌>>=◌ insert_build insert_queue
created_build db id now project key b replayed none e h = (
  new,
  ground (
    arith,
    find_where-append_new (build_has_key project key.key) db.builds new,
    eq_iff project project,
    eq_iff key.key key.key,
  ),
  ground arith,
  ground arith,
)
  where
    new : BuildRow
    new = record {
      build = queued_build id project now;
      idempotency_key = key.key;
      request_hash = key.request_hash;
    }
created_build db id now project key b replayed (some r) e h =
    (r, ground arith, ground arith, ground (arith, eq_iff r.request_hash key.request_hash))

repeated_create_build :
    (db : Database) (id id' : String) (now now' : ℕ) (project : String) (key : Idempotency)
    (other : String) (b : Build) (replayed : Bool) (cs : List Call)
    → Inv db
    → (create_build id now project key db).0 ≡ ok (b, replayed)
    → let db' = run (create_build id now project key db).1 cs in
      ((b' : Build) × (create_build id' now' project key db' ≡ (ok (b', true), db'))
        × (b'.id ≡ b.id))
      × (str_eq key.request_hash other ≡ false
          → create_build id' now' project (record key { request_hash = other }) db'
            ≡ (err Error.idempotency_conflict, db'))
unfolding create_build ◌>>=◌
repeated_create_build db id id' now now' project key other b replayed cs v h =
    let v' = ((Sound-create_build id now project key).at db v).0 in
    let (r, found, same_id, same_hash) =
      created_build db id now project key b replayed
        (find_where (build_has_key project key.key) db.builds) refl h in
    let (r', found', e) =
      find_where-Grows BuildEvolves (build_has_key project key.key) (λ a c q. ground arith) r
        (run-Inv-Evolves (create_build id now project key db).1 cs v').1.builds found in
    (
      (r'.build, ground (arith, eq_iff r'.request_hash key.request_hash), ground arith),
      λ differs. ground arith,
    )

-- From a database that satisfies the invariant, a creation of a build that succeeded and is
-- repeated with its key and hash, after any other calls, answers with the build that the first
-- request returned, says that it did so, and changes nothing.
pub create_build_once :
    (db : Database) (id id' : String) (now now' : ℕ) (project : String) (key : Idempotency)
    (b : Build) (replayed : Bool) (cs : List Call)
    → Inv db
    → (create_build id now project key db).0 ≡ ok (b, replayed)
    → let db' = run (create_build id now project key db).1 cs in
      (b' : Build) × (create_build id' now' project key db' ≡ (ok (b', true), db')) × (b'.id ≡ b.id)
create_build_once db id id' now now' project key b replayed cs v h =
    (repeated_create_build db id id' now now' project key "" b replayed cs v h).0

-- From a database that satisfies the invariant, after a creation of a build that succeeded and any
-- other calls, a request with the same key and another hash is a conflict and changes nothing.
pub create_build_conflict :
    (db : Database) (id id' : String) (now now' : ℕ) (project : String) (key : Idempotency)
    (other : String) (b : Build) (replayed : Bool) (cs : List Call)
    → Inv db
    → (create_build id now project key db).0 ≡ ok (b, replayed)
    → str_eq key.request_hash other ≡ false
    → let db' = run (create_build id now project key db).1 cs in
      create_build id' now' project (record key { request_hash = other }) db'
      ≡ (err Error.idempotency_conflict, db')
create_build_conflict db id id' now now' project key other b replayed cs v h differs =
    (repeated_create_build db id id' now now' project key other b replayed cs v h).1 differs
