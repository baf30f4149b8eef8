-- ===== src/Sqlite/Advances.antt =====
-- Each statement of internal/control/sqlite/store.go keeps the invariant and loses no row, if the
-- rows that it changes evolve. Methods are built from these rules.
use autback.Prelude.{
  ℕ, suc, ◌<◌, ◌≡◌, refl, String, Bool, true, false, Option, List, [], ◌∷◌, ◌++◌, arith, All,
  All-append, All-map, All-every, Grows-append, Grows-update_where, count_where, update_where,
  count_where-append, count_where-update_where_same, if◌then◌else◌, eq_iff,
}
use autback.Control.{OperationKind}
use autback.Sqlite.Tables.{
  Result, ok, err, Error, Exec, pure, raise, select, transaction, check, ◌>>=◌, Database, QueueRow,
  JobRow, BuildRow, has_key, reserved, continue, commit_or_rollback, update_queue, insert_queue,
  update_jobs, update_builds, insert_job, insert_build, new_row,
}
use autback.Sqlite.Evolution.{
  RowEvolves, JobEvolves, BuildEvolves, RowEvolves-refl, JobEvolves-refl, BuildEvolves-refl,
  Evolves-refl, Unique, Advances, Advances-refl, Advances-trans,
}

Advances-continue :
    {A B : Type 0} (f : A → Exec B) (db : Database) (x : Result A × Database)
    → Advances db x.1
    → ((a : A) (db' : Database) → Advances db' (f a db').1)
    → Advances db (continue f x).1
Advances-continue f db (ok a, db') h k = Advances-trans db db' _ h (k a db')
Advances-continue f db (err e, db') h k = h

pub Advances-rollback :
    {A : Type 0} (db : Database) (x : Result A × Database)
    → Advances db x.1
    → Advances db (commit_or_rollback db x).1
Advances-rollback db (ok a, db') h = h
Advances-rollback db (err e, db') h = Advances-refl db

-- An action that advances every database.
pub record Sound {A : Type 0} (m : Exec A) : Type 0 where
  pub at : (db : Database) → Advances db (m db).1

module _ {A : Type 0} where
  pub Sound-pure : (a : A) → Sound (pure a)
  unfolding pure
  Sound-pure a = record { at = Advances-refl }

  pub Sound-raise : (e : Error) → Sound (raise {A = A} e)
  unfolding raise
  Sound-raise e = record { at = Advances-refl }

  pub Sound-select : (f : Database → A) → Sound (select f)
  unfolding select
  Sound-select f = record { at = Advances-refl }

  pub Sound-transaction : (m : Exec A) → Sound m → Sound (transaction m)
  unfolding transaction
  Sound-transaction m h = record { at = λ db. Advances-rollback db (m db) (h.at db) }

  pub Sound-if : (b : Bool) (m n : Exec A) → Sound m → Sound n → Sound (if b then m else n)
  Sound-if true m n h k = h
  Sound-if false m n h k = k

pub Sound-check : (b : Bool) (e : Error) → Sound (check b e)
unfolding check
Sound-check true e = record { at = Advances-refl }
Sound-check false e = record { at = Advances-refl }

pub Sound-bind :
    {A B : Type 0} (m : Exec A) (f : A → Exec B)
    → Sound m
    → ((a : A) → Sound (f a))
    → Sound (m >>= f)
unfolding ◌>>=◌
Sound-bind m f h k = record {
  at = λ db. Advances-continue f db (m db) (h.at db) (λ a db'. (k a).at db');
}

has_key_same :
    (k : OperationKind) (id : String) (r s : QueueRow)
    → RowEvolves r s
    → has_key k id s ≡ has_key k id r
has_key_same k id r s h = ground arith

Unique-update_where :
    (p : QueueRow → Bool) (f : QueueRow → QueueRow) (rows : List QueueRow)
    → All (λ r. p r ≡ true → RowEvolves r (f r)) rows
    → Unique rows
    → Unique (update_where p f rows)
unfolding update_where
Unique-update_where p f [] h u = tt
Unique-update_where p f (r ∷ rs) h u = (head (p r) h.0, Unique-update_where p f rs h.1 u.1)
  where
    tail_same :
        (k : OperationKind) (id : String)
        → count_where (has_key k id) (update_where p f rs) ≡ count_where (has_key k id) rs
    tail_same k id =
        count_where-update_where_same (has_key k id) p f rs
          (All-map _ _ rs (λ s e q. has_key_same k id s (f s) (e q)) h.1)

    head :
        (b : Bool)
        → (b ≡ true → RowEvolves r (f r))
        → let s = if b then f r else r in
          count_where (has_key s.kind s.operation_id) (update_where p f rs) ≡ 0
    head true e = rw ((e refl).kind, (e refl).operation_id, tail_same r.kind r.operation_id) u.0
    head false e = rw (tail_same r.kind r.operation_id) u.0

fresh-update_where :
    (n : ℕ) (p : QueueRow → Bool) (f : QueueRow → QueueRow) (rows : List QueueRow)
    → All (λ r. p r ≡ true → RowEvolves r (f r)) rows
    → All (λ (r : QueueRow). r.sequence < n) rows
    → All (λ (r : QueueRow). r.sequence < n) (update_where p f rows)
unfolding update_where
fresh-update_where n p f [] h u = tt
fresh-update_where n p f (r ∷ rs) h u = (ground (arith, h.0), fresh-update_where n p f rs h.1 u.1)

Advances-if :
    {A : Type 0} (db : Database) (b : Bool) (x y : Result A × Database)
    → (b ≡ true → Advances db x.1)
    → Advances db y.1
    → Advances db (if b then x else y).1
Advances-if db true x y h k = h refl
Advances-if db false x y h k = k

pub Advances-update_queue :
    (p : QueueRow → Bool) (f : QueueRow → QueueRow) (db : Database)
    → All (λ r. p r ≡ true → RowEvolves r (f r)) db.queue
    → Advances db (update_queue p f db).1
unfolding update_queue
Advances-update_queue p f db h =
    Advances-if db _ (ok (count_where p db.queue), db') (err Error.constraint, db)
      (λ fits v. (
        record {
          unique = Unique-update_where p f db.queue h v.unique;
          fresh = fresh-update_where db.next_sequence p f db.queue h v.fresh;
          one_reserved = ground arith;
        },
        record {
          queue = Grows-update_where RowEvolves RowEvolves-refl p f db.queue h;
          jobs = (Evolves-refl db).jobs;
          builds = (Evolves-refl db).builds;
        },
      ))
      (Advances-refl db)
  where
    db' : Database
    db' = record db { queue = update_where p f db.queue }

-- The same where the rows evolve wherever they stand.
pub Sound-update_queue :
    (p : QueueRow → Bool) (f : QueueRow → QueueRow)
    → ((r : QueueRow) → p r ≡ true → RowEvolves r (f r))
    → Sound (update_queue p f)
Sound-update_queue p f h = record {
  at = λ db. Advances-update_queue p f db (All-every _ db.queue h);
}

pub Sound-update_jobs :
    (p : JobRow → Bool) (f : JobRow → JobRow)
    → ((r : JobRow) → p r ≡ true → JobEvolves r (f r))
    → Sound (update_jobs p f)
unfolding update_jobs
Sound-update_jobs p f h = record {
  at = λ db v. (
    record { unique = v.unique; fresh = v.fresh; one_reserved = v.one_reserved },
    record {
      queue = (Evolves-refl db).queue;
      jobs = Grows-update_where JobEvolves JobEvolves-refl p f db.jobs (All-every _ db.jobs h);
      builds = (Evolves-refl db).builds;
    },
  );
}

pub Sound-update_builds :
    (p : BuildRow → Bool) (f : BuildRow → BuildRow)
    → ((r : BuildRow) → p r ≡ true → BuildEvolves r (f r))
    → Sound (update_builds p f)
unfolding update_builds
Sound-update_builds p f h = record {
  at = λ db v. (
    record { unique = v.unique; fresh = v.fresh; one_reserved = v.one_reserved },
    record {
      queue = (Evolves-refl db).queue;
      jobs = (Evolves-refl db).jobs;
      builds =
          Grows-update_where BuildEvolves BuildEvolves-refl p f db.builds (All-every _ db.builds h);
    },
  );
}

Unique-append :
    (rows : List QueueRow) (s : QueueRow)
    → count_where (has_key s.kind s.operation_id) rows ≡ 0
    → Unique rows
    → Unique (rows ++ s ∷ [])
unfolding count_where
Unique-append [] s n u = (refl, tt)
Unique-append (r ∷ rs) s n u = (
  ground (
    arith,
    count_where-append (has_key r.kind r.operation_id) rs (s ∷ []),
    eq_iff s.operation_id r.operation_id,
    eq_iff r.operation_id s.operation_id,
  ),
  Unique-append rs s (ground arith) u.1,
)

Advances-insert_queue :
    (kind : OperationKind) (id : String) (now : ℕ) (leased : Option ℕ) (db : Database)
    → Advances db (insert_queue kind id now leased db).1
unfolding insert_queue count_where
Advances-insert_queue kind id now leased db =
    Advances-if db _ (ok tt, db') (err Error.constraint, db)
      (λ new v. (
        record {
          unique = Unique-append db.queue row (ground arith) v.unique;
          fresh =
              All-append _ db.queue (row ∷ []) (All-map _ _ db.queue (λ r h. omega arith) v.fresh)
                (omega arith, tt);
          one_reserved = ground (arith, v, count_where-append reserved db.queue (row ∷ []));
        },
        record {
          queue = Grows-append RowEvolves RowEvolves-refl db.queue (row ∷ []);
          jobs = (Evolves-refl db).jobs;
          builds = (Evolves-refl db).builds;
        },
      ))
      (Advances-refl db)
  where
    row : QueueRow
    row = new_row db.next_sequence kind id now leased

    db' : Database
    db' = record db { queue = db.queue ++ row ∷ []; next_sequence = suc db.next_sequence }

Advances-insert_job : (r : JobRow) (db : Database) → Advances db (insert_job r db).1
unfolding insert_job
Advances-insert_job r db =
    Advances-if db _ (ok tt, record db { jobs = db.jobs ++ r ∷ [] }) (err Error.constraint, db)
      (λ new v. (
        record { unique = v.unique; fresh = v.fresh; one_reserved = v.one_reserved },
        record {
          queue = (Evolves-refl db).queue;
          jobs = Grows-append JobEvolves JobEvolves-refl db.jobs (r ∷ []);
          builds = (Evolves-refl db).builds;
        },
      ))
      (Advances-refl db)

Advances-insert_build : (r : BuildRow) (db : Database) → Advances db (insert_build r db).1
unfolding insert_build
Advances-insert_build r db =
    Advances-if db _ (ok tt, record db { builds = db.builds ++ r ∷ [] }) (err Error.constraint, db)
      (λ new v. (
        record { unique = v.unique; fresh = v.fresh; one_reserved = v.one_reserved },
        record {
          queue = (Evolves-refl db).queue;
          jobs = (Evolves-refl db).jobs;
          builds = Grows-append BuildEvolves BuildEvolves-refl db.builds (r ∷ []);
        },
      ))
      (Advances-refl db)

pub Sound-insert_queue :
    (kind : OperationKind) (id : String) (now : ℕ) (leased : Option ℕ)
    → Sound (insert_queue kind id now leased)
Sound-insert_queue kind id now leased = record {
  at = λ db. Advances-insert_queue kind id now leased db;
}

pub Sound-insert_job : (r : JobRow) → Sound (insert_job r)
Sound-insert_job r = record { at = λ db. Advances-insert_job r db }

pub Sound-insert_build : (r : BuildRow) → Sound (insert_build r)
Sound-insert_build r = record { at = λ db. Advances-insert_build r db }

pub ruleset actions = (
  Sound-pure, Sound-raise, Sound-select, Sound-transaction, Sound-if, Sound-check, Sound-bind,
  Sound-update_queue, Sound-update_jobs, Sound-update_builds, Sound-insert_queue, Sound-insert_job,
  Sound-insert_build,
)
