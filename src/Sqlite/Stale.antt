-- ===== src/Sqlite/Stale.antt =====
-- internal/control/sqlite/store.go: StaleBuilds and StalePreparingJobs.
use autback.Prelude.{
  ℕ, ◌≡◌, refl, subst, Bool, true, ◌&&◌, Option, none, some, List, [], ◌∷◌, ltb, leb, All,
  Bool-cases, inl, inr, find_where, if◌then◌else◌,
}
use autback.Control.{Job, Build, OperationKind, kind_eq, is_waiting, is_unfinished}
use autback.Sqlite.Tables.{Database, QueueRow, JobRow, BuildRow, Exec, Result, select, ok}
use autback.Sqlite.Jobs
use autback.Sqlite.Jobs.{is_preparing}
use autback.Sqlite.Builds
use autback.Sqlite.Builds.{is_open}

-- COALESCE(q.leased_at,q.accepted_at)
abbrev pub waits_since : QueueRow → ℕ
waits_since r = elim r.leased_at [ none ↦ r.accepted_at | some t ↦ t ]

-- ORDER BY, where rows of one time keep their order in the queue, that of their sequence.
unfoldable pub insert_row : QueueRow → List QueueRow → List QueueRow
insert_row r [] = r ∷ []
insert_row r (s ∷ ss) =
    if leb (waits_since r) (waits_since s) then r ∷ s ∷ ss else s ∷ insert_row r ss

unfoldable pub rows_where : (QueueRow → Bool) → List QueueRow → List QueueRow
unfolding insert_row
rows_where p [] = []
rows_where p (r ∷ rs) = let rest = rows_where p rs in if p r then insert_row r rest else rest

-- The rows of the join whose partner passes the test.
abbrev pub join_one : {A B : Type 0} → (A → Bool) → (A → B) → Option A → List B → List B
join_one q f none rest = rest
join_one q f (some a) rest = if q a then f a ∷ rest else rest

unfoldable pub join_rows :
    {A B : Type 0} → (A → Bool) → (A → B) → (QueueRow → Option A) → List QueueRow → List B
join_rows q f look [] = []
join_rows q f look (r ∷ rs) = let rest = join_rows q f look rs in join_one q f (look r) rest

abbrev pub is_stale_job : ℕ → QueueRow → Bool
is_stale_job before r =
    kind_eq r.kind OperationKind.job && is_waiting r.state && ltb (waits_since r) before

abbrev pub is_stale_build : ℕ → QueueRow → Bool
is_stale_build before r =
    kind_eq r.kind OperationKind.build && is_unfinished r.state && ltb (waits_since r) before

abbrev pub job_of : Database → QueueRow → Option JobRow
job_of db r = find_where (Jobs.has_id r.operation_id) db.jobs

abbrev pub build_of : Database → QueueRow → Option BuildRow
build_of db r = find_where (Builds.has_id r.operation_id) db.builds

-- StalePreparingJobs
unfoldable pub stale_preparing_jobs : ℕ → Exec (List Job)
stale_preparing_jobs before = select λ db.
    join_rows (λ (j : JobRow). is_preparing j.status) (λ j. j.job) (job_of db)
      (rows_where (is_stale_job before) db.queue)

-- StaleBuilds
unfoldable pub stale_builds : ℕ → Exec (List Build)
stale_builds before = select λ db.
    join_rows (λ (b : BuildRow). is_open b.status) (λ b. b.build) (build_of db)
      (rows_where (is_stale_build before) db.queue)

ok_inj : {A : Type 0} {x y : A} → ◌≡◌ {A = Result A} (ok x) (ok y) → x ≡ y
ok_inj h = cc

module _ (P : QueueRow → Type 0) where
  insert_row-All : (r : QueueRow) (rs : List QueueRow) → P r → All P rs → All P (insert_row r rs)
  unfolding insert_row
  insert_row-All r [] h v = (h, tt)
  insert_row-All r (s ∷ ss) h (k, v) = elim (Bool-cases (leb (waits_since r) (waits_since s))) [
    | inl e ↦ rw e (h, (k, v))
    | inr e ↦ rw e (k, insert_row-All r ss h v)
  ]

  rows_where-All :
      (p : QueueRow → Bool) (rs : List QueueRow) → All P rs → All (λ r. P r) (rows_where p rs)
  unfolding rows_where
  rows_where-All p [] v = tt
  rows_where-All p (r ∷ rs) (h, v) = elim (Bool-cases (p r)) [
    | inl e ↦ rw e (insert_row-All r (rows_where p rs) h (rows_where-All p rs v))
    | inr e ↦ rw e (rows_where-All p rs v)
  ]

rows_where-test :
    (p : QueueRow → Bool) (rs : List QueueRow) → All (λ r. p r ≡ true) (rows_where p rs)
unfolding rows_where
rows_where-test p [] = tt
rows_where-test p (r ∷ rs) = elim (Bool-cases (p r)) [
  | inl e ↦ rw e (insert_row-All (λ s. p s ≡ true) r (rows_where p rs) e (rows_where-test p rs))
  | inr e ↦ rw e (rows_where-test p rs)
]

-- What is listed comes from a row of the queue that passes the test, and from a partner of it in the
-- join that passes its own.
abbrev pub Listed :
    {A B : Type 0}
    → (QueueRow → Type 0)
    → (QueueRow → Bool)
    → (A → Bool)
    → (A → B)
    → (QueueRow → Option A)
    → B
    → Type 0
Listed {A = A} P p q f look b =
    (r : QueueRow) × P r × (p r ≡ true) × ((a : A) × (look r ≡ some a) × (q a ≡ true) × (b ≡ f a))

module _ {A B : Type 0} (P : QueueRow → Type 0) (p : QueueRow → Bool) (q : A → Bool) (f : A → B)
    (look : QueueRow → Option A) where
  join_one-Listed :
      (r : QueueRow) (x : Option A) (rest : List B)
      → look r ≡ x
      → P r
      → p r ≡ true
      → All (Listed P p q f look) rest
      → All (Listed P p q f look) (join_one q f x rest)
  join_one-Listed r none rest e h t v = v
  join_one-Listed r (some a) rest e h t v = elim (Bool-cases (q a)) [
    | inl k ↦ rw k ((r, h, t, (a, e, k, refl)), v)
    | inr k ↦ rw k v
  ]

  join_rows-Listed :
      (rs : List QueueRow)
      → All P rs
      → All (λ r. p r ≡ true) rs
      → All (Listed P p q f look) (join_rows q f look rs)
  unfolding join_rows
  join_rows-Listed [] h t = tt
  join_rows-Listed (r ∷ rs) (h, hs) (t, ts) =
      join_one-Listed r (look r) (join_rows q f look rs) refl h t (join_rows-Listed rs hs ts)

module _ (P : QueueRow → Type 0) (before : ℕ) (db : Database) where
  -- Each job that StalePreparingJobs lists is preparing and has a row in the queue that is queued or
  -- admitting and has waited since before the given time; of that row holds what holds of all rows.
  pub stale_jobs_are_stale :
      (js : List Job)
      → All P db.queue
      → (stale_preparing_jobs before db).0 ≡ ok js
      → All
          (Listed P
            (is_stale_job before)
            (λ (j : JobRow). is_preparing j.status)
            (λ j. j.job)
            (job_of db))
          js
  unfolding stale_preparing_jobs select
  stale_jobs_are_stale js v h =
      subst
        (All (
          Listed P (is_stale_job before) (λ (j : JobRow). is_preparing j.status) (λ j. j.job)
            (job_of db)))
        (ok_inj h)
        (join_rows-Listed P (is_stale_job before) (λ j. is_preparing j.status) (λ j. j.job)
          (job_of db) (rows_where (is_stale_job before) db.queue)
          (rows_where-All P (is_stale_job before) db.queue v)
          (rows_where-test (is_stale_job before) db.queue))

  -- Each build that StaleBuilds lists is queued or running and has a row in the queue that has not
  -- begun its teardown and has waited since before the given time; of that row holds what holds of all
  -- rows.
  pub stale_builds_are_stale :
      (bs : List Build)
      → All P db.queue
      → (stale_builds before db).0 ≡ ok bs
      → All
          (Listed P
            (is_stale_build before)
            (λ (b : BuildRow). is_open b.status)
            (λ b. b.build)
            (build_of db))
          bs
  unfolding stale_builds select
  stale_builds_are_stale bs v h =
      subst
        (All (
          Listed P (is_stale_build before) (λ (b : BuildRow). is_open b.status) (λ b. b.build)
            (build_of db)))
        (ok_inj h)
        (join_rows-Listed P (is_stale_build before) (λ b. is_open b.status) (λ b. b.build)
          (build_of db) (rows_where (is_stale_build before) db.queue)
          (rows_where-All P (is_stale_build before) db.queue v)
          (rows_where-test (is_stale_build before) db.queue))
