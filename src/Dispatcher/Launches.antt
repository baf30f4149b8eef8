-- ===== src/Dispatcher/Launches.antt =====
-- Which jobs a pass of internal/control/dispatcher/dispatcher.go launches.
use autback.Prelude.{
  ℕ, ◌≡◌, refl, ap, sym, ◌⊎◌, inl, inr, String, Bool, true, false, ◌&&◌, Option, none, some, List,
  [], ◌∷◌, if◌then◌else◌,
}
use autback.Control.{Job, Operation, OperationKind}
use autback.Sqlite.Tables.{Database, Result, ok, err}
use autback.Sqlite.Jobs.{get_job, fail_job, is_preparing}
use autback.Sqlite.Queue.{acquire_next_operation, requeue_admitting_operation, activate_operation}
use autback.Sqlite.Cleanup.{begin_operation_cleanup}
use autback.Dispatcher.{
  Fault, Answer, Host, requested, request_at, failed, fail_at, cancelled, reread, job_activated,
  build_activated, created, launch, with_fault, unprepared, prepared, prepare_by, job_read,
  admitted, acquired, acquire_at, pass,
}

module _ {W E : Type 0} (h : Host W E) where
  -- There is no preparer, or it has just prepared the operation without an error.
  abbrev pub IsPrepared : Operation → W → Type 0
  IsPrepared op w =
      (h.prepare ≡ none)
      ⊎ ((f : Operation → W → Option E × W) × (h.prepare ≡ some f)
          × ((u : W) × (f op u ≡ (none, w))))

  -- The job is that of the operation that AcquireNextOperation admits, as it is stored then; it is not
  -- preparing, and the operation is prepared.
  abbrev pub IsReady : Database → ℕ → Job → W → Type 0
  IsReady db now job w =
      (op : Operation) × ((acquire_next_operation now db).0 ≡ ok (some op))
      × (op.kind ≡ OperationKind.job)
      × ((get_job op.id (acquire_next_operation now db).1).0 ≡ ok job)
      × (is_preparing job.status ≡ false)
      × IsPrepared op w

  module _ (P : W → Type 0) (db0 : Database) (now0 : ℕ) (now_keeps : (w : W) → P w → P (h.now w).1)
      (prepare_keeps : (f : Operation → W → Option E × W)
        → h.prepare ≡ some f
        → (op : Operation) (w : W) → P w
        → P (f op w).1)
      (cancel_keeps : (id : String) (w : W) → P w → P (h.cancel id w).1)
      (wake_keeps : (w : W) → P w → P (h.advance_cleanups w))
      (create_keeps : (job : Job) (w : W)
        → IsReady db0 now0 job w
        → P w
        → P (h.create job w).1) where
    either-Holds :
        (test : Bool) (x y : Answer W E)
        → (test ≡ true → P x.2)
        → (test ≡ false → P y.2)
        → P (if test then x else y).2
    either-Holds true x y a b = a refl
    either-Holds false x y a b = b refl

    requested-Holds :
        (es : List (Fault E)) (x : Result {0} Unit × Database) (w : W)
        → P w
        → P (requested h es x w).2
    requested-Holds es (ok _, db) w v = wake_keeps w v
    requested-Holds es (err e, db) w v = v

    request-Holds :
        (es : List (Fault E)) (id : String) (db : Database) (t : ℕ × W)
        → P t.1
        → P (request_at h es id db t).2
    request-Holds es id db (now, w) v =
        requested-Holds es (begin_operation_cleanup OperationKind.job id now db) w v

    failed-Holds :
        (es : List (Fault E)) (id : String) (x : Result Job × Database) (w : W)
        → P w
        → P (failed h es id x w).2
    failed-Holds es id (ok _, db) w v = request-Holds es id db (h.now w) (now_keeps w v)
    failed-Holds es id (err e, db) w v = v

    fail-Holds :
        (es : List (Fault E)) (id : String) (e : E) (db : Database) (t : ℕ × W)
        → P t.1
        → P (fail_at h es id e db t).2
    fail-Holds es id e db (now, w) v = failed-Holds es id (fail_job id now (h.text e) db) w v

    cancelled-Holds :
        (id : String) (db : Database) (x : Option E × W) → P x.1 → P (cancelled h id db x).2
    cancelled-Holds id db (none, w) v = v
    cancelled-Holds id db (some e, w) v = v

    reread-Holds : (id : String) (x : Result Job × Database) (w : W) → P w → P (reread h id x w).2
    reread-Holds id (err e, db) w v = v
    reread-Holds id (ok job, db) w v =
        either-Holds job.cancel_requested _ _
          (λ _. cancelled-Holds id db (h.cancel id w) (cancel_keeps id w v)) (λ _. v)

    job_activated-Holds :
        (id : String) (x : Result {0} Unit × Database) (w : W) → P w → P (job_activated h id x w).2
    job_activated-Holds id (err e, db) w v = v
    job_activated-Holds id (ok _, db) w v = reread-Holds id (get_job id db) w v

    build_activated-Holds :
        (id : String) (x : Result {0} Unit × Database) (w : W)
        → P w
        → P (build_activated h id x w).2
    build_activated-Holds id (err e, db) w v = v
    build_activated-Holds id (ok _, db) w v = v

    created-Holds :
        (id : String) (db : Database) (x : Option E × W) → P x.1 → P (created h id db x).2
    created-Holds id db (none, w) v =
        job_activated-Holds id (activate_operation OperationKind.job id db) w v
    created-Holds id db (some e, w) v =
        either-Holds (h.is_done w && h.is_cancellation e) _ _ (λ _. v)
          (λ _. fail-Holds (Fault.admit id e ∷ []) id e db (h.now w) (now_keeps w v))

    -- What the launch of an operation needs, once it is prepared.
    abbrev Launchable : Operation → Option Job → Type 0
    Launchable op none = Unit {0}
    Launchable op (some job) = (w : W) → IsPrepared op w → IsReady db0 now0 job w

    launch-Holds :
        (op : Operation) (job : Option Job) (db : Database) (w : W)
        → Launchable op job
        → IsPrepared op w
        → P w
        → P (launch h op job db w).2
    launch-Holds op none db w l p v =
        build_activated-Holds op.id (activate_operation OperationKind.build op.id db) w v
    launch-Holds op (some job) db w l p v =
        created-Holds op.id db (h.create job w) (create_keeps job w (l w p) v)

    with_fault-Holds :
        (es : List (Fault E)) (x : Result {0} Unit × Database) (w : W)
        → P w
        → P (with_fault h es x w).2
    with_fault-Holds es (ok _, db) w v = v
    with_fault-Holds es (err e, db) w v = v

    unprepared-Holds :
        (op : Operation) (job : Option Job) (e : E) (db : Database) (w : W)
        → P w
        → P (unprepared h op job e db w).2
    unprepared-Holds op none e db w v =
        with_fault-Holds _ (requeue_admitting_operation op.kind op.id db) w v
    unprepared-Holds op (some job) e db w v =
        either-Holds (h.is_permanent e) _ _
          (λ _. fail-Holds (Fault.prepare op.id e ∷ []) op.id e db (h.now w) (now_keeps w v))
          (λ _. with_fault-Holds _ (requeue_admitting_operation op.kind op.id db) w v)

    prepared-Holds :
        (op : Operation) (job : Option Job) (db : Database) (x : Option E × W)
        → Launchable op job
        → (x.0 ≡ none → IsPrepared op x.1)
        → P x.1
        → P (prepared h op job db x).2
    prepared-Holds op job db (none, w) l p v = launch-Holds op job db w l (p refl) v
    prepared-Holds op job db (some e, w) l p v = unprepared-Holds op job e db w v

    prepare-Holds :
        (g : Option (Operation → W → Option E × W)) (op : Operation) (job : Option Job)
        (db : Database) (w : W)
        → h.prepare ≡ g
        → Launchable op job
        → P w
        → P (prepare_by h g op job db w).2
    prepare-Holds none op job db w e l v = launch-Holds op job db w l (inl e) v
    prepare-Holds (some f) op job db w e l v =
        prepared-Holds op job db (f op w) l
          (λ k. inr (f, e, (w, ap (λ (x : Option E). (x, (f op w).1)) k)))
          (prepare_keeps f e op w v)

    job_read-Holds :
        (op : Operation) (x : Result Job × Database) (w : W)
        → (acquire_next_operation now0 db0).0 ≡ ok (some op)
        → op.kind ≡ OperationKind.job
        → get_job op.id (acquire_next_operation now0 db0).1 ≡ x
        → P w
        → P (job_read h op x w).2
    job_read-Holds op (err e, db) w a k g v = v
    job_read-Holds op (ok job, db) w a k g v =
        either-Holds (is_preparing job.status) _ _ (λ _. v)
          (λ q.
            prepare-Holds h.prepare op (some job) db w refl
              (λ u p. (op, a, k, ap (λ (x : Result Job × Database). x.0) g, q, p)) v)

    admitted-Holds :
        (kind : OperationKind) (op : Operation) (db : Database) (w : W)
        → acquire_next_operation now0 db0 ≡ (ok (some op), db)
        → op.kind ≡ kind
        → P w
        → P (admitted h kind op db w).2
    admitted-Holds OperationKind.job op db w a k v =
        job_read-Holds op (get_job op.id db) w
          (ap (λ (x : Result (Option Operation) × Database). x.0) a) k
          (ap (λ (x : Result (Option Operation) × Database). get_job op.id x.1) a) v
    admitted-Holds OperationKind.build op db w a k v =
        prepare-Holds h.prepare op none db w refl tt v

    acquired-Holds :
        (x : Result (Option Operation) × Database) (w : W)
        → acquire_next_operation now0 db0 ≡ x
        → P w
        → P (acquired h x w).2
    acquired-Holds (err e, db) w a v = v
    acquired-Holds (ok none, db) w a v = v
    acquired-Holds (ok (some op), db) w a v = admitted-Holds op.kind op db w a refl v

    acquire-Holds : (t : ℕ × W) → t.0 ≡ now0 → P t.1 → P (acquire_at h db0 t).2
    acquire-Holds (now, w) e v =
        acquired-Holds (acquire_next_operation now db0) w
          (ap (λ (n : ℕ). acquire_next_operation n db0) (sym e)) v

-- A pass launches a job only when it is ready: its operation is the one that AcquireNextOperation
-- admits at the time of the pass, the store has the job then and not as preparing, and there is no
-- preparer or it has just prepared the operation without an error. Every property of the world that
-- the clock, the preparer, the cancellation of a job and the wakeup of the cleanups keep, and the
-- creation of each job that is ready, is kept by the pass.
pub only_ready_jobs_launch :
    {W E : Type 0} (h : Host W E) (P : W → Type 0) (db : Database) (w : W)
    → ((u : W) → P u → P (h.now u).1)
    → ((f : Operation → W → Option E × W)
        → h.prepare ≡ some f
        → (op : Operation) (u : W) → P u
        → P (f op u).1)
    → ((id : String) (u : W) → P u → P (h.cancel id u).1)
    → ((u : W) → P u → P (h.advance_cleanups u))
    → ((job : Job) (u : W) → IsReady h db (h.now w).0 job u → P u → P (h.create job u).1)
    → P w
    → P (pass h db w).2
unfolding pass
only_ready_jobs_launch h P db w n p c a r v =
    either-Holds h P db (h.now w).0 n p c a r (h.is_draining w) _ _ (λ _. v)
      (λ _. acquire-Holds h P db (h.now w).0 n p c a r (h.now w) refl (n w v))
