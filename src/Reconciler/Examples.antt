-- ===== src/Reconciler/Examples.antt =====
-- The theorems on internal/control/reconciler/reconciler.go at small worlds.
use autback.Prelude.{
  pos, ℕ, ◌+◌, ◌≡◌, refl, ap, sym, ◌∙◌, ◌≢◌, inl, inr, String, Bool, true, false, Option, none,
  some, List, [], ◌∷◌, str_eq, if◌then◌else◌, find_where,
}
use mathlib.Core.Bool.{false≢true}
use autback.Sqlite.Queue.{operation_state}
use autback.Protocol.{Status, RemoteJob, is_terminal}
use autback.Control.{Job, OperationKind, OperationState}
use autback.Sqlite.Tables.{has_key, Result, ok, err, ◌>>=◌}
use autback.Sqlite.Jobs.{get_job, has_id}
use autback.Sqlite.Examples.{job_row, queue_row, held, held-Inv}
use autback.Reconciler.Model.{RuntimeJob, Config, Host, lost_job, is_poisoned}
use autback.Reconciler.Leases.{expire}
use autback.Reconciler.Jobs.{reconcile_job, reconcile_each}
use autback.Reconciler.Passes.{remove_each, run_once}
use autback.Reconciler.Lost.{missing_job_is_lost}
use autback.Reconciler.Evidence.{no_evidence_no_change, failed_list_ends_no_job}
use autback.Reconciler.Removals.{IsDue, only_due_services_are_removed}

-- The time, and what was removed.
abbrev World : Type 0
World = ℕ × List String

abbrev config : Config
config = record {
  service_retention = 100;
  admission_grace = 10;
  build_lease_timeout = 1000;
  preparation_lease_timeout = 1000;
}

abbrev host : List (RuntimeJob String) × Option String → Host World String
host answer = record {
  config = config;
  now = λ w. (w.0, w);
  store_now = λ w. (w.0, w);
  managed_jobs = λ w. (answer, w);
  remove = λ id w. (none, (w.0, id ∷ w.1));
  dispatcher = some (λ w. (w.0 + 1, w.1));
}

abbrev runs : RemoteJob
runs = record (lost_job 0) { status = Status.running; finished_at = none; exit_code = none }

abbrev service : String → Option String → RuntimeJob String
service id failure = record {
  id = id;
  job_id = id;
  created_at = some 1;
  job = runs;
  failure = failure;
}

a_is_held :
    find_where (has_key OperationKind.job "a") held.queue
    ≡ some (queue_row 1 "a" OperationState.active)
unfolding find_where
a_is_held = refl

a_is_stored : find_where (has_id "a") held.jobs ≡ some (job_row "a" Status.running)
unfolding find_where
a_is_stored = refl

nothing_is_poisoned : is_poisoned {E = String} "a" [] ≡ false
unfolding is_poisoned
nothing_is_poisoned = refl

missing_job_is_lost_example :
    let s =
      reconcile_job
        (host ([], none))
        500
        false
        []
        "a"
        (record { faults = []; db = held; world = (500, []) }) in
    (s.faults ≡ [])
    × ((get_job "a" s.db).0
        ≡ ok (record (job_row "a" Status.running).job {
          status = Status.lost;
          worker_id = "";
          started_at = none;
          finished_at = some 500;
          cancel_requested = false;
          exit_code = some (pos 1);
          error_message = "managed Swarm service is missing";
        }))
    × ((operation_state OperationKind.job "a" s.db).0 ≡ ok OperationState.terminalizing)
    × (s.world ≡ (501, []))
missing_job_is_lost_example =
    missing_job_is_lost (host ([], none)) 500 [] "a"
      (record { faults = []; db = held; world = (500, []) }) (queue_row 1 "a" OperationState.active)
      (job_row "a" Status.running) (λ w. (w.0 + 1, w.1)) 500 500 (500, []) (500, []) held-Inv
      a_is_held refl a_is_stored refl nothing_is_poisoned tt refl refl refl refl

a_is_poisoned : is_poisoned "a" (service "a" (some "no answer") ∷ []) ≡ true
unfolding is_poisoned
a_is_poisoned = refl

no_evidence_no_change_example :
    reconcile_each
      (host ([], none))
      500
      false
      (service "a" (some "no answer") ∷ [])
      ((job_row "a" Status.running).job ∷ [])
      (record { faults = []; db = held; world = (500, []) })
    ≡ record { faults = []; db = held; world = (500, []) }
no_evidence_no_change_example =
    no_evidence_no_change (host ([], none)) 500 false (service "a" (some "no answer") ∷ [])
      ((job_row "a" Status.running).job ∷ []) (record { faults = []; db = held; world = (500, []) })
      (inl a_is_poisoned, tt)

failed_list_ends_no_job_example :
    (run_once (host ([], some "down")) held (500, [])).db
    ≡ (expire
        (host ([], some "down"))
        500
        (record { faults = []; db = held; world = (500, []) })).db
failed_list_ends_no_job_example =
    failed_list_ends_no_job (host ([], some "down")) "down" held (500, []) (λ u. refl)

abbrev ends : Result Job → Bool
ends (ok job) = is_terminal job.status
ends (err e) = false

abbrev contains : String → List String → Bool
contains x [] = false
contains x (y ∷ ys) = let rest = contains x ys in if str_eq y x then true else rest

a_runs : (get_job "a" held).0 ≡ ok (job_row "a" Status.running).job
unfolding get_job ◌>>=◌ find_where
a_runs = refl

running_is_live :
    (job : Job)
    → ◌≡◌ {A = Result Job} (ok (job_row "a" Status.running).job) (ok job)
    → is_terminal job.status ≢ true
running_is_live job e t = false≢true (ap (λ (x : Result Job). ends x) e ∙ t)

a_is_not_due :
    IsDue (host ([], none)) 500 held (service "a" none)
    → (w : World) → contains "a" w.1 ≡ false
    → contains "a" ("a" ∷ w.1) ≡ false
a_is_not_due (_, inl (e, _)) w v = absurd (cc (a_runs))
a_is_not_due (_, inr (job, e, t, _)) w v = absurd (running_is_live job (sym a_runs ∙ e) t)

only_due_services_are_removed_example :
    let s =
      remove_each
        (host ([], none))
        500
        (service "a" none ∷ service "z" none ∷ [])
        (record { faults = []; db = held; world = (500, []) }) in
    (contains "a" s.world.1 ≡ false) × (s.db ≡ held)
only_due_services_are_removed_example =
    only_due_services_are_removed (host ([], none)) 500 (λ w. contains "a" w.1 ≡ false)
      (service "a" none ∷ service "z" none ∷ [])
      (record { faults = []; db = held; world = (500, []) }) (a_is_not_due, ((λ d w v. v), tt)) refl
