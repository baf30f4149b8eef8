-- ===== src/Sqlite/Examples.antt =====
-- The theorems on internal/control/sqlite/store.go at small databases.
use autback.Prelude.{
  ℕ, ◌≤◌, ◌≡◌, refl, String, true, false, some, none, List, [], ◌∷◌, ◌⊎◌, arith, All, count_where,
  find_where, update_where,
}
use autback.Protocol.{Status}
use autback.Control.{Job, PrepareJob, Idempotency, OperationKind, OperationState, is_queued}
use autback.Sqlite.Tables.{
  Database, QueueRow, JobRow, ok, reserved, ◌>>=◌, insert_job, insert_build, insert_queue,
  update_queue,
}
use autback.Sqlite.Jobs.{prepared_job, create_prepared_job, get_job}
use autback.Sqlite.Builds.{queued_build, create_build}
use autback.Sqlite.Queue.{acquire_next_operation, operation_state, oldest, admitted}
use autback.Sqlite.History.{Call, run, migrated}
use autback.Sqlite.Evolution.{Inv, Evolves, phase}
use autback.Sqlite.Safety.{run-Inv-Evolves, migrated-Inv, phase_never_falls, terminal_job_is_final}
use autback.Sqlite.Admission.{acquire_meets_spec, acquire_spec, admission_is_fifo}
use autback.Sqlite.Idempotent.{create_prepared_job_once}

abbrev pub input : PrepareJob
input = record {
  project_id = "p";
  image = "alpine";
  command = "true" ∷ [];
  working_directory = "";
  environment = [];
  timeout = 5000;
  caches = [];
  secrets = [];
}

abbrev pub first_key : Idempotency
first_key = record { key = "k"; request_hash = "h" }

abbrev no_key : Idempotency
no_key = record { key = ""; request_hash = "" }

-- The job and its row in the queue.
abbrev pub job_row : String → Status → JobRow
job_row id status = record {
  job = record {
    id = id;
    project_id = "p";
    image = "alpine";
    command = "true" ∷ [];
    working_directory = "";
    environment = [];
    root_digest = "d";
    status = status;
    timeout = 5000;
    created_at = 1;
    started_at = none;
    finished_at = none;
    exit_code = none;
    error_message = "";
    cancel_requested = false;
    worker_id = "";
    caches = [];
    secrets = [];
  };
  idempotency_key = "";
  request_hash = "";
}

abbrev pub queue_row : ℕ → String → OperationState → QueueRow
queue_row sequence id state = record {
  sequence = sequence;
  kind = OperationKind.job;
  operation_id = id;
  state = state;
  accepted_at = sequence;
  leased_at = none;
  cleanup_attempts = 0;
  cleanup_error = "";
  cleanup_updated_at = 0;
}

-- Job "a" is before job "b", which is queued.
abbrev pub two_jobs : OperationState → Status → Database
two_jobs state status = record {
  projects = "p" ∷ [];
  queue = queue_row 1 "a" state ∷ queue_row 2 "b" OperationState.queued ∷ [];
  next_sequence = 3;
  jobs = job_row "a" status ∷ job_row "b" Status.queued ∷ [];
  builds = [];
}

abbrev pub waiting : Database
waiting = two_jobs OperationState.queued Status.queued

abbrev pub held : Database
held = two_jobs OperationState.active Status.running

abbrev pub ending : Database
ending = two_jobs OperationState.terminalizing Status.succeeded

abbrev pub empty : Database
empty = migrated ("p" ∷ [])

two_jobs-Inv : (state : OperationState) (status : Status) → Inv (two_jobs state status)
unfolding count_where
two_jobs-Inv state status = record {
  unique = (refl, (refl, tt));
  fresh = (omega arith, (omega arith, tt));
  one_reserved = ground arith;
}

pub waiting-Inv : Inv waiting
waiting-Inv = two_jobs-Inv OperationState.queued Status.queued

pub held-Inv : Inv held
held-Inv = two_jobs-Inv OperationState.active Status.running

pub ending-Inv : Inv ending
ending-Inv = two_jobs-Inv OperationState.terminalizing Status.succeeded

pub empty-Inv : Inv empty
empty-Inv = migrated-Inv ("p" ∷ [])

abbrev calls : List Call
calls =
    Call.claims_cleanup 3 ∷ Call.completes_cleanup OperationKind.job "a" 4 ∷ Call.acquires 5 ∷ []

run-Inv-Evolves_example : Inv (run ending calls) × Evolves ending (run ending calls)
run-Inv-Evolves_example = run-Inv-Evolves ending calls ending-Inv

a_tears_down : (operation_state OperationKind.job "a" ending).0 ≡ ok OperationState.terminalizing
unfolding operation_state ◌>>=◌ find_where
a_tears_down = refl

phase_never_falls_example :
    (t : OperationState) × ((operation_state OperationKind.job "a" (run ending calls)).0 ≡ ok t)
    × (phase OperationState.terminalizing ≤ phase t)
phase_never_falls_example =
    phase_never_falls ending calls OperationKind.job "a" OperationState.terminalizing ending-Inv
      a_tears_down

a_has_ended : (get_job "a" ending).0 ≡ ok (job_row "a" Status.succeeded).job
unfolding get_job ◌>>=◌ find_where
a_has_ended = refl

terminal_job_is_final_example :
    (get_job "a" (run ending calls)).0 ≡ ok (job_row "a" Status.succeeded).job
terminal_job_is_final_example =
    terminal_job_is_final ending calls "a" (job_row "a" Status.succeeded).job ending-Inv a_has_ended
      refl

acquire_meets_spec_example : acquire_next_operation 5 waiting ≡ acquire_spec 5 waiting
acquire_meets_spec_example = acquire_meets_spec 5 waiting waiting-Inv

b_waits_behind_a :
    (acquire_next_operation 5 waiting).0
    ≡ ok (some (admitted 5 (queue_row 1 "a" OperationState.queued)))
unfolding acquire_next_operation ◌>>=◌ count_where find_where oldest update_queue update_where
b_waits_behind_a = refl

admission_is_fifo_example :
    (count_where reserved waiting.queue ≡ 0)
    × ((r : QueueRow) × (admitted 5 (queue_row 1 "a" OperationState.queued) ≡ admitted 5 r)
        × (oldest (λ s. is_queued s.state) waiting.queue ≡ some r)
        × All (λ s. (is_queued s.state ≡ false) ⊎ (r.sequence ≤ s.sequence)) waiting.queue)
admission_is_fifo_example =
    admission_is_fifo 5 waiting (admitted 5 (queue_row 1 "a" OperationState.queued)) waiting-Inv
      b_waits_behind_a

created_a :
    (create_prepared_job "a" 1 input first_key empty).0 ≡ ok (prepared_job "a" input 1, false)
unfolding create_prepared_job migrated ◌>>=◌ find_where count_where insert_job insert_queue
created_a = refl

create_prepared_job_once_example :
    (j' : Job) × (create_prepared_job "z" 9 input first_key
        (run (create_prepared_job "a" 1 input first_key empty).1 calls)
      ≡ (ok (j', true), run (create_prepared_job "a" 1 input first_key empty).1 calls))
    × (j'.id ≡ "a")
create_prepared_job_once_example =
    create_prepared_job_once empty "a" "z" 1 9 input first_key (prepared_job "a" input 1) false
      calls empty-Inv created_a

created_build : (create_build "a" 1 "p" first_key empty).0 ≡ ok (queued_build "a" "p" 1, false)
unfolding create_build migrated ◌>>=◌ find_where count_where insert_build insert_queue
created_build = refl
