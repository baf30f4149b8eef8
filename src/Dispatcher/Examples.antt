-- ===== src/Dispatcher/Examples.antt =====
-- The theorems on internal/control/dispatcher/dispatcher.go at small worlds and interleavings.
use autback.Prelude.{
  ap, subst, ◌∙◌, ◌≢◌, inl, Bool, ◌++◌, inr, ℕ, ◌+◌, ◌≡◌, refl, String, true, false, ◌&&◌, Option,
  none, some, List, [], ◌∷◌, count_where, find_where, pos,
}
use autback.Protocol.{Status}
use autback.Control.{Job, Operation, OperationKind, OperationState, is_queued}
use autback.Sqlite.Tables.{JobRow, QueueRow, reserved, ok}
use autback.Sqlite.Jobs.{get_job, has_id, is_pending}
use autback.Sqlite.Queue.{operation_state, oldest}
use autback.Sqlite.Examples.{waiting, waiting-Inv, job_row, queue_row}
use autback.Dispatcher.{Host, Fault, pass}
use autback.Dispatcher.Launches.{IsReady, only_ready_jobs_launch}
use autback.Dispatcher.Rejections.{rejected_job_pass}
use autback.Dispatcher.Wakeups.{Outcome, Event, advance, step, run, new_dispatcher}
use autback.Dispatcher.Wakeups.Served.{BeginsIn, sections, admission_wakeup_is_served}

-- The world is the time, which passes as it is read; the scheduler answers alike to every job.
abbrev host : Option String → Host ℕ String
host answer = record {
  now = λ w. (w, w + 1);
  create = λ j w. (answer, w);
  cancel = λ id w. (none, w);
  prepare = some (λ op w. (none, w + 10));
  capacity = none;
  is_draining = λ w. false;
  is_permanent = λ e. false;
  is_done = λ w. false;
  is_cancellation = λ e. false;
  text = λ e. e;
  advance_cleanups = λ w. w + 100;
}

-- The world is the time, and whether a job was created; the preparer refuses every operation.
abbrev strict : Host (ℕ × Bool) String
strict = record {
  now = λ w. (w.0, (w.0 + 1, w.1));
  create = λ j w. (none, (w.0, true));
  cancel = λ id w. (none, w);
  prepare = some (λ op w. (some "no image", w));
  capacity = none;
  is_draining = λ w. false;
  is_permanent = λ e. true;
  is_done = λ w. false;
  is_cancellation = λ e. false;
  text = λ e. e;
  advance_cleanups = λ w. (w.0 + 100, w.1);
}

abbrev ask :
    Operation
    → ℕ × Bool
    → Option (Operation → ℕ × Bool → Option String × (ℕ × Bool))
    → Option String
ask op w none = none
ask op w (some f) = (f op w).0

refused : ◌≢◌ {A = Option String} (some "no image") none
refused e = cc

never_ready : (job : Job) (w : ℕ × Bool) → IsReady strict waiting 5 job w → ⊥
never_ready job w (op, _, _, _, _, inl e) = cc
never_ready job w (op, _, _, _, _, inr (f, e, (u, k))) =
    refused (ap (ask op u) e ∙ ap (λ (x : Option String × (ℕ × Bool)). x.0) k)

abbrev answered :
    Operation → ℕ × Bool → Option (Operation → ℕ × Bool → Option String × (ℕ × Bool)) → ℕ × Bool
answered op w none = w
answered op w (some f) = (f op w).1

keeps_flag :
    (f : Operation → ℕ × Bool → Option String × (ℕ × Bool))
    → strict.prepare ≡ some f
    → (op : Operation) (w : ℕ × Bool) → w.1 ≡ false
    → (f op w).1.1 ≡ false
keeps_flag f e op w v = subst (λ (u : ℕ × Bool). u.1 ≡ false) (ap (answered op w) e) v

only_ready_jobs_launch_example : (pass strict waiting (5, false)).2.1 ≡ false
only_ready_jobs_launch_example =
    only_ready_jobs_launch strict (λ w. w.1 ≡ false) waiting (5, false) (λ w v. v)
      (λ f e op w v. keeps_flag f e op w v) (λ id w v. v) (λ w v. v)
      (λ job w r v. absurd (never_ready job w r)) refl

worker_is_idle : count_where reserved waiting.queue ≡ 0
unfolding count_where
worker_is_idle = refl

abbrev a_waiting : QueueRow
a_waiting = queue_row 1 "a" OperationState.queued

a_is_head : oldest (λ s. is_queued s.state) waiting.queue ≡ some a_waiting
unfolding oldest
a_is_head = refl

found_a : find_where (has_id "a") waiting.jobs ≡ some (job_row "a" Status.queued)
unfolding find_where
found_a = refl

one_pending_a : count_where (λ (s : JobRow). has_id "a" s && is_pending s.status) waiting.jobs ≡ 1
unfolding count_where
one_pending_a = refl

rejected_job_pass_example :
    let (es, db', w') = pass (host (some "no image")) waiting 5 in
    (es ≡ Fault.admit "a" "no image" ∷ [])
    × ((operation_state OperationKind.job "a" db').0 ≡ ok OperationState.terminalizing)
    × ((get_job "a" db').0
        ≡ ok (record (job_row "a" Status.queued).job {
          status = Status.failed;
          finished_at = some 16;
          exit_code = some (pos 1);
          error_message = "no image";
        }))
    × (w' ≡ 118)
rejected_job_pass_example =
    rejected_job_pass (host (some "no image")) waiting a_waiting (job_row "a" Status.queued) 5 6 16
      16 17 18 5 16 17 "no image" waiting-Inv worker_is_idle a_is_head refl found_a refl
      one_pending_a refl refl (inr ((λ op w. (none, w + 10)), refl, refl)) refl refl refl refl

-- The goroutine waits after an error when the wakeup comes, and other calls follow.
abbrev delayed : List Event
delayed =
    Event.wakes_cleanups
    ∷ Event.advances
    ∷ Event.moves 0 Outcome.settled
    ∷ Event.moves 0 Outcome.failed
    ∷ []

abbrev calls : List Event
calls = Event.moves 0 Outcome.settled ∷ Event.advances ∷ Event.drains ∷ []

delayed_runs : (run new_dispatcher delayed).draining ≡ false
unfolding run step advance
delayed_runs = refl

admission_wakeup_is_served_example :
    BeginsIn
      (advance (run new_dispatcher delayed))
      (calls ++ sections Outcome.settled Outcome.failed Outcome.settled)
admission_wakeup_is_served_example =
    admission_wakeup_is_served delayed calls Outcome.settled Outcome.failed Outcome.settled
      (refl, (refl, (refl, (refl, tt)))) (refl, (refl, (refl, tt))) delayed_runs refl refl
