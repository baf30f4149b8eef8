-- ===== src/Coordinator/Examples.antt =====
-- The theorems on internal/operation/cleanup/coordinator.go at small worlds and interleavings.
use autback.Prelude.{
  ◌++◌, ℕ, ◌+◌, ◌≡◌, refl, String, true, false, Option, none, some, List, [], ◌∷◌, count_where,
  find_where,
}
use autback.Control.{OperationKind, OperationState}
use autback.Sqlite.Tables.{has_key, reserved, ok}
use autback.Sqlite.Queue.{operation_state}
use autback.Sqlite.Cleanup.{claimed, claim_row, fail_cleanup_row}
use autback.Sqlite.Examples.{ending, ending-Inv}
use autback.Sqlite.EndExamples.{a_ending, a_is_oldest}
use autback.Coordinator.{Runtime, Fault, run_once}
use autback.Coordinator.Chain.{Step, prepare, prepare_all}
use autback.Coordinator.Outcomes.{clean_pass_frees_worker, failed_pass_keeps_worker}
use autback.Coordinator.Wakeups.{Outcome, Event, advance, step, run, new_coordinator}
use autback.Coordinator.Wakeups.Served.{BeginsIn, sections, wakeup_is_served}

-- The world is the time, which passes as it is read.
abbrev runtime : Option String → Runtime ℕ String
runtime answer = record {
  now = λ w. (w, w + 1);
  clean = λ op w. (answer, w);
  is_done = λ w. false;
  is_cancellation = λ e. false;
  text = λ e. e;
  on_completed = some (λ op w. w + 100);
}

clean_pass_frees_worker_example :
    let (pass, es, db', w') = run_once (runtime none) ending 3 in
    (pass ≡ true)
    × (es ≡ [])
    × ((operation_state OperationKind.job "a" db').0 ≡ ok OperationState.released)
    × (count_where reserved db'.queue ≡ 0)
    × (w' ≡ 105)
clean_pass_frees_worker_example =
    clean_pass_frees_worker (runtime none) ending 3 4 4 5 3 4 a_ending ending-Inv a_is_oldest refl
      refl refl

failed_pass_keeps_worker_example :
    let (pass, es, db', w') = run_once (runtime (some "docker")) ending 3 in
    (pass ≡ true)
    × (es ≡ Fault.clean OperationKind.job "a" "docker" ∷ [])
    × (find_where (has_key OperationKind.job "a") db'.queue
        ≡ some (fail_cleanup_row 4 "docker" (claim_row 3 a_ending)))
    × (count_where reserved db'.queue ≡ count_where reserved ending.queue)
    × (w' ≡ 5)
failed_pass_keeps_worker_example =
    failed_pass_keeps_worker (runtime (some "docker")) ending 3 4 4 5 3 4 a_ending "docker"
      ending-Inv a_is_oldest refl refl refl refl

-- The goroutine is in RunOnce when the next wakeup comes, and other calls follow.
abbrev busy : List Event
busy = Event.advances ∷ Event.moves 0 Outcome.idle ∷ []

abbrev calls : List Event
calls = Event.moves 0 Outcome.failed ∷ Event.advances ∷ Event.drains ∷ []

busy_runs : (run new_coordinator busy).draining ≡ false
unfolding run step advance
busy_runs = refl

wakeup_is_served_example :
    BeginsIn
      (advance (run new_coordinator busy))
      (calls ++ sections Outcome.idle Outcome.failed Outcome.idle)
wakeup_is_served_example =
    wakeup_is_served busy calls Outcome.idle Outcome.failed Outcome.idle (refl, (refl, tt))
      (refl, (refl, (refl, tt))) busy_runs refl refl

-- A chain with a step that is nil and one that fails.
abbrev counts : Step ℕ String
counts = some (λ op w. (none, w + 1))

abbrev fails : Step ℕ String
fails = some (λ op w. (some "network", w + 10))

counts_then_fails :
    prepare (record { preparers = counts ∷ fails ∷ []; cleaners = [] }) (claimed 3 a_ending) 0
    ≡ (some "network", 11)
unfolding prepare prepare_all
counts_then_fails = refl
