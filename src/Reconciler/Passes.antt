-- ===== src/Reconciler/Passes.antt =====
-- internal/control/reconciler/reconciler.go: the part of RunOnce that removes services, and RunOnce.
use autback.Prelude.{
  ℕ, ◌+◌, String, Bool, true, false, not, Option, none, some, List, [], ◌∷◌, ltb, if◌then◌else◌,
}
use autback.Protocol.{is_terminal}
use autback.Control.{Job}
use autback.Sqlite.Tables.{Database, Result, ok, err}
use autback.Sqlite.Jobs.{get_job}
use autback.Sqlite.Scheduled.{scheduled_jobs}
use autback.Reconciler.Model.{
  RuntimeJob, Host, Progress, has_failed, is_not_found, fault, call, inspect, list_scheduled,
  list_managed, remove, read_managed,
}
use autback.Reconciler.Leases.{expire}
use autback.Reconciler.Jobs.{reconcile_each}

module _ {W E : Type 0} (h : Host W E) where
  -- removeAfter, where the store has no such job, and where it has.
  abbrev pub service_end : RuntimeJob E → Option ℕ
  service_end r = elim r.job.finished_at [ none ↦ r.created_at | some t ↦ some t ]

  abbrev pub job_end : Job → RuntimeJob E → Option ℕ
  job_end job r = elim job.finished_at [ none ↦ service_end r | some t ↦ some t ]

  -- Not removeAfter.IsZero() || removeAfter.After(now.Add(-ServiceRetention))
  abbrev pub is_expired : ℕ → Option ℕ → Bool
  is_expired now none = false
  is_expired now (some t) = not (ltb now (t + h.config.service_retention))

  abbrev pub removed : String → Progress W E → Option E × W → Progress W E
  removed id s (none, w) = record s { world = w }
  removed id s (some e, w) = fault h (remove id e) (record s { world = w })

  abbrev pub remove_after : ℕ → Option ℕ → String → Progress W E → Progress W E
  remove_after now t id s = if is_expired now t then removed id s (h.remove id s.world) else s

  abbrev pub remove_read : ℕ → RuntimeJob E → Result Job × Progress W E → Progress W E
  remove_read now r (err e, s) =
      if is_not_found e
      then remove_after now (service_end r) r.job_id s
      else fault h (read_managed r.job_id e) s
  remove_read now r (ok job, s) =
      if is_terminal job.status then remove_after now (job_end job r) r.job_id s else s

  abbrev pub remove_service : ℕ → RuntimeJob E → Progress W E → Progress W E
  remove_service now r s =
      if has_failed r then s else remove_read now r (call h (get_job r.job_id) s)

  unfoldable pub remove_each : ℕ → List (RuntimeJob E) → Progress W E → Progress W E
  remove_each now [] s = s
  remove_each now (r ∷ rs) s = remove_each now rs (remove_service now r s)

  abbrev pub scheduled_of : Result (List Job) × Progress W E → List Job × Progress W E
  scheduled_of (err e, s) = ([], fault h (list_scheduled e) s)
  scheduled_of (ok js, s) = (js, s)

  -- Whether the list failed.
  abbrev pub listed : Progress W E → Option E → Bool × Progress W E
  listed s none = (false, s)
  listed s (some e) = (true, fault h (list_managed e) s)

  abbrev pub inspected : RuntimeJob E → Option E → Progress W E → Progress W E
  inspected r none s = s
  inspected r (some e) s = fault h (inspect r.id e) s

  unfoldable pub inspect_each : List (RuntimeJob E) → Progress W E → Progress W E
  inspect_each [] s = s
  inspect_each (r ∷ rs) s = inspect_each rs (inspected r r.failure s)

  abbrev pub finish_pass : ℕ → List Job → List (RuntimeJob E) → Bool × Progress W E → Progress W E
  finish_pass now jobs managed (failed, s) =
      remove_each now managed (reconcile_each h now failed managed jobs (inspect_each managed s))

  abbrev pub compare_listed :
      ℕ → List Job → Progress W E → (List (RuntimeJob E) × Option E) × W → Progress W E
  compare_listed now jobs s ((managed, e), w) =
      finish_pass now jobs managed (listed (record s { world = w }) e)

  abbrev pub compare : ℕ → List Job × Progress W E → Progress W E
  compare now (jobs, s) = compare_listed now jobs s (h.managed_jobs s.world)

  abbrev pub pass_at : Database → ℕ × W → Progress W E
  pass_at db (now, w) = compare now (
      scheduled_of
        (call h scheduled_jobs (expire h now (record { faults = []; db = db; world = w }))))

  -- RunOnce
  unfoldable pub run_once : Database → W → Progress W E
  run_once db w = pass_at db (h.now w)
