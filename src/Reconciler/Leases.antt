-- ===== src/Reconciler/Leases.antt =====
-- internal/control/reconciler/reconciler.go: the part of RunOnce that ends the jobs and the builds
-- whose lease ran out.
use autback.Prelude.{ℕ, ◌-◌, String, List, [], ◌∷◌, pos}
use autback.Control.{Job, Build, BuildStatus, OperationKind}
use autback.Sqlite.Tables.{Result, ok, err}
use autback.Sqlite.Jobs.{request_job_cancellation}
use autback.Sqlite.Builds.{finish_build}
use autback.Sqlite.Stale.{stale_preparing_jobs, stale_builds}
use autback.Reconciler.Model.{
  Host, Progress, fault, call, timed, release, list_preparations, list_builds, cancel_preparation,
  release_preparation, cancel_build, release_build,
}

module _ {W E : Type 0} (h : Host W E) where
  abbrev pub job_cancelled : String → Result Job × Progress W E → Progress W E
  job_cancelled id (err e, s) = fault h (cancel_preparation id e) s
  job_cancelled id (ok _, s) = release h (release_preparation id) OperationKind.job id s

  unfoldable pub cancel_each : List Job → Progress W E → Progress W E
  cancel_each [] s = s
  cancel_each (j ∷ js) s =
      cancel_each js (job_cancelled j.id (timed h (request_job_cancellation j.id) s))

  abbrev pub cancel_listed : Result (List Job) × Progress W E → Progress W E
  cancel_listed (err e, s) = fault h (list_preparations e) s
  cancel_listed (ok js, s) = cancel_each js s

  abbrev pub build_cancelled : String → Result Build × Progress W E → Progress W E
  build_cancelled id (err e, s) = fault h (cancel_build id e) s
  build_cancelled id (ok _, s) = release h (release_build id) OperationKind.build id s

  abbrev pub cancel_stale_build : String → Progress W E → Progress W E
  cancel_stale_build id s =
      build_cancelled id (timed h (λ t. finish_build id t BuildStatus.cancelled (pos 130)) s)

  unfoldable pub finish_each : List Build → Progress W E → Progress W E
  finish_each [] s = s
  finish_each (b ∷ bs) s = finish_each bs (cancel_stale_build b.id s)

  abbrev pub finish_listed : Result (List Build) × Progress W E → Progress W E
  finish_listed (err e, s) = fault h (list_builds e) s
  finish_listed (ok bs, s) = finish_each bs s

  -- The part of RunOnce that ends what has lost its lease.
  unfoldable pub expire : ℕ → Progress W E → Progress W E
  expire now s =
      let jobs = call h (stale_preparing_jobs (now - h.config.preparation_lease_timeout)) s in
      let s' = cancel_listed jobs in
      finish_listed (call h (stale_builds (now - h.config.build_lease_timeout)) s')
