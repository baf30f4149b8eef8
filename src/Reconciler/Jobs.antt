-- ===== src/Reconciler/Jobs.antt =====
-- internal/control/reconciler/reconciler.go: the part of RunOnce that compares the scheduled jobs with
-- the services.
use autback.Prelude.{
  ℕ, ◌+◌, String, Bool, false, Option, none, some, List, [], ◌∷◌, ltb, if◌then◌else◌,
}
use autback.Protocol.{RemoteJob, is_terminal}
use autback.Control.{Job, Operation, OperationKind, is_admitting}
use autback.Sqlite.Tables.{Result, ok, err}
use autback.Sqlite.Jobs.{sync_job}
use autback.Sqlite.Queue.{get_operation, activate_operation}
use autback.Reconciler.Model.{
  RuntimeJob, Host, Progress, is_poisoned, remote_of, is_not_found, lost_job, fault, call, timed,
  release, read_lease, read_operation, activate, synchronize, release_job,
}

module _ {W E : Type 0} (h : Host W E) where
  abbrev pub synced : String → Result Job × Progress W E → Progress W E
  synced id (err e, s) = fault h (synchronize id e) s
  synced id (ok job, s) =
      if is_terminal job.status then release h (release_job id) OperationKind.job id s else s

  abbrev pub sync_with : String → RemoteJob → Progress W E → Progress W E
  sync_with id remote s = synced id (timed h (λ t. sync_job id t remote) s)

  -- operation.LeasedAt.After(now.Add(-AdmissionGrace))
  abbrev pub in_grace : ℕ → Option ℕ → Bool
  in_grace now none = false
  in_grace now (some t) = ltb now (t + h.config.admission_grace)

  abbrev pub missing : ℕ → String → Result Operation × Progress W E → Progress W E
  missing now id (err e, s) =
      if is_not_found e then sync_with id (lost_job now) s else fault h (read_lease id e) s
  missing now id (ok op, s) = if in_grace now op.leased_at then s else sync_with id (lost_job now) s

  abbrev pub activated : String → RemoteJob → Result {0} Unit × Progress W E → Progress W E
  activated id remote (err e, s) = fault h (activate id e) s
  activated id remote (ok _, s) = sync_with id remote s

  abbrev pub present : String → RemoteJob → Result Operation × Progress W E → Progress W E
  present id remote (err e, s) =
      if is_not_found e then sync_with id remote s else fault h (read_operation id e) s
  present id remote (ok op, s) =
      if is_admitting op.state
      then activated id remote (call h (activate_operation OperationKind.job id) s)
      else sync_with id remote s

  abbrev pub compare_with : ℕ → Bool → String → Option (RuntimeJob E) → Progress W E → Progress W E
  compare_with now list_failed id none s =
      if list_failed then s else missing now id (call h (get_operation OperationKind.job id) s)
  compare_with now list_failed id (some r) s =
      present id r.job (call h (get_operation OperationKind.job id) s)

  abbrev pub reconcile_job : ℕ → Bool → List (RuntimeJob E) → String → Progress W E → Progress W E
  reconcile_job now list_failed managed id s =
      if is_poisoned id managed then s else compare_with now list_failed id (remote_of id managed) s

  unfoldable pub reconcile_each :
      ℕ → Bool → List (RuntimeJob E) → List Job → Progress W E → Progress W E
  reconcile_each now list_failed managed [] s = s
  reconcile_each now list_failed managed (j ∷ js) s =
      reconcile_each now list_failed managed js (reconcile_job now list_failed managed j.id s)
