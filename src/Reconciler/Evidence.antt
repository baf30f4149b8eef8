-- ===== src/Reconciler/Evidence.antt =====
-- When internal/control/reconciler/reconciler.go leaves a scheduled job as it is.
use autback.Prelude.{
  ℕ, ◌≡◌, refl, ap, sym, subst, ◌∙◌, ◌⊎◌, inl, inr, String, Bool, true, false, Option, none, some,
  List, [], ◌∷◌, All, Bool-cases, find_where, str_eq,
}
use autback.Control.{Job, Operation, OperationKind}
use autback.Sqlite.Tables.{Database, QueueRow, Result, ok, has_key, select, ◌>>=◌}
use autback.Sqlite.Queue.{get_operation, scan_operation}
use autback.Sqlite.Scheduled.{scheduled_jobs}
use autback.Reconciler.Model.{
  RuntimeJob, Host, Progress, has_failed, is_poisoned, remote_of, answered,
}
use autback.Reconciler.Leases.{expire}
use autback.Reconciler.Jobs.{in_grace, missing, compare_with, reconcile_job, reconcile_each}
use autback.Reconciler.Passes.{inspect_each, remove_each, compare_listed, pass_at, run_once}

scan_operation_keeps :
    (x : Option QueueRow) (db : Database) (op : Operation)
    → (scan_operation x db).0 ≡ ok op
    → scan_operation x db ≡ (ok op, db)
unfolding ◌>>=◌
scan_operation_keeps none db op e = cc
scan_operation_keeps (some r) db op e = cc

get_operation_keeps :
    (id : String) (db : Database) (op : Operation)
    → (get_operation OperationKind.job id db).0 ≡ ok op
    → get_operation OperationKind.job id db ≡ (ok op, db)
unfolding get_operation ◌>>=◌
get_operation_keeps id db op e =
    scan_operation_keeps (find_where (has_key OperationKind.job id) db.queue) db op e

-- No service that could be inspected is of the job.
abbrev pub Unseen : {E : Type 0} → String → List (RuntimeJob E) → Type 0
Unseen id managed = All (λ r. (has_failed r ≡ true) ⊎ (str_eq r.job_id id ≡ false)) managed

pub remote_of-none :
    {E : Type 0} (id : String) (rs : List (RuntimeJob E)) → Unseen id rs → remote_of id rs ≡ none
unfolding remote_of
remote_of-none id [] u = refl
remote_of-none id (r ∷ rs) (inl e, u) = rw (remote_of-none id rs u, e) refl
remote_of-none id (r ∷ rs) (inr e, u) =
    rw (remote_of-none id rs u, e)
      (elim (Bool-cases (has_failed r)) [ inl k ↦ rw k refl | inr k ↦ rw k refl ])

module _ {W E : Type 0} (h : Host W E) (now : ℕ) where
  -- The services tell nothing of the job: its own could not be inspected, or it is not among them
  -- while the list failed or the job's lease is within the grace of an admission.
  abbrev pub Silent : Bool → List (RuntimeJob E) → Database → String → Type 0
  Silent failed managed db id =
      (is_poisoned id managed ≡ true)
      ⊎ (Unseen id managed
          × ((failed ≡ true)
              ⊎ ((op : Operation) × ((get_operation OperationKind.job id db).0 ≡ ok op)
                  × (in_grace h now op.leased_at ≡ true))))

  grace_is_kept :
      (id : String) (op : Operation) (s : Progress W E) (x : Result Operation × Database)
      → x ≡ (ok op, s.db)
      → in_grace h now op.leased_at ≡ true
      → missing h now id (answered h s x) ≡ s
  grace_is_kept id op s x e g = rw (e, g) refl

  unseen_is_kept :
      (failed : Bool) (id : String) (s : Progress W E)
      → (failed ≡ true)
        ⊎ ((op : Operation) × ((get_operation OperationKind.job id s.db).0 ≡ ok op)
            × (in_grace h now op.leased_at ≡ true))
      → compare_with h now failed id none s ≡ s
  unseen_is_kept true id s v = refl
  unseen_is_kept false id s (inl e) = absurd (cc)
  unseen_is_kept false id s (inr (op, e, g)) =
      grace_is_kept id op s (get_operation OperationKind.job id s.db)
        (get_operation_keeps id s.db op e) g

  unheard_is_kept :
      (failed : Bool) (managed : List (RuntimeJob E)) (id : String) (s : Progress W E)
      → Silent failed managed s.db id
      → reconcile_job h now failed managed id s ≡ s
  unheard_is_kept failed managed id s (inl e) = rw e refl
  unheard_is_kept failed managed id s (inr (u, v)) = elim (Bool-cases (is_poisoned id managed)) [
    | inl e ↦ rw e refl
    | inr e ↦ rw (e, remote_of-none id managed u) (unseen_is_kept failed id s v)
  ]

-- The absence of a service is no evidence by itself: where the services tell nothing of any job
-- that is scheduled, the comparison changes neither the store nor the runtime and reports nothing.
-- Nothing is told of a job whose own service could not be inspected, and of one that has no service
-- while the list failed or while its lease is within the grace of an admission.
pub no_evidence_no_change :
    {W E : Type 0} (h : Host W E) (now : ℕ) (failed : Bool) (managed : List (RuntimeJob E))
    (js : List Job) (s : Progress W E)
    → All (λ (j : Job). Silent h now failed managed s.db j.id) js
    → reconcile_each h now failed managed js s ≡ s
unfolding reconcile_each
no_evidence_no_change h now failed managed [] s v = refl
no_evidence_no_change h now failed managed (j ∷ js) s (v, vs) =
    ap (reconcile_each h now failed managed js) (unheard_is_kept h now failed managed j.id s v)
    ∙ no_evidence_no_change h now failed managed js s vs

module _ {W E : Type 0} (h : Host W E) where
  all-Silent :
      (now : ℕ) (js : List Job) (db : Database) → All (λ (j : Job). Silent h now true [] db j.id) js
  all-Silent now [] db = tt
  all-Silent now (j ∷ js) db = (inr (tt, inl refl), all-Silent now js db)

  compare_failed :
      (e : E) (now : ℕ) (jobs : List Job) (s : Progress W E)
      (x : (List (RuntimeJob E) × Option E) × W)
      → x.0 ≡ ([], some e)
      → (compare_listed h now jobs s x).db ≡ s.db
  unfolding inspect_each remove_each
  compare_failed e now jobs s ((managed, f), w) k =
      subst (λ (y : List (RuntimeJob E) × Option E). (compare_listed h now jobs s (y, w)).db ≡ s.db)
        (sym k)
        (ap (λ (p : Progress W E). p.db)
          (no_evidence_no_change h now true [] jobs _ (all-Silent now jobs s.db)))

  pass_failed :
      (e : E) (db : Database) (t : ℕ × W)
      → ((u : W) → (h.managed_jobs u).0 ≡ ([], some e))
      → (pass_at h db t).db ≡ (expire h t.0 (record { faults = []; db = db; world = t.1 })).db
  unfolding scheduled_jobs select
  pass_failed e db (now, w) f =
      let s = expire h now (record { faults = []; db = db; world = w }) in
      compare_failed e now _ s (h.managed_jobs s.world) (f s.world)

-- A failed list of the services is no evidence that a service is gone: where the runtime answers
-- with an error and no service, a pass changes the store in no other way than by ending the jobs
-- and builds whose lease ran out.
pub failed_list_ends_no_job :
    {W E : Type 0} (h : Host W E) (e : E) (db : Database) (w : W)
    → ((u : W) → (h.managed_jobs u).0 ≡ ([], some e))
    → (run_once h db w).db
      ≡ (expire h (h.now w).0 (record { faults = []; db = db; world = (h.now w).1 })).db
unfolding run_once
failed_list_ends_no_job h e db w f = pass_failed h e db (h.now w) f
