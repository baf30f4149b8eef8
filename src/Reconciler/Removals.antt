-- ===== src/Reconciler/Removals.antt =====
-- Which services internal/control/reconciler/reconciler.go removes.
use autback.Prelude.{
  ℕ, ◌+◌, ◌≤◌, ◌≡◌, refl, ap, sym, subst, ◌∙◌, ◌⊎◌, inl, inr, String, Bool, true, false, Option,
  none, some, List, [], ◌∷◌, All, Bool-cases, find_where, arith, if◌then◌else◌,
}
use autback.Protocol.{is_terminal}
use autback.Control.{Job}
use autback.Sqlite.Tables.{Database, Error, JobRow, Result, ok, err, ◌>>=◌}
use autback.Sqlite.Jobs.{get_job, scan_job, has_id}
use autback.Reconciler.Model.{RuntimeJob, Host, Progress, has_failed, is_not_found, answered}
use autback.Reconciler.Passes.{
  service_end, job_end, is_expired, removed, remove_after, remove_read, remove_service, remove_each,
}

scan_job_keeps : (x : Option JobRow) (db : Database) → (scan_job x db).1 ≡ db
unfolding ◌>>=◌
scan_job_keeps none db = refl
scan_job_keeps (some r) db = refl

get_job_keeps : (id : String) (db : Database) → (get_job id db).1 ≡ db
unfolding get_job ◌>>=◌
get_job_keeps id db = scan_job_keeps (find_where (has_id id) db.jobs) db

module _ {W E : Type 0} (h : Host W E) (now : ℕ) where
  -- The retention has passed since a time that is known.
  abbrev pub Expired : Option ℕ → Type 0
  Expired x = (t : ℕ) × (x ≡ some t) × (t + h.config.service_retention ≤ now)

  -- The answer of the store on the job of a service that may go: there is no such job, and the
  -- service has ended or was created long enough ago; or the job has ended long enough ago.
  abbrev pub Gone : RuntimeJob E → Result Job → Type 0
  Gone r x =
      ((x ≡ err Error.not_found) × Expired (service_end h r))
      ⊎ ((job : Job) × (x ≡ ok job) × (is_terminal job.status ≡ true) × Expired (job_end h job r))

  abbrev pub IsDue : Database → RuntimeJob E → Type 0
  IsDue db r = (has_failed r ≡ false) × Gone r (get_job r.job_id db).0

  expired : (t : Option ℕ) → is_expired h now t ≡ true → Expired t
  expired none e = absurd (cc)
  expired (some t) e = (t, refl, ground arith)

  not_found : (e : Error) → is_not_found e ≡ true → e ≡ Error.not_found
  not_found Error.not_found k = refl
  not_found _ k = absurd (cc)

  module _ (P : W → Type 0) where
    removed-Holds :
        (id : String) (s : Progress W E) (x : Option E × W) → P x.1 → P (removed h id s x).world
    removed-Holds id s (none, w) v = v
    removed-Holds id s (some e, w) v = v

    remove_after-Holds :
        (t : Option ℕ) (id : String) (s : Progress W E)
        → (Expired t → P s.world → P (h.remove id s.world).1)
        → P s.world
        → P (remove_after h now t id s).world
    remove_after-Holds t id s k v = elim (Bool-cases (is_expired h now t)) [
      | inl e ↦ rw e (removed-Holds id s (h.remove id s.world) (k (expired t e) v))
      | inr e ↦ rw e v
    ]

    remove_read-Holds :
        (r : RuntimeJob E) (x : Result Job × Progress W E)
        → (Gone r x.0 → P x.1.world → P (h.remove r.job_id x.1.world).1)
        → P x.1.world
        → P (remove_read h now r x).world
    remove_read-Holds r (err e, s) k v = elim (Bool-cases (is_not_found e)) [
      | inl c ↦ rw c (
          remove_after-Holds (service_end h r) r.job_id s (λ t. k (inl (ap err (not_found e c), t)))
            v)
      | inr c ↦ rw c v
    ]
    remove_read-Holds r (ok job, s) k v = elim (Bool-cases (is_terminal job.status)) [
      | inl c ↦
          rw c (remove_after-Holds (job_end h job r) r.job_id s (λ t. k (inr (job, refl, c, t))) v)
      | inr c ↦ rw c v
    ]

    answered-Holds :
        (r : RuntimeJob E) (s : Progress W E) (x : Result Job × Database)
        → (Gone r x.0 → P s.world → P (h.remove r.job_id s.world).1)
        → P s.world
        → P (remove_read h now r (answered h s x)).world
    answered-Holds r s (a, db) k v = remove_read-Holds r (a, record s { db = db }) k v

    remove_service-Holds :
        (r : RuntimeJob E) (s : Progress W E)
        → (IsDue s.db r → P s.world → P (h.remove r.job_id s.world).1)
        → P s.world
        → P (remove_service h now r s).world
    remove_service-Holds r s k v = elim (Bool-cases (has_failed r)) [
      | inl c ↦ rw c v
      | inr c ↦ rw c (answered-Holds r s (get_job r.job_id s.db) (λ g. k (c, g)) v)
    ]

  either_db :
      (b : Bool) (s x y : Progress W E) → x.db ≡ s.db → y.db ≡ s.db → (if b then x else y).db ≡ s.db
  either_db true s x y h k = h
  either_db false s x y h k = k

  removed_db : (id : String) (s : Progress W E) (x : Option E × W) → (removed h id s x).db ≡ s.db
  removed_db id s (none, w) = refl
  removed_db id s (some e, w) = refl

  remove_after_db :
      (t : Option ℕ) (id : String) (s : Progress W E) → (remove_after h now t id s).db ≡ s.db
  remove_after_db t id s =
      either_db (is_expired h now t) s _ _ (removed_db id s (h.remove id s.world)) refl

  remove_read_db :
      (r : RuntimeJob E) (x : Result Job × Progress W E) → (remove_read h now r x).db ≡ x.1.db
  remove_read_db r (err e, s) =
      either_db (is_not_found e) s _ _ (remove_after_db (service_end h r) r.job_id s) refl
  remove_read_db r (ok job, s) =
      either_db (is_terminal job.status) s _ _ (remove_after_db (job_end h job r) r.job_id s) refl

  answered_db :
      (r : RuntimeJob E) (s : Progress W E) (x : Result Job × Database)
      → (remove_read h now r (answered h s x)).db ≡ x.1
  answered_db r s (a, db) = remove_read_db r (a, record s { db = db })

  remove_service_db : (r : RuntimeJob E) (s : Progress W E) → (remove_service h now r s).db ≡ s.db
  remove_service_db r s =
      either_db (has_failed r) s _ _ refl
        (answered_db r s (get_job r.job_id s.db) ∙ get_job_keeps r.job_id s.db)

-- A service is removed only when it is due: it could be inspected, and the store either does not
-- know its job or says that the job has ended, and the retention has passed since the end of the job,
-- or else of the service, or else since its creation. So every property of the runtime that the
-- removal of each listed service that is due keeps is kept by the whole loop, which does not touch
-- the store.
pub only_due_services_are_removed :
    {W E : Type 0} (h : Host W E) (now : ℕ) (P : W → Type 0) (managed : List (RuntimeJob E))
    (s : Progress W E)
    → All
        (λ (r : RuntimeJob E). IsDue h now s.db r → (w : W) → P w → P (h.remove r.job_id w).1)
        managed
    → P s.world
    → P (remove_each h now managed s).world × ((remove_each h now managed s).db ≡ s.db)
unfolding remove_each
only_due_services_are_removed h now P [] s k v = (v, refl)
only_due_services_are_removed {E = E} h now P (r ∷ rs) s (k, ks) v =
    let same = remove_service_db h now r s in
    let (w, kept) =
      only_due_services_are_removed h now P rs (remove_service h now r s)
        (subst
          (λ db.
            All (λ (q : RuntimeJob E). IsDue h now db q → (w : _) → P w → P (h.remove q.job_id w).1)
              rs)
          (sym same) ks)
        (remove_service-Holds h now P r s (λ d. k d s.world) v) in
    (w, kept ∙ same)
