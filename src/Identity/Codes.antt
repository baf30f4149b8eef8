-- ===== src/Identity/Codes.antt =====
-- The enrollment codes under the statements of internal/control/sqlite/store.go.
use autback.Prelude.{
  ◌≤◌, ◌≡◌, refl, subst, String, Bool, true, false, some, List, [], ◌∷◌, ◌++◌, arith, All,
  All-append, All-map, All-every, Grows-append, Grows-update_where, count_where, update_where,
  find_where, find_where-test, count_where-append, count_where-update_where_same, if◌then◌else◌,
  eq_iff,
}
use autback.Identity.Tables.{Accounts, EnrollmentRow}
use autback.Identity.Statements.{
  insert_row, insert_enrollment, update_enrollments, enrollment_has_id,
}
use autback.Identity.Evolution.{
  CodeEvolves, CodeEvolves-refl, Evolves-refl, Unique, Bounded, Inv, Advances, Advances-refl,
}
use autback.Identity.Advances.{Sound}

same_id :
    (id : String) (r s : EnrollmentRow)
    → CodeEvolves r s
    → enrollment_has_id id s ≡ enrollment_has_id id r
same_id id r s h = ground arith

Unique-update_where :
    (p : EnrollmentRow → Bool) (f : EnrollmentRow → EnrollmentRow) (rows : List EnrollmentRow)
    → All (λ r. p r ≡ true → CodeEvolves r (f r)) rows
    → Unique rows
    → Unique (update_where p f rows)
unfolding update_where
Unique-update_where p f [] h u = tt
Unique-update_where p f (r ∷ rs) h u = (head (p r) h.0, Unique-update_where p f rs h.1 u.1)
  where
    tail_same :
        (id : String)
        → count_where (enrollment_has_id id) (update_where p f rs)
          ≡ count_where (enrollment_has_id id) rs
    tail_same id =
        count_where-update_where_same (enrollment_has_id id) p f rs
          (All-map _ _ rs (λ s e q. same_id id s (f s) (e q)) h.1)

    head :
        (b : Bool)
        → (b ≡ true → CodeEvolves r (f r))
        → count_where (enrollment_has_id (if b then f r else r).code.id) (update_where p f rs) ≡ 0
    head true e = rw ((e refl).id, tail_same r.code.id) u.0
    head false e = rw (tail_same r.code.id) u.0

Bounded-update_where :
    (p : EnrollmentRow → Bool) (f : EnrollmentRow → EnrollmentRow) (rows : List EnrollmentRow)
    → All (λ r. p r ≡ true → CodeEvolves r (f r)) rows
    → Bounded rows
    → Bounded (update_where p f rows)
unfolding update_where
Bounded-update_where p f [] h u = tt
Bounded-update_where p f (r ∷ rs) h u = (head (p r) h.0, Bounded-update_where p f rs h.1 u.1)
  where
    head :
        (b : Bool)
        → (b ≡ true → CodeEvolves r (f r))
        → let s = if b then f r else r in s.code.failed_attempts ≤ s.code.max_attempts
    head true e = (e refl).bounded u.0
    head false e = u.0

pub Advances-update_enrollments :
    (p : EnrollmentRow → Bool) (f : EnrollmentRow → EnrollmentRow) (db : Accounts)
    → (Inv db → All (λ r. p r ≡ true → CodeEvolves r (f r)) db.enrollments)
    → Advances db (update_enrollments p f db).1
unfolding update_enrollments
Advances-update_enrollments p f db h v = (
  record {
    unique = Unique-update_where p f db.enrollments (h v) v.unique;
    bounded = Bounded-update_where p f db.enrollments (h v) v.bounded;
  },
  assumption
      (Evolves-refl db, Grows-update_where CodeEvolves CodeEvolves-refl p f db.enrollments (h v)),
)

pub Sound-update_enrollments :
    (p : EnrollmentRow → Bool) (f : EnrollmentRow → EnrollmentRow)
    → ((r : EnrollmentRow) → p r ≡ true → CodeEvolves r (f r))
    → Sound (update_enrollments p f)
Sound-update_enrollments p f h = record {
  at = λ db. Advances-update_enrollments p f db (λ v. All-every _ db.enrollments h);
}

Unique-append :
    (rows : List EnrollmentRow) (s : EnrollmentRow)
    → count_where (enrollment_has_id s.code.id) rows ≡ 0
    → Unique rows
    → Unique (rows ++ s ∷ [])
unfolding count_where
Unique-append [] s n u = (refl, tt)
Unique-append (r ∷ rs) s n u = (
  ground (
    arith,
    count_where-append (enrollment_has_id r.code.id) rs (s ∷ []),
    eq_iff s.code.id r.code.id,
    eq_iff r.code.id s.code.id,
  ),
  Unique-append rs s (ground arith) u.1,
)

inserted :
    (fresh known : Bool) (after db : Accounts)
    → (fresh ≡ true → Advances db after)
    → Advances db (insert_row fresh known after db).1
unfolding insert_row
inserted true true after db h = h refl
inserted true false after db h = Advances-refl db
inserted false known after db h = Advances-refl db

pub Sound-insert_enrollment :
    (r : EnrollmentRow) → r.code.failed_attempts ≤ r.code.max_attempts → Sound (insert_enrollment r)
unfolding insert_enrollment
Sound-insert_enrollment r h = record {
  at = λ db. inserted _ _ _ db λ e v. (
    record {
      unique = Unique-append db.enrollments r (ground arith) v.unique;
      bounded = All-append _ db.enrollments (r ∷ []) v.bounded (h, tt);
    },
    assumption (Evolves-refl db, Grows-append CodeEvolves CodeEvolves-refl db.enrollments (r ∷ [])),
  );
}

-- Where no row passes a test, nothing holds of one that does.
no_rows :
    (p : EnrollmentRow → Bool) (P : EnrollmentRow → Type 0) (rows : List EnrollmentRow)
    → count_where p rows ≡ 0
    → All (λ s. p s ≡ true → P s) rows
unfolding count_where
no_rows p P [] h = tt
no_rows p P (r ∷ rs) h = (λ e. absurd (ground arith), no_rows p P rs (ground arith))

-- The row that an id selects is the only one with it.
pub only_code :
    (id : String) (rows : List EnrollmentRow) (r : EnrollmentRow)
    → Unique rows
    → find_where (enrollment_has_id id) rows ≡ some r
    → All (λ s. enrollment_has_id r.code.id s ≡ true → s ≡ r) rows
unfolding find_where
only_code id [] r u h = tt
only_code id (x ∷ rs) r u h = split (enrollment_has_id id x) refl h (only_code id rs r u.1)
  where
    split :
        (b : Bool)
        → enrollment_has_id id x ≡ b
        → (if b then some x else find_where (enrollment_has_id id) rs) ≡ some r
        → (find_where (enrollment_has_id id) rs ≡ some r
            → All (λ s. enrollment_has_id r.code.id s ≡ true → s ≡ r) rs)
        → All (λ s. enrollment_has_id r.code.id s ≡ true → s ≡ r) (x ∷ rs)
    split true e k ih =
        let same : x ≡ r = ground arith in
        (
          λ _. same,
          no_rows _ _ rs (
              subst (λ (s : EnrollmentRow). count_where (enrollment_has_id s.code.id) rs ≡ 0) same
                u.0),
        )
    split false e k ih = (
      λ t. absurd (
          ground (
            arith,
            find_where-test (enrollment_has_id id) rs r k,
            eq_iff x.code.id r.code.id,
            eq_iff r.code.id id,
            eq_iff x.code.id id,
          )),
      ih k,
    )
