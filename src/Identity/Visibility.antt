-- ===== src/Identity/Visibility.antt =====
-- What ListProjects of internal/control/sqlite/store.go shows is what AuthorizeProject grants.
use autback.Prelude.{
  order_by, select_where, subst, sym, ◌≡◌, refl, Bool, true, false, not, ◌&&◌, List, arith,
  if◌then◌else◌, str_eq, eq_iff, ◌↔◌,
}
use autback.Identity.Model.{Principal, Project}
use autback.Identity.Tables.{Accounts, Error, ok, raise, select, ◌>>=◌}
use autback.Identity.Users.{grant_project}
use autback.Identity.Listings.{slug_lt, has_member, visible, list_projects}
use autback.Identity.Among.{Among, order_by-Among, select_where-Among}

-- The test that the principal's query makes.
abbrev shows : Accounts → Principal → Project → Bool
shows db who p =
    if not (str_eq who.project_id "")
    then str_eq p.id who.project_id
    else if who.admin
    then true
    else has_member db who.user_id p

visible-Among :
    (db : Accounts) (who : Principal) (p : Project)
    → Among p (visible db who) ↔ (Among p db.projects × (shows db who p ≡ true))
visible-Among db who p = split (str_eq who.project_id "") who.admin
  where
    split :
        (named admin : Bool)
        → Among p (
            if not named
            then select_where (λ q. str_eq q.id who.project_id) db.projects
            else if admin
            then db.projects
            else select_where (has_member db who.user_id) db.projects)
          ↔ (Among p db.projects
              × ((if not named
                    then str_eq p.id who.project_id
                    else if admin
                    then true
                    else has_member db who.user_id p)
                  ≡ true))
    split false admin = select_where-Among (λ q. str_eq q.id who.project_id) p db.projects
    split true true = (λ h. (h, refl), λ h. h.0)
    split true false = select_where-Among (has_member db who.user_id) p db.projects

grants :
    (db : Accounts) (who : Principal) (p : Project)
    → (str_eq who.project_id "" && str_eq who.user_id "") ≡ false
    → (shows db who p ≡ true) ↔ ((grant_project who p db).0 ≡ ok p)
unfolding ◌>>=◌
grants db who p h = (
  λ k. ground (arith, eq_iff p.id who.project_id, eq_iff who.project_id p.id),
  λ k. ground (arith, eq_iff p.id who.project_id, eq_iff who.project_id p.id),
)

listing :
    (who : Principal) (db : Accounts) (ps : List Project)
    → (list_projects who db).0 ≡ ok ps
    → ((str_eq who.project_id "" && str_eq who.user_id "") ≡ false)
      × (order_by slug_lt (visible db who) ≡ ps)
unfolding list_projects ◌>>=◌
listing who db ps h = split (str_eq who.project_id "" && str_eq who.user_id "") h
  where
    split :
        (b : Bool)
        → ((if b
              then raise Error.forbidden
              else select λ (a : Accounts). order_by slug_lt (visible a who))
            db).0
          ≡ ok ps
        → (b ≡ false) × (order_by slug_lt (visible db who) ≡ ps)
    split true k = absurd (cc)
    split false k = (refl, cc)

-- ListProjects lists exactly the projects that AuthorizeProject grants: of the projects in the
-- tables, one is in its answer if and only if the principal is granted it.
pub list_projects-granted :
    (who : Principal) (db : Accounts) (ps : List Project) (p : Project)
    → (list_projects who db).0 ≡ ok ps
    → Among p db.projects
    → Among p ps ↔ ((grant_project who p db).0 ≡ ok p)
list_projects-granted who db ps p listed held =
    let (known, same) = listing who db ps listed in
    let ordered = order_by-Among slug_lt p (visible db who) in
    let seen = visible-Among db who p in
    let granted = grants db who p known in
    (
      λ h. granted.0 (seen.0 (ordered.0 (subst (Among p) (sym same) h))).1,
      λ h. subst (Among p) same (ordered.1 (seen.1 (held, granted.1 h))),
    )
