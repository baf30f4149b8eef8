-- ===== src/Identity/Statements.antt =====
-- The INSERT, UPDATE and DELETE statements on the tables of Identity/Tables.
use autback.Prelude.{
  ℕ, suc, String, Bool, true, ◌&&◌, not, [], ◌∷◌, ◌++◌, str_eq, if◌then◌else◌, update_where,
  count_where,
}
use autback.Identity.Model.{User, Project, ExternalIdentity, ProjectImageEvent, GithubTrust}
use autback.Identity.Tables.{
  Accounts, Action, Error, Result, ok, err, MemberRow, TokenRow, EnrollmentRow, OauthRow, LoginRow,
  AuditRow, exists_where, delete_where, user_has_id, project_has_id, token_has_id, is_user,
  is_project, references,
}

-- An INSERT: the keys are new, then the foreign keys name rows.
unfoldable pub insert_row : Bool → Bool → Accounts → Action Unit
insert_row fresh known after db =
    if fresh
    then (if known then (ok tt, after) else (err Error.foreign_key, db))
    else (err Error.unique, db)

abbrev pub as_exists : {A : Type 0} → Result A × Accounts → Result A × Accounts
as_exists (err Error.unique, db) = (err Error.already_exists, db)
as_exists r = r

-- The error of a UNIQUE constraint becomes ErrAlreadyExists.
unfoldable pub duplicate_as_exists : {A : Type 0} → Action A → Action A
duplicate_as_exists m db = as_exists (m db)

unfoldable pub insert_user : User → Action Unit
insert_user r db =
    insert_row (not (exists_where (user_has_id r.id) db.users)) true
      (record db { users = db.users ++ r ∷ [] }) db

-- The id is new, and the slug is.
unfoldable pub insert_project : Project → Action Unit
insert_project r db =
    insert_row
      (not (exists_where (project_has_id r.id) db.projects)
        && not (exists_where (λ (s : Project). str_eq s.slug r.slug) db.projects))
      true (record db { projects = db.projects ++ r ∷ [] }) db

abbrev pub member_is : String → String → MemberRow → Bool
member_is project user r = str_eq r.project_id project && str_eq r.user_id user

unfoldable pub insert_member : MemberRow → Action Unit
insert_member r db =
    insert_row (not (exists_where (member_is r.project_id r.user_id) db.members))
      (is_project db r.project_id && is_user db r.user_id)
      (record db { members = db.members ++ r ∷ [] }) db

abbrev pub identity_is : String → String → ExternalIdentity → Bool
identity_is provider subject r = str_eq r.provider provider && str_eq r.subject subject

abbrev pub identity_of : String → String → ExternalIdentity → Bool
identity_of provider user r = str_eq r.provider provider && str_eq r.user_id user

-- PRIMARY KEY(provider, subject), UNIQUE(provider, user_id)
unfoldable pub insert_identity : ExternalIdentity → Action Unit
insert_identity r db =
    insert_row
      (not (exists_where (identity_is r.provider r.subject) db.identities)
        && not (exists_where (identity_of r.provider r.user_id) db.identities))
      (is_user db r.user_id) (record db { identities = db.identities ++ r ∷ [] }) db

unfoldable pub insert_token : TokenRow → Action Unit
insert_token r db =
    insert_row (not (exists_where (token_has_id r.id) db.tokens))
      (references (is_user db) r.user_id && references (is_project db) r.project_id)
      (record db { tokens = db.tokens ++ r ∷ [] }) db

abbrev pub enrollment_has_id : String → EnrollmentRow → Bool
enrollment_has_id id r = str_eq r.id id

unfoldable pub insert_enrollment : EnrollmentRow → Action Unit
insert_enrollment r db =
    insert_row (not (exists_where (enrollment_has_id r.id) db.enrollments)) (is_user db r.user_id)
      (record db { enrollments = db.enrollments ++ r ∷ [] }) db

abbrev pub oauth_has_id : String → OauthRow → Bool
oauth_has_id id r = str_eq r.id id

unfoldable pub insert_oauth_state : OauthRow → Action Unit
insert_oauth_state r db =
    insert_row (not (exists_where (oauth_has_id r.id) db.oauth_states)) true
      (record db { oauth_states = db.oauth_states ++ r ∷ [] }) db

abbrev pub login_has_id : String → LoginRow → Bool
login_has_id id r = str_eq r.id id

abbrev pub login_has_code : String → LoginRow → Bool
login_has_code code r = str_eq r.user_code code

unfoldable pub insert_login : LoginRow → Action Unit
insert_login r db =
    insert_row
      (not (exists_where (login_has_id r.id) db.logins)
        && not (exists_where (login_has_code r.user_code) db.logins))
      (references (is_user db) r.user_id) (record db { logins = db.logins ++ r ∷ [] }) db

abbrev pub trust_has_id : String → GithubTrust → Bool
trust_has_id id r = str_eq r.id id

unfoldable pub insert_trust : GithubTrust → Action Unit
insert_trust r db =
    insert_row (not (exists_where (trust_has_id r.id) db.trusts)) (is_project db r.project_id)
      (record db { trusts = db.trusts ++ r ∷ [] }) db

unfoldable pub insert_image_event : ProjectImageEvent → Action Unit
insert_image_event r db =
    insert_row (not (exists_where (λ (s : ProjectImageEvent). str_eq s.id r.id) db.image_events))
      (is_project db r.project_id) (record db { image_events = db.image_events ++ r ∷ [] }) db

unfoldable pub insert_audit_event : AuditRow → Action Unit
insert_audit_event r db = (
  ok tt,
  record db {
    audit_events = db.audit_events ++ record r { id = db.next_audit } ∷ [];
    next_audit = suc db.next_audit;
  },
)

unfoldable pub update_tokens : (TokenRow → Bool) → (TokenRow → TokenRow) → Action ℕ
update_tokens p f db =
    (ok (count_where p db.tokens), record db { tokens = update_where p f db.tokens })

unfoldable pub update_enrollments :
    (EnrollmentRow → Bool) → (EnrollmentRow → EnrollmentRow) → Action ℕ
update_enrollments p f db =
    (ok (count_where p db.enrollments), record db { enrollments = update_where p f db.enrollments })

unfoldable pub update_logins : (LoginRow → Bool) → (LoginRow → LoginRow) → Action ℕ
update_logins p f db =
    (ok (count_where p db.logins), record db { logins = update_where p f db.logins })

unfoldable pub update_oauth_states : (OauthRow → Bool) → (OauthRow → OauthRow) → Action ℕ
update_oauth_states p f db = (
  ok (count_where p db.oauth_states),
  record db { oauth_states = update_where p f db.oauth_states },
)

unfoldable pub update_identities :
    (ExternalIdentity → Bool) → (ExternalIdentity → ExternalIdentity) → Action ℕ
update_identities p f db =
    (ok (count_where p db.identities), record db { identities = update_where p f db.identities })

unfoldable pub update_projects : (Project → Bool) → (Project → Project) → Action ℕ
update_projects p f db =
    (ok (count_where p db.projects), record db { projects = update_where p f db.projects })

unfoldable pub update_trusts : (GithubTrust → Bool) → (GithubTrust → GithubTrust) → Action ℕ
update_trusts p f db =
    (ok (count_where p db.trusts), record db { trusts = update_where p f db.trusts })

unfoldable pub delete_logins : (LoginRow → Bool) → Action Unit
delete_logins p db = (ok tt, record db { logins = delete_where p db.logins })

unfoldable pub delete_oauth_states : (OauthRow → Bool) → Action Unit
delete_oauth_states p db = (ok tt, record db { oauth_states = delete_where p db.oauth_states })

-- The affected rows.
unfoldable pub delete_identities : (ExternalIdentity → Bool) → Action ℕ
delete_identities p db =
    (ok (count_where p db.identities), record db { identities = delete_where p db.identities })
