-- ===== src/Identity/Tables.antt =====
-- The tables of internal/control/sqlite/store.go that say who may do what, their constraints, and
-- statements and transactions on them. A column that may be NULL is an option, and the JSON columns
-- are kept decoded.
use autback.Prelude.{
  ℕ, String, Bool, true, false, not, Option, none, some, List, ◌==◌, str_eq, count_where,
  select_where,
}
use autback.Identity.Model.{
  PrincipalKind, User, Project, ExternalIdentity, ProjectImageEvent, EnrollmentCode, GithubTrust,
}

pub data Error : Type 0 where
  already_exists forbidden login_pending not_found unauthenticated unique foreign_key : Error
  required : Error
  no_rows : Error  -- sql.ErrNoRows, passed on as it is
  enrollment_refused : EnrollmentCode → Error  -- ErrUnauthenticated, with the code as it was read

pub data Result {ℓ} (A : Type ℓ) : Type ℓ where
  ok : A → Result A
  err : Error → Result A

-- project_members
pub record MemberRow : Type 0 where
  pub project_id : String
  pub user_id : String
  pub created_at : ℕ

-- access_tokens
pub record TokenRow : Type 0 where
  pub id : String
  pub kind : PrincipalKind
  pub user_id : Option String
  pub project_id : Option String
  pub name : String
  pub subject : String
  pub digest : String
  pub created_at : ℕ
  pub expires_at : Option ℕ
  pub last_used_at : Option ℕ
  pub revoked_at : Option ℕ

-- enrollment_codes
pub record EnrollmentRow : Type 0 where
  pub code : EnrollmentCode
  pub open code use *
  pub digest : String

-- oauth_login_states
pub record OauthRow : Type 0 where
  pub id : String
  pub digest : String
  pub return_to : String
  pub code_verifier : String
  pub created_at : ℕ
  pub expires_at : ℕ
  pub consumed_at : Option ℕ

-- device_logins
pub record LoginRow : Type 0 where
  pub id : String
  pub user_code : String
  pub device_name : String
  pub digest : String
  pub user_id : Option String
  pub created_at : ℕ
  pub expires_at : ℕ
  pub approved_at : Option ℕ
  pub consumed_at : Option ℕ

-- audit_events
pub record AuditRow : Type 0 where
  pub id : ℕ
  pub actor_kind : PrincipalKind
  pub actor_id : String
  pub project_id : Option String
  pub action : String
  pub target_id : String
  pub created_at : ℕ
  pub metadata : List (String × String)

pub record Accounts : Type 0 where
  pub users : List User
  pub projects : List Project
  pub members : List MemberRow
  pub identities : List ExternalIdentity
  pub tokens : List TokenRow
  pub enrollments : List EnrollmentRow
  pub oauth_states : List OauthRow
  pub logins : List LoginRow
  pub trusts : List GithubTrust
  pub image_events : List ProjectImageEvent
  pub audit_events : List AuditRow
  pub next_audit : ℕ  -- AUTOINCREMENT

-- A statement or a method: its result, and the tables after it.
abbrev pub Action : Type 0 → Type 0
Action A = Accounts → Result A × Accounts

module _ {A : Type 0} where
  unfoldable pub pure : A → Action A
  pure a db = (ok a, db)

  unfoldable pub raise : Error → Action A
  raise e db = (err e, db)

  -- A query: it reads the tables and changes nothing.
  unfoldable pub select : (Accounts → A) → Action A
  select f db = (ok (f db), db)

  -- An error rolls back to the tables at the begin.
  abbrev pub commit_or_rollback : Accounts → Result A × Accounts → Result A × Accounts
  commit_or_rollback begin (ok a, db) = (ok a, db)
  commit_or_rollback begin (err e, db) = (err e, begin)

  unfoldable pub transaction : Action A → Action A
  transaction m db = commit_or_rollback db (m db)

unfoldable pub check : Bool → Error → Action Unit
check true e db = (ok tt, db)
check false e db = (err e, db)

abbrev pub continue : {A B : Type 0} → (A → Action B) → Result A × Accounts → Result B × Accounts
continue f (ok a, db) = f a db
continue f (err e, db) = (err e, db)

infixl 5 ◌>>=◌ ◌>>◌
-- Opening this opens the other actions too.
unfoldable pub ◌>>=◌ : {A B : Type 0} → Action A → (A → Action B) → Action B
unfolding pure raise select transaction check
◌>>=◌ m f db = continue f (m db)

abbrev pub ◌>>◌ : {A B : Type 0} → Action A → Action B → Action B
m >> k = m >>= λ _. k

abbrev pub exists_where {ℓ} : {A : Type ℓ} → (A → Bool) → List A → Bool
exists_where p rows = not (count_where p rows == 0)

-- DELETE
abbrev pub delete_where {ℓ} : {A : Type ℓ} → (A → Bool) → List A → List A
delete_where p rows = select_where (λ r. not (p r)) rows

abbrev pub user_has_id : String → User → Bool
user_has_id id r = str_eq r.id id

abbrev pub project_has_id : String → Project → Bool
project_has_id id r = str_eq r.id id

abbrev pub token_has_id : String → TokenRow → Bool
token_has_id id r = str_eq r.id id

abbrev pub is_user : Accounts → String → Bool
is_user db id = exists_where (user_has_id id) db.users

abbrev pub is_project : Accounts → String → Bool
is_project db id = exists_where (project_has_id id) db.projects

-- A foreign key that is not NULL names a row.
abbrev pub references : (String → Bool) → Option String → Bool
references known none = true
references known (some id) = known id
