-- ===== src/Identity/Users.antt =====
-- internal/control/sqlite/store.go: users, projects' members, and what a token's principal may do.
-- `now` is the clock, and the random bytes are arguments.
use autback.Prelude.{
  ℕ, String, Bool, true, false, ◌&&◌, ◌||◌, not, Option, none, some, List, ltb, str_eq,
  if◌then◌else◌, find_where,
}
use autback.Identity.Model.{
  PrincipalKind, Principal, User, Project, Bootstrap, BootstrapResult, principal_kind_eq,
}
use autback.Identity.Tables.{
  Action, Error, TokenRow, MemberRow, pure, raise, select, transaction, check, ◌>>=◌, ◌>>◌,
  exists_where, user_has_id, token_has_id,
}
use autback.Identity.Statements.{
  insert_user, insert_project, insert_member, insert_token, update_tokens, member_is,
}
use autback.Identity.Text.{is_blank}
use autback.Identity.Secrets.{Platform, Entropy, NewSecret, new_token, random_id, parse_token}

abbrev pub user_token : NewSecret → PrincipalKind → String → String → ℕ → Option ℕ → TokenRow
user_token new kind user name now expires = record {
  id = new.id;
  kind = kind;
  user_id = some user;
  project_id = none;
  name = name;
  subject = "";
  digest = new.digest;
  created_at = now;
  expires_at = expires;
  last_used_at = none;
  revoked_at = none;
}

abbrev pub new_project : String → String → String → ℕ → Project
new_project id slug name now = record {
  id = id;
  slug = slug;
  name = name;
  active_image = "";
  previous_image = "";
  allow_image_overrides = true;
  created_at = now;
}

abbrev pub new_user : String → String → Bool → ℕ → User
new_user id name admin now = record { id = id; name = name; admin = admin; created_at = now }

abbrev pub new_member : String → String → ℕ → MemberRow
new_member project user now = record { project_id = project; user_id = user; created_at = now }

-- Bootstrap
unfoldable pub bootstrap :
    Platform → ℕ → List ℕ → List ℕ → Entropy → Bootstrap → Action BootstrapResult
bootstrap env now user_bytes project_bytes random input =
    let name = if str_eq input.project_name "" then input.project_slug else input.project_name in
    let user = new_user (random_id "usr" user_bytes) input.user_name true now in
    let project = new_project (random_id "prj" project_bytes) input.project_slug name now in
    let new = new_token env "dt" random in
    do
      check
          (not
            (is_blank input.user_name || is_blank input.project_slug || is_blank input.token_name))
          Error.required
      transaction do
        users ← select λ db. db.users
        check (not (exists_where (λ _. true) users)) Error.already_exists
        insert_user user
        insert_project project
        insert_member (new_member project.id user.id now)
        insert_token (user_token new PrincipalKind.device user.id input.token_name now none)
        pure (record { user = user; project = project; token = new.secret })

-- COALESCE(column, '')
abbrev pub coalesce : Option String → String
coalesce none = ""
coalesce (some s) = s

-- expires.Valid && now.After(expires)
abbrev pub is_expired : ℕ → Option ℕ → Bool
is_expired now none = false
is_expired now (some t) = ltb t now

abbrev pub is_null {ℓ} : {A : Type ℓ} → Option A → Bool
is_null none = true
is_null (some a) = false

-- The checks on the row of a token.
abbrev pub token_admits : Platform → ℕ → String → PrincipalKind → TokenRow → Bool
token_admits env now token kind r =
    principal_kind_eq r.kind kind
    && is_null r.revoked_at
    && not (is_expired now r.expires_at)
    && str_eq (env.digest token) r.digest

abbrev pub is_admin : Option User → Action Bool
is_admin none = raise Error.unauthenticated
is_admin (some u) = pure u.admin

-- The admin flag of a principal with no user stays false.
abbrev pub admin_of : String → Action Bool
admin_of user =
    if str_eq user ""
    then pure false
    else do found ← select λ db. find_where (user_has_id user) db.users; is_admin found

abbrev pub use_token : ℕ → TokenRow → TokenRow
use_token now r = record r { last_used_at = some now }

abbrev pub authenticate_row :
    Platform → ℕ → ℕ → String → PrincipalKind → Option TokenRow → Action Principal
authenticate_row env now used token kind none = raise Error.unauthenticated
authenticate_row env now used token kind (some r) = do
  check (token_admits env now token kind r) Error.unauthenticated
  admin ← admin_of (coalesce r.user_id)
  update_tokens (token_has_id r.id) (use_token used)
  pure (record {
    kind = kind;
    token_id = r.id;
    user_id = coalesce r.user_id;
    project_id = coalesce r.project_id;
    admin = admin;
    subject = r.subject;
  })

abbrev pub authenticate_parsed :
    Platform → ℕ → ℕ → String → Option (PrincipalKind × String) → Action Principal
authenticate_parsed env now used token none = raise Error.unauthenticated
authenticate_parsed env now used token (some (kind, id)) = do
  found ← select λ db. find_where (token_has_id id) db.tokens
  authenticate_row env now used token kind found

-- Authenticate
unfoldable pub authenticate : Platform → ℕ → ℕ → String → Action Principal
authenticate env now used token = authenticate_parsed env now used token (parse_token token)

abbrev pub found_project : Option Project → Action Project
found_project none = raise Error.not_found
found_project (some p) = pure p

-- WHERE id=? OR slug=?. Of two rows, where the query leaves the choice to SQLite, the first that was
-- inserted is taken.
abbrev pub is_selected : String → Project → Bool
is_selected selector p = str_eq p.id selector || str_eq p.slug selector

-- project
unfoldable pub project : String → Action Project
project selector = do
  found ← select λ db. find_where (is_selected selector) db.projects
  found_project found

-- What AuthorizeProject asks of a principal once it has the project.
abbrev pub grant_project : Principal → Project → Action Project
grant_project principal p =
    if not (str_eq principal.project_id "")
    then (if str_eq principal.project_id p.id then pure p else raise Error.forbidden)
    else if str_eq principal.user_id ""
    then raise Error.forbidden
    else if principal.admin
    then pure p
    else do
      member ← select λ db. exists_where (member_is p.id principal.user_id) db.members
      check member Error.forbidden
      pure p

-- AuthorizeProject
unfoldable pub authorize_project : Principal → String → Action Project
authorize_project principal selector = do p ← project selector; grant_project principal p

-- CreateUser
unfoldable pub create_user : ℕ → List ℕ → Principal → String → Bool → Action User
create_user now bytes principal name admin =
    let user = new_user (random_id "usr" bytes) name admin now in
    do
      check principal.admin Error.forbidden
      check (not (is_blank name)) Error.required
      insert_user user
      pure user

-- INSERT OR IGNORE: a row that is there already is left, and no row is affected.
unfoldable pub insert_or_ignore_member : String → String → ℕ → Action Bool
insert_or_ignore_member project_id user_id now = do
  there ← select λ db. exists_where (member_is project_id user_id) db.members
  if there then pure false else (do insert_member (new_member project_id user_id now); pure true)

-- AddProjectMember
unfoldable pub add_project_member : ℕ → Principal → String → String → Action Unit
add_project_member now principal selector user_id = do
  check principal.admin Error.forbidden
  p ← authorize_project principal selector
  inserted ← insert_or_ignore_member p.id user_id now
  known ← select λ db. exists_where (user_has_id user_id) db.users
  check (inserted || known) Error.not_found
