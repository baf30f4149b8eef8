-- ===== src/Identity/Listings.antt =====
-- internal/control/sqlite/store.go: the queries on the accounts that only read.
use autback.Prelude.{
  String, Bool, ◌&&◌, ◌||◌, not, Option, none, some, List, ltb, ◌==◌, str_eq, if◌then◌else◌,
  find_where, select_where, order_by, text_pair_lt, map,
}
use autback.Identity.Model.{
  PrincipalKind, Principal, Project, ProjectImageEvent, ExternalIdentity, DeviceToken, GithubTrust,
  principal_kind_eq,
}
use autback.Identity.Tables.{
  Accounts, Action, Error, TokenRow, pure, raise, select, check, ◌>>=◌, ◌>>◌, exists_where,
}
use autback.Identity.Statements.{member_is, identity_is}
use autback.Identity.Text.{trim_space}
use autback.Identity.Secrets.{Platform}
use autback.Identity.Users.{authorize_project, coalesce}
use autback.Identity.Logins.{is_owned_by}
use autback.Identity.Tokens.{is_device_user}

-- ORDER BY slug,id
abbrev pub slug_lt : Project → Project → Bool
slug_lt p q = text_pair_lt p.slug p.id q.slug q.id

-- A project that the user is a member of. The key of a member makes the join one row.
abbrev pub has_member : Accounts → String → Project → Bool
has_member db user p = exists_where (member_is p.id user) db.members

-- The rows of the query that the principal's case makes.
abbrev pub visible : Accounts → Principal → List Project
visible db principal =
    if not (str_eq principal.project_id "")
    then select_where (λ p. str_eq p.id principal.project_id) db.projects
    else if principal.admin
    then db.projects
    else select_where (has_member db principal.user_id) db.projects

-- ListProjects
unfoldable pub list_projects : Principal → Action (List Project)
list_projects principal =
    if str_eq principal.project_id "" && str_eq principal.user_id ""
    then raise Error.forbidden
    else select λ db. order_by slug_lt (visible db principal)

-- ORDER BY created_at DESC,id DESC
abbrev pub event_gt : ProjectImageEvent → ProjectImageEvent → Bool
event_gt a b =
    ltb b.created_at a.created_at || a.created_at == b.created_at && text_pair_lt b.id "" a.id ""

-- ListProjectImageHistory
unfoldable pub list_project_image_history : String → Action (List ProjectImageEvent)
list_project_image_history project_id =
    select
      λ db. order_by event_gt (select_where (λ e. str_eq e.project_id project_id) db.image_events)

abbrev pub token_of_row : TokenRow → DeviceToken
token_of_row r = record {
  id = r.id;
  name = r.name;
  user_id = coalesce r.user_id;
  created_at = r.created_at;
  expires_at = r.expires_at;
  last_used_at = r.last_used_at;
  revoked_at = r.revoked_at;
}

abbrev pub is_device_token_of : String → TokenRow → Bool
is_device_token_of user r =
    principal_kind_eq r.kind PrincipalKind.device && is_owned_by user r.user_id

-- ListDeviceTokens
unfoldable pub list_device_tokens : Principal → Action (List DeviceToken)
list_device_tokens principal = do
  check (is_device_user principal) Error.forbidden
  select λ db. map token_of_row (
      order_by (λ (a b : TokenRow). ltb b.created_at a.created_at)
        (select_where (is_device_token_of principal.user_id) db.tokens))

-- ListGitHubTrusts
unfoldable pub list_github_trusts : Principal → String → Action (List GithubTrust)
list_github_trusts principal selector = do
  p ← authorize_project principal selector
  select λ db.
      order_by (λ (a b : GithubTrust). ltb a.created_at b.created_at)
        (select_where (λ (t : GithubTrust). str_eq t.project_id p.id) db.trusts)

abbrev pub found_identity : Option ExternalIdentity → Action ExternalIdentity
found_identity none = raise Error.not_found
found_identity (some i) = pure i

-- ExternalIdentity
unfoldable pub external_identity : Platform → String → String → Action ExternalIdentity
external_identity env provider subject = do
  found ← select λ db.
      find_where (identity_is (env.to_lower (trim_space provider)) (trim_space subject))
        db.identities
  found_identity found
