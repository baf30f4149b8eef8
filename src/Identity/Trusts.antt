-- ===== src/Identity/Trusts.antt =====
-- internal/control/sqlite/store.go: which GitHub workflow runs may act for a project, and the audit.
use autback.Prelude.{
  ℕ, String, Bool, true, false, ◌&&◌, ◌||◌, not, Option, none, some, List, [], ◌∷◌, ◌==◌, str_eq,
  if◌then◌else◌, find_where, select_where,
}
use autback.Identity.Model.{PrincipalKind, Principal, GithubTrust, GithubClaims}
use autback.Identity.Tables.{
  Action, Error, Result, ok, err, Accounts, pure, raise, select, check, ◌>>=◌, ◌>>◌,
}
use autback.Identity.Statements.{insert_trust, insert_audit_event, update_trusts, trust_has_id}
use autback.Identity.Secrets.{random_id}
use autback.Identity.Glob.{glob}
use autback.Identity.Users.{is_null, project, authorize_project}
use autback.Identity.Images.{actor_id}

-- contains
abbrev pub contains : List String → String → Bool
contains [] value = false
contains (s ∷ ss) value = str_eq s value || contains ss value

-- len(trust.Events) != 0
abbrev pub has_events : List String → Bool
has_events [] = false
has_events (s ∷ ss) = true

abbrev pub is_complete : GithubTrust → Bool
is_complete t =
    not (str_eq t.repository_owner_id "")
    && not (str_eq t.repository_id "")
    && not (str_eq t.workflow_ref "")
    && not (str_eq t.ref "")
    && has_events t.events

-- A trust in pull requests wants an environment.
abbrev pub is_protected : GithubTrust → Bool
is_protected t = not (contains t.events "pull_request" && str_eq t.environment "")

-- CreateGitHubTrust
unfoldable pub create_github_trust : ℕ → List ℕ → Principal → GithubTrust → Action GithubTrust
create_github_trust now bytes principal trust = do
  check principal.admin Error.forbidden
  p ← authorize_project principal trust.project_id
  check (is_complete trust) Error.required
  check (is_protected trust) Error.required
  let new : GithubTrust = record trust {
    id = random_id "ght" bytes;
    project_id = p.id;
    created_at = now;
  }
  insert_trust (record new { revoked_at = none })
  pure new

-- WHERE id=? AND revoked_at IS NULL
abbrev pub is_live_trust : String → GithubTrust → Bool
is_live_trust id r = trust_has_id id r && is_null r.revoked_at

abbrev pub revoke_trust : ℕ → GithubTrust → GithubTrust
revoke_trust now r = record r { revoked_at = some now }

-- RevokeGitHubTrust
unfoldable pub revoke_github_trust : ℕ → Principal → String → Action Unit
revoke_github_trust now principal id = do
  check principal.admin Error.forbidden
  n ← update_trusts (is_live_trust id) (revoke_trust now)
  check (n == 1) Error.not_found

-- exactOptional
abbrev pub exact_optional : String → String → Bool
exact_optional pattern value = str_eq pattern "" || str_eq pattern value

-- `glob`, which ends within its fuel.
abbrev pub glob_test : String → String → Bool
glob_test pattern value = elim (glob pattern value) [ none ↦ false | some b ↦ b ]

abbrev pub trust_covers : GithubClaims → GithubTrust → Bool
trust_covers claims t =
    glob_test t.workflow_ref claims.workflow_ref
    && glob_test t.ref claims.ref
    && exact_optional t.environment claims.environment
    && contains t.events claims.event_name

-- WHERE project_id=? AND repository_owner_id=? AND repository_id=? AND revoked_at IS NULL
abbrev pub is_candidate : String → GithubClaims → GithubTrust → Bool
is_candidate project_id claims t =
    str_eq t.project_id project_id
    && str_eq t.repository_owner_id claims.repository_owner_id
    && str_eq t.repository_id claims.repository_id
    && is_null t.revoked_at

abbrev pub found_trust : Option GithubTrust → Action GithubTrust
found_trust none = raise Error.forbidden
found_trust (some t) = pure t

-- Every error of the project's lookup is ErrForbidden.
abbrev pub or_forbidden : {A : Type 0} → Result A × Accounts → Result A × Accounts
or_forbidden (ok a, db) = (ok a, db)
or_forbidden (err e, db) = (err Error.forbidden, db)

-- MatchGitHubTrust: the first candidate that covers the claims.
unfoldable pub match_github_trust : String → GithubClaims → Action GithubTrust
match_github_trust selector claims = do
  p ← λ db. or_forbidden (project selector db)
  found ←
      select
        λ db. find_where (trust_covers claims) (select_where (is_candidate p.id claims) db.trusts)
  found_trust found

-- nullable
abbrev pub nullable : String → Option String
nullable s = if str_eq s "" then none else some s

-- Audit
unfoldable pub audit :
    ℕ → Principal → String → String → String → List (String × String) → Action Unit
audit now principal project_id action target_id metadata = insert_audit_event (record {
  id = 0;
  actor_kind = principal.kind;
  actor_id = actor_id principal;
  project_id = nullable project_id;
  action = action;
  target_id = target_id;
  created_at = now;
  metadata = metadata;
})

abbrev pub dispatcher_principal : Principal
dispatcher_principal = record {
  kind = PrincipalKind.system;
  token_id = "";
  user_id = "";
  project_id = "";
  admin = false;
  subject = "dispatcher";
}

-- RecordSecretAccess
unfoldable pub record_secret_access : ℕ → String → String → String → Action Unit
record_secret_access now project_id job_id name =
    audit now dispatcher_principal project_id "job.secret.access" job_id (("name", name) ∷ [])
