-- ===== src/Identity/Examples.antt =====
-- The theorems on the accounts at concrete tables, with an identity for a digest.
use mathlib.Core.Bool.{false≢true}
use autback.Prelude.{
  order_by, ℕ, ◌≡◌, ◌≢◌, refl, String, Bool, true, false, none, some, List, [], ◌∷◌, arith,
  find_where, count_where, update_where, select_where, str_eq, if◌then◌else◌, eq_iff, inl, ◌↔◌,
}
use autback.Identity.Model.{
  PrincipalKind, Principal, User, Project, EnrollmentCode, GithubTrust, GithubClaims,
  IssuedDeviceToken, IssuedAccessToken,
}
use autback.Identity.Tables.{
  Accounts, Error, TokenRow, EnrollmentRow, ok, err, ◌>>=◌, token_has_id, exists_where,
}
use autback.Identity.Statements.{enrollment_has_id, insert_token, insert_row, update_enrollments}
use autback.Identity.Text.{hex_encode}
use autback.Identity.Secrets.{Platform, Entropy, parse_token, parse_opaque, new_token, new_opaque}
use autback.Identity.Users.{grant_project, authenticate, project, authorize_project}
use autback.Identity.Tokens.{
  exchange_enrollment_code, exchange_code, create_project_session, issued_device_token,
}
use autback.Identity.Trusts.{match_github_trust}
use autback.Identity.Listings.{list_projects}
use autback.Identity.Visibility.{list_projects-granted}
use autback.Identity.Glob.{glob, runes}
use autback.Identity.GlobMatches.{Matches, star_free, one, skip, take, done}
use autback.Identity.GlobLoop.{glob-Answers}
use autback.Identity.RoundTrip.{parse_token-new_token, parse_opaque-new_opaque}
use autback.Identity.History.{Call, run}
use autback.Identity.Evolution.{Inv, Evolves}
use autback.Identity.Safety.{run_keeps_accounts}
use autback.Identity.Spent.{revoked_token_is_dead, closed_code_stays_closed, code_is_exchanged_once}
use autback.Identity.Sessions.{project_session_is_confined}
use autback.Identity.Among.{Among}
use autback.Identity.Workflows.{Admits, matched_trust-Admits, admitted_run_is_matched}
use autback.Identity.Privileges.{Same}
use autback.Identity.Unprivileged.{only_admins_change}

abbrev env : Platform
env = record { to_lower = λ s. s; to_upper = λ s. s; digest = λ s. s }

abbrev entropy : Entropy
entropy = record { id_bytes = 1 ∷ 171 ∷ []; secret_text = "secret" }

abbrev ada : User
ada = record { id = "usr1"; name = "Ada"; admin = true; created_at = 1 }

abbrev admin : Principal
admin = record {
  kind = PrincipalKind.device;
  token_id = "tok1";
  user_id = "usr1";
  project_id = "";
  admin = true;
  subject = "";
}

abbrev shop : Project
shop = record {
  id = "prj1";
  slug = "shop";
  name = "Shop";
  active_image = "";
  previous_image = "";
  allow_image_overrides = true;
  created_at = 1;
}

abbrev revoked_token : TokenRow
revoked_token = record {
  id = "tok1";
  kind = PrincipalKind.device;
  user_id = some "usr1";
  project_id = none;
  name = "laptop";
  subject = "";
  digest = "autback_dt_tok1_s";
  created_at = 2;
  expires_at = none;
  last_used_at = none;
  revoked_at = some 5;
}

abbrev code_row : EnrollmentRow
code_row = record {
  code = record {
    id = "tok2";
    user_id = "usr1";
    device_name = "phone";
    created_at = 3;
    expires_at = 100;
    consumed_at = none;
    failed_attempts = 1;
    max_attempts = 5;
  };
  digest = "autback_enr_tok2_s";
}

abbrev trust : GithubTrust
trust = record {
  id = "ght1";
  project_id = "prj1";
  repository_owner_id = "7";
  repository_id = "9";
  workflow_ref = "w/?";
  ref = "main*";
  environment = "";
  events = "push" ∷ [];
  created_at = 4;
  revoked_at = none;
}

abbrev claims : GithubClaims
claims = record {
  subject = "repo";
  repository_owner_id = "7";
  repository_id = "9";
  repository = "shop";
  workflow_ref = "w/a";
  ref = "main1";
  environment = "";
  event_name = "push";
  expires_at = 50;
}

abbrev accounts : Accounts
accounts = record {
  users = ada ∷ [];
  projects = shop ∷ [];
  members = [];
  identities = [];
  tokens = revoked_token ∷ [];
  enrollments = code_row ∷ [];
  oauth_states = [];
  logins = [];
  trusts = trust ∷ [];
  image_events = [];
  audit_events = [];
  next_audit = 1;
}

accounts-Inv : Inv accounts
unfolding count_where
accounts-Inv = record { unique = (refl, tt); bounded = (omega arith, tt) }

abbrev calls : List (ℕ × Call)
calls =
    (20, Call.exchanges_code entropy "autback_enr_tok2_x")
    ∷ (21, Call.authenticates 21 "autback_dt_tok1_s")
    ∷ []

run_keeps_accounts_example :
    Inv (run env accounts calls) × Evolves accounts (run env accounts calls)
run_keeps_accounts_example = run_keeps_accounts env accounts calls accounts-Inv

parsed_token : parse_token "autback_dt_tok1_s" ≡ some (PrincipalKind.device, "tok1")
unfolding parse_token
parsed_token = refl

found_token : find_where (token_has_id "tok1") accounts.tokens ≡ some revoked_token
unfolding find_where
found_token = refl

revoked_token_is_dead_example :
    authenticate env 30 30 "autback_dt_tok1_s" (run env accounts calls)
    ≡ (err Error.unauthenticated, run env accounts calls)
revoked_token_is_dead_example =
    revoked_token_is_dead env accounts calls 30 30 "autback_dt_tok1_s" "tok1" PrincipalKind.device
      revoked_token accounts-Inv parsed_token found_token refl

parsed_code : parse_opaque "autback_enr_tok2_s" "enr" ≡ some "tok2"
unfolding parse_opaque
parsed_code = refl

found_code : find_where (enrollment_has_id "tok2") accounts.enrollments ≡ some code_row
unfolding find_where
found_code = refl

closed_code_stays_closed_example :
    (c : EnrollmentCode) × (exchange_enrollment_code env 200 entropy "autback_enr_tok2_s"
        (run env accounts calls)
      ≡ (err (Error.enrollment_refused c), run env accounts calls))
closed_code_stays_closed_example =
    closed_code_stays_closed env accounts calls 100 200 entropy "autback_enr_tok2_s" "tok2" code_row
      accounts-Inv parsed_code found_code refl (omega arith)

abbrev phone : IssuedDeviceToken
phone = issued_device_token (new_token env "dt" entropy) "usr1" "phone" 10 none

abbrev used_code : EnrollmentCode
used_code = record (code_row.code) { consumed_at = some 10 }

exchanged :
    (exchange_enrollment_code env 10 entropy "autback_enr_tok2_s" accounts).0
    ≡ ok (phone, used_code)
unfolding exchange_enrollment_code exchange_code ◌>>=◌ parse_opaque find_where count_where
    update_where insert_token insert_row update_enrollments hex_encode
exchanged = refl

code_is_exchanged_once_example :
    let after =
      run env (exchange_enrollment_code env 10 entropy "autback_enr_tok2_s" accounts).1 calls in
    (c : EnrollmentCode) × (exchange_enrollment_code env 11 entropy "autback_enr_tok2_s" after
      ≡ (err (Error.enrollment_refused c), after))
code_is_exchanged_once_example =
    code_is_exchanged_once env accounts calls 10 11 entropy entropy "autback_enr_tok2_s" phone
      used_code accounts-Inv exchanged (omega arith)

abbrev session : IssuedAccessToken
session = record { token = (new_token env "gh" entropy).secret; expires_at = 60 }

session_created : (create_project_session env 10 entropy "prj1" "repo" 60 accounts).0 ≡ ok session
unfolding create_project_session ◌>>=◌ insert_token insert_row count_where hex_encode
session_created = refl

has_text : entropy.secret_text ≢ ""
has_text h = false≢true ((eq_iff "secret" "").1 h)

named : ◌≢◌ {A = String} "prj1" ""
named h = false≢true ((eq_iff "prj1" "").1 h)

project_session_is_confined_example :
    (who : Principal) × ((authenticate env 55 56 session.token
        (create_project_session env 10 entropy "prj1" "repo" 60 accounts).1).0
      ≡ ok who)
    × (who.admin ≡ false)
    × ((selector : String) (later : Accounts) (p : Project)
        → (authorize_project who selector later).0 ≡ ok p
        → p.id ≡ "prj1")
project_session_is_confined_example =
    project_session_is_confined env 10 56 55 entropy "prj1" "repo" 60 accounts session has_text
      named session_created (omega arith)

shop_found : project "shop" accounts ≡ (ok shop, accounts)
unfolding project ◌>>=◌ find_where
shop_found = refl

run_matched : (match_github_trust "shop" claims accounts).0 ≡ ok trust
unfolding match_github_trust project ◌>>=◌ find_where select_where glob
run_matched = refl

matched_trust-Admits_example : Among trust accounts.trusts × Admits "prj1" claims trust
matched_trust-Admits_example =
    matched_trust-Admits "shop" claims accounts shop trust shop_found run_matched

trust_held : Among trust accounts.trusts
trust_held = Among.here refl

pattern_matches : Matches (runes "w/?") (runes "w/a")
pattern_matches = one refl (one refl (one refl done))

ref_matches : Matches (runes "main*") (runes "main1")
ref_matches = one refl (one refl (one refl (one refl (take refl (skip refl done)))))

trust-Admits : Admits "prj1" claims trust
trust-Admits = record {
  project = refl;
  owner = refl;
  repository = refl;
  live = refl;
  workflow = pattern_matches;
  ref = ref_matches;
  environment = inl refl;
  event = Among.here refl;
}

admitted_run_is_matched_example :
    (s : GithubTrust) × ((match_github_trust "shop" claims accounts).0 ≡ ok s)
admitted_run_is_matched_example =
    admitted_run_is_matched "shop" claims accounts shop trust shop_found refl refl trust_held
      trust-Admits

has_users : exists_where (λ (u : User). true) accounts.users ≡ true
unfolding count_where
has_users = refl

only_admins_change_example : Same accounts (run env accounts calls)
only_admins_change_example = only_admins_change env accounts calls has_users (refl, (refl, tt))

parse_token-new_token_example :
    parse_token (new_token env "dt" entropy).secret
    ≡ some (PrincipalKind.device, (new_token env "dt" entropy).id)
parse_token-new_token_example =
    parse_token-new_token env "dt" PrincipalKind.device entropy refl has_text

dlc_named : ◌≢◌ {A = String} "dlc" ""
dlc_named h = false≢true ((eq_iff "dlc" "").1 h)

parse_opaque-new_opaque_example :
    parse_opaque (new_opaque env "dlc" entropy).secret "dlc"
    ≡ (if str_eq "dlc" "dlc" then some (new_opaque env "dlc" entropy).id else none)
parse_opaque-new_opaque_example =
    parse_opaque-new_opaque env "dlc" "dlc" entropy refl dlc_named has_text

glob-Answers_example :
    (b : Bool) × (glob "v?.*" "v1.23" ≡ some b)
    × (b ≡ true → Matches (runes "v?.*") (runes "v1.23"))
    × (star_free (runes "v1.23") ≡ true → Matches (runes "v?.*") (runes "v1.23") → b ≡ true)
glob-Answers_example = glob-Answers "v?.*" "v1.23"

shops : (list_projects admin accounts).0 ≡ ok (shop ∷ [])
unfolding list_projects ◌>>=◌ order_by
shops = refl

list_projects-granted_example :
    Among shop (shop ∷ []) ↔ ((grant_project admin shop accounts).0 ≡ ok shop)
list_projects-granted_example =
    list_projects-granted admin accounts (shop ∷ []) shop shops (Among.here refl)

-- A star of the value is taken for the star of the pattern.
star_in_value : glob "*" "*a" ≡ some false
unfolding glob
star_in_value = refl
