-- ===== src/Identity/History.antt =====
-- internal/control/sqlite/store.go: a history of the accounts is a list of calls of the methods that
-- change them, each with the clock and the random bytes that it reads.
use autback.Prelude.{ℕ, String, Bool, List, [], ◌∷◌}
use autback.Identity.Model.{Principal, Bootstrap, ExternalIdentity, CreateDeviceToken, GithubTrust}
use autback.Identity.Tables.{Accounts}
use autback.Identity.Secrets.{Platform, Entropy}
use autback.Identity.Users.{bootstrap, authenticate, create_user, add_project_member}
use autback.Identity.Images.{
  create_project, activate_project_image, rollback_project_image, set_project_image_policy,
}
use autback.Identity.Logins.{
  bind_external_identity, revoke_external_identity, user_by_external_identity,
  create_browser_session, revoke_browser_session, create_oauth_login_state,
  consume_oauth_login_state,
}
use autback.Identity.Devices.{create_device_login, approve_device_login, exchange_device_login}
use autback.Identity.Tokens.{
  create_device_token, revoke_device_token, create_project_session, create_enrollment_code,
  exchange_enrollment_code,
}
use autback.Identity.Trusts.{create_github_trust, revoke_github_trust, audit}

-- The calls that a principal makes.
pub data Request : Type 0 where
  creates_user : List ℕ → String → Bool → Request
  binds_identity : String → ExternalIdentity → Request
  revokes_identity : String → String → Request
  approves_login : String → Request
  creates_project : List ℕ → String → String → Request
  adds_member : String → String → Request
  activates_image : List ℕ → String → String → Request
  rolls_image_back : List ℕ → String → Request
  sets_policy : String → Bool → Request
  creates_token : Entropy → CreateDeviceToken → Request
  creates_code : Entropy → String → String → ℕ → Request
  revokes_token : String → Request
  creates_trust : List ℕ → GithubTrust → Request
  revokes_trust : String → Request
  audits : String → String → String → List (String × String) → Request

-- The calls that are made with a secret or by the server itself.
pub data Call : Type 0 where
  bootstraps : List ℕ → List ℕ → Entropy → Bootstrap → Call
  asks : Principal → Request → Call
  authenticates : ℕ → String → Call
  signs_in : String → String → String → Call
  opens_session : Entropy → String → ℕ → Call
  closes_session : ℕ → String → Call
  creates_state : Entropy → String → String → ℕ → Call
  consumes_state : String → Call
  creates_login : Entropy → List ℕ → String → ℕ → Call
  exchanges_login : Entropy → String → Call
  exchanges_code : Entropy → String → Call
  starts_session : Entropy → String → String → ℕ → Call

module _ (env : Platform) where
  unfoldable pub answer : Accounts → ℕ → Principal → Request → Accounts
  answer db now p (creates_user bytes name admin) = (create_user now bytes p name admin db).1
  answer db now p (binds_identity user identity) =
      (bind_external_identity env now p user identity db).1
  answer db now p (revokes_identity user provider) =
      (revoke_external_identity env now p user provider db).1
  answer db now p (approves_login code) = (approve_device_login env now code p db).1
  answer db now p (creates_project bytes slug name) = (create_project now bytes p slug name db).1
  answer db now p (adds_member selector user) = (add_project_member now p selector user db).1
  answer db now p (activates_image bytes id image) =
      (activate_project_image now bytes p id image db).1
  answer db now p (rolls_image_back bytes id) = (rollback_project_image now bytes p id db).1
  answer db now p (sets_policy id allow) = (set_project_image_policy p id allow db).1
  answer db now p (creates_token random input) = (create_device_token env now random p input db).1
  answer db now p (creates_code random user device expires) =
      (create_enrollment_code env now random p user device expires db).1
  answer db now p (revokes_token id) = (revoke_device_token now p id db).1
  answer db now p (creates_trust bytes trust) = (create_github_trust now bytes p trust db).1
  answer db now p (revokes_trust id) = (revoke_github_trust now p id db).1
  answer db now p (audits project action target metadata) =
      (audit now p project action target metadata db).1

  -- One call, at the time that it reads from the clock.
  unfoldable pub step : Accounts → ℕ × Call → Accounts
  step db (now, bootstraps users projects random input) =
      (bootstrap env now users projects random input db).1
  step db (now, asks p request) = answer db now p request
  step db (now, authenticates used token) = (authenticate env now used token db).1
  step db (now, signs_in provider subject login) =
      (user_by_external_identity env now provider subject login db).1
  step db (now, opens_session random user expires) =
      (create_browser_session env now random user expires db).1
  step db (now, closes_session used token) = (revoke_browser_session env now used token db).1
  step db (now, creates_state random path verifier expires) =
      (create_oauth_login_state env now random path verifier expires db).1
  step db (now, consumes_state state) = (consume_oauth_login_state env now state db).1
  step db (now, creates_login random bytes name expires) =
      (create_device_login env now random bytes name expires db).1
  step db (now, exchanges_login random code) = (exchange_device_login env now random code db).1
  step db (now, exchanges_code random code) = (exchange_enrollment_code env now random code db).1
  step db (now, starts_session random project subject expires) =
      (create_project_session env now random project subject expires db).1

  unfoldable pub run : Accounts → List (ℕ × Call) → Accounts
  run db [] = db
  run db (c ∷ cs) = run (step db c) cs

-- The tables as the migration creates them.
unfoldable pub migrated : Accounts
migrated = record {
  users = [];
  projects = [];
  members = [];
  identities = [];
  tokens = [];
  enrollments = [];
  oauth_states = [];
  logins = [];
  trusts = [];
  image_events = [];
  audit_events = [];
  next_audit = 1;
}
