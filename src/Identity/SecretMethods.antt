-- ===== src/Identity/SecretMethods.antt =====
-- The methods of internal/control/sqlite/store.go that make or take secrets keep the invariant, lose
-- no row of the tables that only grow, and move each row only forwards.
use autback.Prelude.{ℕ, ◌≡◌, String, true, Option, none, some, List, arith}
use autback.Identity.Model.{
  PrincipalKind, Principal, User, ExternalIdentity, CreateDeviceToken, GithubTrust,
}
use autback.Identity.Tables.{Action, Error, TokenRow, OauthRow, LoginRow}
use autback.Identity.Secrets.{Platform, Entropy}
use autback.Identity.Logins
use autback.Identity.Devices
use autback.Identity.Tokens
use autback.Identity.Trusts
use autback.Identity.Evolution.{TokenEvolves, TrustEvolves}
use autback.Identity.Advances.{Sound, actions}
use autback.Identity.Methods.{Sound-authenticate, Sound-authorize_project}

revoke_logins_evolves :
    (user : String) (now : ℕ) (r : TokenRow)
    → Logins.is_live_login_of user r ≡ true
    → TokenEvolves r (Logins.revoke now r)
revoke_logins_evolves user now r h = ground arith

revoke_evolves :
    (kind : PrincipalKind) (id : String) (now : ℕ) (r : TokenRow)
    → Logins.is_live_token kind id r ≡ true
    → TokenEvolves r (Logins.revoke now r)
revoke_evolves kind id now r h = ground arith

revoke_device_evolves :
    (p : Principal) (id : String) (now : ℕ) (r : TokenRow)
    → Tokens.revocable p id r ≡ true
    → TokenEvolves r (Logins.revoke now r)
revoke_device_evolves p id now r h = ground arith

ruleset steps = (revoke_logins_evolves, revoke_evolves, revoke_device_evolves)

pub Sound-bind_external_identity :
    (env : Platform) (now : ℕ) (p : Principal) (user : String) (identity : ExternalIdentity)
    → Sound (Logins.bind_external_identity env now p user identity)
unfolding Logins.bind_external_identity
Sound-bind_external_identity env now p user identity = search actions depth 10

pub Sound-revoke_external_identity :
    (env : Platform) (now : ℕ) (p : Principal) (user provider : String)
    → Sound (Logins.revoke_external_identity env now p user provider)
unfolding Logins.revoke_external_identity
Sound-revoke_external_identity env now p user provider = search (actions, steps) depth 12

Sound-found_user : (e : Error) (u : Option User) → Sound (Logins.found_user e u)
Sound-found_user e none = search actions
Sound-found_user e (some u) = search actions

Sound-identity_user : (i : Option ExternalIdentity) → Sound (Logins.identity_user i)
Sound-identity_user none = search actions
Sound-identity_user (some i) = search (actions, Sound-found_user)

pub Sound-user_by_external_identity :
    (env : Platform) (now : ℕ) (provider subject login : String)
    → Sound (Logins.user_by_external_identity env now provider subject login)
unfolding Logins.user_by_external_identity
Sound-user_by_external_identity env now provider subject login =
    search (actions, Sound-identity_user) depth 10

pub Sound-create_browser_session :
    (env : Platform) (now : ℕ) (random : Entropy) (user : String) (expires : ℕ)
    → Sound (Logins.create_browser_session env now random user expires)
unfolding Logins.create_browser_session
Sound-create_browser_session env now random user expires = search actions depth 10

Sound-revoke_session_of :
    (now : ℕ) (r : Option (PrincipalKind × String)) (m : Action Principal)
    → Sound m
    → Sound (Logins.revoke_session_of now r m)
Sound-revoke_session_of now none m h = search actions
Sound-revoke_session_of now (some (kind, id)) m h = search (actions, steps) depth 8

pub Sound-revoke_browser_session :
    (env : Platform) (now used : ℕ) (token : String)
    → Sound (Logins.revoke_browser_session env now used token)
unfolding Logins.revoke_browser_session
Sound-revoke_browser_session env now used token =
    Sound-revoke_session_of now _ _ (Sound-authenticate env now used token)

pub Sound-create_oauth_login_state :
    (env : Platform) (now : ℕ) (random : Entropy) (path verifier : String) (expires : ℕ)
    → Sound (Logins.create_oauth_login_state env now random path verifier expires)
unfolding Logins.create_oauth_login_state
Sound-create_oauth_login_state env now random path verifier expires = search actions depth 8

Sound-consume_oauth_row :
    (env : Platform) (now : ℕ) (state : String) (r : Option OauthRow)
    → Sound (Logins.consume_oauth_row env now state r)
Sound-consume_oauth_row env now state none = search actions
Sound-consume_oauth_row env now state (some r) = search actions depth 8

Sound-consume_oauth_id :
    (env : Platform) (now : ℕ) (state : String) (r : Option String)
    → Sound (Logins.consume_oauth_id env now state r)
Sound-consume_oauth_id env now state none = search actions
Sound-consume_oauth_id env now state (some id) = search (actions, Sound-consume_oauth_row)

pub Sound-consume_oauth_login_state :
    (env : Platform) (now : ℕ) (state : String)
    → Sound (Logins.consume_oauth_login_state env now state)
unfolding Logins.consume_oauth_login_state
Sound-consume_oauth_login_state env now state = Sound-consume_oauth_id env now state _

-- Device logins.
pub Sound-create_device_login :
    (env : Platform) (now : ℕ) (random : Entropy) (bytes : List ℕ) (name : String) (expires : ℕ)
    → Sound (Devices.create_device_login env now random bytes name expires)
unfolding Devices.create_device_login
Sound-create_device_login env now random bytes name expires = search actions depth 8

Sound-approve_rows : (now : ℕ) (code user : String) → Sound (Devices.approve_rows now code user)
unfolding Devices.approve_rows
Sound-approve_rows now code user = search actions

pub Sound-approve_device_login :
    (env : Platform) (now : ℕ) (code : String) (p : Principal)
    → Sound (Devices.approve_device_login env now code p)
unfolding Devices.approve_device_login
Sound-approve_device_login env now code p = search (actions, Sound-approve_rows) depth 8

Sound-exchange_login_row :
    (env : Platform) (now : ℕ) (random : Entropy) (code : String) (r : Option LoginRow)
    → Sound (Devices.exchange_login_row env now random code r)
Sound-exchange_login_row env now random code none = search actions
Sound-exchange_login_row env now random code (some r) = search actions depth 10

Sound-exchange_login_id :
    (env : Platform) (now : ℕ) (random : Entropy) (code : String) (r : Option String)
    → Sound (Devices.exchange_login_id env now random code r)
Sound-exchange_login_id env now random code none = search actions
Sound-exchange_login_id env now random code (some id) = search (actions, Sound-exchange_login_row)

pub Sound-exchange_device_login :
    (env : Platform) (now : ℕ) (random : Entropy) (code : String)
    → Sound (Devices.exchange_device_login env now random code)
unfolding Devices.exchange_device_login
Sound-exchange_device_login env now random code = Sound-exchange_login_id env now random code _

-- Device tokens and sessions.
pub Sound-create_device_token :
    (env : Platform) (now : ℕ) (random : Entropy) (p : Principal) (input : CreateDeviceToken)
    → Sound (Tokens.create_device_token env now random p input)
unfolding Tokens.create_device_token
Sound-create_device_token env now random p input = search actions depth 12

pub Sound-revoke_device_token :
    (now : ℕ) (p : Principal) (id : String) → Sound (Tokens.revoke_device_token now p id)
unfolding Tokens.revoke_device_token
Sound-revoke_device_token now p id = search (actions, steps) depth 8

pub Sound-create_project_session :
    (env : Platform) (now : ℕ) (random : Entropy) (project subject : String) (expires : ℕ)
    → Sound (Tokens.create_project_session env now random project subject expires)
unfolding Tokens.create_project_session
Sound-create_project_session env now random project subject expires = search actions

-- Trusts and the audit.
pub Sound-create_github_trust :
    (now : ℕ) (bytes : List ℕ) (p : Principal) (trust : GithubTrust)
    → Sound (Trusts.create_github_trust now bytes p trust)
unfolding Trusts.create_github_trust
Sound-create_github_trust now bytes p trust = search (actions, Sound-authorize_project) depth 10

revoke_trust_evolves :
    (id : String) (now : ℕ) (r : GithubTrust)
    → Trusts.is_live_trust id r ≡ true
    → TrustEvolves r (Trusts.revoke_trust now r)
revoke_trust_evolves id now r h = ground arith

pub Sound-revoke_github_trust :
    (now : ℕ) (p : Principal) (id : String) → Sound (Trusts.revoke_github_trust now p id)
unfolding Trusts.revoke_github_trust
Sound-revoke_github_trust now p id = search (actions, revoke_trust_evolves) depth 8

pub Sound-audit :
    (now : ℕ) (p : Principal) (project action target : String) (metadata : List (String × String))
    → Sound (Trusts.audit now p project action target metadata)
unfolding Trusts.audit
Sound-audit now p project action target metadata = search actions
