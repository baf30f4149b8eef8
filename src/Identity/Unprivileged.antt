-- ===== src/Identity/Unprivileged.antt =====
-- The methods of internal/control/sqlite/store.go that need no admin leave the users, the projects,
-- the members, the trusts and the images; the others refuse whoever is none.
use autback.Prelude.{
  ℕ, ◌≡◌, String, Bool, true, false, not, Option, none, some, List, [], ◌∷◌, arith, All,
}
use autback.Identity.Model.{
  PrincipalKind, Principal, User, Bootstrap, ExternalIdentity, CreateDeviceToken,
}
use autback.Identity.Tables.{
  Accounts, Action, Error, TokenRow, EnrollmentRow, OauthRow, LoginRow, select, transaction, check,
  ◌>>=◌, ◌>>◌, exists_where,
}
use autback.Identity.Secrets.{Platform, Entropy}
use autback.Identity.Rules
use autback.Identity.Rules.{Keeps}
use autback.Identity.Users
use autback.Identity.Images
use autback.Identity.Logins
use autback.Identity.Devices
use autback.Identity.Tokens
use autback.Identity.Tokens.{Exchange}
use autback.Identity.Trusts
use autback.Identity.History.{Call, Request, answer, step, run}
use autback.Identity.Privileges.{Same, Same-refl, Same-trans, Leaves, plain}

Leaves-is_admin : (u : Option User) → Leaves (Users.is_admin u)
Leaves-is_admin none = search plain
Leaves-is_admin (some u) = search plain

Leaves-authenticate_row :
    (env : Platform) (now used : ℕ) (token : String) (kind : PrincipalKind) (r : Option TokenRow)
    → Leaves (Users.authenticate_row env now used token kind r)
Leaves-authenticate_row env now used token kind none = search plain
Leaves-authenticate_row env now used token kind (some r) = search (plain, Leaves-is_admin) depth 8

Leaves-authenticate_parsed :
    (env : Platform) (now used : ℕ) (token : String) (r : Option (PrincipalKind × String))
    → Leaves (Users.authenticate_parsed env now used token r)
Leaves-authenticate_parsed env now used token none = search plain
Leaves-authenticate_parsed env now used token (some (kind, id)) =
    search (plain, Leaves-authenticate_row)

Leaves-authenticate :
    (env : Platform) (now used : ℕ) (token : String)
    → Leaves (Users.authenticate env now used token)
unfolding Users.authenticate
Leaves-authenticate env now used token = Leaves-authenticate_parsed env now used token _

Leaves-found_user : (e : Error) (u : Option User) → Leaves (Logins.found_user e u)
Leaves-found_user e none = search plain
Leaves-found_user e (some u) = search plain

Leaves-identity_user : (i : Option ExternalIdentity) → Leaves (Logins.identity_user i)
Leaves-identity_user none = search plain
Leaves-identity_user (some i) = search (plain, Leaves-found_user)

Leaves-user_by_external_identity :
    (env : Platform) (now : ℕ) (provider subject login : String)
    → Leaves (Logins.user_by_external_identity env now provider subject login)
unfolding Logins.user_by_external_identity
Leaves-user_by_external_identity env now provider subject login =
    search (plain, Leaves-identity_user) depth 10

Leaves-create_browser_session :
    (env : Platform) (now : ℕ) (random : Entropy) (user : String) (expires : ℕ)
    → Leaves (Logins.create_browser_session env now random user expires)
unfolding Logins.create_browser_session
Leaves-create_browser_session env now random user expires = search plain depth 10

Leaves-revoke_session_of :
    (now : ℕ) (r : Option (PrincipalKind × String)) (m : Action Principal)
    → Leaves m
    → Leaves (Logins.revoke_session_of now r m)
Leaves-revoke_session_of now none m h = search plain
Leaves-revoke_session_of now (some (kind, id)) m h = search (plain) depth 8

Leaves-revoke_browser_session :
    (env : Platform) (now used : ℕ) (token : String)
    → Leaves (Logins.revoke_browser_session env now used token)
unfolding Logins.revoke_browser_session
Leaves-revoke_browser_session env now used token =
    Leaves-revoke_session_of now _ _ (Leaves-authenticate env now used token)

Leaves-create_oauth_login_state :
    (env : Platform) (now : ℕ) (random : Entropy) (path verifier : String) (expires : ℕ)
    → Leaves (Logins.create_oauth_login_state env now random path verifier expires)
unfolding Logins.create_oauth_login_state
Leaves-create_oauth_login_state env now random path verifier expires = search plain depth 8

Leaves-consume_oauth_row :
    (env : Platform) (now : ℕ) (state : String) (r : Option OauthRow)
    → Leaves (Logins.consume_oauth_row env now state r)
Leaves-consume_oauth_row env now state none = search plain
Leaves-consume_oauth_row env now state (some r) = search plain depth 8

Leaves-consume_oauth_id :
    (env : Platform) (now : ℕ) (state : String) (r : Option String)
    → Leaves (Logins.consume_oauth_id env now state r)
Leaves-consume_oauth_id env now state none = search plain
Leaves-consume_oauth_id env now state (some id) = search (plain, Leaves-consume_oauth_row)

Leaves-consume_oauth_login_state :
    (env : Platform) (now : ℕ) (state : String)
    → Leaves (Logins.consume_oauth_login_state env now state)
unfolding Logins.consume_oauth_login_state
Leaves-consume_oauth_login_state env now state = Leaves-consume_oauth_id env now state _

Leaves-create_device_login :
    (env : Platform) (now : ℕ) (random : Entropy) (bytes : List ℕ) (name : String) (expires : ℕ)
    → Leaves (Devices.create_device_login env now random bytes name expires)
unfolding Devices.create_device_login
Leaves-create_device_login env now random bytes name expires = search plain depth 8

Leaves-approve_rows : (now : ℕ) (code user : String) → Leaves (Devices.approve_rows now code user)
unfolding Devices.approve_rows
Leaves-approve_rows now code user = search plain

Leaves-approve_device_login :
    (env : Platform) (now : ℕ) (code : String) (p : Principal)
    → Leaves (Devices.approve_device_login env now code p)
unfolding Devices.approve_device_login
Leaves-approve_device_login env now code p = search (plain, Leaves-approve_rows) depth 8

Leaves-exchange_login_row :
    (env : Platform) (now : ℕ) (random : Entropy) (code : String) (r : Option LoginRow)
    → Leaves (Devices.exchange_login_row env now random code r)
Leaves-exchange_login_row env now random code none = search plain
Leaves-exchange_login_row env now random code (some r) = search plain depth 10

Leaves-exchange_login_id :
    (env : Platform) (now : ℕ) (random : Entropy) (code : String) (r : Option String)
    → Leaves (Devices.exchange_login_id env now random code r)
Leaves-exchange_login_id env now random code none = search plain
Leaves-exchange_login_id env now random code (some id) = search (plain, Leaves-exchange_login_row)

Leaves-exchange_device_login :
    (env : Platform) (now : ℕ) (random : Entropy) (code : String)
    → Leaves (Devices.exchange_device_login env now random code)
unfolding Devices.exchange_device_login
Leaves-exchange_device_login env now random code = Leaves-exchange_login_id env now random code _

Leaves-create_device_token :
    (env : Platform) (now : ℕ) (random : Entropy) (p : Principal) (input : CreateDeviceToken)
    → Leaves (Tokens.create_device_token env now random p input)
unfolding Tokens.create_device_token
Leaves-create_device_token env now random p input = search plain depth 12

Leaves-revoke_device_token :
    (now : ℕ) (p : Principal) (id : String) → Leaves (Tokens.revoke_device_token now p id)
unfolding Tokens.revoke_device_token
Leaves-revoke_device_token now p id = search (plain) depth 8

Leaves-create_project_session :
    (env : Platform) (now : ℕ) (random : Entropy) (project subject : String) (expires : ℕ)
    → Leaves (Tokens.create_project_session env now random project subject expires)
unfolding Tokens.create_project_session
Leaves-create_project_session env now random project subject expires = search plain

Leaves-audit :
    (now : ℕ) (p : Principal) (project action target : String) (metadata : List (String × String))
    → Leaves (Trusts.audit now p project action target metadata)
unfolding Trusts.audit
Leaves-audit now p project action target metadata = search plain

Leaves-exchange_code_row :
    (env : Platform) (now : ℕ) (random : Entropy) (text : String) (r : Option EnrollmentRow)
    → Leaves (Tokens.exchange_code_row env now random text r)
Leaves-exchange_code_row env now random text none = search plain
Leaves-exchange_code_row env now random text (some r) = search plain depth 12

Leaves-exchange_code :
    (env : Platform) (now : ℕ) (random : Entropy) (text id : String)
    → Leaves (Tokens.exchange_code env now random text id)
unfolding Tokens.exchange_code
Leaves-exchange_code env now random text id = search (plain, Leaves-exchange_code_row)

Leaves-report : (outcome : Exchange) → Leaves (Tokens.report outcome)
Leaves-report (Exchange.failed code) = search plain
Leaves-report (Exchange.issued token code) = search plain

Leaves-exchange_code_id :
    (env : Platform) (now : ℕ) (random : Entropy) (text : String) (id : Option String)
    → Leaves (Tokens.exchange_code_id env now random text id)
Leaves-exchange_code_id env now random text none = search plain
Leaves-exchange_code_id env now random text (some id) =
    search (plain, Leaves-exchange_code, Leaves-report)

Leaves-exchange_enrollment_code :
    (env : Platform) (now : ℕ) (random : Entropy) (text : String)
    → Leaves (Tokens.exchange_enrollment_code env now random text)
unfolding Tokens.exchange_enrollment_code
Leaves-exchange_enrollment_code env now random text = Leaves-exchange_code_id env now random text _

-- A check that fails ends the method with nothing changed.
refused :
    {A : Type 0} (b : Bool) (e : Error) (m : Action A) (db : Accounts)
    → b ≡ false
    → Same db ((check b e >> m) db).1
unfolding ◌>>=◌
refused true e m db h = absurd (cc)
refused false e m db h = Same-refl db

-- A check that comes first, and one on the users in a transaction.
checked :
    {A : Type 0} (b : Bool) (e : Error) (m : Action A) (db : Accounts)
    → Same db (m db).1
    → Same db ((check b e >> m) db).1
unfolding ◌>>=◌
checked true e m db h = h
checked false e m db h = Same-refl db

rejected :
    {A : Type 0} (f : List User → Bool) (e : Error) (k : Action A) (db : Accounts)
    → f db.users ≡ false
    → Same db ((transaction do users ← select λ db'. db'.users; check (f users) e; k) db).1
unfolding ◌>>=◌
rejected f e k db h =
    Rules.rollback_keeps Same Same-refl Same-trans db _ (refused (f db.users) e k db h)

not_admin_device : (p : Principal) → p.admin ≡ false → Images.is_device_admin p ≡ false
not_admin_device p h = ground arith

module _ (env : Platform) where
  Same-answer :
      (db : Accounts) (now : ℕ) (p : Principal) (r : Request)
      → p.admin ≡ false
      → Same db (answer env db now p r)
  unfolding answer Users.create_user Logins.bind_external_identity Logins.revoke_external_identity
      Images.create_project Users.add_project_member Images.set_project_image_policy
      Tokens.create_enrollment_code Trusts.create_github_trust Trusts.revoke_github_trust
  Same-answer db now p (Request.creates_user bytes name admin) h = refused _ _ _ db h
  Same-answer db now p (Request.binds_identity user identity) h =
      refused _ _ _ db (not_admin_device p h)
  Same-answer db now p (Request.revokes_identity user provider) h =
      refused _ _ _ db (not_admin_device p h)
  Same-answer db now p (Request.approves_login code) h =
      (Leaves-approve_device_login env now code p).at db
  Same-answer db now p (Request.creates_project bytes slug name) h = refused _ _ _ db h
  Same-answer db now p (Request.adds_member selector user) h = refused _ _ _ db h
  Same-answer db now p (Request.activates_image bytes id image) h =
      refused _ _ _ db (not_admin_device p h)
  Same-answer db now p (Request.rolls_image_back bytes id) h =
      refused _ _ _ db (not_admin_device p h)
  Same-answer db now p (Request.sets_policy id allow) h = refused _ _ _ db (not_admin_device p h)
  Same-answer db now p (Request.creates_token random input) h =
      (Leaves-create_device_token env now random p input).at db
  Same-answer db now p (Request.creates_code random user device expires) h =
      refused _ _ _ db (not_admin_device p h)
  Same-answer db now p (Request.revokes_token id) h = (Leaves-revoke_device_token now p id).at db
  Same-answer db now p (Request.creates_trust bytes trust) h = refused _ _ _ db h
  Same-answer db now p (Request.revokes_trust id) h = refused _ _ _ db h
  Same-answer db now p (Request.audits project action target metadata) h =
      (Leaves-audit now p project action target metadata).at db

  -- Once there is a user, a bootstrap is refused.
  Same-bootstrap :
      (now : ℕ) (users projects : List ℕ) (random : Entropy) (input : Bootstrap) (db : Accounts)
      → exists_where (λ (u : User). true) db.users ≡ true
      → Same db (Users.bootstrap env now users projects random input db).1
  unfolding Users.bootstrap
  Same-bootstrap now users projects random input db h =
      checked _ _ _ db (rejected (λ us. not (exists_where (λ (u : User). true) us)) _ _ db (rw h))

  -- An admin asks.
  abbrev by_admin : Call → Bool
  by_admin (Call.asks p request) = p.admin
  by_admin _ = false

  Same-step :
      (db : Accounts) (now : ℕ) (c : Call)
      → exists_where (λ (u : User). true) db.users ≡ true
      → by_admin c ≡ false
      → Same db (step env db (now, c))
  unfolding step
  Same-step db now (Call.bootstraps users projects random input) e h =
      Same-bootstrap now users projects random input db e
  Same-step db now (Call.asks p request) e h = Same-answer db now p request h
  Same-step db now (Call.authenticates used token) e h =
      (Leaves-authenticate env now used token).at db
  Same-step db now (Call.signs_in provider subject login) e h =
      (Leaves-user_by_external_identity env now provider subject login).at db
  Same-step db now (Call.opens_session random user expires) e h =
      (Leaves-create_browser_session env now random user expires).at db
  Same-step db now (Call.closes_session used token) e h =
      (Leaves-revoke_browser_session env now used token).at db
  Same-step db now (Call.creates_state random path verifier expires) e h =
      (Leaves-create_oauth_login_state env now random path verifier expires).at db
  Same-step db now (Call.consumes_state state) e h =
      (Leaves-consume_oauth_login_state env now state).at db
  Same-step db now (Call.creates_login random bytes name expires) e h =
      (Leaves-create_device_login env now random bytes name expires).at db
  Same-step db now (Call.exchanges_login random code) e h =
      (Leaves-exchange_device_login env now random code).at db
  Same-step db now (Call.exchanges_code random code) e h =
      (Leaves-exchange_enrollment_code env now random code).at db
  Same-step db now (Call.starts_session random project subject expires) e h =
      (Leaves-create_project_session env now random project subject expires).at db

  -- Once there is a user, calls of which none is asked by an admin leave the users, the projects,
  -- their members, the trusts and the history of the images as they are.
  pub only_admins_change :
      (db : Accounts) (cs : List (ℕ × Call))
      → exists_where (λ (u : User). true) db.users ≡ true
      → All (λ (c : ℕ × Call). by_admin c.1 ≡ false) cs
      → Same db (run env db cs)
  unfolding run
  only_admins_change db [] e h = Same-refl db
  only_admins_change db ((now, c) ∷ cs) e h =
      let first = Same-step db now c e h.0 in
      Same-trans db (step env db (now, c)) _ first
        (only_admins_change (step env db (now, c)) cs (rw first.users e) h.1)
