-- ===== src/Identity/Tokens.antt =====
-- internal/control/sqlite/store.go: the tokens of devices and of sessions, and the codes that enrol
-- a device.
use autback.Prelude.{
  ℕ, ◌+◌, String, Bool, ◌&&◌, ◌||◌, not, Option, none, some, ltb, ◌==◌, str_eq, if◌then◌else◌,
  find_where,
}
use autback.Identity.Model.{
  PrincipalKind, Principal, IssuedDeviceToken, CreateDeviceToken, EnrollmentCode,
  IssuedEnrollmentCode, IssuedAccessToken, principal_kind_eq,
}
use autback.Identity.Tables.{
  Action, Error, TokenRow, EnrollmentRow, pure, raise, select, transaction, check, ◌>>=◌, ◌>>◌,
  is_user,
}
use autback.Identity.Statements.{
  insert_token, insert_enrollment, update_tokens, update_enrollments, enrollment_has_id,
}
use autback.Identity.Text.{is_blank}
use autback.Identity.Secrets.{Platform, Entropy, NewSecret, new_token, parse_opaque}
use autback.Identity.Users.{is_null, user_token}
use autback.Identity.Images.{is_device_admin}
use autback.Identity.Logins.{minutes, expires_within, is_live_token, is_owned_by, revoke}

-- A device's principal with a user.
abbrev pub is_device_user : Principal → Bool
is_device_user principal =
    principal_kind_eq principal.kind PrincipalKind.device && not (str_eq principal.user_id "")

abbrev pub issued_device_token : NewSecret → String → String → ℕ → Option ℕ → IssuedDeviceToken
issued_device_token new user name now expires = record {
  metadata = record {
    id = new.id;
    name = name;
    user_id = user;
    created_at = now;
    expires_at = expires;
    last_used_at = none;
    revoked_at = none;
  };
  secret = new.secret;
}

-- CreateDeviceToken
unfoldable pub create_device_token :
    Platform → ℕ → Entropy → Principal → CreateDeviceToken → Action IssuedDeviceToken
create_device_token env now random principal input =
    let user = if str_eq input.user_id "" then principal.user_id else input.user_id in
    let new = new_token env "dt" random in
    do
      check (is_device_user principal) Error.forbidden
      check (str_eq user principal.user_id || principal.admin) Error.forbidden
      check (not (is_blank input.name)) Error.required
      known ← select λ db. is_user db user
      check known Error.not_found
      insert_token (user_token new PrincipalKind.device user input.name now input.expires_at)
      pure (issued_device_token new user input.name now input.expires_at)

abbrev pub revocable : Principal → String → TokenRow → Bool
revocable principal id r =
    is_live_token PrincipalKind.device id r
    && (principal.admin || is_owned_by principal.user_id r.user_id)

-- RevokeDeviceToken
unfoldable pub revoke_device_token : ℕ → Principal → String → Action Unit
revoke_device_token now principal id = do
  check (is_device_user principal) Error.forbidden
  n ← update_tokens (revocable principal id) (revoke now)
  check (n == 1) Error.not_found

abbrev pub project_session_row : NewSecret → String → String → ℕ → ℕ → TokenRow
project_session_row new project_id subject now expires_at = record {
  id = new.id;
  kind = PrincipalKind.github;
  user_id = none;
  project_id = some project_id;
  name = "github-oidc";
  subject = subject;
  digest = new.digest;
  created_at = now;
  expires_at = some expires_at;
  last_used_at = none;
  revoked_at = none;
}

-- CreateProjectSession
unfoldable pub create_project_session :
    Platform → ℕ → Entropy → String → String → ℕ → Action IssuedAccessToken
create_project_session env now random project_id subject expires_at =
    let new = new_token env "gh" random in
    do
      insert_token (project_session_row new project_id subject now expires_at)
      pure (record { token = new.secret; expires_at = expires_at })

abbrev pub new_code : NewSecret → String → String → ℕ → ℕ → EnrollmentRow
new_code new user device now expires = record {
  code = record {
    id = new.id;
    user_id = user;
    device_name = device;
    created_at = now;
    expires_at = expires;
    consumed_at = none;
    failed_attempts = 0;
    max_attempts = 5;
  };
  digest = new.digest;
}

-- CreateEnrollmentCode
unfoldable pub create_enrollment_code :
    Platform → ℕ → Entropy → Principal → String → String → ℕ → Action IssuedEnrollmentCode
create_enrollment_code env now random principal user_id device_name expires_at =
    let new = new_token env "enr" random in
    let row = new_code new user_id device_name now expires_at in
    do
      check (is_device_admin principal) Error.forbidden
      check (not (is_blank user_id || is_blank device_name)) Error.required
      check (expires_within (minutes 30) now expires_at) Error.required
      known ← select λ db. is_user db user_id
      check known Error.not_found
      insert_enrollment row
      pure (record { metadata = row.code; secret = new.secret })

-- The checks on a code that has been found.
abbrev pub code_is_open : ℕ → EnrollmentCode → Bool
code_is_open now c =
    is_null c.consumed_at && ltb now c.expires_at && ltb c.failed_attempts c.max_attempts

abbrev pub set_attempts : ℕ → EnrollmentRow → EnrollmentRow
set_attempts n r = record r { code = record (r.code) { failed_attempts = n } }

abbrev pub consume_code : ℕ → EnrollmentRow → EnrollmentRow
consume_code now r = record r { code = record (r.code) { consumed_at = some now } }

-- WHERE id=? AND consumed_at IS NULL AND failed_attempts < max_attempts
abbrev pub can_be_consumed : String → EnrollmentRow → Bool
can_be_consumed id r =
    enrollment_has_id id r
    && is_null r.code.consumed_at
    && ltb r.code.failed_attempts r.code.max_attempts

-- What the transaction commits: a failed attempt is an error that is kept.
pub data Exchange : Type 0 where
  failed : EnrollmentCode → Exchange
  issued : IssuedDeviceToken → EnrollmentCode → Exchange

-- The attempt fails, which is counted.
abbrev pub count_failure : EnrollmentRow → Action Exchange
count_failure r =
    let attempts = r.code.failed_attempts + 1 in
    do
      update_enrollments (enrollment_has_id r.code.id) (set_attempts attempts)
      pure (failed (record (r.code) { failed_attempts = attempts }))

abbrev pub issue_for_code : Platform → ℕ → Entropy → EnrollmentRow → Action Exchange
issue_for_code env now random r =
    let new = new_token env "dt" random in
    do
      insert_token (user_token new PrincipalKind.device r.code.user_id r.code.device_name now none)
      n ← update_enrollments (can_be_consumed r.code.id) (consume_code now)
      check (n == 1) (Error.enrollment_refused r.code)
      pure (
          issued (issued_device_token new r.code.user_id r.code.device_name now none)
            (record (r.code) { consumed_at = some now }))

abbrev pub exchange_code_row :
    Platform → ℕ → Entropy → String → Option EnrollmentRow → Action Exchange
exchange_code_row env now random text none = raise Error.unauthenticated
exchange_code_row env now random text (some r) =
    if not (code_is_open now r.code)
    then raise (Error.enrollment_refused r.code)
    else if not (str_eq (env.digest text) r.digest)
    then count_failure r
    else issue_for_code env now random r

-- The transaction of the exchange.
unfoldable pub exchange_code : Platform → ℕ → Entropy → String → String → Action Exchange
exchange_code env now random text id = transaction do
  found ← select λ db. find_where (enrollment_has_id id) db.enrollments
  exchange_code_row env now random text found

abbrev pub report : Exchange → Action (IssuedDeviceToken × EnrollmentCode)
report (failed code) = raise (Error.enrollment_refused code)
report (issued token code) = pure (token, code)

abbrev pub exchange_code_id :
    Platform → ℕ → Entropy → String → Option String → Action (IssuedDeviceToken × EnrollmentCode)
exchange_code_id env now random text none = raise Error.unauthenticated
exchange_code_id env now random text (some id) = do
  outcome ← exchange_code env now random text id
  report outcome

-- ExchangeEnrollmentCode: a code is cut as parseOpaque does it.
unfoldable pub exchange_enrollment_code :
    Platform → ℕ → Entropy → String → Action (IssuedDeviceToken × EnrollmentCode)
exchange_enrollment_code env now random text =
    exchange_code_id env now random text (parse_opaque text "enr")
