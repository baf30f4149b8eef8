-- ===== src/Identity/Devices.antt =====
-- internal/control/sqlite/store.go: the login of a device, which a browser approves.
use Prim.Native.String.{len}
use autback.Prelude.{
  ℕ, String, Bool, ◌&&◌, ◌||◌, not, Option, none, some, ltb, leb, ◌==◌, str_eq, find_where,
  count_where, List,
}
use autback.Identity.Model.{
  PrincipalKind, Principal, DeviceLogin, IssuedDeviceLogin, IssuedDeviceToken, principal_kind_eq,
}
use autback.Identity.Tables.{
  Action, Error, is_user, LoginRow, pure, raise, select, transaction, check, ◌>>=◌, ◌>>◌,
}
use autback.Identity.Statements.{
  insert_token, insert_login, update_logins, delete_logins, login_has_id, login_has_code,
}
use autback.Identity.Text.{trim_space}
use autback.Identity.Secrets.{
  Platform, Entropy, new_token, new_opaque, parse_opaque, random_user_code,
}
use autback.Identity.Users.{coalesce, is_null, user_token}
use autback.Identity.Logins.{minutes, expires_within, is_spent, consume_login}

-- The columns that a device login is read from.
abbrev pub login_of_row : LoginRow → DeviceLogin
login_of_row r = record {
  id = r.id;
  user_code = r.user_code;
  device_name = r.device_name;
  created_at = r.created_at;
  expires_at = r.expires_at;
  approved_at = r.approved_at;
  consumed_at = r.consumed_at;
}

-- CreateDeviceLogin
unfoldable pub create_device_login :
    Platform → ℕ → Entropy → List ℕ → String → ℕ → Action IssuedDeviceLogin
create_device_login env now random code_bytes name_text expires_at =
    let name = trim_space name_text in
    let new = new_opaque env "dlc" random in
    let row : LoginRow = record {
      id = new.id;
      user_code = random_user_code code_bytes;
      device_name = name;
      digest = new.digest;
      user_id = none;
      created_at = now;
      expires_at = expires_at;
      approved_at = none;
      consumed_at = none;
    } in
    do
      check
          (not (str_eq name "") && leb (len name) 128 && expires_within (minutes 15) now expires_at)
          Error.required
      delete_logins λ (r : LoginRow). is_spent now r.expires_at r.consumed_at
      insert_login row
      pure (record { login = login_of_row row; device_code = new.secret })

abbrev pub open_login : ℕ → Option LoginRow → Action DeviceLogin
open_login now none = raise Error.not_found
open_login now (some r) = do
  check (is_null r.consumed_at && ltb now r.expires_at) Error.not_found
  pure (login_of_row r)

-- DeviceLoginByUserCode
unfoldable pub device_login_by_user_code : Platform → ℕ → String → Action DeviceLogin
device_login_by_user_code env now user_code = do
  found ← select λ db. find_where (login_has_code (env.to_upper (trim_space user_code))) db.logins
  open_login now found

-- WHERE user_code=? AND approved_at IS NULL AND consumed_at IS NULL AND expires_at>?
abbrev pub can_be_approved : ℕ → String → LoginRow → Bool
can_be_approved now code r =
    login_has_code code r && is_null r.approved_at && is_null r.consumed_at && ltb now r.expires_at

abbrev pub approve_login : ℕ → String → LoginRow → LoginRow
approve_login now user r = record r { user_id = some user; approved_at = some now }

-- UPDATE device_logins: a row that is changed names a user.
unfoldable pub approve_rows : ℕ → String → String → Action ℕ
approve_rows now code user = do
  valid ← select λ db. count_where (can_be_approved now code) db.logins == 0 || is_user db user
  check valid Error.foreign_key
  update_logins (can_be_approved now code) (approve_login now user)

-- ApproveDeviceLogin
unfoldable pub approve_device_login : Platform → ℕ → String → Principal → Action Unit
approve_device_login env now user_code principal = do
  check
      (principal_kind_eq principal.kind PrincipalKind.browser && not (str_eq principal.user_id ""))
      Error.forbidden
  n ← approve_rows now (env.to_upper (trim_space user_code)) principal.user_id
  check (n == 1) Error.not_found

abbrev pub login_admits : Platform → ℕ → String → LoginRow → Bool
login_admits env now code r =
    is_null r.consumed_at && ltb now r.expires_at && str_eq (env.digest code) r.digest

-- WHERE id=? AND consumed_at IS NULL
abbrev pub is_open_login : String → LoginRow → Bool
is_open_login id r = login_has_id id r && is_null r.consumed_at

abbrev pub exchange_login_row :
    Platform → ℕ → Entropy → String → Option LoginRow → Action IssuedDeviceToken
exchange_login_row env now random code none = raise Error.unauthenticated
exchange_login_row env now random code (some r) =
    let new = new_token env "dt" random in
    let user = coalesce r.user_id in
    do
      check (login_admits env now code r) Error.unauthenticated
      check (not (is_null r.approved_at || str_eq user "")) Error.login_pending
      insert_token (user_token new PrincipalKind.device user r.device_name now none)
      n ← update_logins (is_open_login r.id) (consume_login now)
      check (n == 1) Error.unauthenticated
      pure (record {
        metadata = record {
          id = new.id;
          name = r.device_name;
          user_id = user;
          created_at = now;
          expires_at = none;
          last_used_at = none;
          revoked_at = none;
        };
        secret = new.secret;
      })

abbrev pub exchange_login_id :
    Platform → ℕ → Entropy → String → Option String → Action IssuedDeviceToken
exchange_login_id env now random code none = raise Error.unauthenticated
exchange_login_id env now random code (some id) = transaction do
  found ← select λ db. find_where (login_has_id id) db.logins
  exchange_login_row env now random code found

-- ExchangeDeviceLogin
unfoldable pub exchange_device_login : Platform → ℕ → Entropy → String → Action IssuedDeviceToken
exchange_device_login env now random code =
    exchange_login_id env now random code (parse_opaque code "dlc")
