-- ===== src/Identity/Logins.antt =====
-- internal/control/sqlite/store.go: external identities, browser sessions and the login flows of a
-- browser and of a device. A minute is written out in nanoseconds.
use text.Mathlib.Text.{starts_with}
use autback.Prelude.{
  ℕ, ◌+◌, ◌*◌, String, Bool, false, ◌&&◌, ◌||◌, not, Option, none, some, List, [], ◌∷◌, ltb, leb,
  ◌==◌, str_eq, find_where,
}
use autback.Identity.Model.{
  PrincipalKind, Principal, User, ExternalIdentity, OauthLoginState, BrowserSession,
  principal_kind_eq,
}
use autback.Identity.Tables.{
  Action, Error, TokenRow, OauthRow, LoginRow, pure, raise, select, transaction, check, ◌>>=◌, ◌>>◌,
  is_user, user_has_id, token_has_id,
}
use autback.Identity.Statements.{
  duplicate_as_exists, insert_identity, insert_token, insert_oauth_state, update_tokens,
  update_identities, update_oauth_states, update_logins, delete_identities, delete_oauth_states,
  identity_is, identity_of, oauth_has_id,
}
use autback.Identity.Text.{is_blank, trim_space}
use autback.Identity.Secrets.{Platform, Entropy, new_token, new_opaque, parse_token, parse_opaque}
use autback.Identity.Users.{authenticate, is_null, user_token}
use autback.Identity.Images.{is_device_admin}

abbrev pub minutes : ℕ → ℕ
minutes n = n * 60000000000

-- expiresAt.After(now) && !expiresAt.After(now.Add(limit))
abbrev pub expires_within : ℕ → ℕ → ℕ → Bool
expires_within limit now t = ltb now t && leb t (now + limit)

abbrev pub is_blank_any : List String → Bool
is_blank_any [] = false
is_blank_any (s ∷ ss) = str_eq s "" || is_blank_any ss

-- BindExternalIdentity
unfoldable pub bind_external_identity :
    Platform → ℕ → Principal → String → ExternalIdentity → Action ExternalIdentity
bind_external_identity env now principal user_id input =
    let provider = env.to_lower (trim_space input.provider) in
    let identity = record input {
      provider = provider;
      subject = trim_space input.subject;
      login = trim_space input.login;
      user_id = user_id;
      created_at = now;
    } in
    do
      check (is_device_admin principal) Error.forbidden
      check
          (not
            (is_blank_any (identity.provider ∷ identity.subject ∷ identity.login ∷ user_id ∷ [])))
          Error.required
      known ← select λ db. is_user db user_id
      check known Error.not_found
      duplicate_as_exists (insert_identity (record identity { last_authenticated_at = none }))
      pure identity

abbrev pub revoke : ℕ → TokenRow → TokenRow
revoke now r = record r { revoked_at = some now }

abbrev pub is_owned_by : String → Option String → Bool
is_owned_by user none = false
is_owned_by user (some u) = str_eq u user

-- WHERE user_id=? AND kind IN ('browser', 'device') AND revoked_at IS NULL
abbrev pub is_live_login_of : String → TokenRow → Bool
is_live_login_of user r =
    is_owned_by user r.user_id
    && (principal_kind_eq r.kind PrincipalKind.browser
        || principal_kind_eq r.kind PrincipalKind.device)
    && is_null r.revoked_at

abbrev pub consume_login : ℕ → LoginRow → LoginRow
consume_login now r = record r { consumed_at = some now }

abbrev pub revoke_identity_rows : ℕ → String → String → Action Unit
revoke_identity_rows now provider user = transaction do
  n ← delete_identities (identity_of provider user)
  check (n == 1) Error.not_found
  update_tokens (is_live_login_of user) (revoke now)
  update_logins (λ r. is_owned_by user r.user_id && is_null r.consumed_at) (consume_login now)
  pure tt

-- RevokeExternalIdentity
unfoldable pub revoke_external_identity : Platform → ℕ → Principal → String → String → Action Unit
revoke_external_identity env now principal user_id provider_text =
    let provider = env.to_lower (trim_space provider_text) in
    let user = trim_space user_id in
    do
      check (is_device_admin principal) Error.forbidden
      check (not (is_blank_any (provider ∷ user ∷ []))) Error.required
      revoke_identity_rows now provider user

abbrev pub found_user : Error → Option User → Action User
found_user e none = raise e
found_user e (some u) = pure u

abbrev pub identity_user : Option ExternalIdentity → Action User
identity_user none = raise Error.forbidden
identity_user (some i) = do
  found ← select λ db. find_where (user_has_id i.user_id) db.users
  found_user Error.forbidden found

-- UserByExternalIdentity
unfoldable pub user_by_external_identity : Platform → ℕ → String → String → String → Action User
user_by_external_identity env now provider_text subject_text login_text =
    let provider = env.to_lower (trim_space provider_text) in
    let subject = trim_space subject_text in
    let login = trim_space login_text in
    do
      check (not (is_blank_any (provider ∷ subject ∷ login ∷ []))) Error.unauthenticated
      transaction do
        found ← select λ db. find_where (identity_is provider subject) db.identities
        user ← identity_user found
        update_identities (identity_is provider subject)
            λ r. record r { login = login; last_authenticated_at = some now }
        pure user

-- CreateBrowserSession
unfoldable pub create_browser_session : Platform → ℕ → Entropy → String → ℕ → Action BrowserSession
create_browser_session env now random user_id expires_at =
    let new = new_token env "ws" random in
    do
      check (not (str_eq user_id "") && expires_within (minutes 43200) now expires_at)
          Error.required
      known ← select λ db. is_user db user_id
      check known Error.not_found
      insert_token
          (user_token new PrincipalKind.browser user_id "browser-session" now (some expires_at))
      pure (record { token = new.secret; user_id = user_id; expires_at = expires_at })

-- WHERE id=? AND kind=? AND revoked_at IS NULL
abbrev pub is_live_token : PrincipalKind → String → TokenRow → Bool
is_live_token kind id r = token_has_id id r && principal_kind_eq r.kind kind && is_null r.revoked_at

-- An error of `m` is the error of the caller.
abbrev pub revoke_session_of : ℕ → Option (PrincipalKind × String) → Action Principal → Action Unit
revoke_session_of now none m = raise Error.unauthenticated
revoke_session_of now (some (kind, id)) m = do
  check (principal_kind_eq kind PrincipalKind.browser) Error.unauthenticated
  principal ← m
  check (principal_kind_eq principal.kind PrincipalKind.browser && str_eq principal.token_id id)
      Error.unauthenticated
  n ← update_tokens (is_live_token PrincipalKind.browser id) (revoke now)
  check (n == 1) Error.not_found

-- RevokeBrowserSession: Authenticate fails with ErrUnauthenticated only.
unfoldable pub revoke_browser_session : Platform → ℕ → ℕ → String → Action Unit
revoke_browser_session env now used token =
    revoke_session_of now (parse_token token) (authenticate env now used token)

-- WHERE expires_at<=? OR consumed_at IS NOT NULL
abbrev pub is_spent : ℕ → ℕ → Option ℕ → Bool
is_spent now expires_at consumed_at = leb expires_at now || not (is_null consumed_at)

-- CreateOAuthLoginState
unfoldable pub create_oauth_login_state :
    Platform → ℕ → Entropy → String → String → ℕ → Action OauthLoginState
create_oauth_login_state env now random return_to code_verifier expires_at =
    let new = new_opaque env "ols" random in
    do
      check
          (starts_with return_to "/"
            && not (starts_with return_to "//")
            && not (is_blank code_verifier)
            && expires_within (minutes 15) now expires_at)
          Error.required
      delete_oauth_states λ (r : OauthRow). is_spent now r.expires_at r.consumed_at
      insert_oauth_state (record {
        id = new.id;
        digest = new.digest;
        return_to = return_to;
        code_verifier = code_verifier;
        created_at = now;
        expires_at = expires_at;
        consumed_at = none;
      })
      pure (record {
        state = new.secret;
        return_to = return_to;
        code_verifier = code_verifier;
        created_at = now;
        expires_at = expires_at;
      })

abbrev pub consume_oauth_row : Platform → ℕ → String → Option OauthRow → Action OauthLoginState
consume_oauth_row env now state none = raise Error.unauthenticated
consume_oauth_row env now state (some r) = do
  check (is_null r.consumed_at && ltb now r.expires_at && str_eq (env.digest state) r.digest)
      Error.unauthenticated
  update_oauth_states (λ s. oauth_has_id r.id s && is_null s.consumed_at)
      λ s. record s { consumed_at = some now }
  pure (record {
    state = state;
    return_to = r.return_to;
    code_verifier = r.code_verifier;
    created_at = r.created_at;
    expires_at = r.expires_at;
  })

abbrev pub consume_oauth_id : Platform → ℕ → String → Option String → Action OauthLoginState
consume_oauth_id env now state none = raise Error.unauthenticated
consume_oauth_id env now state (some id) = transaction do
  found ← select λ db. find_where (oauth_has_id id) db.oauth_states
  consume_oauth_row env now state found

-- ConsumeOAuthLoginState
unfoldable pub consume_oauth_login_state : Platform → ℕ → String → Action OauthLoginState
consume_oauth_login_state env now state = consume_oauth_id env now state (parse_opaque state "ols")
