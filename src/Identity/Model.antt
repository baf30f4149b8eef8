-- ===== src/Identity/Model.antt =====
-- internal/control/model.go: principals, users, projects, tokens and trusts. A time is a number of
-- nanoseconds since 1970.
use autback.Prelude.{ℕ, String, Bool, true, false, Option, List}

pub data PrincipalKind : Type 0 where
  device github browser system : PrincipalKind

abbrev pub principal_kind_eq : PrincipalKind → PrincipalKind → Bool
principal_kind_eq PrincipalKind.device PrincipalKind.device = true
principal_kind_eq PrincipalKind.github PrincipalKind.github = true
principal_kind_eq PrincipalKind.browser PrincipalKind.browser = true
principal_kind_eq PrincipalKind.system PrincipalKind.system = true
principal_kind_eq _ _ = false

pub record Principal : Type 0 where
  pub kind : PrincipalKind
  pub token_id : String
  pub user_id : String
  pub project_id : String
  pub admin : Bool
  pub subject : String

pub record User : Type 0 where
  pub id : String
  pub name : String
  pub admin : Bool
  pub created_at : ℕ

pub record ExternalIdentity : Type 0 where
  pub provider : String
  pub subject : String
  pub login : String
  pub user_id : String
  pub created_at : ℕ
  pub last_authenticated_at : Option ℕ

pub record OauthLoginState : Type 0 where
  pub state : String
  pub return_to : String
  pub code_verifier : String
  pub created_at : ℕ
  pub expires_at : ℕ

pub record BrowserSession : Type 0 where
  pub token : String
  pub user_id : String
  pub expires_at : ℕ

pub record DeviceLogin : Type 0 where
  pub id : String
  pub user_code : String
  pub device_name : String
  pub created_at : ℕ
  pub expires_at : ℕ
  pub approved_at : Option ℕ
  pub consumed_at : Option ℕ

pub record IssuedDeviceLogin : Type 0 where
  pub login : DeviceLogin
  pub device_code : String

pub record Project : Type 0 where
  pub id : String
  pub slug : String
  pub name : String
  pub active_image : String
  pub previous_image : String
  pub allow_image_overrides : Bool
  pub created_at : ℕ

pub record ProjectImageEvent : Type 0 where
  pub id : String
  pub project_id : String
  pub action : String
  pub image : String
  pub replaced_image : String
  pub actor : String
  pub created_at : ℕ

pub record Bootstrap : Type 0 where
  pub user_name : String
  pub project_slug : String
  pub project_name : String
  pub token_name : String

pub record BootstrapResult : Type 0 where
  pub user : User
  pub project : Project
  pub token : String

pub record DeviceToken : Type 0 where
  pub id : String
  pub name : String
  pub user_id : String
  pub created_at : ℕ
  pub expires_at : Option ℕ
  pub last_used_at : Option ℕ
  pub revoked_at : Option ℕ

-- A zero expiry is `none`.
pub record CreateDeviceToken : Type 0 where
  pub user_id : String
  pub name : String
  pub expires_at : Option ℕ

pub record IssuedDeviceToken : Type 0 where
  pub metadata : DeviceToken
  pub secret : String

pub record EnrollmentCode : Type 0 where
  pub id : String
  pub user_id : String
  pub device_name : String
  pub created_at : ℕ
  pub expires_at : ℕ
  pub consumed_at : Option ℕ
  pub failed_attempts : ℕ
  pub max_attempts : ℕ

pub record IssuedEnrollmentCode : Type 0 where
  pub metadata : EnrollmentCode
  pub secret : String

pub record GithubTrust : Type 0 where
  pub id : String
  pub project_id : String
  pub repository_owner_id : String
  pub repository_id : String
  pub workflow_ref : String
  pub ref : String
  pub environment : String
  pub events : List String
  pub created_at : ℕ
  pub revoked_at : Option ℕ

pub record GithubClaims : Type 0 where
  pub subject : String
  pub repository_owner_id : String
  pub repository_id : String
  pub repository : String
  pub workflow_ref : String
  pub ref : String
  pub environment : String
  pub event_name : String
  pub expires_at : ℕ

pub record IssuedAccessToken : Type 0 where
  pub token : String
  pub expires_at : ℕ
