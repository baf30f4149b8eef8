-- ===== src/Identity/Privileges.antt =====
-- Who may change users, projects, members, trusts and images in internal/control/sqlite/store.go.
use autback.Prelude.{◌≡◌, refl, ◌∙◌, Bool, if◌then◌else◌}
use autback.Identity.Model.{ExternalIdentity}
use autback.Identity.Tables.{
  Accounts, Action, Error, TokenRow, EnrollmentRow, OauthRow, LoginRow, AuditRow, pure, raise,
  select, transaction, check, ◌>>=◌,
}
use autback.Identity.Statements
use autback.Identity.Rules.{Keeps}
use autback.Identity.Rules

-- The tables that only an admin changes.
pub record Same (a b : Accounts) : Type 0 where
  pub users : b.users ≡ a.users
  pub projects : b.projects ≡ a.projects
  pub members : b.members ≡ a.members
  pub trusts : b.trusts ≡ a.trusts
  pub image_events : b.image_events ≡ a.image_events

pub Same-refl : (a : Accounts) → Same a a
Same-refl a = record {
  users = refl;
  projects = refl;
  members = refl;
  trusts = refl;
  image_events = refl;
}

pub Same-trans : (a b c : Accounts) → Same a b → Same b c → Same a c
Same-trans a b c h k = record {
  users = k.users ∙ h.users;
  projects = k.projects ∙ h.projects;
  members = k.members ∙ h.members;
  trusts = k.trusts ∙ h.trusts;
  image_events = k.image_events ∙ h.image_events;
}

-- An action that leaves those tables.
abbrev pub Leaves : {A : Type 0} → Action A → Type 0
Leaves m = Keeps Same m

module _ {A : Type 0} where
  pub Leaves-pure : (a : A) → Leaves (pure a)
  Leaves-pure = Rules.pure-Keeps Same Same-refl Same-trans

  pub Leaves-raise : (e : Error) → Leaves (raise {A = A} e)
  Leaves-raise = Rules.raise-Keeps Same Same-refl Same-trans

  pub Leaves-select : (f : Accounts → A) → Leaves (select f)
  Leaves-select = Rules.select-Keeps Same Same-refl Same-trans

  pub Leaves-transaction : (m : Action A) → Leaves m → Leaves (transaction m)
  Leaves-transaction = Rules.transaction-Keeps Same Same-refl Same-trans

  pub Leaves-if : (b : Bool) (m n : Action A) → Leaves m → Leaves n → Leaves (if b then m else n)
  Leaves-if = Rules.if_Keeps Same Same-refl Same-trans

pub Leaves-check : (b : Bool) (e : Error) → Leaves (check b e)
Leaves-check = Rules.check-Keeps Same Same-refl Same-trans

pub Leaves-bind :
    {A B : Type 0} (m : Action A) (f : A → Action B)
    → Leaves m
    → ((a : A) → Leaves (f a))
    → Leaves (m >>= f)
Leaves-bind = Rules.bind-Keeps Same Same-refl Same-trans

pub Leaves-insert_token : (r : TokenRow) → Leaves (Statements.insert_token r)
unfolding Statements.insert_token
Leaves-insert_token r = record {
  at = λ db. Rules.insert_row_keeps Same Same-refl Same-trans _ _ _ db (assumption (Same-refl db));
}

pub Leaves-insert_oauth_state : (r : OauthRow) → Leaves (Statements.insert_oauth_state r)
unfolding Statements.insert_oauth_state
Leaves-insert_oauth_state r = record {
  at = λ db. Rules.insert_row_keeps Same Same-refl Same-trans _ _ _ db (assumption (Same-refl db));
}

pub Leaves-insert_login : (r : LoginRow) → Leaves (Statements.insert_login r)
unfolding Statements.insert_login
Leaves-insert_login r = record {
  at = λ db. Rules.insert_row_keeps Same Same-refl Same-trans _ _ _ db (assumption (Same-refl db));
}

pub Leaves-insert_audit_event : (r : AuditRow) → Leaves (Statements.insert_audit_event r)
unfolding Statements.insert_audit_event
Leaves-insert_audit_event r = record { at = λ db. assumption (Same-refl db) }

pub Leaves-update_tokens :
    (p : TokenRow → Bool) (f : TokenRow → TokenRow) → Leaves (Statements.update_tokens p f)
unfolding Statements.update_tokens
Leaves-update_tokens p f = record { at = λ db. assumption (Same-refl db) }

pub Leaves-update_enrollments :
    (p : EnrollmentRow → Bool) (f : EnrollmentRow → EnrollmentRow)
    → Leaves (Statements.update_enrollments p f)
unfolding Statements.update_enrollments
Leaves-update_enrollments p f = record { at = λ db. assumption (Same-refl db) }

pub Leaves-update_logins :
    (p : LoginRow → Bool) (f : LoginRow → LoginRow) → Leaves (Statements.update_logins p f)
unfolding Statements.update_logins
Leaves-update_logins p f = record { at = λ db. assumption (Same-refl db) }

pub Leaves-update_oauth_states :
    (p : OauthRow → Bool) (f : OauthRow → OauthRow) → Leaves (Statements.update_oauth_states p f)
unfolding Statements.update_oauth_states
Leaves-update_oauth_states p f = record { at = λ db. assumption (Same-refl db) }

pub Leaves-update_identities :
    (p : ExternalIdentity → Bool) (f : ExternalIdentity → ExternalIdentity)
    → Leaves (Statements.update_identities p f)
unfolding Statements.update_identities
Leaves-update_identities p f = record { at = λ db. assumption (Same-refl db) }

pub Leaves-delete_logins : (p : LoginRow → Bool) → Leaves (Statements.delete_logins p)
unfolding Statements.delete_logins
Leaves-delete_logins p = record { at = λ db. assumption (Same-refl db) }

pub Leaves-delete_oauth_states : (p : OauthRow → Bool) → Leaves (Statements.delete_oauth_states p)
unfolding Statements.delete_oauth_states
Leaves-delete_oauth_states p = record { at = λ db. assumption (Same-refl db) }

pub ruleset plain = (
  Leaves-pure, Leaves-raise, Leaves-select, Leaves-transaction, Leaves-if, Leaves-check,
  Leaves-bind, Leaves-insert_token, Leaves-insert_oauth_state, Leaves-insert_login,
  Leaves-insert_audit_event, Leaves-update_tokens, Leaves-update_enrollments, Leaves-update_logins,
  Leaves-update_oauth_states, Leaves-update_identities, Leaves-delete_logins,
  Leaves-delete_oauth_states,
)
