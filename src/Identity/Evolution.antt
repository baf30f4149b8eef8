-- ===== src/Identity/Evolution.antt =====
-- What a call may do to the rows of the account tables: the vocabulary of the theorems on them.
use autback.Prelude.{
  ◌≤◌, ◌≡◌, refl, ◌∙◌, ◌⊎◌, none, List, [], ◌∷◌, arith, All, Grows, Grows-refl, Grows-trans,
  count_where,
}
use autback.Identity.Model.{Project, GithubTrust}
use autback.Identity.Tables.{Accounts, TokenRow, EnrollmentRow}
use autback.Identity.Statements.{enrollment_has_id}

-- A token keeps all but its last use, and a revocation stands.
pub record TokenEvolves (r s : TokenRow) : Type 0 where
  pub id : s.id ≡ r.id
  pub kind : s.kind ≡ r.kind
  pub user_id : s.user_id ≡ r.user_id
  pub project_id : s.project_id ≡ r.project_id
  pub digest : s.digest ≡ r.digest
  pub expires_at : s.expires_at ≡ r.expires_at
  pub revoked : (r.revoked_at ≡ none) ⊎ (s.revoked_at ≡ r.revoked_at)

-- A code keeps what it was made for, its failures only add up, and it is consumed once.
pub record CodeEvolves (r s : EnrollmentRow) : Type 0 where
  pub id : s.code.id ≡ r.code.id
  pub user_id : s.code.user_id ≡ r.code.user_id
  pub device_name : s.code.device_name ≡ r.code.device_name
  pub digest : s.digest ≡ r.digest
  pub expires_at : s.code.expires_at ≡ r.code.expires_at
  pub max_attempts : s.code.max_attempts ≡ r.code.max_attempts
  pub attempts_le : r.code.failed_attempts ≤ s.code.failed_attempts
  pub bounded :
      r.code.failed_attempts ≤ r.code.max_attempts → s.code.failed_attempts ≤ s.code.max_attempts
  pub consumed : (r.code.consumed_at ≡ none) ⊎ (s.code.consumed_at ≡ r.code.consumed_at)

-- A trust keeps what it admits, and a revocation stands.
pub record TrustEvolves (r s : GithubTrust) : Type 0 where
  pub id : s.id ≡ r.id
  pub project_id : s.project_id ≡ r.project_id
  pub repository_id : s.repository_id ≡ r.repository_id
  pub workflow_ref : s.workflow_ref ≡ r.workflow_ref
  pub ref : s.ref ≡ r.ref
  pub revoked : (r.revoked_at ≡ none) ⊎ (s.revoked_at ≡ r.revoked_at)

-- A project keeps its identity.
pub record ProjectEvolves (r s : Project) : Type 0 where
  pub id : s.id ≡ r.id
  pub slug : s.slug ≡ r.slug
  pub created_at : s.created_at ≡ r.created_at

pub TokenEvolves-refl : (r : TokenRow) → TokenEvolves r r
TokenEvolves-refl r = ground arith

pub TokenEvolves-trans : (r s t : TokenRow) → TokenEvolves r s → TokenEvolves s t → TokenEvolves r t
TokenEvolves-trans r s t h k = ground (arith, h.revoked, k.revoked)

pub CodeEvolves-refl : (r : EnrollmentRow) → CodeEvolves r r
CodeEvolves-refl r = ground arith

pub CodeEvolves-trans :
    (r s t : EnrollmentRow) → CodeEvolves r s → CodeEvolves s t → CodeEvolves r t
CodeEvolves-trans r s t h k = record {
  id = k.id ∙ h.id;
  user_id = k.user_id ∙ h.user_id;
  device_name = k.device_name ∙ h.device_name;
  digest = k.digest ∙ h.digest;
  expires_at = k.expires_at ∙ h.expires_at;
  max_attempts = k.max_attempts ∙ h.max_attempts;
  attempts_le = omega (arith, h.attempts_le, k.attempts_le);
  bounded = λ e. k.bounded (h.bounded e);
  consumed = ground (arith, h.consumed, k.consumed);
}

pub TrustEvolves-refl : (r : GithubTrust) → TrustEvolves r r
TrustEvolves-refl r = ground arith

pub TrustEvolves-trans :
    (r s t : GithubTrust) → TrustEvolves r s → TrustEvolves s t → TrustEvolves r t
TrustEvolves-trans r s t h k = ground (arith, h.revoked, k.revoked)

pub ProjectEvolves-refl : (r : Project) → ProjectEvolves r r
ProjectEvolves-refl r = ground arith

pub ProjectEvolves-trans :
    (r s t : Project) → ProjectEvolves r s → ProjectEvolves s t → ProjectEvolves r t
ProjectEvolves-trans r s t h k = ground arith

-- Rows are only added, at the end.
abbrev pub Appended {ℓ} : {A : Type ℓ} → List A → List A → Type ℓ
Appended = Grows ◌≡◌

pub Appended-refl {ℓ} : {A : Type ℓ} (rows : List A) → Appended rows rows
Appended-refl rows = Grows-refl ◌≡◌ (λ r. refl) rows

pub Appended-trans {ℓ} :
    {A : Type ℓ} {xs ys zs : List A} → Appended xs ys → Appended ys zs → Appended xs zs
Appended-trans h k = Grows-trans ◌≡◌ (λ r s t p q. p ∙ q) h k

pub record Evolves (a b : Accounts) : Type 0 where
  pub users : Appended a.users b.users
  pub projects : Grows ProjectEvolves a.projects b.projects
  pub members : Appended a.members b.members
  pub tokens : Grows TokenEvolves a.tokens b.tokens
  pub enrollments : Grows CodeEvolves a.enrollments b.enrollments
  pub trusts : Grows TrustEvolves a.trusts b.trusts
  pub image_events : Appended a.image_events b.image_events
  pub audit_events : Appended a.audit_events b.audit_events

pub Evolves-refl : (a : Accounts) → Evolves a a
Evolves-refl a = record {
  users = Appended-refl a.users;
  projects = Grows-refl ProjectEvolves ProjectEvolves-refl a.projects;
  members = Appended-refl a.members;
  tokens = Grows-refl TokenEvolves TokenEvolves-refl a.tokens;
  enrollments = Grows-refl CodeEvolves CodeEvolves-refl a.enrollments;
  trusts = Grows-refl TrustEvolves TrustEvolves-refl a.trusts;
  image_events = Appended-refl a.image_events;
  audit_events = Appended-refl a.audit_events;
}

pub Evolves-trans : (a b c : Accounts) → Evolves a b → Evolves b c → Evolves a c
Evolves-trans a b c h k = record {
  users = Appended-trans h.users k.users;
  projects = Grows-trans ProjectEvolves ProjectEvolves-trans h.projects k.projects;
  members = Appended-trans h.members k.members;
  tokens = Grows-trans TokenEvolves TokenEvolves-trans h.tokens k.tokens;
  enrollments = Grows-trans CodeEvolves CodeEvolves-trans h.enrollments k.enrollments;
  trusts = Grows-trans TrustEvolves TrustEvolves-trans h.trusts k.trusts;
  image_events = Appended-trans h.image_events k.image_events;
  audit_events = Appended-trans h.audit_events k.audit_events;
}

-- No two codes have one id.
abbrev pub Unique : List EnrollmentRow → Type 0
Unique [] = Unit {0}
Unique (r ∷ rs) = (count_where (enrollment_has_id r.code.id) rs ≡ 0) × Unique rs

-- No code has failed more often than it may.
abbrev pub Bounded : List EnrollmentRow → Type 0
Bounded rows = All (λ (r : EnrollmentRow). r.code.failed_attempts ≤ r.code.max_attempts) rows

-- What holds of the tables between two calls.
pub record Inv (db : Accounts) : Type 0 where
  pub unique : Unique db.enrollments
  pub bounded : Bounded db.enrollments

-- What every call does.
abbrev pub Advances : Accounts → Accounts → Type 0
Advances a b = Inv a → Inv b × Evolves a b

pub Advances-refl : (a : Accounts) → Advances a a
Advances-refl a v = (v, Evolves-refl a)

pub Advances-trans : (a b c : Accounts) → Advances a b → Advances b c → Advances a c
Advances-trans a b c h k v = ((k (h v).0).0, Evolves-trans a b c (h v).1 (k (h v).0).1)
