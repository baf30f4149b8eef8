-- ===== src/Identity/Advances.antt =====
-- Each statement on the account tables of internal/control/sqlite/store.go keeps the invariant and
-- loses no row of the tables that only grow. Methods are built from these rules.
use autback.Prelude.{
  ◌≡◌, refl, Bool, true, [], ◌∷◌, All-every, Grows-append, Grows-update_where, if◌then◌else◌,
}
use autback.Identity.Model.{User, Project, ExternalIdentity, ProjectImageEvent, GithubTrust}
use autback.Identity.Tables.{
  Accounts, Action, Error, Result, MemberRow, TokenRow, OauthRow, LoginRow, AuditRow, pure, raise,
  select, transaction, check, ◌>>=◌, commit_or_rollback,
}
use autback.Identity.Statements
use autback.Identity.Rules.{Keeps}
use autback.Identity.Rules
use autback.Identity.Evolution.{
  TokenEvolves, TrustEvolves, ProjectEvolves, TokenEvolves-refl, TrustEvolves-refl,
  ProjectEvolves-refl, Evolves-refl, Advances, Advances-refl, Advances-trans,
}

-- An action that advances all accounts.
abbrev pub Sound : {A : Type 0} → Action A → Type 0
Sound m = Keeps Advances m

module _ {A : Type 0} where
  pub Sound-pure : (a : A) → Sound (pure a)
  Sound-pure = Rules.pure-Keeps Advances Advances-refl Advances-trans

  pub Sound-raise : (e : Error) → Sound (raise {A = A} e)
  Sound-raise = Rules.raise-Keeps Advances Advances-refl Advances-trans

  pub Sound-select : (f : Accounts → A) → Sound (select f)
  Sound-select = Rules.select-Keeps Advances Advances-refl Advances-trans

  pub Sound-transaction : (m : Action A) → Sound m → Sound (transaction m)
  Sound-transaction = Rules.transaction-Keeps Advances Advances-refl Advances-trans

  pub Sound-duplicate : (m : Action A) → Sound m → Sound (Statements.duplicate_as_exists m)
  Sound-duplicate = Rules.duplicate-Keeps Advances Advances-refl Advances-trans

  pub Sound-if : (b : Bool) (m n : Action A) → Sound m → Sound n → Sound (if b then m else n)
  Sound-if = Rules.if_Keeps Advances Advances-refl Advances-trans

pub Sound-check : (b : Bool) (e : Error) → Sound (check b e)
Sound-check = Rules.check-Keeps Advances Advances-refl Advances-trans

pub Sound-bind :
    {A B : Type 0} (m : Action A) (f : A → Action B)
    → Sound m
    → ((a : A) → Sound (f a))
    → Sound (m >>= f)
Sound-bind = Rules.bind-Keeps Advances Advances-refl Advances-trans

pub Advances-rollback :
    {A : Type 0} (db : Accounts) (x : Result A × Accounts)
    → Advances db x.1
    → Advances db (commit_or_rollback db x).1
Advances-rollback = Rules.rollback_keeps Advances Advances-refl Advances-trans

inserts :
    (fresh known : Bool) (after db : Accounts)
    → Advances db after
    → Advances db (Statements.insert_row fresh known after db).1
inserts = Rules.insert_row_keeps Advances Advances-refl Advances-trans

pub Sound-insert_user : (r : User) → Sound (Statements.insert_user r)
unfolding Statements.insert_user
Sound-insert_user r = record {
  at = λ db. inserts _ _ _ db λ v. (
    record { unique = v.unique; bounded = v.bounded },
    assumption (Evolves-refl db, Grows-append ◌≡◌ (λ s. refl) db.users (r ∷ [])),
  );
}

pub Sound-insert_project : (r : Project) → Sound (Statements.insert_project r)
unfolding Statements.insert_project
Sound-insert_project r = record {
  at = λ db. inserts _ _ _ db λ v. (
    record { unique = v.unique; bounded = v.bounded },
    assumption
        (Evolves-refl db, Grows-append ProjectEvolves ProjectEvolves-refl db.projects (r ∷ [])),
  );
}

pub Sound-insert_member : (r : MemberRow) → Sound (Statements.insert_member r)
unfolding Statements.insert_member
Sound-insert_member r = record {
  at = λ db. inserts _ _ _ db λ v. (
    record { unique = v.unique; bounded = v.bounded },
    assumption (Evolves-refl db, Grows-append ◌≡◌ (λ s. refl) db.members (r ∷ [])),
  );
}

pub Sound-insert_token : (r : TokenRow) → Sound (Statements.insert_token r)
unfolding Statements.insert_token
Sound-insert_token r = record {
  at = λ db. inserts _ _ _ db λ v. (
    record { unique = v.unique; bounded = v.bounded },
    assumption (Evolves-refl db, Grows-append TokenEvolves TokenEvolves-refl db.tokens (r ∷ [])),
  );
}

pub Sound-insert_trust : (r : GithubTrust) → Sound (Statements.insert_trust r)
unfolding Statements.insert_trust
Sound-insert_trust r = record {
  at = λ db. inserts _ _ _ db λ v. (
    record { unique = v.unique; bounded = v.bounded },
    assumption (Evolves-refl db, Grows-append TrustEvolves TrustEvolves-refl db.trusts (r ∷ [])),
  );
}

pub Sound-insert_image_event : (r : ProjectImageEvent) → Sound (Statements.insert_image_event r)
unfolding Statements.insert_image_event
Sound-insert_image_event r = record {
  at = λ db. inserts _ _ _ db λ v. (
    record { unique = v.unique; bounded = v.bounded },
    assumption (Evolves-refl db, Grows-append ◌≡◌ (λ s. refl) db.image_events (r ∷ [])),
  );
}

pub Sound-insert_identity : (r : ExternalIdentity) → Sound (Statements.insert_identity r)
unfolding Statements.insert_identity
Sound-insert_identity r = record {
  at = λ db.
      inserts _ _ _ db
        λ v. (record { unique = v.unique; bounded = v.bounded }, assumption (Evolves-refl db));
}

pub Sound-insert_oauth_state : (r : OauthRow) → Sound (Statements.insert_oauth_state r)
unfolding Statements.insert_oauth_state
Sound-insert_oauth_state r = record {
  at = λ db.
      inserts _ _ _ db
        λ v. (record { unique = v.unique; bounded = v.bounded }, assumption (Evolves-refl db));
}

pub Sound-insert_login : (r : LoginRow) → Sound (Statements.insert_login r)
unfolding Statements.insert_login
Sound-insert_login r = record {
  at = λ db.
      inserts _ _ _ db
        λ v. (record { unique = v.unique; bounded = v.bounded }, assumption (Evolves-refl db));
}

pub Sound-insert_audit_event : (r : AuditRow) → Sound (Statements.insert_audit_event r)
unfolding Statements.insert_audit_event
Sound-insert_audit_event r = record {
  at = λ db v. (
    record { unique = v.unique; bounded = v.bounded },
    assumption (
      Evolves-refl db,
      Grows-append ◌≡◌ (λ s. refl) db.audit_events (record r { id = db.next_audit } ∷ []),
    ),
  );
}

pub Sound-update_tokens :
    (p : TokenRow → Bool) (f : TokenRow → TokenRow)
    → ((r : TokenRow) → p r ≡ true → TokenEvolves r (f r))
    → Sound (Statements.update_tokens p f)
unfolding Statements.update_tokens
Sound-update_tokens p f h = record {
  at = λ db v. (
    record { unique = v.unique; bounded = v.bounded },
    assumption (
      Evolves-refl db,
      Grows-update_where TokenEvolves TokenEvolves-refl p f db.tokens (All-every _ db.tokens h),
    ),
  );
}

pub Sound-update_projects :
    (p : Project → Bool) (f : Project → Project)
    → ((r : Project) → p r ≡ true → ProjectEvolves r (f r))
    → Sound (Statements.update_projects p f)
unfolding Statements.update_projects
Sound-update_projects p f h = record {
  at = λ db v. (
    record { unique = v.unique; bounded = v.bounded },
    assumption (
      Evolves-refl db,
      Grows-update_where ProjectEvolves ProjectEvolves-refl p f db.projects
          (All-every _ db.projects h),
    ),
  );
}

pub Sound-update_trusts :
    (p : GithubTrust → Bool) (f : GithubTrust → GithubTrust)
    → ((r : GithubTrust) → p r ≡ true → TrustEvolves r (f r))
    → Sound (Statements.update_trusts p f)
unfolding Statements.update_trusts
Sound-update_trusts p f h = record {
  at = λ db v. (
    record { unique = v.unique; bounded = v.bounded },
    assumption (
      Evolves-refl db,
      Grows-update_where TrustEvolves TrustEvolves-refl p f db.trusts (All-every _ db.trusts h),
    ),
  );
}

pub Sound-update_logins :
    (p : LoginRow → Bool) (f : LoginRow → LoginRow) → Sound (Statements.update_logins p f)
unfolding Statements.update_logins
Sound-update_logins p f = record {
  at = λ db v. (record { unique = v.unique; bounded = v.bounded }, assumption (Evolves-refl db));
}

pub Sound-update_oauth_states :
    (p : OauthRow → Bool) (f : OauthRow → OauthRow) → Sound (Statements.update_oauth_states p f)
unfolding Statements.update_oauth_states
Sound-update_oauth_states p f = record {
  at = λ db v. (record { unique = v.unique; bounded = v.bounded }, assumption (Evolves-refl db));
}

pub Sound-update_identities :
    (p : ExternalIdentity → Bool) (f : ExternalIdentity → ExternalIdentity)
    → Sound (Statements.update_identities p f)
unfolding Statements.update_identities
Sound-update_identities p f = record {
  at = λ db v. (record { unique = v.unique; bounded = v.bounded }, assumption (Evolves-refl db));
}

pub Sound-delete_logins : (p : LoginRow → Bool) → Sound (Statements.delete_logins p)
unfolding Statements.delete_logins
Sound-delete_logins p = record {
  at = λ db v. (record { unique = v.unique; bounded = v.bounded }, assumption (Evolves-refl db));
}

pub Sound-delete_oauth_states : (p : OauthRow → Bool) → Sound (Statements.delete_oauth_states p)
unfolding Statements.delete_oauth_states
Sound-delete_oauth_states p = record {
  at = λ db v. (record { unique = v.unique; bounded = v.bounded }, assumption (Evolves-refl db));
}

pub Sound-delete_identities : (p : ExternalIdentity → Bool) → Sound (Statements.delete_identities p)
unfolding Statements.delete_identities
Sound-delete_identities p = record {
  at = λ db v. (record { unique = v.unique; bounded = v.bounded }, assumption (Evolves-refl db));
}

pub ruleset actions = (
  Sound-pure, Sound-raise, Sound-select, Sound-transaction, Sound-duplicate, Sound-if, Sound-check,
  Sound-bind, Sound-insert_user, Sound-insert_project, Sound-insert_member, Sound-insert_token,
  Sound-insert_trust, Sound-insert_image_event, Sound-insert_identity, Sound-insert_oauth_state,
  Sound-insert_login, Sound-insert_audit_event, Sound-update_tokens, Sound-update_projects,
  Sound-update_trusts, Sound-update_logins, Sound-update_oauth_states, Sound-update_identities,
  Sound-delete_logins, Sound-delete_oauth_states, Sound-delete_identities,
)
