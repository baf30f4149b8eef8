-- ===== src/Identity/Safety.antt =====
-- What every history of calls on the accounts of internal/control/sqlite/store.go keeps.
use autback.Prelude.{ℕ, List, [], ◌∷◌}
use autback.Identity.Model.{Principal}
use autback.Identity.Tables.{Accounts}
use autback.Identity.Secrets.{Platform}
use autback.Identity.History.{Call, Request, answer, step, run, migrated}
use autback.Identity.Evolution.{Evolves, Evolves-refl, Evolves-trans, Inv, Advances}
use autback.Identity.Methods
use autback.Identity.SecretMethods
use autback.Identity.Exchange

module _ (env : Platform) where
  Advances-answer :
      (db : Accounts) (now : ℕ) (p : Principal) (r : Request) → Advances db (answer env db now p r)
  unfolding answer
  Advances-answer db now p (Request.creates_user bytes name admin) =
      (Methods.Sound-create_user now bytes p name admin).at db
  Advances-answer db now p (Request.binds_identity user identity) =
      (SecretMethods.Sound-bind_external_identity env now p user identity).at db
  Advances-answer db now p (Request.revokes_identity user provider) =
      (SecretMethods.Sound-revoke_external_identity env now p user provider).at db
  Advances-answer db now p (Request.approves_login code) =
      (SecretMethods.Sound-approve_device_login env now code p).at db
  Advances-answer db now p (Request.creates_project bytes slug name) =
      (Methods.Sound-create_project now bytes p slug name).at db
  Advances-answer db now p (Request.adds_member selector user) =
      (Methods.Sound-add_project_member now p selector user).at db
  Advances-answer db now p (Request.activates_image bytes id image) =
      (Methods.Sound-activate_project_image now bytes p id image).at db
  Advances-answer db now p (Request.rolls_image_back bytes id) =
      (Methods.Sound-rollback_project_image now bytes p id).at db
  Advances-answer db now p (Request.sets_policy id allow) =
      (Methods.Sound-set_project_image_policy p id allow).at db
  Advances-answer db now p (Request.creates_token random input) =
      (SecretMethods.Sound-create_device_token env now random p input).at db
  Advances-answer db now p (Request.creates_code random user device expires) =
      (Exchange.Sound-create_enrollment_code env now random p user device expires).at db
  Advances-answer db now p (Request.revokes_token id) =
      (SecretMethods.Sound-revoke_device_token now p id).at db
  Advances-answer db now p (Request.creates_trust bytes trust) =
      (SecretMethods.Sound-create_github_trust now bytes p trust).at db
  Advances-answer db now p (Request.revokes_trust id) =
      (SecretMethods.Sound-revoke_github_trust now p id).at db
  Advances-answer db now p (Request.audits project action target metadata) =
      (SecretMethods.Sound-audit now p project action target metadata).at db

  Advances-step : (db : Accounts) (c : ℕ × Call) → Advances db (step env db c)
  unfolding step
  Advances-step db (now, Call.bootstraps users projects random input) =
      (Methods.Sound-bootstrap env now users projects random input).at db
  Advances-step db (now, Call.asks p request) = Advances-answer db now p request
  Advances-step db (now, Call.authenticates used token) =
      (Methods.Sound-authenticate env now used token).at db
  Advances-step db (now, Call.signs_in provider subject login) =
      (SecretMethods.Sound-user_by_external_identity env now provider subject login).at db
  Advances-step db (now, Call.opens_session random user expires) =
      (SecretMethods.Sound-create_browser_session env now random user expires).at db
  Advances-step db (now, Call.closes_session used token) =
      (SecretMethods.Sound-revoke_browser_session env now used token).at db
  Advances-step db (now, Call.creates_state random path verifier expires) =
      (SecretMethods.Sound-create_oauth_login_state env now random path verifier expires).at db
  Advances-step db (now, Call.consumes_state state) =
      (SecretMethods.Sound-consume_oauth_login_state env now state).at db
  Advances-step db (now, Call.creates_login random bytes name expires) =
      (SecretMethods.Sound-create_device_login env now random bytes name expires).at db
  Advances-step db (now, Call.exchanges_login random code) =
      (SecretMethods.Sound-exchange_device_login env now random code).at db
  Advances-step db (now, Call.exchanges_code random code) =
      (Exchange.Sound-exchange_enrollment_code env now random code).at db
  Advances-step db (now, Call.starts_session random project subject expires) =
      (SecretMethods.Sound-create_project_session env now random project subject expires).at db

  -- From accounts that satisfy the invariant, any list of calls leads to accounts that satisfy it:
  -- no two enrollment codes have one id, and none has failed more often than it may. On the way
  -- users, members, image events and audit events are only added, no row of the projects, the
  -- tokens, the codes or the trusts is lost, the identity of each stays, and neither a revocation
  -- nor the use of a code is undone.
  pub run_keeps_accounts :
      (db : Accounts) (cs : List (ℕ × Call))
      → Inv db
      → Inv (run env db cs) × Evolves db (run env db cs)
  unfolding run
  run_keeps_accounts db [] v = (v, Evolves-refl db)
  run_keeps_accounts db (c ∷ cs) v =
      let (v', e) = Advances-step db c v in
      let (w, f) = run_keeps_accounts (step env db c) cs v' in
      (w, Evolves-trans db (step env db c) (run env (step env db c) cs) e f)

pub migrated-Inv : Inv migrated
unfolding migrated
migrated-Inv = record { unique = tt; bounded = tt }
