-- ===== src/Identity/Sessions.antt =====
-- Sessions of internal/control/sqlite/store.go from their issue to their use: CreateProjectSession,
-- Authenticate and AuthorizeProject together.
use autback.Prelude.{
  ℕ, ◌≤◌, ◌≡◌, ◌≢◌, refl, ap, String, false, Option, none, some, [], ◌∷◌, ◌++◌, arith, find_where,
  find_where-none, find_where-append_new, eq_iff, eq_refl,
}
use autback.Identity.Model.{PrincipalKind, Principal, Project, IssuedAccessToken}
use autback.Identity.Tables.{
  Accounts, Result, TokenRow, ok, err, pure, ◌>>=◌, continue, token_has_id,
}
use autback.Identity.Statements.{insert_token, insert_row, update_tokens}
use autback.Identity.Secrets.{Platform, Entropy, new_token}
use autback.Identity.RoundTrip.{parse_token-new_token}
use autback.Identity.Users.{
  found_project, is_selected, authenticate, authorize_project, project, grant_project,
}
use autback.Identity.Tokens.{create_project_session, project_session_row}

-- An insert that succeeds adds a row that its id finds.
inserted_is_found :
    (r : TokenRow) (db : Accounts)
    → (insert_token r db).0 ≡ ok tt
    → ((insert_token r db).1 ≡ record db { tokens = db.tokens ++ r ∷ [] })
      × (find_where (token_has_id r.id) (db.tokens ++ r ∷ []) ≡ some r)
unfolding insert_token insert_row
inserted_is_found r db h = (
  ground arith,
  ground (
    arith,
    find_where-none (token_has_id r.id) db.tokens,
    find_where-append_new (token_has_id r.id) db.tokens r,
    eq_refl r.id,
  ),
)

granted :
    (who : Principal) (p q : Project) (db : Accounts)
    → who.project_id ≢ ""
    → (grant_project who p db).0 ≡ ok q
    → q.id ≡ who.project_id
unfolding ◌>>=◌
granted who p q db h e = ground (arith, eq_iff who.project_id "", eq_iff who.project_id p.id)

-- What a principal with a project is granted, it is granted for that project.
confined :
    (who : Principal) (selector : String) (db : Accounts) (q : Project)
    → who.project_id ≢ ""
    → (authorize_project who selector db).0 ≡ ok q
    → q.id ≡ who.project_id
unfolding authorize_project project ◌>>=◌
confined who selector db q h e = by_row (find_where (is_selected selector) db.projects) e
  where
    by_row :
        (found : Option Project)
        → (continue (grant_project who) (found_project found db)).0 ≡ ok q
        → q.id ≡ who.project_id
    by_row none k = absurd (cc)
    by_row (some p) k = granted who p q db h k

abbrev session_principal : String → String → String → Principal
session_principal id project_id subject = record {
  kind = PrincipalKind.github;
  token_id = id;
  user_id = "";
  project_id = project_id;
  admin = false;
  subject = subject;
}

-- The row of a session admits its own secret until it expires.
authenticate-session :
    (env : Platform) (now used at : ℕ) (random : Entropy) (project_id subject : String)
    (expires : ℕ) (db : Accounts)
    → random.secret_text ≢ ""
    → find_where (token_has_id (new_token env "gh" random).id) db.tokens
      ≡ some (project_session_row (new_token env "gh" random) project_id subject now expires)
    → at ≤ expires
    → (authenticate env at used (new_token env "gh" random).secret db).0
      ≡ ok (session_principal (new_token env "gh" random).id project_id subject)
unfolding authenticate ◌>>=◌ update_tokens
authenticate-session env now used at random project_id subject expires db text found early =
    rw (parse_token-new_token env "gh" PrincipalKind.github random refl text)
      (rw found (ground (arith, eq_refl (env.digest (new_token env "gh" random).secret))))

-- An answer after a statement without one.
answered :
    {A : Type 0} (a b : A) (x : Result Unit × Accounts)
    → (continue (λ (u : Unit {0}). pure a) x).0 ≡ ok b
    → (x.0 ≡ ok tt) × (a ≡ b) × ((continue (λ (u : Unit {0}). pure a) x).1 ≡ x.1)
unfolding ◌>>=◌
answered a b (ok tt, db) h = (refl, cc, refl)
answered a b (err e, db) h = absurd (cc)

-- A session that CreateProjectSession issues authenticates, until it expires, as a principal of its
-- project that is no admin; and whatever the tables hold later, AuthorizeProject grants that
-- principal no other project. The secret's text and the project's id are not empty.
pub project_session_is_confined :
    (env : Platform) (now used at : ℕ) (random : Entropy) (project_id subject : String)
    (expires : ℕ) (db : Accounts) (issued : IssuedAccessToken)
    → random.secret_text ≢ ""
    → project_id ≢ ""
    → (create_project_session env now random project_id subject expires db).0 ≡ ok issued
    → at ≤ expires
    → (who : Principal) × ((authenticate env at used issued.token
          (create_project_session env now random project_id subject expires db).1).0
        ≡ ok who)
      × (who.admin ≡ false)
      × ((selector : String) (later : Accounts) (p : Project)
          → (authorize_project who selector later).0 ≡ ok p
          → p.id ≡ project_id)
unfolding create_project_session ◌>>=◌
project_session_is_confined env now used at random project_id subject expires db issued text named
      created early =
    let new = new_token env "gh" random in
    let row = project_session_row new project_id subject now expires in
    let answer : IssuedAccessToken = record { token = new.secret; expires_at = expires } in
    let (inserted, same, after) = answered answer issued (insert_token row db) created in
    let (there, found) = inserted_is_found row db inserted in
    let who = session_principal new.id project_id subject in
    (
      who,
      rw (after, there, ← (ap (λ (i : IssuedAccessToken). i.token) same))
          (authenticate-session env now used at random project_id subject expires _ text found
            early),
      refl,
      λ selector later p granted. confined who selector later p named granted,
    )
