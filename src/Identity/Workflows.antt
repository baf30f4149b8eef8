-- ===== src/Identity/Workflows.antt =====
-- MatchGitHubTrust of internal/control/sqlite/store.go: which workflow runs it lets in.
use autback.Prelude.{
  ◌≡◌, ◌≢◌, Option-cases, inl, inr, ◌∙◌, refl, String, Bool, true, false, ◌||◌, ◌⊎◌, Option, none,
  some, List, [], ◌∷◌, arith, if◌then◌else◌, find_where, select_where, sym, eq_iff, str_eq,
}
use autback.Identity.Model.{GithubTrust, GithubClaims, Project}
use autback.Identity.Tables.{Accounts, ok, ◌>>=◌}
use autback.Identity.Glob.{runes}
use autback.Identity.GlobMatches.{Matches, star_free}
use autback.Identity.GlobLoop.{glob-Answers}
use autback.Identity.Users.{project}
use autback.Identity.Among.{Among, here, there}
use autback.Identity.Trusts.{
  match_github_trust, trust_covers, is_candidate, glob_test, contains, found_trust,
}

contains-Among :
    (values : List String) (value : String) → contains values value ≡ true → Among value values
contains-Among [] value h = absurd (cc)
contains-Among (s ∷ ss) value h = split (str_eq s value) refl h (contains-Among ss value)
  where
    split :
        (b : Bool)
        → str_eq s value ≡ b
        → (b || contains ss value) ≡ true
        → (contains ss value ≡ true → Among value ss)
        → Among value (s ∷ ss)
    split true e k ih = here (ground (arith, eq_iff s value))
    split false e k ih = there (ih k)

-- The test by the glob is sound.
glob_test-Matches :
    (pattern value : String)
    → glob_test pattern value ≡ true
    → Matches (runes pattern) (runes value)
glob_test-Matches pattern value h =
    let (b, ran, sound, _) = glob-Answers pattern value in sound (ground (arith, ran))

glob_test_complete :
    (pattern value : String)
    → star_free (runes value) ≡ true
    → Matches (runes pattern) (runes value)
    → glob_test pattern value ≡ true
glob_test_complete pattern value free m =
    let (b, ran, _, complete) = glob-Answers pattern value in
    let yes' : b ≡ true = complete free m in ground (arith, ran, yes')

-- What a trust lets in, apart from the code that decides it.
pub record Admits (project_id : String) (claims : GithubClaims) (t : GithubTrust) : Type 0 where
  pub project : t.project_id ≡ project_id
  pub owner : t.repository_owner_id ≡ claims.repository_owner_id
  pub repository : t.repository_id ≡ claims.repository_id
  pub live : t.revoked_at ≡ none
  pub workflow : Matches (runes t.workflow_ref) (runes claims.workflow_ref)
  pub ref : Matches (runes t.ref) (runes claims.ref)
  pub environment : (t.environment ≡ "") ⊎ (t.environment ≡ claims.environment)
  pub event : Among claims.event_name t.events

covered :
    (project_id : String) (claims : GithubClaims) (t : GithubTrust)
    → is_candidate project_id claims t ≡ true
    → trust_covers claims t ≡ true
    → Admits project_id claims t
covered project_id claims t h k = record {
  project = ground (arith, eq_iff t.project_id project_id);
  owner = ground (arith, eq_iff t.repository_owner_id claims.repository_owner_id);
  repository = ground (arith, eq_iff t.repository_id claims.repository_id);
  live = ground arith;
  workflow = glob_test-Matches t.workflow_ref claims.workflow_ref (ground arith);
  ref = glob_test-Matches t.ref claims.ref (ground arith);
  environment = ground (arith, eq_iff t.environment "", eq_iff t.environment claims.environment);
  event = contains-Among t.events claims.event_name (ground arith);
}

Among-contains :
    (values : List String) (value : String) → Among value values → contains values value ≡ true
Among-contains [] value h = elim h [ ]
Among-contains (s ∷ ss) value (here e) = ground (arith, eq_iff s value)
Among-contains (s ∷ ss) value (there h) = ground (arith, Among-contains ss value h)

covers :
    (project_id : String) (claims : GithubClaims) (t : GithubTrust)
    → star_free (runes claims.workflow_ref) ≡ true
    → star_free (runes claims.ref) ≡ true
    → Admits project_id claims t
    → (is_candidate project_id claims t ≡ true) × (trust_covers claims t ≡ true)
covers project_id claims t free free' h = (
  ground (
    arith,
    eq_iff t.project_id project_id,
    eq_iff t.repository_owner_id claims.repository_owner_id,
    eq_iff t.repository_id claims.repository_id,
  ),
  ground (
    arith,
    glob_test_complete t.workflow_ref claims.workflow_ref free h.workflow,
    glob_test_complete t.ref claims.ref free' h.ref,
    eq_iff t.environment "",
    eq_iff t.environment claims.environment,
    h.environment,
    Among-contains t.events claims.event_name h.event,
  ),
)

module _ {A : Type 0} (p q : A → Bool) where
  selected_first :
      (rows : List A) (t : A)
      → find_where p (select_where q rows) ≡ some t
      → Among t rows × (q t ≡ true) × (p t ≡ true)
  unfolding find_where select_where
  selected_first [] t h = absurd (cc)
  selected_first (r ∷ rs) t h = split (q r) (p r) refl refl h (selected_first rs t)
    where
      split :
          (b c : Bool)
          → q r ≡ b
          → p r ≡ c
          → find_where p (if b then r ∷ select_where q rs else select_where q rs) ≡ some t
          → (find_where p (select_where q rs) ≡ some t → Among t rs × (q t ≡ true) × (p t ≡ true))
          → Among t (r ∷ rs) × (q t ≡ true) × (p t ≡ true)
      split true true e d k ih =
          let same : t ≡ r = ground arith in (here same, rw same e, rw same d)
      split true false e d k ih = let (there', s, u) = ih (ground arith) in (there there', s, u)
      split false c e d k ih = let (there', s, u) = ih k in (there there', s, u)

  some_selected :
      (rows : List A) (t : A)
      → Among t rows
      → q t ≡ true
      → p t ≡ true
      → find_where p (select_where q rows) ≢ none
  unfolding find_where select_where
  some_selected [] t m h k = elim m [ ]
  some_selected (r ∷ rs) t (here e) h k =
      let selected : q r ≡ true = rw (← e) h in let passed : p r ≡ true = rw (← e) k in ground arith
  some_selected (r ∷ rs) t (there m) h k =
      let rest = some_selected rs t m h k in split (q r) (p r) refl refl rest
    where
      split :
          (b c : Bool)
          → q r ≡ b
          → p r ≡ c
          → find_where p (select_where q rs) ≢ none
          → find_where p (if b then r ∷ select_where q rs else select_where q rs) ≢ none
      split true true e d n k' = absurd (ground arith)
      split true false e d n k' = n (ground arith)
      split false c e d n k' = n k'

matched :
    (selector : String) (claims : GithubClaims) (db : Accounts) (p : Project)
    → project selector db ≡ (ok p, db)
    → (match_github_trust selector claims db).0
      ≡ (found_trust
          (find_where (trust_covers claims) (select_where (is_candidate p.id claims) db.trusts))
          db).0
unfolding match_github_trust ◌>>=◌
matched selector claims db p at = rw at

answered :
    (found : Option GithubTrust) (db : Accounts) (t : GithubTrust)
    → (found_trust found db).0 ≡ ok t
    → found ≡ some t
unfolding ◌>>=◌
answered none db t h = absurd (cc)
answered (some s) db t h = ground arith

-- In the project that the selector finds, a trust that MatchGitHubTrust answers with is one that the
-- tables hold and that admits the claims: it is of the project and not revoked, the owner and the
-- repository are the same, the workflow and the ref match its patterns, and the environment and the
-- event are those that it asks for.
pub matched_trust-Admits :
    (selector : String) (claims : GithubClaims) (db : Accounts) (p : Project) (t : GithubTrust)
    → project selector db ≡ (ok p, db)
    → (match_github_trust selector claims db).0 ≡ ok t
    → Among t db.trusts × Admits p.id claims t
matched_trust-Admits selector claims db p t at h =
    let found = answered _ db t (sym (matched selector claims db p at) ∙ h) in
    let (held, candidate, passed) =
      selected_first (trust_covers claims) (is_candidate p.id claims) db.trusts t found in
    (held, covered p.id claims t candidate passed)

-- In the project that the selector finds, a workflow run that a trust of the tables admits is let in,
-- by that trust or another one, if no star stands in the workflow and the ref that it claims.
pub admitted_run_is_matched :
    (selector : String) (claims : GithubClaims) (db : Accounts) (p : Project) (t : GithubTrust)
    → project selector db ≡ (ok p, db)
    → star_free (runes claims.workflow_ref) ≡ true
    → star_free (runes claims.ref) ≡ true
    → Among t db.trusts
    → Admits p.id claims t
    → (s : GithubTrust) × ((match_github_trust selector claims db).0 ≡ ok s)
unfolding ◌>>=◌
admitted_run_is_matched selector claims db p t at free free' held admits =
    let (candidate, passed) = covers p.id claims t free free' admits in
    elim (Option-cases
      (find_where (trust_covers claims) (select_where (is_candidate p.id claims) db.trusts))) [
        | inl e ↦ absurd (
            some_selected (trust_covers claims) (is_candidate p.id claims) db.trusts t held
              candidate passed e)
        | inr (s, e) ↦ (s, matched selector claims db p at ∙ (rw e))
      ]
