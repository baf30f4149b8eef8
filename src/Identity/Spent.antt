-- ===== src/Identity/Spent.antt =====
-- What stays spent in every history of the accounts of internal/control/sqlite/store.go: tokens that
-- are revoked, and enrollment codes that are used, too old or failed too often.
use autback.Prelude.{
  ℕ, ◌≤◌, ◌≡◌, refl, String, Bool, true, false, Option, none, some, List, arith, ap, ◌∙◌,
  if◌then◌else◌, not, str_eq, find_where, find_where-Grows, find_where-update_where, All-every,
  eq_refl,
}
use autback.Identity.Model.{PrincipalKind, EnrollmentCode, IssuedDeviceToken}
use autback.Identity.Tables.{
  Accounts, Action, Error, raise, continue, commit_or_rollback, Result, TokenRow, EnrollmentRow, ok,
  err, ◌>>=◌, token_has_id,
}
use autback.Identity.Statements.{enrollment_has_id, update_enrollments, insert_token, insert_row}
use autback.Identity.Secrets.{Platform, Entropy, parse_token, parse_opaque}
use autback.Identity.Users.{authenticate, is_null}
use autback.Identity.Tokens.{
  exchange_code_id, exchange_code_row, failed, issued, count_failure, report, Exchange,
  issue_for_code, consume_code, can_be_consumed, exchange_enrollment_code, exchange_code,
  code_is_open,
}
use autback.Identity.History.{Call, run}
use autback.Identity.Evolution.{TokenEvolves, CodeEvolves, Inv}
use autback.Identity.Exchange.{Sound-exchange_enrollment_code}
use autback.Identity.Safety.{run_keeps_accounts}

-- A token whose row is revoked.
authenticate-revoked :
    (env : Platform) (db : Accounts) (now used : ℕ) (token id : String) (kind : PrincipalKind)
    (r : TokenRow)
    → parse_token token ≡ some (kind, id)
    → find_where (token_has_id id) db.tokens ≡ some r
    → is_null r.revoked_at ≡ false
    → authenticate env now used token db ≡ (err Error.unauthenticated, db)
unfolding authenticate ◌>>=◌
authenticate-revoked env db now used token id kind r parsed found revoked =
    rw parsed (rw found (ground arith))

exchange-closed :
    (env : Platform) (db : Accounts) (now : ℕ) (random : Entropy) (text id : String)
    (r : EnrollmentRow)
    → parse_opaque text "enr" ≡ some id
    → find_where (enrollment_has_id id) db.enrollments ≡ some r
    → code_is_open now r.code ≡ false
    → exchange_enrollment_code env now random text db ≡ (err (Error.enrollment_refused r.code), db)
unfolding exchange_enrollment_code exchange_code ◌>>=◌
exchange-closed env db now random text id r parsed found closed = rw parsed (rw found (rw closed))

-- Time, failures and use only close a code.
closed_later :
    (now later : ℕ) (r s : EnrollmentRow)
    → now ≤ later
    → CodeEvolves r s
    → code_is_open now r.code ≡ false
    → code_is_open later s.code ≡ false
closed_later now later r s h e closed = ground (arith, e.consumed)

-- From accounts that satisfy the invariant, once the row of a token is revoked, after any later calls
-- no text with the token's id and kind authenticates, at any time: Authenticate fails, and changes
-- nothing.
pub revoked_token_is_dead :
    (env : Platform) (db : Accounts) (cs : List (ℕ × Call)) (now used : ℕ) (token id : String)
    (kind : PrincipalKind) (r : TokenRow)
    → Inv db
    → parse_token token ≡ some (kind, id)
    → find_where (token_has_id id) db.tokens ≡ some r
    → is_null r.revoked_at ≡ false
    → authenticate env now used token (run env db cs) ≡ (err Error.unauthenticated, run env db cs)
revoked_token_is_dead env db cs now used token id kind r v parsed found revoked =
    let (s, later, evolved) =
      find_where-Grows TokenEvolves (token_has_id id) (λ a b q. ground arith) r
        (run_keeps_accounts env db cs v).1.tokens found in
    authenticate-revoked env (run env db cs) now used token id kind s parsed later
      (ground (arith, evolved.revoked))

-- From accounts that satisfy the invariant, once an enrollment code is closed, since it has been
-- used, has expired or has failed as often as it may, after any later calls and at any later time
-- its exchange is refused and changes nothing.
pub closed_code_stays_closed :
    (env : Platform) (db : Accounts) (cs : List (ℕ × Call)) (now later : ℕ) (random : Entropy)
    (text id : String) (r : EnrollmentRow)
    → Inv db
    → parse_opaque text "enr" ≡ some id
    → find_where (enrollment_has_id id) db.enrollments ≡ some r
    → code_is_open now r.code ≡ false
    → now ≤ later
    → (c : EnrollmentCode) × (exchange_enrollment_code env later random text (run env db cs)
        ≡ (err (Error.enrollment_refused c), run env db cs))
closed_code_stays_closed env db cs now later random text id r v parsed found closed after =
    let (s, there, evolved) =
      find_where-Grows CodeEvolves (enrollment_has_id id) (λ a b q. ground arith) r
        (run_keeps_accounts env db cs v).1.enrollments found in
    (
      s.code,
      exchange-closed env (run env db cs) later random text id s parsed there
          (closed_later now later r s after evolved closed),
    )

-- The row of a code that is issued for, if the issue succeeds.
issue-consumes :
    (env : Platform) (db : Accounts) (now : ℕ) (random : Entropy) (id : String) (r : EnrollmentRow)
    (outcome : Exchange)
    → find_where (enrollment_has_id id) db.enrollments ≡ some r
    → code_is_open now r.code ≡ true
    → (issue_for_code env now random r db).0 ≡ ok outcome
    → find_where (enrollment_has_id id) (issue_for_code env now random r db).1.enrollments
      ≡ some (consume_code now r)
unfolding ◌>>=◌ update_enrollments insert_token insert_row
issue-consumes env db now random id r outcome found opened done = ground (
  arith,
  find_where-update_where (enrollment_has_id id) (can_be_consumed r.code.id) (consume_code now)
      db.enrollments r (All-every _ db.enrollments (λ s _. refl)) found,
  eq_refl r.code.id,
)

row-consumes :
    (env : Platform) (db : Accounts) (now : ℕ) (random : Entropy) (text id : String)
    (r : EnrollmentRow) (token : IssuedDeviceToken) (code : EnrollmentCode)
    → find_where (enrollment_has_id id) db.enrollments ≡ some r
    → (exchange_code_row env now random text (some r) db).0 ≡ ok (issued token code)
    → find_where
        (enrollment_has_id id)
        (exchange_code_row env now random text (some r) db).1.enrollments
      ≡ some (consume_code now r)
unfolding ◌>>=◌ update_enrollments
row-consumes env db now random text id r token code found done =
    split (code_is_open now r.code) (str_eq (env.digest text) r.digest) refl done
  where
    row : Bool → Bool → Action Exchange
    row opened known =
        if not opened
        then raise (Error.enrollment_refused r.code)
        else if not known
        then count_failure r
        else issue_for_code env now random r

    split :
        (opened known : Bool)
        → code_is_open now r.code ≡ opened
        → (row opened known db).0 ≡ ok (issued token code)
        → find_where (enrollment_has_id id) (row opened known db).1.enrollments
          ≡ some (consume_code now r)
    split false known e k = absurd (ground arith)
    split true false e k = absurd (ground arith)
    split true true e k = issue-consumes env db now random id r (issued token code) found e k

-- What the exchange reports is what its transaction has committed.
reported :
    (db : Accounts) (x : Result Exchange × Accounts) (token : IssuedDeviceToken)
    (code : EnrollmentCode)
    → (continue report (commit_or_rollback db x)).0 ≡ ok (token, code)
    → (x.0 ≡ ok (issued token code)) × ((continue report (commit_or_rollback db x)).1 ≡ x.1)
unfolding ◌>>=◌
reported db (ok (failed c), db') token code h = absurd (cc)
reported db (ok (issued t c), db') token code h = (ground arith, refl)
reported db (err e, db') token code h = absurd (cc)

-- What an exchange that succeeds leaves behind.
exchange-consumes :
    (env : Platform) (db : Accounts) (now : ℕ) (random : Entropy) (text : String)
    (token : IssuedDeviceToken) (code : EnrollmentCode)
    → (exchange_enrollment_code env now random text db).0 ≡ ok (token, code)
    → (id : String) × (r : EnrollmentRow) × (parse_opaque text "enr" ≡ some id)
      × (find_where
            (enrollment_has_id id)
            (exchange_enrollment_code env now random text db).1.enrollments
          ≡ some (consume_code now r))
unfolding exchange_enrollment_code exchange_code ◌>>=◌
exchange-consumes env db now random text token code done = by_id (parse_opaque text "enr") refl done
  where
    by_row :
        (id : String) (found : Option EnrollmentRow)
        → find_where (enrollment_has_id id) db.enrollments ≡ found
        → (continue report
            (commit_or_rollback db (exchange_code_row env now random text found db))).0
          ≡ ok (token, code)
        → (r : EnrollmentRow) × (find_where
              (enrollment_has_id id)
              (continue report (
                commit_or_rollback db
                  (exchange_code_row env now random text found db))).1.enrollments
            ≡ some (consume_code now r))
    by_row id none e h = absurd (cc)
    by_row id (some r) e h =
        let (committed, same) =
          reported db (exchange_code_row env now random text (some r) db) token code h in
        (
          r,
          ap (λ (a : Accounts). find_where (enrollment_has_id id) a.enrollments) same
              ∙ row-consumes env db now random text id r token code e committed,
        )

    by_id :
        (parsed : Option String)
        → parse_opaque text "enr" ≡ parsed
        → (exchange_code_id env now random text parsed db).0 ≡ ok (token, code)
        → (id : String) × (r : EnrollmentRow) × (parsed ≡ some id)
          × (find_where
                (enrollment_has_id id)
                (exchange_code_id env now random text parsed db).1.enrollments
              ≡ some (consume_code now r))
    by_id none e h = absurd (cc)
    by_id (some id) e h = let (r, found) = by_row id _ refl h in (id, r, refl, found)

-- From accounts that satisfy the invariant, an enrollment code is exchanged at most once: after an
-- exchange that succeeded, and after any later calls, each later exchange of the same text is
-- refused and changes nothing.
pub code_is_exchanged_once :
    (env : Platform) (db : Accounts) (cs : List (ℕ × Call)) (now later : ℕ)
    (random random' : Entropy) (text : String) (token : IssuedDeviceToken) (code : EnrollmentCode)
    → Inv db
    → (exchange_enrollment_code env now random text db).0 ≡ ok (token, code)
    → now ≤ later
    → let after = run env (exchange_enrollment_code env now random text db).1 cs in
      (c : EnrollmentCode) × (exchange_enrollment_code env later random' text after
        ≡ (err (Error.enrollment_refused c), after))
code_is_exchanged_once env db cs now later random random' text token code v done after =
    let (id, r, parsed, found) = exchange-consumes env db now random text token code done in
    closed_code_stays_closed env (exchange_enrollment_code env now random text db).1 cs now later
      random' text id (consume_code now r)
      ((Sound-exchange_enrollment_code env now random text).at db v).0 parsed found refl after
