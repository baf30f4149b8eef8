-- ===== src/Identity/Exchange.antt =====
-- CreateEnrollmentCode and ExchangeEnrollmentCode of internal/control/sqlite/store.go keep the
-- invariant: a failed attempt is counted on the one row of its code.
use autback.Prelude.{
  ℕ, ◌+◌, ◌≡◌, refl, subst, sym, String, Bool, true, false, Option, none, some, arith, All-map,
  find_where, not, if◌then◌else◌, str_eq,
}
use autback.Identity.Model.{Principal}
use autback.Identity.Tables.{Accounts, Action, EnrollmentRow, ◌>>=◌}
use autback.Identity.Statements.{enrollment_has_id, update_enrollments, insert_enrollment}
use autback.Identity.Secrets.{Platform, Entropy, NewSecret}
use autback.Identity.Tokens
use autback.Identity.Tokens.{Exchange}
use autback.Identity.Evolution.{CodeEvolves, Advances}
use autback.Identity.Advances.{Sound, actions, Sound-raise, Advances-rollback}
use autback.Identity.Codes.{
  Sound-insert_enrollment, Sound-update_enrollments, Advances-update_enrollments, only_code,
}

Sound-new_code :
    (new : NewSecret) (user device : String) (now expires : ℕ)
    → Sound (insert_enrollment (Tokens.new_code new user device now expires))
Sound-new_code new user device now expires = Sound-insert_enrollment _ (omega arith)

pub Sound-create_enrollment_code :
    (env : Platform) (now : ℕ) (random : Entropy) (p : Principal) (user device : String)
    (expires : ℕ)
    → Sound (Tokens.create_enrollment_code env now random p user device expires)
unfolding Tokens.create_enrollment_code
Sound-create_enrollment_code env now random p user device expires =
    search (actions, Sound-new_code) depth 10

consume_code_evolves :
    (id : String) (now : ℕ) (r : EnrollmentRow)
    → Tokens.can_be_consumed id r ≡ true
    → CodeEvolves r (Tokens.consume_code now r)
consume_code_evolves id now r h = ground arith

-- One more failure of a code that may still fail.
set_attempts_evolves :
    (r : EnrollmentRow) (now : ℕ)
    → Tokens.code_is_open now r.code ≡ true
    → CodeEvolves r (Tokens.set_attempts (r.code.failed_attempts + 1) r)
set_attempts_evolves r now h = ground arith

Sound-issue :
    (env : Platform) (now : ℕ) (random : Entropy) (r : EnrollmentRow)
    → Sound (Tokens.issue_for_code env now random r)
Sound-issue env now random r =
    search (actions, Sound-update_enrollments, consume_code_evolves) depth 10

Advances-count_failure :
    (id : String) (now : ℕ) (db : Accounts) (r : EnrollmentRow)
    → find_where (enrollment_has_id id) db.enrollments ≡ some r
    → Tokens.code_is_open now r.code ≡ true
    → Advances db (Tokens.count_failure r db).1
unfolding ◌>>=◌ update_enrollments
Advances-count_failure id now db r found opened =
    Advances-update_enrollments (enrollment_has_id r.code.id)
      (Tokens.set_attempts (r.code.failed_attempts + 1)) db
      λ v.
        All-map _ _ db.enrollments
          (λ s only e.
            subst
              (λ (t : EnrollmentRow).
                CodeEvolves t (Tokens.set_attempts (r.code.failed_attempts + 1) t))
              (sym (only e)) (set_attempts_evolves r now opened))
          (only_code id db.enrollments r v.unique found)

Advances-if :
    {A : Type 0} (db : Accounts) (b : Bool) (m n : Action A)
    → (b ≡ true → Advances db (m db).1)
    → (b ≡ false → Advances db (n db).1)
    → Advances db ((if b then m else n) db).1
Advances-if db true m n h k = h refl
Advances-if db false m n h k = k refl

Advances-exchange_row :
    (env : Platform) (now : ℕ) (random : Entropy) (text id : String) (db : Accounts)
    (r : Option EnrollmentRow)
    → find_where (enrollment_has_id id) db.enrollments ≡ r
    → Advances db (Tokens.exchange_code_row env now random text r db).1
Advances-exchange_row env now random text id db none e = (Sound-raise _).at db
Advances-exchange_row env now random text id db (some r) e =
    Advances-if db (not (Tokens.code_is_open now r.code)) _ _ (λ _. (Sound-raise _).at db)
      λ opened.
        Advances-if db (not (str_eq (env.digest text) r.digest)) _ _
          (λ _. Advances-count_failure id now db r e (ground arith))
          (λ _. (Sound-issue env now random r).at db)

Sound-exchange_code :
    (env : Platform) (now : ℕ) (random : Entropy) (text id : String)
    → Sound (Tokens.exchange_code env now random text id)
unfolding Tokens.exchange_code ◌>>=◌
Sound-exchange_code env now random text id = record {
  at = λ db. Advances-rollback db _ (Advances-exchange_row env now random text id db _ refl);
}

Sound-report : (outcome : Exchange) → Sound (Tokens.report outcome)
Sound-report (Exchange.failed code) = search actions
Sound-report (Exchange.issued token code) = search actions

Sound-exchange_code_id :
    (env : Platform) (now : ℕ) (random : Entropy) (text : String) (id : Option String)
    → Sound (Tokens.exchange_code_id env now random text id)
Sound-exchange_code_id env now random text none = search actions
Sound-exchange_code_id env now random text (some id) =
    search (actions, Sound-exchange_code, Sound-report)

pub Sound-exchange_enrollment_code :
    (env : Platform) (now : ℕ) (random : Entropy) (text : String)
    → Sound (Tokens.exchange_enrollment_code env now random text)
unfolding Tokens.exchange_enrollment_code
Sound-exchange_enrollment_code env now random text = Sound-exchange_code_id env now random text _
