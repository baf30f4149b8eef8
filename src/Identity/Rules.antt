-- ===== src/Identity/Rules.antt =====
-- What a method of internal/control/sqlite/store.go does to the accounts, from what its statements
-- do: rules for any relation that is reflexive and transitive.
use autback.Prelude.{Bool, true, false, if◌then◌else◌}
use autback.Identity.Tables.{
  Accounts, Action, Error, Result, ok, err, pure, raise, select, transaction, check, ◌>>=◌,
  continue, commit_or_rollback,
}
use autback.Identity.Statements.{insert_row, duplicate_as_exists, as_exists}

-- The action relates every accounts to those after it.
pub record Keeps (R : Accounts → Accounts → Type 0) {A : Type 0} (m : Action A) : Type 0 where
  pub at : (db : Accounts) → R db (m db).1

module _ (R : Accounts → Accounts → Type 0) (same : (a : Accounts) → R a a)
    (joins : (a b c : Accounts) → R a b → R b c → R a c) where
  continue_keeps :
      {A B : Type 0} (f : A → Action B) (db : Accounts) (x : Result A × Accounts)
      → R db x.1
      → ((a : A) (db' : Accounts) → R db' (f a db').1)
      → R db (continue f x).1
  continue_keeps f db (ok a, db') h k = joins db db' _ h (k a db')
  continue_keeps f db (err e, db') h k = h

  pub rollback_keeps :
      {A : Type 0} (db : Accounts) (x : Result A × Accounts)
      → R db x.1
      → R db (commit_or_rollback db x).1
  rollback_keeps db (ok a, db') h = h
  rollback_keeps db (err e, db') h = same db

  as_exists_keeps :
      {A : Type 0} (db : Accounts) (x : Result A × Accounts) → R db x.1 → R db (as_exists x).1
  as_exists_keeps db (ok a, db') h = h
  as_exists_keeps db (err Error.unique, db') h = h
  as_exists_keeps db (err _, db') h = h

  pub pure-Keeps : {A : Type 0} (a : A) → Keeps R (pure a)
  unfolding pure
  pure-Keeps a = record { at = same }

  pub raise-Keeps : {A : Type 0} (e : Error) → Keeps R (raise {A = A} e)
  unfolding raise
  raise-Keeps e = record { at = same }

  pub select-Keeps : {A : Type 0} (f : Accounts → A) → Keeps R (select f)
  unfolding select
  select-Keeps f = record { at = same }

  pub transaction-Keeps : {A : Type 0} (m : Action A) → Keeps R m → Keeps R (transaction m)
  unfolding transaction
  transaction-Keeps m h = record { at = λ db. rollback_keeps db (m db) (h.at db) }

  pub duplicate-Keeps : {A : Type 0} (m : Action A) → Keeps R m → Keeps R (duplicate_as_exists m)
  unfolding duplicate_as_exists
  duplicate-Keeps m h = record { at = λ db. as_exists_keeps db (m db) (h.at db) }

  pub if_Keeps :
      {A : Type 0} (b : Bool) (m n : Action A)
      → Keeps R m
      → Keeps R n
      → Keeps R (if b then m else n)
  if_Keeps true m n h k = h
  if_Keeps false m n h k = k

  pub check-Keeps : (b : Bool) (e : Error) → Keeps R (check b e)
  unfolding check
  check-Keeps true e = record { at = same }
  check-Keeps false e = record { at = same }

  pub bind-Keeps :
      {A B : Type 0} (m : Action A) (f : A → Action B)
      → Keeps R m
      → ((a : A) → Keeps R (f a))
      → Keeps R (m >>= f)
  unfolding ◌>>=◌
  bind-Keeps m f h k = record {
    at = λ db. continue_keeps f db (m db) (h.at db) (λ a db'. (k a).at db');
  }

  -- An INSERT changes the tables only if the row is admitted.
  pub insert_row_keeps :
      (fresh known : Bool) (after db : Accounts)
      → R db after
      → R db (insert_row fresh known after db).1
  unfolding insert_row
  insert_row_keeps true true after db h = h
  insert_row_keeps true false after db h = same db
  insert_row_keeps false known after db h = same db
