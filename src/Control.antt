-- ===== src/Control.antt =====
-- internal/control/model.go: the records and enumerations of the control plane. A time is a number
-- of nanoseconds since 1970, as the database keeps it.
use autback.Prelude.{ℕ, String, Bool, Option, List, ℤ}
use autback.Protocol.{Status}

pub data BuildStatus : Type 0 where
  queued running succeeded failed cancelled : BuildStatus

pub data OperationKind : Type 0 where
  job build : OperationKind

pub data OperationState : Type 0 where
  queued admitting active terminalizing cleaning released : OperationState

pub record CacheMount : Type 0 where
  pub name : String
  pub target : String

pub record SecretBinding : Type 0 where
  pub name : String
  pub environment : String
  pub file : String

pub record Job : Type 0 where
  pub id : String
  pub project_id : String
  pub image : String
  pub command : List String
  pub working_directory : String
  pub environment : List (String × String)
  pub root_digest : String
  pub status : Status
  pub timeout : ℕ  -- nanoseconds
  pub created_at : ℕ
  pub started_at : Option ℕ
  pub finished_at : Option ℕ
  pub exit_code : Option ℤ
  pub error_message : String
  pub cancel_requested : Bool
  pub worker_id : String
  pub caches : List CacheMount
  pub secrets : List SecretBinding

pub record PrepareJob : Type 0 where
  pub project_id : String
  pub image : String
  pub command : List String
  pub working_directory : String
  pub environment : List (String × String)
  pub timeout : ℕ
  pub caches : List CacheMount
  pub secrets : List SecretBinding

pub record Idempotency : Type 0 where
  pub key : String
  pub request_hash : String

pub record Build : Type 0 where
  pub id : String
  pub project_id : String
  pub status : BuildStatus
  pub created_at : ℕ
  pub finished_at : Option ℕ
  pub exit_code : Option ℤ

pub record Operation : Type 0 where
  pub kind : OperationKind
  pub id : String
  pub state : OperationState
  pub accepted_at : ℕ
  pub leased_at : Option ℕ
  pub cleanup_attempts : ℕ
  pub cleanup_error : String
  pub cleanup_updated_at : Option ℕ

-- The tests that the WHERE clauses make on a kind and on a state.
abbrev pub kind_eq : OperationKind → OperationKind → Bool
kind_eq job job = Bool.true
kind_eq build build = Bool.true
kind_eq job build = Bool.false
kind_eq build job = Bool.false

abbrev pub is_queued : OperationState → Bool
is_queued queued = Bool.true
is_queued _ = Bool.false

abbrev pub is_admitting : OperationState → Bool
is_admitting admitting = Bool.true
is_admitting _ = Bool.false

abbrev pub is_cleaning : OperationState → Bool
is_cleaning cleaning = Bool.true
is_cleaning _ = Bool.false

-- IN ('admitting', 'active')
abbrev pub is_executing : OperationState → Bool
is_executing admitting = Bool.true
is_executing active = Bool.true
is_executing _ = Bool.false

-- IN ('queued', 'admitting')
abbrev pub is_waiting : OperationState → Bool
is_waiting queued = Bool.true
is_waiting admitting = Bool.true
is_waiting _ = Bool.false

-- IN ('queued', 'admitting', 'active')
abbrev pub is_unfinished : OperationState → Bool
is_unfinished queued = Bool.true
is_unfinished admitting = Bool.true
is_unfinished active = Bool.true
is_unfinished _ = Bool.false

-- IN ('terminalizing', 'cleaning')
abbrev pub is_tearing_down : OperationState → Bool
is_tearing_down terminalizing = Bool.true
is_tearing_down cleaning = Bool.true
is_tearing_down _ = Bool.false

-- IN ('admitting', 'active', 'terminalizing', 'cleaning'): the state holds the worker.
abbrev pub is_reserved : OperationState → Bool
is_reserved queued = Bool.false
is_reserved released = Bool.false
is_reserved _ = Bool.true
